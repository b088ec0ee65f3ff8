-- ===== src/Tests.antt =====
-- Concrete runs and requests of the governor of crates/bridge/src, at which the theorems are applied.
pub mod Runs
pub mod Rules
pub mod Serving
pub mod Syncing
pub mod Clients
pub mod Bundles
pub mod Starting
pub mod Wires
use mathlib.Core.List.{Mem}
use nanny.Prelude.{
  ℕ, String, ◌≡◌, ◌≢◌, ◌↔◌, ◌⊎◌, refl, ◌≤◌, true, false, Option, none, some, List, [], ◌∷◌, ◌++◌,
  arith, ok, err, trim, is_whitespace, if◌then◌else◌, ◌==◌, string_eq, list_eq,
}
use Prim.Native.Nat.{min}
use nanny.Prelude.Dict.{Dict, get}
use nanny.Core.Agent.{StopReason}
use nanny.Core.Policy.{PolicyContext, default_context, allow, deny}
use nanny.Core.Events.{RuleDecl, ExecutionEvent}
use nanny.Core.Tool.{Tool, execution_failed}
use nanny.Runtime.Enforcement.{
  evaluate_chain, RuleEvaluator, ToolPermissionPolicy, cap_name, permission_policy, rules_policy,
}
use nanny.Runtime.Enforcement.Verdicts.{allow-chain_iff, deny-chain_iff, IsUnderCap, calls_so_far}
use nanny.Runtime.Registry.{
  ToolRegistry, new_registry, register, call, map_execution, call-register,
}
use nanny.Bridge.State.{BridgeState, running, stopped, Clock}
use nanny.Bridge.Wire.{Serde, ToolCallRequest, Body}
use nanny.Bridge.Template.{RunTemplate, build_state}
use nanny.Bridge.Stable.{IsKnown}
use nanny.Bridge.ToolCall.{handle_tool_call, decide, act_on}
use nanny.Bridge.State.{stopped_reason}
use nanny.Prelude.Dict.{insert}
use nanny.Network.Governor.{run_state, with_run, routed, dispatch}
use nanny.Network.RateLimiter.{check}
use nanny.Bridge.ToolCall.Outcome.{
  IsUnderRunCap, IsToolVerdict, with_line, handle_tool_call-running_iff, handle_tool_call-logged,
}
use nanny.Bridge.Attribution.{record_harness, record_app, record_rules}
use nanny.Bridge.Attribution.Idempotent.{
  record_harness_idempotent, record_app_idempotent, SameRules, record_rules_same,
}
use nanny.Network.Auth.{session_token_ok}
use nanny.Network.Auth.Compare.{session_token_ok_iff}
use nanny.Network.RateLimiter.Window.{passes, passes_window}
use nanny.Network.Router.{Route, stop, tool_call, serve, stopped_gone, run_id_of}
use nanny.Network.Router.Trace.{Act, request, drain, close, live}
use nanny.Network.Router.Log.{Numbered, live-Numbered}
use nanny.Network.Router.Stops.{live-stopped, live-IsKnown, serve-stopped}
use nanny.Network.Router.Accounting.{AreU32, IsAccounted, live-IsAccounted}
use nanny.Network.Governor.{
  AppState, Request, Routing, matched, unmatched, Moment, govern, unauthorized, too_many_requests,
}
use nanny.Network.Governor.Isolation.{govern-other, govern-unauthorized}
use nanny.Core.Policy.{tool_has, tools_with}
use nanny.Core.Policy.Labels.{tools_with-tool_has}
use nanny.Prelude.Dict.{HasDistinctKeys}
use nanny.Prelude.Sort.{IsSorted}
use nanny.Prelude.Order.{string_ord}
use nanny.Prelude.{count, ◌+◌, ◌*◌, ◌-◌, ◌<◌, contains, leb}
use nanny.Bridge.Wire.{AgentEnterRequest}
use nanny.Bridge.Handlers.Scopes.{
  Scopes, no_more, scope, visit, brackets, events_of, visit-brackets,
}
use nanny.Network.Router.Interleaved.{
  Section, decides, records, section, sections, sections-handle_tool_call, IsWithin,
}
use nanny.Network.Router.Interleaved.Caps.{sections-capped, HaveRoom}
use nanny.Network.RateLimiter.{RateLimiter}
use nanny.Network.RateLimiter.Window.{passed_of, passed_of-second}
use nanny.Network.Bind.{
  SocketAddr, BindAnswer, bound, addr_in_use, default_governor_addr, attempts,
  bind_with_fallforward,
}
use nanny.Network.Bind.Search.{
  at_port, IsFirstFree, bind_with_fallforward-default_iff, bind_with_fallforward-explicit_iff,
}
use nanny.Network.Governor.Traffic.{Event, arrives, drains, traffic}
use nanny.Network.Governor.Traffic.Safety.{traffic-IsAccounted}
use nanny.Network.Governor.Traffic.Stays.{RunHolds, traffic-stopped}

abbrev pub call_request : ToolCallRequest
call_request = record { tool = "http_get"; args = []; cleared_by = "budget" ∷ [] }

abbrev pub parse_call : Body → Option ToolCallRequest
parse_call [] = none
parse_call (b ∷ bs) = some call_request

-- Two names of agents.
abbrev pub parse_name : Body → Option AgentEnterRequest
parse_name [] = some (record { name = "a" })
parse_name (b ∷ bs) = some (record { name = "b" })

-- Every body that is not empty reads as the call of `http_get`.
abbrev pub serde : Serde
serde = record {
  tool_call_request = parse_call;
  rule_eval_request = λ b. none;
  agent_enter_request = parse_name;
  llm_usage_request = λ b. none;
  harness_request = λ b. none;
  rules_request = λ b. none;
  app_request = λ b. none;
  value = λ b. none;
  line = λ e. "line";
  response_text = λ r. "response";
  counts_text = λ d. none;
  history_text = λ h. none;
  labels_text = λ l. none;
}

abbrev pub http_get : Tool
http_get = record { name = "http_get"; execute = λ args. ok (record { content = "page" }) }

abbrev pub failing : Tool
failing = record { name = "failing"; execute = λ args. err (execution_failed "no") }

abbrev pub registry : ToolRegistry
registry = register new_registry failing

abbrev pub caps : Dict ℕ
caps = ("http_get", 2) ∷ []

abbrev pub template : RunTemplate
template = record {
  session_token = "t";
  allowed_tools = "http_get" ∷ [];
  per_tool_max_calls = caps;
  tool_labels = ("http_get", "network" ∷ []) ∷ [];
  config_hash = "hash";
  runtime_version = "1";
  start_command = none;
}

abbrev pub clock : Clock
clock = record { now_ms = 100; instant = 10 }

-- Two calls, a drain, the call beyond the cap, a call of a stopped run, and the closing.
abbrev pub acts : List Act
acts =
    request clock 101 tool_call (1 ∷ [])
    ∷ request clock 102 tool_call (1 ∷ [])
    ∷ drain
    ∷ request clock 103 tool_call (1 ∷ [])
    ∷ request clock 104 tool_call (1 ∷ [])
    ∷ request clock 105 stop []
    ∷ close clock "ProcessCrashed"
    ∷ []

abbrev pub fresh : BridgeState
fresh = build_state template clock "run-1"

abbrev pub halted : BridgeState
halted = record fresh { execution = stopped "RuleDenied" }

pub caps-AreU32 : AreU32 caps
unfolding get
caps-AreU32 tool max h = ground arith
