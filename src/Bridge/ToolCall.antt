-- ===== src/Bridge/ToolCall.antt =====
-- crates/bridge/src/lib.rs: `handle_tool_call`, in the steps between which it releases the lock: the
-- decision, the run of the tool, and the record of the outcome.
pub mod Outcome
use nanny.Prelude.{
  ℕ, String, ◌+◌, ◌%◌, Option, none, some, List, [], push, ◌<>◌, u32_mod, Result, ok, err,
}
use nanny.Prelude.Dict.{Dict, get, insert}
use nanny.Core.Agent.{StopReason}
use nanny.Core.Policy.{PolicyContext, PolicyDecision, allow, deny}
use nanny.Core.Events.{ExecutionEvent, tool_allowed, tool_denied, rule_denied, tool_failed}
use nanny.Core.Tool.{ToolOutput, ToolCallError, not_found, execution, error_text}
use nanny.Runtime.Enforcement.{evaluate_permission, evaluate_rules, rule_name_for, unwrap_or}
use nanny.Runtime.Registry.{ToolRegistry, call}
use nanny.Bridge.State.{BridgeState, Clock, elapsed_ms, append_event, mark_stopped}
use nanny.Bridge.Wire.{
  Body, Serde, ToolCallRequest, BridgeResp, json_resp, allowed, stop_reason_name, denial_from,
}

-- The `PolicyContext` that the handler builds.
unfoldable pub context_of : Clock → BridgeState → String → PolicyContext
context_of clock s tool = record {
  elapsed_ms = elapsed_ms clock s;
  now_ms = clock.now_ms;
  requested_tool = some tool;
  tokens_spent = s.tokens_spent;
  tool_call_counts = s.tool_call_counts;
  tool_call_history = s.tool_call_history;
  tool_labels = s.tool_labels;
  last_tool_args = [];
}

-- `deny => deny`: the rules are asked only if the allowlist allows.
abbrev pub then_rules : PolicyDecision → PolicyDecision → PolicyDecision
then_rules allow rules = rules
then_rules (deny reason) rules = deny reason

-- The decision, under the lock.
unfoldable pub decide : Clock → BridgeState → String → PolicyDecision
unfolding context_of elapsed_ms
decide clock s tool =
    then_rules (evaluate_permission s.tool_permission_policy (context_of clock s tool))
      (evaluate_rules s.rule_evaluator (context_of clock s tool))

-- The event of a denial.
abbrev pub denial_event : ℕ → ToolCallRequest → StopReason → ExecutionEvent
denial_event ts req (StopReason.rule_denied rule_name) =
    rule_denied ts req.tool rule_name req.cleared_by
denial_event ts req (StopReason.tool_denied tool_name) = tool_denied ts req.tool
denial_event ts req StopReason.manual_stop = tool_denied ts req.tool
denial_event ts req StopReason.agent_completed = tool_denied ts req.tool

-- The branch `PolicyDecision::Deny`.
unfoldable pub deny_call :
    Serde → ℕ → ToolCallRequest → StopReason → BridgeState → BridgeState × BridgeResp
deny_call serde ts req reason s = (
  mark_stopped (append_event s (denial_event ts req reason)) (stop_reason_name reason),
  json_resp 200 (serde.response_text (denial_from reason)),
)

-- `*counts.entry(tool).or_insert(0) += 1`; the count wraps as a `u32` does in a release build.
unfoldable pub bump : String → Dict ℕ → Dict ℕ
bump tool counts = insert tool ((unwrap_or (get tool counts) 0 + 1) % u32_mod) counts

-- The record of an allowed call: its count, the history and the event.
unfoldable pub record_call : ℕ → String → List String → BridgeState → BridgeState
record_call ts tool cleared_by s =
    append_event
      (record s {
        tool_call_counts = bump tool s.tool_call_counts;
        tool_call_history = push s.tool_call_history tool;
      })
      (tool_allowed ts tool cleared_by)

-- The `match result` of the branch `PolicyDecision::Allow`.
unfoldable pub finish_call :
    Serde
    → ℕ
    → ToolCallRequest
    → List String
    → Result ToolCallError ToolOutput
    → BridgeState
    → BridgeState × BridgeResp
finish_call serde ts req cleared_by (err (not_found name)) s =
    (record_call ts req.tool cleared_by s, json_resp 200 (serde.response_text (allowed "")))
finish_call serde ts req cleared_by (err (execution name source)) s = (
  append_event s (tool_failed ts name (error_text source)),
  json_resp 500 (
      "{\"error\":\"tool execution failed\",\"tool_name\":\""
      <> name
      <> "\",\"message\":\""
      <> error_text source
      <> "\"}"),
)
finish_call serde ts req cleared_by (ok output) s = (
  record_call ts req.tool cleared_by s,
  json_resp 200 (serde.response_text (allowed output.content)),
)

-- `if let Some(name) = engine_rule { cleared_by.push(name) }`
abbrev pub with_engine_rule : List String → Option String → List String
with_engine_rule cleared_by none = cleared_by
with_engine_rule cleared_by (some name) = push cleared_by name

-- What follows the decision.
unfoldable pub act_on :
    Serde
    → ToolRegistry
    → ℕ
    → ToolCallRequest
    → Option String
    → PolicyDecision
    → BridgeState
    → BridgeState × BridgeResp
act_on serde registry ts req engine_rule (deny reason) s = deny_call serde ts req reason s
act_on serde registry ts req engine_rule allow s =
    finish_call serde ts req (with_engine_rule req.cleared_by engine_rule)
      (call registry req.tool req.args) s

abbrev pub bad_request : BridgeResp
bad_request = json_resp 400 "{\"error\":\"invalid request body\"}"

-- `match serde_json::from_slice(body) { Ok(r) => r, Err(_) => return 400 }`
abbrev pub on_parsed {ℓ} :
    {R : Type ℓ}
    → Option R
    → BridgeState
    → (R → BridgeState × BridgeResp)
    → BridgeState × BridgeResp
on_parsed none s handle = (s, bad_request)
on_parsed (some req) s handle = handle req

-- `handle_tool_call`, where nothing else takes the lock between its steps; `ts` is the time at which
-- the outcome is recorded.
unfoldable pub handle_tool_call :
    Serde → ToolRegistry → Clock → ℕ → Body → BridgeState → BridgeState × BridgeResp
handle_tool_call serde registry clock ts body s = on_parsed (serde.tool_call_request body) s λ req.
    act_on serde registry ts req (rule_name_for s.rule_evaluator req.tool) (decide clock s req.tool)
      s
