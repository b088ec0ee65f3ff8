-- ===== src/Bridge/Stable.antt =====
-- Invariants of a run's state: what the handlers of crates/bridge/src/lib.rs keep, reduced to the few
-- ways in which they write the state.
use nanny.Prelude.{
  ℕ, String, ◌≡◌, refl, ◌⊎◌, inl, inr, Option, none, some, List, map, push, if_rule, string_eq,
  option_eq, pair_eq, list_eq, nat_eq, eq_iff, arith, Result, ok, err,
}
use nanny.Core.Agent.{StopReason}
use nanny.Core.Policy.{PolicyDecision, allow, deny}
use nanny.Core.Events.{ExecutionEvent, RuleDecl, rule_eq}
use nanny.Core.Tool.{ToolCallError, ToolOutput, not_found, execution}
use nanny.Runtime.Registry.{ToolRegistry, call}
use nanny.Runtime.Enforcement.{rule_name_for}
use nanny.Bridge.State.{BridgeState, Clock, append_event, mark_stopped}
use nanny.Bridge.Attribution.{record_harness, record_app, record_rules}
use nanny.Bridge.Wire.{
  Body, Serde, BridgeResp, ToolCallRequest, LlmUsageRequest, HarnessLabel, Value, from_input,
  stop_reason_name,
}
use nanny.Bridge.ToolCall.{
  handle_tool_call, decide, act_on, deny_call, finish_call, record_call, bump, with_engine_rule,
  on_parsed,
}
use nanny.Bridge.Handlers.{
  handle_stop, handle_agent_enter, handle_agent_exit, handle_llm_usage, handle_harness,
  handle_rules, handle_app, record_usage, report_denial, known_reason, with_harness,
}

-- The closed set of reasons that a handler can stop a run with.
abbrev pub IsKnown : String → Type 0
IsKnown r =
    (r ≡ "RuleDenied")
    ⊎ (r ≡ "ToolDenied")
    ⊎ (r ≡ "AgentCompleted")
    ⊎ (r ≡ "ManualStop")
    ⊎ (r ≡ "ToolFailed")
    ⊎ (r ≡ "ProcessCrashed")

pub known_reason-IsKnown : (raw : String) → IsKnown (known_reason raw)
unfolding known_reason
known_reason-IsKnown raw = ground (
  arith,
  eq_iff raw "RuleDenied",
  eq_iff raw "ToolDenied",
  eq_iff raw "AgentCompleted",
  eq_iff raw "ManualStop",
  eq_iff raw "ToolFailed",
)

pub stop_reason_name-IsKnown : (reason : StopReason) → IsKnown (stop_reason_name reason)
unfolding stop_reason_name
stop_reason_name-IsKnown (StopReason.tool_denied tool_name) = inr (inl refl)
stop_reason_name-IsKnown (StopReason.rule_denied rule_name) = inl refl
stop_reason_name-IsKnown StopReason.manual_stop = inr (inr (inr (inl refl)))
stop_reason_name-IsKnown StopReason.agent_completed = inr (inr (inl refl))

-- The ways in which the handlers write the state. A count is raised only after an allowed decision,
-- a run is stopped only with a known reason.
pub record IsStable (P : BridgeState → Type 0) : Type 0 where
  pub append : (s : BridgeState) (e : ExecutionEvent) → P s → P (append_event s e)
  pub stop : (s : BridgeState) (r : String) → IsKnown r → P s → P (mark_stopped s r)
  pub harness :
      (s : BridgeState) (v : Option (String × Option String))
      → P s
      → P (record s { last_harness = v })
  pub app : (s : BridgeState) (v : Option (String × String)) → P s → P (record s { last_app = v })
  pub rules : (s : BridgeState) (v : Option (List RuleDecl)) → P s → P (record s { last_rules = v })
  pub stack : (s : BridgeState) (v : List String) → P s → P (record s { agent_name_stack = v })
  pub usage : (s : BridgeState) (n : ℕ) → P s → P (record s { tokens_spent = n })
  pub calls :
      (s : BridgeState) (clock : Clock) (tool : String)
      → decide clock s tool ≡ allow
      → P s
      → P (record s {
        tool_call_counts = bump tool s.tool_call_counts;
        tool_call_history = push s.tool_call_history tool;
      })

module _ (P : BridgeState → Type 0) (st : IsStable P) where
  record_harness-keeps :
      (ts : ℕ) (s : BridgeState) (name : String) (version : Option String)
      → P s
      → P (record_harness ts s name version)
  unfolding record_harness
  record_harness-keeps ts s name version h =
      if_rule P _ _ _ h (if_rule P _ _ _ h (st.append _ _ (st.harness s _ h)))

  record_app-keeps :
      (ts : ℕ) (s : BridgeState) (id name : String) → P s → P (record_app ts s id name)
  unfolding record_app
  record_app-keeps ts s id name h =
      if_rule P _ _ _ h (if_rule P _ _ _ h (st.append _ _ (st.app s _ h)))

  record_rules-keeps :
      (ts : ℕ) (s : BridgeState) (rs : List RuleDecl) → P s → P (record_rules ts s rs)
  unfolding record_rules
  record_rules-keeps ts s rs h =
      if_rule P _ _ _ h (if_rule P _ _ _ h (st.append _ _ (st.rules s _ h)))

  record_call-keeps :
      (clock : Clock) (ts : ℕ) (tool : String) (cleared_by : List String) (s : BridgeState)
      → decide clock s tool ≡ allow
      → P s
      → P (record_call ts tool cleared_by s)
  unfolding record_call
  record_call-keeps clock ts tool cleared_by s d h = st.append _ _ (st.calls s clock tool d h)

  finish_call-keeps :
      (serde : Serde) (clock : Clock) (ts : ℕ) (req : ToolCallRequest) (cleared_by : List String)
      (result : Result ToolCallError ToolOutput) (s : BridgeState)
      → decide clock s req.tool ≡ allow
      → P s
      → P (finish_call serde ts req cleared_by result s).0
  unfolding finish_call
  finish_call-keeps serde clock ts req cleared_by (err (not_found name)) s d h =
      record_call-keeps clock ts req.tool cleared_by s d h
  finish_call-keeps serde clock ts req cleared_by (err (execution name source)) s d h =
      st.append _ _ h
  finish_call-keeps serde clock ts req cleared_by (ok output) s d h =
      record_call-keeps clock ts req.tool cleared_by s d h

  act_on-keeps :
      (serde : Serde) (registry : ToolRegistry) (clock : Clock) (ts : ℕ) (req : ToolCallRequest)
      (rule : Option String) (decision : PolicyDecision) (s : BridgeState)
      → decide clock s req.tool ≡ decision
      → P s
      → P (act_on serde registry ts req rule decision s).0
  unfolding act_on deny_call
  act_on-keeps serde registry clock ts req rule allow s d h =
      finish_call-keeps serde clock ts req (with_engine_rule req.cleared_by rule)
        (call registry req.tool req.args) s d h
  act_on-keeps serde registry clock ts req rule (deny reason) s d h =
      st.stop _ _ (stop_reason_name-IsKnown reason) (st.append _ _ h)

  on_parsed-keeps :
      {R : Type 0} (o : Option R) (s : BridgeState) (handle : R → BridgeState × BridgeResp)
      → P s
      → ((req : R) → P (handle req).0)
      → P (on_parsed o s handle).0
  on_parsed-keeps none s handle h k = h
  on_parsed-keeps (some req) s handle h k = k req

  pub handle_tool_call-keeps :
      (serde : Serde) (registry : ToolRegistry) (clock : Clock) (ts : ℕ) (body : Body)
      (s : BridgeState)
      → P s
      → P (handle_tool_call serde registry clock ts body s).0
  unfolding handle_tool_call
  handle_tool_call-keeps serde registry clock ts body s h =
      on_parsed-keeps (serde.tool_call_request body) s _ h λ req.
        act_on-keeps serde registry clock ts req (rule_name_for s.rule_evaluator req.tool)
          (decide clock s req.tool) s refl h

  with_harness-keeps :
      (ts : ℕ) (o : Option HarnessLabel) (s : BridgeState) → P s → P (with_harness ts o s)
  with_harness-keeps ts none s h = h
  with_harness-keeps ts (some l) s h = record_harness-keeps ts s l.name l.version h

  record_usage-keeps :
      (ts : ℕ) (req : LlmUsageRequest) (s : BridgeState) → P s → P (record_usage ts req s)
  unfolding record_usage
  record_usage-keeps ts req s h =
      let h' = with_harness-keeps ts req.harness s h in
      if_rule P _ _ _ h' (st.append _ _ (st.usage _ _ h'))

  report_denial-keeps :
      (ts : ℕ) (parsed : Value) (reason : String) (s : BridgeState)
      → P s
      → P (report_denial ts parsed reason s)
  unfolding report_denial
  report_denial-keeps ts parsed reason s h =
      if_rule P _ _ _ (if_rule P _ _ _ h (if_rule P _ _ _ h (st.append _ _ h))) h

  pub handle_stop-keeps :
      (serde : Serde) (ts : ℕ) (body : Body) (s : BridgeState)
      → P s
      → P (handle_stop serde ts body s).0
  unfolding handle_stop
  handle_stop-keeps serde ts body s h =
      st.stop _ _ (known_reason-IsKnown _) (report_denial-keeps ts _ _ s h)

  pub handle_agent_enter-keeps :
      (serde : Serde) (ts : ℕ) (body : Body) (s : BridgeState)
      → P s
      → P (handle_agent_enter serde ts body s).0
  unfolding handle_agent_enter
  handle_agent_enter-keeps serde ts body s h =
      on_parsed-keeps (serde.agent_enter_request body) s _ h λ req. st.append _ _ (st.stack s _ h)

  pub handle_agent_exit-keeps : (ts : ℕ) (s : BridgeState) → P s → P (handle_agent_exit ts s).0
  unfolding handle_agent_exit
  handle_agent_exit-keeps ts s h = st.append _ _ (st.stack s _ h)

  pub handle_llm_usage-keeps :
      (serde : Serde) (ts : ℕ) (body : Body) (s : BridgeState)
      → P s
      → P (handle_llm_usage serde ts body s).0
  unfolding handle_llm_usage
  handle_llm_usage-keeps serde ts body s h =
      on_parsed-keeps (serde.llm_usage_request body) s _ h λ req. record_usage-keeps ts req s h

  pub handle_harness-keeps :
      (serde : Serde) (ts : ℕ) (body : Body) (s : BridgeState)
      → P s
      → P (handle_harness serde ts body s).0
  unfolding handle_harness
  handle_harness-keeps serde ts body s h = on_parsed-keeps (serde.harness_request body) s _ h λ req.
      if_rule (λ (r : BridgeState × BridgeResp). P r.0) _ _ _ h
        (record_harness-keeps ts s req.name req.version h)

  pub handle_rules-keeps :
      (serde : Serde) (ts : ℕ) (body : Body) (s : BridgeState)
      → P s
      → P (handle_rules serde ts body s).0
  unfolding handle_rules
  handle_rules-keeps serde ts body s h =
      on_parsed-keeps (serde.rules_request body) s _ h
        λ rs. record_rules-keeps ts s (map from_input rs) h

  pub handle_app-keeps :
      (serde : Serde) (ts : ℕ) (body : Body) (s : BridgeState)
      → P s
      → P (handle_app serde ts body s).0
  unfolding handle_app
  handle_app-keeps serde ts body s h = on_parsed-keeps (serde.app_request body) s _ h λ req.
      if_rule (λ (r : BridgeState × BridgeResp). P r.0) _ _ _ h
        (record_app-keeps ts s req.app_id req.name h)
