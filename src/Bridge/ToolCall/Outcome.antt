-- ===== src/Bridge/ToolCall/Outcome.antt =====
-- What one call of `handle_tool_call` in crates/bridge/src/lib.rs does to the run.
use mathlib.Core.List.{Mem}
use nanny.Prelude.{
  ℕ, String, ◌≡◌, ◌↔◌, ◌≤◌, ◌<>◌, inl, inr, refl, sym, ◌∙◌, Option, some, List, push, arith, Result,
  ok, err,
}
use nanny.Core.Policy.{PolicyDecision, allow, deny}
use nanny.Core.Events.{
  ExecutionEvent, LoggedEvent, tool_allowed, tool_denied, rule_denied, tool_failed,
}
use nanny.Core.Tool.{ToolCallError, ToolError, ToolOutput, error_text, not_found, execution}
use nanny.Prelude.Dict.{get}
use nanny.Prelude.{◌<◌}
use nanny.Runtime.Enforcement.{
  evaluate_chain, permission_policy, rules_policy, unwrap_or, rule_name_for,
}
use nanny.Runtime.Enforcement.Verdicts.{allow-chain_iff, deny-chain_iff}
use nanny.Runtime.Registry.{ToolRegistry, call}
use nanny.Bridge.State.{BridgeState, running, Clock, append_event, mark_stopped}
use nanny.Bridge.Wire.{Body, Serde, ToolCallRequest}
use nanny.Bridge.ToolCall.{
  handle_tool_call, decide, act_on, deny_call, finish_call, record_call, context_of, on_parsed,
}

decide-chain :
    (clock : Clock) (s : BridgeState) (tool : String)
    → decide clock s tool
      ≡ evaluate_chain
          (record { first = s.tool_permission_policy; second = s.rule_evaluator })
          (context_of clock s tool)
unfolding decide evaluate_chain
decide-chain clock s tool = ground arith

-- The calls that a decision's context counts are the run's, under the run's caps.
abbrev pub IsUnderRunCap : BridgeState → String → Type 0
IsUnderRunCap s tool =
    (max : ℕ)
    → get tool s.rule_evaluator.max_calls ≡ some max
    → unwrap_or (get tool s.tool_call_counts) 0 < max

decide-allow_iff :
    (clock : Clock) (s : BridgeState) (tool : String)
    → (decide clock s tool ≡ allow)
      ↔ (Mem tool s.tool_permission_policy.allowed_tools × IsUnderRunCap s tool)
decide-allow_iff clock s tool = rw (decide-chain clock s tool) (
    unfold context_of in
    allow-chain_iff s.tool_permission_policy s.rule_evaluator (context_of clock s tool) tool refl)

module _ (serde : Serde) (registry : ToolRegistry) (ts : ℕ) (req : ToolCallRequest) where
  finish_call-running :
      (cleared_by : List String) (result : Result ToolCallError ToolOutput) (s : BridgeState)
      → (finish_call serde ts req cleared_by result s).0.execution ≡ s.execution
  unfolding finish_call record_call append_event
  finish_call-running cleared_by (err (not_found name)) s = refl
  finish_call-running cleared_by (err (execution name source)) s = refl
  finish_call-running cleared_by (ok output) s = refl

  act_on-running_iff :
      (rule : Option String) (d : PolicyDecision) (s : BridgeState)
      → s.execution ≡ running
      → ((act_on serde registry ts req rule d s).0.execution ≡ running) ↔ (d ≡ allow)
  unfolding act_on deny_call append_event mark_stopped
  act_on-running_iff rule allow s h = (λ _. refl, λ _. finish_call-running _ _ s ∙ h)
  act_on-running_iff rule (deny reason) s h = (λ k. ground arith, λ k. cc)

-- A readable call leaves a running run running exactly if its tool is on the run's allowlist and has
-- been called less often than its cap, if it has one. Any other call stops the run.
pub handle_tool_call-running_iff :
    (serde : Serde) (registry : ToolRegistry) (clock : Clock) (ts : ℕ) (body : Body)
    (s : BridgeState) (req : ToolCallRequest)
    → serde.tool_call_request body ≡ some req
    → s.execution ≡ running
    → ((handle_tool_call serde registry clock ts body s).0.execution ≡ running)
      ↔ (Mem req.tool s.tool_permission_policy.allowed_tools × IsUnderRunCap s req.tool)
unfolding handle_tool_call
handle_tool_call-running_iff serde registry clock ts body s req parsed h =
    rw (parsed, on_parsed)
      (
        λ k.
            (decide-allow_iff clock s req.tool).0
              ((act_on-running_iff serde registry ts req _ _ s h).0 k),
        λ k.
            (act_on-running_iff serde registry ts req _ _ s h).1
              ((decide-allow_iff clock s req.tool).1 k),
      )

-- The events of a state, with the next line that `append_event` would write.
abbrev pub with_line : BridgeState → ExecutionEvent → List LoggedEvent
with_line s e = push s.events (record { run_id = s.run_id; seq = s.next_seq; event = e })

-- Whether the registry reports that the tool ran and failed.
abbrev pub IsFailure : Result ToolCallError ToolOutput → Type 0
IsFailure (err (execution name source)) = Unit
IsFailure _ = ⊥

-- The run's cap for a tool is used up.
abbrev pub IsUsedUp : BridgeState → String → Type 0
IsUsedUp s tool =
    (max : ℕ) × (get tool s.rule_evaluator.max_calls ≡ some max)
    × (max ≤ unwrap_or (get tool s.tool_call_counts) 0)

-- The verdict on a request in a state, at a time, where a tool that ran came to a result.
abbrev pub IsToolVerdict :
    BridgeState → Result ToolCallError ToolOutput → ℕ → ToolCallRequest → ExecutionEvent → Type 0
IsToolVerdict s result ts req (tool_denied ts' tool) =
    (ts' ≡ ts) × (tool ≡ req.tool) × (¬ Mem req.tool s.tool_permission_policy.allowed_tools)
IsToolVerdict s result ts req (rule_denied ts' tool rule cleared_by) =
    (ts' ≡ ts)
    × (tool ≡ req.tool)
    × Mem req.tool s.tool_permission_policy.allowed_tools
    × IsUsedUp s req.tool
    × (rule ≡ req.tool <> ".max_calls")
    × (cleared_by ≡ req.cleared_by)
IsToolVerdict s result ts req (tool_allowed ts' tool cleared_by) =
    (ts' ≡ ts)
    × (tool ≡ req.tool)
    × Mem req.tool s.tool_permission_policy.allowed_tools
    × IsUnderRunCap s req.tool
    × (¬ IsFailure result)
IsToolVerdict s result ts req (tool_failed ts' tool error) =
    (ts' ≡ ts)
    × Mem req.tool s.tool_permission_policy.allowed_tools
    × IsUnderRunCap s req.tool
    × ((source : ToolError) × (result ≡ err (execution tool source)) × (error ≡ error_text source))
IsToolVerdict s result ts req _ = ⊥

module _ (serde : Serde) (registry : ToolRegistry) (ts : ℕ) (req : ToolCallRequest) where
  Logs : Result ToolCallError ToolOutput → BridgeState → BridgeState → Type 0
  Logs result s s' =
      (e : ExecutionEvent) × (s'.events ≡ with_line s e) × IsToolVerdict s result ts req e

  finish_call-Logs :
      (cleared_by : List String) (result : Result ToolCallError ToolOutput) (s : BridgeState)
      → Mem req.tool s.tool_permission_policy.allowed_tools
      → IsUnderRunCap s req.tool
      → Logs result s (finish_call serde ts req cleared_by result s).0
  unfolding Logs finish_call record_call append_event
  finish_call-Logs cleared_by (err (not_found name)) s m u = (_, refl, (refl, refl, m, u, λ f. f))
  finish_call-Logs cleared_by (err (execution name source)) s m u =
      (_, refl, (refl, m, u, (source, refl, refl)))
  finish_call-Logs cleared_by (ok output) s m u = (_, refl, (refl, refl, m, u, λ f. f))

  act_on-Logs :
      (clock : Clock) (rule : Option String) (d : PolicyDecision) (s : BridgeState)
      → decide clock s req.tool ≡ d
      → Logs (call registry req.tool req.args) s (act_on serde registry ts req rule d s).0
  unfolding act_on
  act_on-Logs clock rule allow s h =
      let (m, u) = (decide-allow_iff clock s req.tool).0 h in
      finish_call-Logs _ (call registry req.tool req.args) s m u
  act_on-Logs clock rule (deny reason) s h =
      unfold Logs deny_call append_event mark_stopped context_of in
      elim ((deny-chain_iff s.tool_permission_policy s.rule_evaluator (context_of clock s req.tool)
          req.tool reason refl).0
        (sym (decide-chain clock s req.tool) ∙ h)) [
          | inl (unlisted, e) ↦ rw e (_, refl, (refl, refl, unlisted))
          | inr (listed, used, e) ↦ rw e (_, refl, (refl, refl, listed, used, refl, refl))
        ]

-- Every verdict is logged: a readable call appends exactly one line, at its time. It names the tool as
-- denied if the tool is not on the run's allowlist; as denied by the rule of its cap, with the rules that
-- had cleared it before, if it is on the list and its cap is used up; and otherwise as allowed if the
-- registry does not report that a tool failed, and as failed, with the name and the error that the
-- registry reports, if it does.
pub handle_tool_call-logged :
    (serde : Serde) (registry : ToolRegistry) (clock : Clock) (ts : ℕ) (body : Body)
    (s : BridgeState) (req : ToolCallRequest)
    → serde.tool_call_request body ≡ some req
    → (e : ExecutionEvent) × ((handle_tool_call serde registry clock ts body s).0.events
        ≡ with_line s e)
      × IsToolVerdict s (call registry req.tool req.args) ts req e
unfolding handle_tool_call
handle_tool_call-logged serde registry clock ts body s req parsed =
    rw (parsed, on_parsed)
      (unfold Logs in
        act_on-Logs serde registry ts req clock (rule_name_for s.rule_evaluator req.tool)
          (decide clock s req.tool) s refl)
