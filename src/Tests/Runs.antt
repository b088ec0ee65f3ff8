-- ===== src/Tests/Runs.antt =====
-- One run of crates/bridge/src, at concrete requests.
use mathlib.Core.List.{Mem}
use nanny.Prelude.{
  String, ◌≡◌, ◌↔◌, ◌⊎◌, refl, ◌≤◌, none, some, List, [], ◌∷◌, ◌++◌, arith, string_eq, list_eq,
}
use nanny.Prelude.Dict.{get}
use nanny.Core.Events.{RuleDecl, ExecutionEvent}
use nanny.Runtime.Enforcement.{
  evaluate_chain, RuleEvaluator, ToolPermissionPolicy, cap_name, permission_policy, rules_policy,
}
use nanny.Runtime.Registry.{register, call}
use nanny.Bridge.State.{BridgeState, running, stopped, Clock}
use nanny.Bridge.Template.{build_state}
use nanny.Bridge.Stable.{IsKnown}
use nanny.Bridge.ToolCall.{handle_tool_call, decide, act_on}
use nanny.Bridge.State.{stopped_reason}
use nanny.Prelude.Dict.{insert}
use nanny.Bridge.ToolCall.Outcome.{
  IsUnderRunCap, IsToolVerdict, with_line, handle_tool_call-running_iff, handle_tool_call-logged,
}
use nanny.Bridge.Attribution.Idempotent.{SameRules}
use nanny.Network.Router.{tool_call, serve, stopped_gone}
use nanny.Network.Router.Trace.{live}
use nanny.Network.Router.Log.{Numbered, live-Numbered}
use nanny.Network.Router.Stops.{live-IsKnown, serve-stopped}
use nanny.Network.Router.Accounting.{IsAccounted, live-IsAccounted}
use nanny.Prelude.Order.{string_ord}
use nanny.Prelude.{count, ◌+◌, ◌-◌}
use nanny.Bridge.Handlers.Scopes.{
  Scopes, no_more, scope, visit, brackets, events_of, visit-brackets,
}
use nanny.Network.Router.Interleaved.{Section, decides, records, section, sections, IsWithin}
use nanny.Network.Router.Interleaved.Caps.{sections-capped, HaveRoom}
use nanny.Tests.{
  call_request, serde, registry, caps, template, clock, acts, fresh, halted, caps-AreU32,
}

live-Numbered_example : Numbered "run-1" 0 (
    (live serde registry (build_state template clock "run-1", []) acts).1
    ++ (live serde registry (build_state template clock "run-1", []) acts).0.events)
live-Numbered_example = live-Numbered serde registry "run-1" template clock acts

live-IsAccounted_example :
    IsAccounted
      ("http_get" ∷ [])
      caps
      (live serde registry (build_state template clock "run-1", []) acts).0
live-IsAccounted_example =
    live-IsAccounted ("http_get" ∷ []) caps caps-AreU32 serde registry template clock "run-1" acts
      refl refl

live-IsKnown_example :
    ((live serde registry (build_state template clock "run-1", []) acts).0.execution ≡ running)
    ⊎ ((r : String) × ((live serde registry
            (build_state template clock "run-1", [])
            acts).0.execution
          ≡ stopped r)
        × IsKnown r)
live-IsKnown_example = live-IsKnown serde registry template clock "run-1" acts

serve-stopped_example :
    serve serde registry clock 104 tool_call (1 ∷ []) halted ≡ (halted, stopped_gone "RuleDenied")
serve-stopped_example =
    serve-stopped serde registry clock 104 tool_call (1 ∷ []) halted "RuleDenied"
      ((λ h. cc), (λ h. cc), (λ h. cc), (λ h. cc), (λ h. cc)) refl

fresh-running : fresh.execution ≡ running
unfolding build_state
fresh-running = refl

handle_tool_call-running_iff_example :
    ((handle_tool_call serde registry clock 101 (1 ∷ []) fresh).0.execution ≡ running)
    ↔ (Mem "http_get" fresh.tool_permission_policy.allowed_tools × IsUnderRunCap fresh "http_get")
handle_tool_call-running_iff_example =
    handle_tool_call-running_iff serde registry clock 101 (1 ∷ []) fresh call_request refl
      fresh-running

handle_tool_call-logged_example :
    (e : ExecutionEvent) × ((handle_tool_call serde registry clock 101 (1 ∷ []) fresh).0.events
      ≡ with_line fresh e)
    × IsToolVerdict fresh (call registry "http_get" []) 101 call_request e
handle_tool_call-logged_example =
    handle_tool_call-logged serde registry clock 101 (1 ∷ []) fresh call_request refl

abbrev rule_a : RuleDecl
rule_a = record { name = "a"; version = none; pack = none }

abbrev rule_b : RuleDecl
rule_b = record { name = " b "; version = some "2"; pack = none }

swapped : SameRules (rule_a ∷ rule_b ∷ []) (rule_b ∷ rule_a ∷ rule_b ∷ [])
swapped r = ground arith

-- Two calls at once, and a third that waits for one of them.
abbrev two_at_once : List Section
two_at_once =
    decides clock call_request
    ∷ decides clock call_request
    ∷ records 1 101
    ∷ decides clock call_request
    ∷ records 1 102
    ∷ records 0 103
    ∷ []

caps-HaveRoom : HaveRoom caps 2
unfolding get
caps-HaveRoom tool max h = ground arith

two_at_once-IsWithin :
    IsWithin serde registry 2 (record { state = fresh; pending = [] }) two_at_once
unfolding section
two_at_once-IsWithin = (
  omega arith,
  (omega arith, (omega arith, (omega arith, (omega arith, (omega arith, omega arith))))),
)

sections-capped_example :
    count "http_get"
      (sections serde registry
        (record { state = build_state template clock "run-1"; pending = [] })
        two_at_once).state.tool_call_history
    ≤ 2 + (2 - 1)
sections-capped_example =
    sections-capped serde registry caps 2 caps-HaveRoom template clock "run-1" two_at_once
      "http_get" 2 refl two_at_once-IsWithin (unfold get in refl)

-- Two concurrent calls do get past the cap of 2 by one.
past_the_cap :
    count "http_get"
      (sections serde registry
        (record { state = build_state template clock "run-1"; pending = [] })
        two_at_once).state.tool_call_history
    ≡ 3
unfolding sections build_state decide act_on nanny.Runtime.Enforcement.evaluate_permission
    nanny.Runtime.Enforcement.evaluate_rules get nanny.Bridge.ToolCall.finish_call call register
    insert nanny.Bridge.ToolCall.record_call nanny.Bridge.State.append_event
    nanny.Bridge.ToolCall.bump
past_the_cap = refl

abbrev nested : Scopes
nested = scope [] "a" (scope (1 ∷ []) "b" no_more no_more) (scope [] "a" no_more no_more)

visit-brackets_example :
    ((visit serde 7 nested fresh).agent_name_stack ≡ fresh.agent_name_stack)
    × (events_of (visit serde 7 nested fresh) ≡ events_of fresh ++ brackets 7 nested)
visit-brackets_example = visit-brackets serde 7 nested fresh (refl, (refl, tt, tt), (refl, tt, tt))
