-- ===== src/Runtime/Enforcement.antt =====
-- crates/runtime/src/enforcement.rs: the allowlist, the call caps, and their chain.
pub mod Verdicts
use nanny.Prelude.{
  ℕ, String, Bool, true, false, not, Option, none, some, List, leb, if◌then◌else◌, contains, ◌==◌,
  string_eq, ◌<>◌,
}
use nanny.Prelude.Dict.{Dict, get, contains_key}
use nanny.Core.Agent.{StopReason}
use nanny.Core.Policy.{PolicyContext, PolicyDecision, allow, deny, Policy}

pub record ToolPermissionPolicy : Type 0 where
  pub allowed_tools : List String

-- `ToolPermissionPolicy::evaluate`
unfoldable pub evaluate_permission : ToolPermissionPolicy → PolicyContext → PolicyDecision
evaluate_permission p ctx = elim ctx.requested_tool [
  | none ↦ allow
  | some tool ↦
      if not (contains p.allowed_tools tool) then deny (StopReason.tool_denied tool) else allow
]

pub record RuleEvaluator : Type 0 where
  pub max_calls : Dict ℕ

abbrev pub cap_name : String → String
cap_name tool = tool <> ".max_calls"

-- `RuleEvaluator::rule_name_for`
unfoldable pub rule_name_for : RuleEvaluator → String → Option String
rule_name_for r tool = if contains_key tool r.max_calls then some (cap_name tool) else none

-- `unwrap_or`
abbrev pub unwrap_or : Option ℕ → ℕ → ℕ
unwrap_or none d = d
unwrap_or (some n) d = n

-- `RuleEvaluator::evaluate`
unfoldable pub evaluate_rules : RuleEvaluator → PolicyContext → PolicyDecision
evaluate_rules r ctx = elim ctx.requested_tool [
  | none ↦ allow
  | some tool ↦ elim (get tool r.max_calls) [
    | none ↦ allow
    | some max ↦
        if leb max (unwrap_or (get tool ctx.tool_call_counts) 0)
        then deny (StopReason.rule_denied (cap_name tool))
        else allow
  ]
]

instance abbrev pub permission_policy : Policy ToolPermissionPolicy
permission_policy = record { evaluate = evaluate_permission }

instance abbrev pub rules_policy : Policy RuleEvaluator
rules_policy = record { evaluate = evaluate_rules }

pub record ChainPolicy (A B : Type 0) : Type 0 where
  pub first : A
  pub second : B

-- The `match` of `ChainPolicy::evaluate`: the second policy is asked only if the first allows.
abbrev pub or_else : PolicyDecision → PolicyDecision → PolicyDecision
or_else allow second = second
or_else (deny reason) second = deny reason

-- `ChainPolicy::evaluate`
unfoldable pub evaluate_chain :
    {A B : Type 0} ⦃p : Policy A⦄ ⦃q : Policy B⦄ → ChainPolicy A B → PolicyContext → PolicyDecision
evaluate_chain ⦃p⦄ ⦃q⦄ c ctx = or_else (p.evaluate c.first ctx) (q.evaluate c.second ctx)
