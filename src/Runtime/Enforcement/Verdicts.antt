-- ===== src/Runtime/Enforcement/Verdicts.antt =====
-- When the policies of crates/runtime/src/enforcement.rs allow and deny.
use mathlib.Core.List.{Mem}
use nanny.Prelude.{
  ℕ, String, ◌≡◌, ◌↔◌, ◌⊎◌, ◌≤◌, ◌<◌, inl, inr, some, true, false, arith, contains, contains_iff,
  Option-cases, Bool-cases, string_eq,
}
use nanny.Prelude.Dict.{get}
use nanny.Core.Agent.{StopReason}
use nanny.Core.Policy.{PolicyContext, allow, deny}
use nanny.Runtime.Enforcement.{
  ToolPermissionPolicy, evaluate_permission, RuleEvaluator, evaluate_rules, cap_name, unwrap_or,
  evaluate_chain, permission_policy, rules_policy,
}

-- The calls of a tool that a context counts.
abbrev pub calls_so_far : PolicyContext → String → ℕ
calls_so_far ctx tool = unwrap_or (get tool ctx.tool_call_counts) 0

pub deny-permission :
    (p : ToolPermissionPolicy) (ctx : PolicyContext) (tool : String)
    → ctx.requested_tool ≡ some tool
    → contains p.allowed_tools tool ≡ false
    → evaluate_permission p ctx ≡ deny (StopReason.tool_denied tool)
unfolding evaluate_permission
deny-permission p ctx tool h k = ground arith

pub allow-permission :
    (p : ToolPermissionPolicy) (ctx : PolicyContext) (tool : String)
    → ctx.requested_tool ≡ some tool
    → contains p.allowed_tools tool ≡ true
    → evaluate_permission p ctx ≡ allow
unfolding evaluate_permission
allow-permission p ctx tool h k = ground arith

abbrev pub IsUnderCap : RuleEvaluator → PolicyContext → String → Type 0
IsUnderCap r ctx tool = (max : ℕ) → get tool r.max_calls ≡ some max → calls_so_far ctx tool < max

pub allow-rules_iff :
    (r : RuleEvaluator) (ctx : PolicyContext) (tool : String)
    → ctx.requested_tool ≡ some tool
    → (evaluate_rules r ctx ≡ allow) ↔ IsUnderCap r ctx tool
unfolding evaluate_rules
allow-rules_iff r ctx tool h = elim (Option-cases (get tool r.max_calls)) [
  | inl free ↦ (λ _ max k. cc (free, k), λ _. ground arith)
  | inr (cap, capped) ↦ (λ k max c. ground arith, λ k. ground (arith, k cap capped))
]

-- Allowlist and call caps in their chain: a requested tool is allowed exactly if it is on the list
-- and has been called less often than its cap, if it has one.
pub allow-chain_iff :
    (p : ToolPermissionPolicy) (r : RuleEvaluator) (ctx : PolicyContext) (tool : String)
    → ctx.requested_tool ≡ some tool
    → (evaluate_chain (record { first = p; second = r }) ctx ≡ allow)
      ↔ (Mem tool p.allowed_tools × IsUnderCap r ctx tool)
unfolding evaluate_chain
allow-chain_iff p r ctx tool h = elim (Bool-cases (contains p.allowed_tools tool)) [
  | inl listed ↦ rw (allow-permission p ctx tool h listed) (
    λ k. ((contains_iff p.allowed_tools tool).0 listed, (allow-rules_iff r ctx tool h).0 k),
    λ k. (allow-rules_iff r ctx tool h).1 k.1,
  )
  | inr unlisted ↦
      rw (deny-permission p ctx tool h unlisted)
        (λ k. cc, λ k. cc (unlisted, (contains_iff p.allowed_tools tool).1 k.0))
]

-- Which denial a chain of allowlist and caps gives: the allowlist's for an unlisted tool, whatever
-- the caps say; the cap's, named after the tool, for a listed tool that has used its cap up.
pub deny-chain_iff :
    (p : ToolPermissionPolicy) (r : RuleEvaluator) (ctx : PolicyContext) (tool : String)
    (reason : StopReason)
    → ctx.requested_tool ≡ some tool
    → (evaluate_chain (record { first = p; second = r }) ctx ≡ deny reason) ↔ (
        ((¬ Mem tool p.allowed_tools) × (reason ≡ StopReason.tool_denied tool))
        ⊎ (Mem tool p.allowed_tools
            × ((max : ℕ) × (get tool r.max_calls ≡ some max) × (max ≤ calls_so_far ctx tool))
            × (reason ≡ StopReason.rule_denied (cap_name tool))))
unfolding evaluate_chain evaluate_rules
deny-chain_iff p r ctx tool reason h = elim (Bool-cases (contains p.allowed_tools tool)) [
  | inl listed ↦
      let listed' = (contains_iff p.allowed_tools tool).0 listed in
      rw (allow-permission p ctx tool h listed) (
        λ k. inr (listed', capped k, ground arith),
        λ k. elim k [
          | inl (unlisted, _) ↦ absurd (unlisted listed')
          | inr (_, (max, e, le), same) ↦ ground arith
        ],
      )
  | inr unlisted ↦ rw (deny-permission p ctx tool h unlisted) (
    λ k. inl ((λ m. cc (unlisted, (contains_iff p.allowed_tools tool).1 m)), ground arith),
    λ k. elim k [
      | inl (_, same) ↦ ground arith
      | inr (m, _, _) ↦ cc (unlisted, (contains_iff p.allowed_tools tool).1 m)
    ],
  )
]
  where
    capped :
        evaluate_rules r ctx ≡ deny reason
        → (max : ℕ) × (get tool r.max_calls ≡ some max) × (max ≤ calls_so_far ctx tool)
    capped k = elim (Option-cases (get tool r.max_calls)) [
      | inl free ↦ absurd (ground arith)
      | inr (max, e) ↦ (max, e, ground arith)
    ]
