-- ===== src/Network/Router/Accounting.antt =====
-- What a run of crates/bridge/src counts: calls, their history, the allowlist and the caps.
use nanny.Prelude.{
  ℕ, String, ◌≡◌, refl, ◌+◌, ◌%◌, ◌≤◌, ◌<◌, true, some, List, [], ◌∷◌, push, arith, contains, count,
  count-append, string_eq, u32_mod, eq_iff, if◌then◌else◌, ◌==◌, Bool-cases, inl, inr,
}
use nanny.Prelude.Dict.{Dict, get, get-insert}
use nanny.Core.Policy.{allow}
use nanny.Runtime.Enforcement.{unwrap_or}
use nanny.Runtime.Enforcement.Verdicts.{deny-permission, allow-permission, allow-rules_iff}
use nanny.Runtime.Registry.{ToolRegistry}
use nanny.Bridge.State.{BridgeState, Clock, append_event, mark_stopped}
use nanny.Bridge.Wire.{Serde}
use nanny.Bridge.ToolCall.{decide, context_of, bump}
use nanny.Bridge.Template.{RunTemplate, build_state}
use nanny.Bridge.Stable.{IsStable}
use nanny.Network.Router.Trace.{Act, live, live-keeps}

abbrev pub calls : Dict ℕ → String → ℕ
calls counts tool = unwrap_or (get tool counts) 0

calls-bump :
    (tool j : String) (counts : Dict ℕ)
    → calls (bump tool counts) j
      ≡ (if tool == j then (calls counts tool + 1) % u32_mod else calls counts j)
unfolding bump
calls-bump tool j counts =
    ground (arith, get-insert tool j ((calls counts tool + 1) % u32_mod) counts)

-- What an allowed decision rests on.
pub decide-allow :
    (clock : Clock) (s : BridgeState) (tool : String)
    → decide clock s tool ≡ allow
    → (contains s.tool_permission_policy.allowed_tools tool ≡ true)
      × ((max : ℕ)
          → get tool s.rule_evaluator.max_calls ≡ some max
          → calls s.tool_call_counts tool < max)
unfolding decide
decide-allow clock s tool h =
    elim (Bool-cases (contains s.tool_permission_policy.allowed_tools tool)) [
      | inl listed ↦ (
        listed,
        (allow-rules_iff s.rule_evaluator (context_of clock s tool) tool
              (unfold context_of in refl)).0
            (rw
              (allow-permission s.tool_permission_policy (context_of clock s tool) tool
                (unfold context_of in refl) listed)
              at h),
      )
      | inr unlisted ↦
          let denied =
            deny-permission s.tool_permission_policy (context_of clock s tool) tool
              (unfold context_of in refl) unlisted in
          absurd (ground (arith, denied))
    ]

-- The counts are the occurrences in the history, as a `u32` holds them; what was called is on the
-- allowlist; no tool has been called more often than its cap. The policies are those given.
pub record IsAccounted (allowed : List String) (caps : Dict ℕ) (s : BridgeState) : Type 0 where
  pub permission : s.tool_permission_policy.allowed_tools ≡ allowed
  pub evaluator : s.rule_evaluator.max_calls ≡ caps
  pub counted :
      (tool : String) → calls s.tool_call_counts tool ≡ count tool s.tool_call_history % u32_mod
  pub listed :
      (tool : String) → contains s.tool_call_history tool ≡ true → contains allowed tool ≡ true
  pub capped :
      (tool : String) (max : ℕ) → get tool caps ≡ some max → count tool s.tool_call_history ≤ max

-- Every cap is a `u32`.
abbrev pub AreU32 : Dict ℕ → Type 0
AreU32 caps = (tool : String) (max : ℕ) → get tool caps ≡ some max → max < u32_mod

contains-push :
    (xs : List String) (x a : String)
    → contains (push xs x) a ≡ (if contains xs a then true else x == a)
contains-push [] x a = ground arith
contains-push (y ∷ xs) x a = ground (arith, contains-push xs x a)

pub call-counted :
    (s : BridgeState) (tool j : String)
    → calls s.tool_call_counts j ≡ count j s.tool_call_history % u32_mod
    → calls (bump tool s.tool_call_counts) j ≡ count j (push s.tool_call_history tool) % u32_mod
call-counted s tool j h = ground (
  arith,
  calls-bump tool j s.tool_call_counts,
  count-append j s.tool_call_history (tool ∷ []),
  eq_iff tool j,
  eq_iff j tool,
)

module _ (allowed : List String) (caps : Dict ℕ) (bounded : AreU32 caps) where
  -- Only these four parts of the state matter.
  pub same :
      (s s' : BridgeState)
      → IsAccounted allowed caps s
      → s'.tool_permission_policy ≡ s.tool_permission_policy
      → s'.rule_evaluator ≡ s.rule_evaluator
      → s'.tool_call_counts ≡ s.tool_call_counts
      → s'.tool_call_history ≡ s.tool_call_history
      → IsAccounted allowed caps s'
  same s s' h p q c l = record {
    permission = cc (p, h.permission);
    evaluator = cc (q, h.evaluator);
    counted = λ tool. rw (c, l) (h.counted tool);
    listed = λ tool k. h.listed tool (rw l at k);
    capped = λ tool max k. rw l (h.capped tool max k);
  }

  call-capped :
      (s : BridgeState) (tool j : String) (max : ℕ)
      → IsAccounted allowed caps s
      → ((m : ℕ) → get tool s.rule_evaluator.max_calls ≡ some m → calls s.tool_call_counts tool < m)
      → get j caps ≡ some max
      → count j (push s.tool_call_history tool) ≤ max
  call-capped s tool j max h under c = ground (
    arith,
    h.capped j max c,
    h.counted j,
    h.evaluator,
    under max,
    bounded j max c,
    count-append j s.tool_call_history (tool ∷ []),
    eq_iff j tool,
  )

  IsAccounted-calls :
      (s : BridgeState) (clock : Clock) (tool : String)
      → decide clock s tool ≡ allow
      → IsAccounted allowed caps s
      → IsAccounted allowed caps (record s {
        tool_call_counts = bump tool s.tool_call_counts;
        tool_call_history = push s.tool_call_history tool;
      })
  IsAccounted-calls s clock tool d h =
      let (listed, under) = decide-allow clock s tool d in
      record {
        permission = h.permission;
        evaluator = h.evaluator;
        counted = λ j. call-counted s tool j (h.counted j);
        listed = λ j k. ground (
          arith,
          contains-push s.tool_call_history tool j,
          h.listed j,
          h.permission,
          listed,
          eq_iff tool j,
        );
        capped = λ j max c. call-capped s tool j max h under c;
      }

  pub IsAccounted-stable : IsStable (IsAccounted allowed caps)
  unfolding append_event mark_stopped
  IsAccounted-stable = record {
    append = λ s e h. same s (append_event s e) h refl refl refl refl;
    stop = λ s r k h. same s (mark_stopped s r) h refl refl refl refl;
    harness = λ s v h. same s (record s { last_harness = v }) h refl refl refl refl;
    app = λ s v h. same s (record s { last_app = v }) h refl refl refl refl;
    rules = λ s v h. same s (record s { last_rules = v }) h refl refl refl refl;
    stack = λ s v h. same s (record s { agent_name_stack = v }) h refl refl refl refl;
    usage = λ s n h. same s (record s { tokens_spent = n }) h refl refl refl refl;
    calls = IsAccounted-calls;
  }

  pub IsAccounted-cleared :
      (s : BridgeState)
      → IsAccounted allowed caps s
      → IsAccounted allowed caps (record s { events = [] })
  IsAccounted-cleared s h = same s (record s { events = [] }) h refl refl refl refl

  pub IsAccounted-new :
      (t : RunTemplate) (clock : Clock) (run : String)
      → t.allowed_tools ≡ allowed
      → t.per_tool_max_calls ≡ caps
      → IsAccounted allowed caps (build_state t clock run)
  unfolding build_state get
  IsAccounted-new t clock run a c = record {
    permission = a;
    evaluator = c;
    counted = λ tool. refl;
    listed = λ tool k. cc;
    capped = λ tool max k. omega arith;
  }

  -- Over any life of a new run whose caps are `u32` values, each request served whole, every count is
  -- the number of the tool's calls in the history, as a `u32` holds it, every tool called is on the
  -- allowlist, and none with a cap has been called more often than its cap.
  pub live-IsAccounted :
      (serde : Serde) (registry : ToolRegistry) (t : RunTemplate) (clock : Clock) (run : String)
      (acts : List Act)
      → t.allowed_tools ≡ allowed
      → t.per_tool_max_calls ≡ caps
      → IsAccounted allowed caps (live serde registry (build_state t clock run, []) acts).0
  live-IsAccounted serde registry t clock run acts a c =
      live-keeps serde registry (IsAccounted allowed caps) IsAccounted-stable IsAccounted-cleared
        acts (build_state t clock run) [] (IsAccounted-new t clock run a c)
