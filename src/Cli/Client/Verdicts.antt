-- ===== src/Cli/Client/Verdicts.antt =====
-- What the answers of the bridge come to in a governed process (crates/cli/src/lib.rs).
use nanny.Prelude.{
  contains_text, ℕ, String, ◌≡◌, ◌≢◌, ◌↔◌, ◌⊎◌, inl, inr, refl, ap, Bool, true, false, Option, none,
  some, List, [], ◌∷◌, ◌++◌, arith, All, Bool-cases, ◌<>◌, ◌==◌, nat_eq,
}
use nanny.Prelude.Dict.{Dict}
use nanny.Core.Policy.{PolicyContext}
use nanny.Cli.Client.{
  BridgeResponse, Rule, BridgeStatus, StatusValue, no_status, status_of, or_given, with_defaults,
  first_denying, LocalVerdict, exited, evaluated, run, verdict_of, Transport, call_tool,
  declare_rules_once, local_context, evaluate_with, evaluate_local_rules,
}

-- The first rule that denies, or that there is none.
abbrev pub IsFirst : List Rule → PolicyContext → LocalVerdict → Type 0
IsFirst rules ctx exited = ⊥
IsFirst rules ctx (evaluated none) = All (λ r. r.func ctx ≡ true) rules
IsFirst rules ctx (evaluated (some name)) =
    (before : List Rule) × (rule : Rule) × (after : List Rule) × (rules ≡ before ++ rule ∷ after)
    × All (λ r. r.func ctx ≡ true) before
    × (rule.func ctx ≡ false)
    × (name ≡ rule.name)

-- The answer is a status of 200 whose body is read, and a field that it does not have is empty.
abbrev pub Reads : (String → Option StatusValue) → Option BridgeResponse → BridgeStatus → Type 0
Reads from_str answer status =
    (r : BridgeResponse) × (v : StatusValue) × (answer ≡ some r)
    × (r.status ≡ 200)
    × (from_str r.body ≡ some v)
    × (status ≡ record {
      tokens_spent = or_given v.tokens_spent 0;
      tool_call_counts = or_given v.tool_call_counts [];
      tool_call_history = or_given v.tool_call_history [];
      tool_labels = or_given v.tool_labels [];
    })

-- There is no answer, or another status, or a body that is not read.
abbrev pub IsUnread : (String → Option StatusValue) → Option BridgeResponse → Type 0
IsUnread from_str none = Unit
IsUnread from_str (some r) = (r.status ≢ 200) ⊎ (from_str r.body ≡ none)

-- Without a status a governed process exits, and another decides on zeros.
abbrev pub IsWithout : Bool → List Rule → (BridgeStatus → PolicyContext) → LocalVerdict → Type 0
IsWithout true rules ctx v = v ≡ exited
IsWithout false rules ctx v =
    IsFirst rules
      (ctx (record {
        tokens_spent = 0;
        tool_call_counts = [];
        tool_call_history = [];
        tool_labels = [];
      }))
      v

abbrev pub IsVerdict :
    (String → Option StatusValue)
    → Bool
    → Option BridgeResponse
    → List Rule
    → (BridgeStatus → PolicyContext)
    → LocalVerdict
    → Type 0
IsVerdict from_str is_active answer rules ctx v =
    ((status : BridgeStatus) × Reads from_str answer status × IsFirst rules (ctx status) v)
    ⊎ (IsUnread from_str answer × IsWithout is_active rules ctx v)

or_later :
    (rule : Rule) (rules : List Rule) (ctx : PolicyContext) (v : Option String)
    → rule.func ctx ≡ true
    → IsFirst rules ctx (evaluated v)
    → IsFirst (rule ∷ rules) ctx (evaluated v)
or_later rule rules ctx none e h = (e, h)
or_later rule rules ctx (some name) e (before, denying, after, same, allow, deny, named) =
    (rule ∷ before, denying, after, ap (λ rs. rule ∷ rs) same, (e, allow), deny, named)

first_denying-IsFirst :
    (rules : List Rule) (ctx : PolicyContext)
    → IsFirst rules ctx (evaluated (first_denying rules ctx))
unfolding first_denying
first_denying-IsFirst [] ctx = tt
first_denying-IsFirst (rule ∷ rules) ctx = elim (Bool-cases (rule.func ctx)) [
  | inl allows ↦ rw allows (or_later rule rules ctx _ allows (first_denying-IsFirst rules ctx))
  | inr denies ↦ rw denies ([], rule, rules, refl, tt, denies, refl)
]

module _ {W : Type 0} (transport : Transport W) (is_active : Bool) where
  evaluate_with-IsWithout :
      (json_string : String → String) (rules : List Rule) (ctx : BridgeStatus → PolicyContext)
      (w : W)
      → IsWithout is_active rules ctx
          (evaluate_with transport is_active json_string rules ctx w none).1
  evaluate_with-IsWithout json_string rules ctx w =
      elim is_active
        as (λ k. IsWithout k rules ctx (evaluate_with transport k json_string rules ctx w none).1) [
          | true ↦ refl
          | false ↦ first_denying-IsFirst rules (ctx no_status)
        ]

  module _ (from_str : String → Option StatusValue) (json_string : String → String)
      (rules : List Rule) (ctx : BridgeStatus → PolicyContext) (w : W) where
    Answered : Option BridgeResponse → Type 0
    Answered answer =
        IsVerdict from_str is_active answer rules ctx
          (evaluate_with transport is_active json_string rules ctx w (status_of from_str answer)).1

    with_defaults-IsVerdict :
        (r : BridgeResponse) (value : Option StatusValue)
        → r.status ≡ 200
        → from_str r.body ≡ value
        → IsVerdict from_str is_active
            (some r)
            rules
            ctx
            (evaluate_with transport is_active json_string rules ctx w (with_defaults value)).1
    with_defaults-IsVerdict r none same e =
        inr (inr e, evaluate_with-IsWithout json_string rules ctx w)
    with_defaults-IsVerdict r (some v) same e =
        inl (_, (r, v, refl, same, e, refl), first_denying-IsFirst rules _)

    status_of-Answered : (answer : Option BridgeResponse) → Answered answer
    unfolding status_of Answered
    status_of-Answered none = inr (tt, evaluate_with-IsWithout json_string rules ctx w)
    status_of-Answered (some r) = elim (Bool-cases (r.status == 200)) [
      | inr other ↦
          rw other
            (inr (inl (ground (arith, other)), evaluate_with-IsWithout json_string rules ctx w))
      | inl same ↦ rw same (with_defaults-IsVerdict r (from_str r.body) (ground (arith, same)) refl)
    ]

  -- Whatever the bridge answers to the request for the status. If the answer has status 200 and a body
  -- that is read, the answer is the first of the registered rules that denies what it says, or that
  -- every one allows it. If there is no answer, another status, or a body that is not read, a process
  -- under a bridge exits before any rule is asked, and a process without a bridge asks the rules with
  -- zero counters. The rules see the tool, its arguments and the two times.
  pub evaluate_local_rules-IsVerdict :
      (from_str : String → Option StatusValue) (json_string : String → String)
      (names_body : List String → String) (rules : List Rule) (tool_name : String)
      (args : Dict String) (elapsed_ms now_ms : ℕ) (s : Bool × W)
      → let (declared, w) = declare_rules_once transport is_active names_body rules s in
        let answer = (transport.http_get "/status" w).1 in
        IsVerdict from_str is_active answer rules
          (λ status. record {
            elapsed_ms = elapsed_ms;
            now_ms = now_ms;
            requested_tool = some tool_name;
            tokens_spent = status.tokens_spent;
            tool_call_counts = status.tool_call_counts;
            tool_call_history = status.tool_call_history;
            tool_labels = status.tool_labels;
            last_tool_args = args;
          })
          (evaluate_local_rules transport is_active from_str json_string names_body rules tool_name
            args elapsed_ms now_ms s).1
  unfolding evaluate_local_rules Answered
  evaluate_local_rules-IsVerdict from_str json_string names_body rules tool_name args elapsed_ms
        now_ms s =
      status_of-Answered from_str json_string rules (local_context tool_name args elapsed_ms now_ms)
        _ _

-- An answer of status 200 that has the word in quotes.
abbrev pub SaysAllowed : Option BridgeResponse → Type 0
SaysAllowed none = ⊥
SaysAllowed (some r) = (r.status ≡ 200) × (contains_text r.body "\"allowed\"" ≡ true)

-- No answer that decides.
abbrev pub IsSilent : Option BridgeResponse → Type 0
IsSilent none = Unit
IsSilent (some r) = (r.status ≢ 200) × (r.status ≢ 410)

verdict_of-run_iff :
    (is_active : Bool) (answer : Option BridgeResponse)
    → (verdict_of is_active answer ≡ run)
      ↔ (SaysAllowed answer ⊎ ((is_active ≡ false) × IsSilent answer))
unfolding verdict_of
verdict_of-run_iff true none = (λ h. cc, λ h. elim h [ inl k ↦ absurd k | inr (k, _) ↦ cc k ])
verdict_of-run_iff false none = (λ h. inr (refl, tt), λ h. refl)
verdict_of-run_iff is_active (some r) = (λ h. ground arith, λ h. ground arith)

-- A tool runs exactly if the bridge status_of-Answered with status 200 and a body that has `"allowed"`, or, in a
-- process without a bridge, if no answer of status 200 or 410 came.
pub call_tool-run_iff :
    {W : Type 0} (transport : Transport W) (is_active : Bool) (tool_name : String) (w : W)
    → let answer = (transport.http_post "/tool/call" ("{\"tool\":\"" <> tool_name <> "\"}") w).1 in
      ((call_tool transport is_active tool_name w).1 ≡ run)
      ↔ (SaysAllowed answer ⊎ ((is_active ≡ false) × IsSilent answer))
unfolding call_tool
call_tool-run_iff transport is_active tool_name w = verdict_of-run_iff is_active _
