-- ===== src/Bridge/Attribution/Idempotent.antt =====
-- Declaring twice: the `record_*` functions of crates/bridge/src/lib.rs.
use nanny.Prelude.{
  ℕ, String, ◌≡◌, Option, some, List, arith, trim, contains, ==_refl, string_eq, option_eq, pair_eq,
  list_eq,
}
use nanny.Prelude.Sort.{dedup-sort_eq}
use nanny.Core.Events.{RuleDecl, rule_eq, rule_ord}
use nanny.Bridge.State.{BridgeState, append_event}
use nanny.Bridge.Attribution.{record_harness, record_app, record_rules, normal_rules, named_rules}

-- A harness declared again right away, at any later time, adds nothing.
pub record_harness_idempotent :
    (ts ts' : ℕ) (s : BridgeState) (name : String) (version : Option String)
    → record_harness ts' (record_harness ts s name version) name version
      ≡ record_harness ts s name version
unfolding record_harness append_event
record_harness_idempotent ts ts' s name version =
    ground (arith, ==_refl {A = Option (String × Option String)} (some (trim name, version)))

-- An app declared again right away, at any later time, adds nothing.
pub record_app_idempotent :
    (ts ts' : ℕ) (s : BridgeState) (id name : String)
    → record_app ts' (record_app ts s id name) id name ≡ record_app ts s id name
unfolding record_app append_event
record_app_idempotent ts ts' s id name =
    ground (arith, ==_refl {A = Option (String × String)} (some (trim id, trim name)))

-- Two declarations name the same rules if, with the names trimmed and the unnamed left out, they have
-- the same members.
abbrev pub SameRules : List RuleDecl → List RuleDecl → Type 0
SameRules rs qs = (r : RuleDecl) → contains (named_rules rs) r ≡ contains (named_rules qs) r

normal_rules-eq : (rs qs : List RuleDecl) → SameRules rs qs → normal_rules rs ≡ normal_rules qs
unfolding normal_rules
normal_rules-eq rs qs h = dedup-sort_eq (named_rules rs) (named_rules qs) h

-- Rules declared again as the same set, in any order and with any repetition, add nothing, whenever
-- that is.
pub record_rules_same :
    (ts ts' : ℕ) (s : BridgeState) (rs qs : List RuleDecl)
    → SameRules rs qs
    → record_rules ts' (record_rules ts s rs) qs ≡ record_rules ts s rs
unfolding record_rules append_event
record_rules_same ts ts' s rs qs h =
    rw (← normal_rules-eq rs qs h)
      (ground (arith, ==_refl {A = Option (List RuleDecl)} (some (normal_rules rs))))
