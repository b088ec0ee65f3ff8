-- ===== src/Core/Events.antt =====
-- crates/core/src/events/event.rs: the events of the log, and their envelope.
use Prim.Native.Nat.{Ordering}
use nanny.Prelude.{ℕ, String, ◌≡◌, ◌↔◌, ap, Option, none, List, Bool, true}
use nanny.Prelude.{Eq, ◌==◌, string_eq, option_eq, pair_eq, pair_beq_iff}
use nanny.Prelude.Dict.{Dict}
use nanny.Prelude.Order.{
  Ord, string_ord, option_ord, pair_ord, pair_cmp, pair_same, pair_flip, pair_trans, swap,
}

pub record RuleDecl : Type 0 where
  pub name : String
  pub version : Option String
  pub pack : Option String

-- `RuleDecl::local`
abbrev pub rule_local : String → RuleDecl
rule_local name = record { name = name; version = none; pack = none }

pub data ExecutionEvent : Type 0 where
  execution_started :
      (ts : ℕ) (command : String) (allowed_tools : List String) (tool_labels : Dict (List String))
      (config_hash runtime_version : String)
      → ExecutionEvent
  tool_allowed : (ts : ℕ) (tool : String) (cleared_by : List String) → ExecutionEvent
  tool_denied : (ts : ℕ) (tool : String) → ExecutionEvent
  rule_denied : (ts : ℕ) (tool rule_name : String) (cleared_by : List String) → ExecutionEvent
  tool_failed : (ts : ℕ) (tool error : String) → ExecutionEvent
  llm_usage_recorded :
      (ts input output : ℕ) (model provider : Option String) (cache_read cache_write : Option ℕ)
      → ExecutionEvent
  harness_identified : (ts : ℕ) (name : String) (version : Option String) → ExecutionEvent
  app_identified : (ts : ℕ) (app_id name : String) → ExecutionEvent
  governor_identified : (ts : ℕ) (name address version : String) → ExecutionEvent
  rules_declared : (ts : ℕ) (rules : List RuleDecl) → ExecutionEvent
  agent_scope_entered : (ts : ℕ) (name : String) → ExecutionEvent
  agent_scope_exited : (ts : ℕ) (name : String) → ExecutionEvent
  execution_stopped : (ts : ℕ) (reason : String) (tokens_spent elapsed_ms : ℕ) → ExecutionEvent

pub record LoggedEvent : Type 0 where
  pub run_id : String
  pub seq : ℕ
  pub event : ExecutionEvent

-- The derived equality and order of `RuleDecl`: its fields in turn.
abbrev pub fields : RuleDecl → String × (Option String × Option String)
fields r = (r.name, (r.version, r.pack))

abbrev pub from_fields : String × (Option String × Option String) → RuleDecl
from_fields (name, (version, pack)) = record { name = name; version = version; pack = pack }

abbrev pub rule_beq : RuleDecl → RuleDecl → Bool
rule_beq r s = fields r == fields s

pub rule_beq_iff : (r s : RuleDecl) → (rule_beq r s ≡ true) ↔ (r ≡ s)
rule_beq_iff r s = (
  λ h. ap from_fields ((pair_beq_iff (fields r) (fields s)).0 h),
  λ h. (pair_beq_iff (fields r) (fields s)).1 (ap fields h),
)

instance abbrev pub rule_eq : Eq RuleDecl
rule_eq = record { beq = rule_beq; beq_iff = rule_beq_iff }

abbrev pub rule_cmp : RuleDecl → RuleDecl → Ordering
rule_cmp r s = pair_cmp (fields r) (fields s)

pub rule_same : (r s : RuleDecl) → rule_cmp r s ≡ Ordering.eq → r ≡ s
rule_same r s h = ap from_fields (pair_same (fields r) (fields s) h)

pub rule_flip : (r s : RuleDecl) → rule_cmp s r ≡ swap (rule_cmp r s)
rule_flip r s = pair_flip (fields r) (fields s)

pub rule_trans :
    (r s t : RuleDecl)
    → rule_cmp r s ≡ Ordering.lt
    → rule_cmp s t ≡ Ordering.lt
    → rule_cmp r t ≡ Ordering.lt
rule_trans r s t h k = pair_trans (fields r) (fields s) (fields t) h k

instance abbrev pub rule_ord : Ord RuleDecl
rule_ord = record { cmp = rule_cmp; same = rule_same; flip = rule_flip; trans = rule_trans }
