-- ===== src/Bridge/Attribution.antt =====
-- crates/bridge/src/lib.rs: the `record_*` functions. Each appends its event only when what it
-- declares differs from what was declared last.
pub mod Idempotent
use nanny.Prelude.{
  ℕ, String, Bool, true, false, not, Option, none, some, List, [], ◌∷◌, map, select, trim, is_empty,
  if◌then◌else◌, ◌==◌, string_eq, option_eq, pair_eq, list_eq,
}
use nanny.Prelude.Sort.{sort, dedup}
use nanny.Core.Events.{
  RuleDecl, rule_eq, rule_ord, harness_identified, app_identified, governor_identified,
  rules_declared,
}
use nanny.Bridge.State.{BridgeState, append_event}

-- `record_harness`
unfoldable pub record_harness : ℕ → BridgeState → String → Option String → BridgeState
record_harness ts s name version =
    let name' = trim name in
    if is_empty name'
    then s
    else if s.last_harness == some (name', version)
    then s
    else append_event (record s { last_harness = some (name', version) })
        (harness_identified ts name' version)

-- `record_app`
unfoldable pub record_app : ℕ → BridgeState → String → String → BridgeState
record_app ts s app_id name =
    let app_id' = trim app_id in
    if is_empty app_id'
    then s
    else if s.last_app == some (app_id', trim name)
    then s
    else append_event (record s { last_app = some (app_id', trim name) })
        (app_identified ts app_id' (trim name))

-- `record_governor`
unfoldable pub record_governor : ℕ → BridgeState → String → String → String → BridgeState
record_governor ts s name address version =
    if s.last_governor == some (name, (address, version))
    then s
    else append_event (record s { last_governor = some (name, (address, version)) })
        (governor_identified ts name address version)

-- The `map` and `filter` of `record_rules`, with the sort and the deduplication after them.
abbrev trim_name : RuleDecl → RuleDecl
trim_name r = record r { name = trim r.name }

abbrev pub named_rules : List RuleDecl → List RuleDecl
named_rules rules = select (λ r. not (is_empty r.name)) (map trim_name rules)

unfoldable pub normal_rules : List RuleDecl → List RuleDecl
normal_rules rules = dedup (sort (named_rules rules))

abbrev no_rules : List RuleDecl → Bool
no_rules [] = true
no_rules (r ∷ rs) = false

-- `record_rules`
unfoldable pub record_rules : ℕ → BridgeState → List RuleDecl → BridgeState
record_rules ts s rules =
    let rules' = normal_rules rules in
    if no_rules rules'
    then s
    else if s.last_rules == some rules'
    then s
    else append_event (record s { last_rules = some rules' }) (rules_declared ts rules')
