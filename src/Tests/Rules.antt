-- ===== src/Tests/Rules.antt =====
-- The policies of crates/runtime/src, the labels and the registry, at concrete values.
use nanny.Prelude.{
  All, map, Result, ok, List, [], ◌∷◌, ◌≡◌, ◌≢◌, Option, none, some, String, refl, if◌then◌else◌,
  ◌==◌, string_eq,
}
use nanny.Config.Pack.{PackManifest, load_declared_packs}
use nanny.Config.Pack.Closed.{manifest_path, load_declared_packs-pinned}
use nanny.Prelude.{String, ◌≡◌, refl, some, [], ◌∷◌, if◌then◌else◌, ◌==◌, string_eq, list_eq}
use nanny.Core.Policy.{PolicyContext, default_context}
use nanny.Runtime.Enforcement.{RuleEvaluator, ToolPermissionPolicy, permission_policy, rules_policy}
use nanny.Prelude.Order.{string_ord}
use nanny.Tests.{caps}

abbrev permission : ToolPermissionPolicy
permission = record { allowed_tools = "http_get" ∷ [] }

abbrev evaluator : RuleEvaluator
evaluator = record { max_calls = caps }

abbrev ctx : PolicyContext
ctx = record default_context {
  requested_tool = some "http_get";
  tool_call_counts = ("http_get", 2) ∷ [];
}

abbrev owasp : PackManifest
owasp = record {
  name = "nanny:owasp";
  version = "2.1";
  description = "";
  rules = [];
  python = none;
  rust = none;
  signature = none;
}

-- One file is on disk.
abbrev disk : String → Option String
disk path = if path == "/p/.nanny/rules/nanny-owasp@2.1/pack.toml" then some "raw" else none

abbrev toml : String → Result String PackManifest
toml raw = ok owasp

abbrev extends : List (String × String)
extends = ("nanny:owasp", "2.1") ∷ []

packs_load : load_declared_packs disk toml "/p" extends ≡ ok (owasp ∷ [])
unfolding load_declared_packs
packs_load = refl

load_declared_packs-pinned_example :
    (map (λ (m : PackManifest). (m.name, m.version)) (owasp ∷ []) ≡ extends)
    × All (λ p. disk (manifest_path disk toml "/p" p) ≢ none) extends
load_declared_packs-pinned_example =
    load_declared_packs-pinned disk toml "/p" extends (owasp ∷ []) packs_load
