-- ===== src/Core/Policy.antt =====
-- crates/core/src/policy/mod.rs: what a policy reads and what it answers.
pub mod Labels
use nanny.Prelude.{ℕ, String, Bool, true, false, Option, none, some, List, [], ◌∷◌, map}
use nanny.Prelude.{any, select, ◌==◌, string_eq}
use nanny.Prelude.Dict.{Dict, get}
use nanny.Prelude.Order.{string_ord}
use nanny.Prelude.Sort.{sort}
use nanny.Core.Agent.{StopReason}

pub record PolicyContext : Type 0 where
  pub elapsed_ms : ℕ
  pub now_ms : ℕ
  pub requested_tool : Option String
  pub tokens_spent : ℕ
  pub tool_call_counts : Dict ℕ
  pub tool_call_history : List String
  pub tool_labels : Dict (List String)
  pub last_tool_args : Dict String

-- `PolicyContext::default()`
abbrev pub default_context : PolicyContext
default_context = record {
  elapsed_ms = 0;
  now_ms = 0;
  requested_tool = none;
  tokens_spent = 0;
  tool_call_counts = [];
  tool_call_history = [];
  tool_labels = [];
  last_tool_args = [];
}

-- `labels.iter().any(|l| l == label)`
unfoldable pub carries : String → List String → Bool
carries label labels = any (λ l. l == label) labels

abbrev pub carried : String → Option (List String) → Bool
carried label none = false
carried label (some labels) = carries label labels

-- `PolicyContext::tool_has`
unfoldable pub tool_has : PolicyContext → String → String → Bool
unfolding carries
tool_has ctx tool label = carried label (get tool ctx.tool_labels)

-- `PolicyContext::tools_with`
unfoldable pub tools_with : PolicyContext → String → List String
unfolding carries
tools_with ctx label =
    sort (map (λ (name, _). name) (select (λ (_, labels). carries label labels) ctx.tool_labels))

pub data PolicyDecision : Type 0 where
  allow : PolicyDecision
  deny : (reason : StopReason) → PolicyDecision

-- The trait `Policy`.
pub record Policy (P : Type 0) : Type 0 where
  pub evaluate : P → PolicyContext → PolicyDecision
