-- ===== src/Core/Policy/Labels.antt =====
-- Labels: the two readings of them, `tool_has` and `tools_with` of crates/core/src/policy/mod.rs.
use nanny.Prelude.{
  String, ◌≡◌, refl, ◌∙◌, false, List, [], ◌∷◌, map, select, contains, arith, eq_iff, string_eq,
}
use nanny.Prelude.Dict.{Dict, get, keys, HasDistinctKeys}
use nanny.Prelude.Order.{string_ord}
use nanny.Prelude.Sort.{contains-sort, sort-IsSorted, IsSorted}
use nanny.Core.Policy.{PolicyContext, carries, carried, tool_has, tools_with}

abbrev named : String → Dict (List String) → List String
named label m = map (λ (name, _). name) (select (λ (_, labels). carries label labels) m)

named-absent :
    (label tool : String) (m : Dict (List String))
    → contains (keys m) tool ≡ false
    → contains (named label m) tool ≡ false
named-absent label tool [] h = refl
named-absent label tool ((k, labels) ∷ m) h = ground (arith, named-absent label tool m)

named-get :
    (label tool : String) (m : Dict (List String))
    → HasDistinctKeys m
    → contains (named label m) tool ≡ carried label (get tool m)
unfolding get
named-get label tool [] h = refl
named-get label tool ((k, labels) ∷ m) (fresh, h) =
    ground (arith, named-get label tool m h, named-absent label tool m, eq_iff k tool)

-- Where each tool has its labels once, as in a map, `tools_with` lists exactly the tools of which
-- `tool_has` says that they carry the label, and it lists them in order.
pub tools_with-tool_has :
    (ctx : PolicyContext) (label : String)
    → HasDistinctKeys ctx.tool_labels
    → ((tool : String) → contains (tools_with ctx label) tool ≡ tool_has ctx tool label)
      × IsSorted (tools_with ctx label)
unfolding tools_with tool_has
tools_with-tool_has ctx label h = (
  λ tool. contains-sort tool (named label ctx.tool_labels) ∙ named-get label tool ctx.tool_labels h,
  sort-IsSorted (named label ctx.tool_labels),
)
