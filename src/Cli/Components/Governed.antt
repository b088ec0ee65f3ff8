-- ===== src/Cli/Components/Governed.antt =====
-- A run that is governed by a configuration: from the nanny.toml to the verdict on its first call.
use mathlib.Core.List.{Mem}
use nanny.Prelude.{
  ℕ, String, ◌<◌, ◌≡◌, ◌↔◌, refl, sym, ◌∙◌, false, ◌&&◌, Option, none, some, List, [], ◌∷◌, arith,
  contains, ◌==◌, string_eq, if◌then◌else◌, eq_iff,
}
use nanny.Prelude.Dict.{Dict, get, get-insert, keys, HasDistinctKeys}
use nanny.Core.Policy.{tool_has, carries, carried}
use nanny.Runtime.Registry.{ToolRegistry}
use nanny.Bridge.State.{BridgeState, running, Clock}
use nanny.Bridge.Wire.{Body, Serde, ToolCallRequest}
use nanny.Bridge.Template.{init_run_template, build_state}
use nanny.Bridge.ToolCall.{handle_tool_call, context_of}
use nanny.Bridge.ToolCall.Outcome.{handle_tool_call-running_iff}
use nanny.Config.Settings.{ToolConfig, NannyConfig}
use nanny.Cli.Components.{cap_of, max_calls_of, labels_or_none, labels_of, build_bridge_components}

abbrev pub cap : Option ToolConfig → Option ℕ
cap none = none
cap (some cfg) = cfg.max_calls

get-cap_of :
    (name tool : String) (max : Option ℕ) (m : Dict ℕ)
    → get name m ≡ none
    → get tool (cap_of name max m) ≡ (if name == tool then max else get tool m)
get-cap_of name tool none m h = ground (arith, h, eq_iff name tool)
get-cap_of name tool (some n) m h = get-insert name tool n m

get-absent :
    {V : Type 0} (tool : String) (m : Dict V) → contains (keys m) tool ≡ false → get tool m ≡ none
unfolding get
get-absent tool [] h = refl
get-absent tool ((k, v) ∷ m) h = ground (arith, get-absent tool m)

-- Each tool's cap is the one of its table.
get-max_calls_of :
    (tool : String) (per_tool : Dict ToolConfig)
    → HasDistinctKeys per_tool
    → get tool (max_calls_of per_tool) ≡ cap (get tool per_tool)
unfolding max_calls_of get
get-max_calls_of tool [] h = refl
get-max_calls_of tool ((name, cfg) ∷ per_tool) (fresh, h) = ground (
  arith,
  get-cap_of name tool cfg.max_calls (max_calls_of per_tool),
  get-max_calls_of name per_tool h,
  get-max_calls_of tool per_tool h,
  get-absent name per_tool fresh,
  eq_iff name tool,
)

carried-labels_of :
    (label tool : String) (per_tool : Dict ToolConfig) (allowed : List String)
    → carried label (get tool (labels_of per_tool allowed))
      ≡ (contains allowed tool && carries label (labels_or_none (get tool per_tool)))
unfolding labels_of get
carried-labels_of label tool per_tool [] = refl
carried-labels_of label tool per_tool (name ∷ allowed) = ground (
  arith,
  get-insert name tool (labels_or_none (get name per_tool)) (labels_of per_tool allowed),
  carried-labels_of label tool per_tool allowed,
  eq_iff name tool,
)

module _ (default_registry : ToolRegistry) (fingerprint_of : NannyConfig → String)
    (version : String) (config : NannyConfig) (token : String) (clock : Clock)
    (run_id : String) where
  -- The state in which a governor that was started with the configuration begins a run.
  unfoldable pub configured : BridgeState
  unfolding build_state init_run_template build_bridge_components
  configured =
      let (template, registry) =
        init_run_template (build_bridge_components default_registry fingerprint_of version config)
          token in
      build_state template clock run_id

  -- Under a configuration, with each tool's table once, the first call of a run goes through exactly if
  -- the tool is listed in `tools.allowed` and its `max_calls`, if its table sets one, is not 0.
  pub configured-running_iff :
      (serde : Serde) (ts : ℕ) (body : Body) (req : ToolCallRequest)
      → HasDistinctKeys config.tools.per_tool
      → serde.tool_call_request body ≡ some req
      → ((handle_tool_call serde default_registry clock ts body configured).0.execution ≡ running)
        ↔ (Mem req.tool config.tools.allowed
            × ((max : ℕ) → cap (get req.tool config.tools.per_tool) ≡ some max → 0 < max))
  unfolding configured get
  configured-running_iff serde ts body req distinct parsed =
      let iff =
        handle_tool_call-running_iff serde default_registry clock ts body configured req parsed
          refl in
      let same = get-max_calls_of req.tool config.tools.per_tool distinct in
      (
        λ k. let (listed, under) = iff.0 k in (listed, λ max e. under max (same ∙ e)),
        λ (listed, under). iff.1 (listed, λ max e. under max (sym same ∙ e)),
      )

  -- A rule that asks whether a tool carries a label is answered from the configuration: the tool is
  -- listed in `tools.allowed`, and its table sets the label.
  pub configured-tool_has :
      (asked tool label : String)
      → tool_has (context_of clock configured asked) tool label ≡ (
          contains config.tools.allowed tool
          && carries label (labels_or_none (get tool config.tools.per_tool)))
  unfolding configured tool_has context_of
  configured-tool_has asked tool label =
      carried-labels_of label tool config.tools.per_tool config.tools.allowed
