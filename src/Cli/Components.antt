-- ===== src/Cli/Components.antt =====
-- crates/cli/src/runtime.rs: what the bridge enforces, from the configuration.
pub mod Governed
use nanny.Prelude.{ℕ, String, Option, none, some, List, [], ◌∷◌, ◌==◌, string_eq}
use nanny.Prelude.Dict.{Dict, get, insert}
use nanny.Runtime.Registry.{ToolRegistry}
use nanny.Bridge.Template.{BridgeComponents}
use nanny.Config.Settings.{ToolConfig, NannyConfig, labels, fingerprint}

abbrev cap_of : String → Option ℕ → Dict ℕ → Dict ℕ
cap_of name none m = m
cap_of name (some n) m = insert name n m

-- The caps: `filter_map` and `collect` into a map.
unfoldable pub max_calls_of : Dict ToolConfig → Dict ℕ
max_calls_of [] = []
max_calls_of ((name, cfg) ∷ per_tool) = cap_of name cfg.max_calls (max_calls_of per_tool)

abbrev pub labels_or_none : Option ToolConfig → List String
labels_or_none none = []
labels_or_none (some cfg) = labels cfg

-- The labels: one entry for every tool of the allowlist.
unfoldable pub labels_of : Dict ToolConfig → List String → Dict (List String)
labels_of per_tool [] = []
labels_of per_tool (name ∷ allowed) =
    insert name (labels_or_none (get name per_tool)) (labels_of per_tool allowed)

-- `build_bridge_components`, with the registry of the built-in tools, the fingerprint's hash and the
-- version that the build fills in.
unfoldable pub build_bridge_components :
    ToolRegistry → (NannyConfig → String) → String → NannyConfig → BridgeComponents
unfolding max_calls_of labels_of
build_bridge_components default_registry fingerprint_of version config = record {
  registry = default_registry;
  allowed_tools = config.tools.allowed;
  per_tool_max_calls = max_calls_of config.tools.per_tool;
  tool_labels = labels_of config.tools.per_tool config.tools.allowed;
  config_hash = fingerprint_of config;
  runtime_version = version;
  start_command = none;
}
