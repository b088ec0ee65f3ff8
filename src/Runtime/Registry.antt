-- ===== src/Runtime/Registry.antt =====
-- crates/runtime/src/tools/mod.rs: the tool registry.
use nanny.Prelude.{
  String, none, some, List, [], ◌≡◌, Result, ok, err, if◌then◌else◌, ◌==◌, string_eq, arith,
}
use nanny.Prelude.Dict.{Dict, get, insert, keys, get-insert}
use nanny.Core.Tool.{Tool, ToolArgs, ToolOutput, ToolError, ToolCallError, not_found, execution}

pub record ToolRegistry : Type 0 where
  pub tools : Dict Tool

-- `ToolRegistry::new`
abbrev pub new_registry : ToolRegistry
new_registry = record { tools = [] }

-- `ToolRegistry::register`
unfoldable pub register : ToolRegistry → Tool → ToolRegistry
register r tool = record { tools = insert tool.name tool r.tools }

-- `ToolRegistry::registered_names`
unfoldable pub registered_names : ToolRegistry → List String
registered_names r = keys r.tools

-- The `map_err` of `call`.
abbrev pub map_execution : String → Result ToolError ToolOutput → Result ToolCallError ToolOutput
map_execution name (ok output) = ok output
map_execution name (err source) = err (execution name source)

-- `ToolRegistry::call`
unfoldable pub call : ToolRegistry → String → ToolArgs → Result ToolCallError ToolOutput
call r name args = elim (get name r.tools) [
  | none ↦ err (not_found name)
  | some tool ↦ map_execution name (tool.execute args)
]

-- A call after a registration reaches the tool registered last under its name, and every other name
-- is called as before.
pub call-register :
    (r : ToolRegistry) (tool : Tool) (name : String) (args : ToolArgs)
    → call (register r tool) name args
      ≡ (if tool.name == name then map_execution name (tool.execute args) else call r name args)
unfolding call register
call-register r tool name args = ground (arith, get-insert tool.name name tool r.tools)
