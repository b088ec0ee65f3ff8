-- ===== src/Core/Tool.antt =====
-- crates/core/src/tool/mod.rs: what a tool takes and returns, and what can go wrong.
use nanny.Prelude.{ℕ, String, ◌<>◌}
use nanny.Prelude.Dict.{Dict}
use nanny.Prelude.{Result, to_decimal}

abbrev pub ToolArgs : Type 0
ToolArgs = Dict String

pub record ToolOutput : Type 0 where
  pub content : String

pub data ToolError : Type 0 where
  invalid_argument : (arg reason : String) → ToolError
  execution_failed : String → ToolError
  timeout : (timeout_ms : ℕ) → ToolError

-- The `#[error(...)]` texts.
unfoldable pub error_text : ToolError → String
error_text (invalid_argument arg reason) = "invalid argument '" <> arg <> "': " <> reason
error_text (execution_failed message) = "execution failed: " <> message
error_text (timeout ms) = "timed out after " <> to_decimal ms <> "ms"

-- The trait `Tool`. What running it returns is up to the tool.
pub record Tool : Type 0 where
  pub name : String
  pub execute : ToolArgs → Result ToolError ToolOutput

pub data ToolCallError : Type 0 where
  not_found : (tool_name : String) → ToolCallError
  execution : (tool_name : String) (source : ToolError) → ToolCallError
