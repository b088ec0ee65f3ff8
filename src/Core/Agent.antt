-- ===== src/Core/Agent.antt =====
-- crates/core/src/agent/state.rs: why an execution stopped, and its states.
use nanny.Prelude.{String, Bool, true, false}

pub data StopReason : Type 0 where
  tool_denied : (tool_name : String) → StopReason
  rule_denied : (rule_name : String) → StopReason
  manual_stop : StopReason
  agent_completed : StopReason

pub data ExecutionState : Type 0 where
  initialized : ExecutionState
  running : ExecutionState
  stopped : (reason : StopReason) → ExecutionState
  failed : (error : String) → ExecutionState

unfoldable pub is_terminal : ExecutionState → Bool
is_terminal (stopped reason) = true
is_terminal (failed error) = true
is_terminal _ = false
