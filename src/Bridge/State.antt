-- ===== src/Bridge/State.antt =====
-- crates/bridge/src/lib.rs: `BridgeState`, and the two helpers that every handler writes it with.
-- A line of `events` is kept as the value that it serialises.
use nanny.Prelude.{ℕ, String, ◌+◌, ◌-◌, ◌%◌, Option, none, some, List, push, u64_mod}
use nanny.Prelude.Dict.{Dict}
use nanny.Core.Events.{RuleDecl, ExecutionEvent, LoggedEvent}
use nanny.Runtime.Enforcement.{ToolPermissionPolicy, RuleEvaluator}

pub data ExecutionState : Type 0 where
  running : ExecutionState
  stopped : (reason : String) → ExecutionState

pub record BridgeState : Type 0 where
  pub session_token : String
  pub execution : ExecutionState
  pub run_id : String
  pub next_seq : ℕ
  pub tool_permission_policy : ToolPermissionPolicy
  pub rule_evaluator : RuleEvaluator
  pub agent_name_stack : List String
  pub allowed_tools : List String
  pub tool_labels : Dict (List String)
  pub tokens_spent : ℕ
  pub tool_call_counts : Dict ℕ
  pub tool_call_history : List String
  pub start_time : ℕ
  pub events : List LoggedEvent
  pub last_harness : Option (String × Option String)
  pub last_rules : Option (List RuleDecl)
  pub last_app : Option (String × String)
  pub last_governor : Option (String × (String × String))

-- One reading of the clocks: the wall clock, and the monotonic instant, both in milliseconds.
pub record Clock : Type 0 where
  pub now_ms : ℕ
  pub instant : ℕ

-- `start_time.elapsed().as_millis() as u64`
unfoldable pub elapsed_ms : Clock → BridgeState → ℕ
elapsed_ms clock s = (clock.instant - s.start_time) % u64_mod

-- `append_event`; the counter wraps as a `u64` does in a release build.
unfoldable pub append_event : BridgeState → ExecutionEvent → BridgeState
append_event s event = record s {
  next_seq = (s.next_seq + 1) % u64_mod;
  events = push s.events (record { run_id = s.run_id; seq = s.next_seq; event = event });
}

-- The `match` of `mark_stopped`.
abbrev pub stop_with : String → ExecutionState → ExecutionState
stop_with reason running = stopped reason
stop_with reason (stopped first) = stopped first

-- `mark_stopped`
unfoldable pub mark_stopped : BridgeState → String → BridgeState
mark_stopped s reason = record s { execution = stop_with reason s.execution }

-- `stopped_reason`
abbrev pub reason_of : ExecutionState → Option String
reason_of running = none
reason_of (stopped reason) = some reason

unfoldable pub stopped_reason : BridgeState → Option String
stopped_reason s = reason_of s.execution
