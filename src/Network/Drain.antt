-- ===== src/Network/Drain.antt =====
-- crates/bridge/src/network.rs: the thread that drains the runs' events, in
-- `NetworkServer::start_blocking_synced`.
pub mod Close
use nanny.Prelude.{String, Bool, true, Option, none, some, List, [], ◌∷◌, ◌++◌, push, if◌then◌else◌}
use nanny.Prelude.Dict.{Dict, get, insert, keys}
use nanny.Core.Events.{LoggedEvent, execution_stopped}
use nanny.Bridge.State.{
  BridgeState, ExecutionState, running, stopped, Clock, elapsed_ms, append_event,
}
use nanny.Bridge.Handlers.{take_run_events}

-- The reason that a closing event carries: the run's own, or the caller's.
abbrev pub closing_reason : String → ExecutionState → String
closing_reason fallback running = fallback
closing_reason fallback (stopped reason) = reason

-- The body of the loop that closes the runs.
unfoldable pub close_run : Clock → String → BridgeState → BridgeState
close_run clock fallback s = append_event s (
    execution_stopped clock.now_ms (closing_reason fallback s.execution) s.tokens_spent
      (elapsed_ms clock s))

unfoldable pub close_all : Clock → String → Dict BridgeState → Dict BridgeState
unfolding close_run
close_all clock fallback [] = []
close_all clock fallback ((id, s) ∷ runs) =
    (id, close_run clock fallback s) ∷ close_all clock fallback runs

-- What the thread holds and has handed out. `gone` is set when the sink has failed.
pub record Drained : Type 0 where
  pub runs : Dict BridgeState
  pub logged : List LoggedEvent
  pub sent : List (String × List LoggedEvent)
  pub gone : Bool

-- The local log, if there is one, gets each line.
abbrev to_log : Bool → List LoggedEvent → List LoggedEvent → List LoggedEvent
to_log local_log logged lines = if local_log then logged ++ lines else logged

module _ (local_log : Bool) (sink : Option (String → List LoggedEvent → Bool)) where
  -- `if let Some(sink) = &event_sink { if sink.send((id, lines)).is_err() { return; } }`
  abbrev hand_over : String → List LoggedEvent → Drained → Drained
  hand_over id lines d = elim sink [
    | none ↦ d
    | some send ↦
        if send id lines
        then record d { sent = push d.sent (id, lines) }
        else record d { gone = true }
  ]

  -- The lines of one run, once they are taken.
  abbrev pub deliver : String → BridgeState → List LoggedEvent → Drained → Drained
  deliver id s [] d = d
  deliver id s (line ∷ lines) d =
      hand_over id (line ∷ lines)
        (record d { runs = insert id s d.runs; logged = to_log local_log d.logged (line ∷ lines) })

  -- One round of the sweep.
  unfoldable pub drain_run : String → Drained → Drained
  unfolding take_run_events
  drain_run id d = elim (get id d.runs) [
    | none ↦ d
    | some s ↦ let (s', lines) = take_run_events s in deliver id s' lines d
  ]

  -- The sweep over the ids that were read from the map.
  unfoldable pub sweep : List String → Drained → Drained
  unfolding drain_run
  sweep [] d = d
  sweep (id ∷ ids) d =
      let d' = drain_run id d in let rest = sweep ids d' in if d'.gone then d' else rest

  abbrev close_before : Clock → Option String → Dict BridgeState → Dict BridgeState
  close_before clock none runs = runs
  close_before clock (some reason) runs = close_all clock reason runs

  -- One pass of the thread. `stopping` is the reading of `drain_shutdown`, `reason` what `take()`
  -- finds in `stop_reason`.
  unfoldable pub pass : Clock → Bool → Option String → Drained → Drained
  unfolding sweep close_all
  pass clock stopping reason d =
      let runs = if stopping then close_before clock reason d.runs else d.runs in
      sweep (keys runs) (record d { runs = runs })
