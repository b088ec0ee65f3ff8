-- ===== src/Network/Router/Log.antt =====
-- The log of one run: how `append_event` of crates/bridge/src/lib.rs numbers what the handlers append,
-- over requests, drains and the closing event.
use mathlib.Core.List.{append_assoc, append-nil}
use nanny.Prelude.{
  ℕ, suc, String, ◌+◌, ◌%◌, ◌≡◌, refl, List, [], ◌∷◌, ◌++◌, arith, length, length-append, u64_mod,
}
use nanny.Core.Events.{ExecutionEvent, LoggedEvent}
use nanny.Runtime.Registry.{ToolRegistry}
use nanny.Bridge.State.{BridgeState, Clock, append_event, mark_stopped}
use nanny.Bridge.Wire.{Serde}
use nanny.Bridge.Handlers.{take_run_events}
use nanny.Bridge.Template.{RunTemplate, build_state}
use nanny.Bridge.Stable.{IsStable}
use nanny.Network.Drain.{close_run}
use nanny.Network.Router.Keeps.{serve-keeps}
use nanny.Network.Router.Trace.{Act, request, drain, close, live}

-- The lines of a run are numbered upwards from `n`, in `u64` arithmetic.
abbrev pub Numbered : String → ℕ → List LoggedEvent → Type 0
Numbered run n [] = Unit
Numbered run n (e ∷ es) = (e.run_id ≡ run) × (e.seq ≡ n % u64_mod) × Numbered run (suc n) es

pub Numbered-append :
    (run : String) (n : ℕ) (es : List LoggedEvent) (e : LoggedEvent)
    → Numbered run n es
    → e.run_id ≡ run
    → e.seq ≡ (n + length es) % u64_mod
    → Numbered run n (es ++ e ∷ [])
Numbered-append run n [] e h r q = (r, omega arith, tt)
Numbered-append run n (x ∷ es) e (r', q', h) r q =
    (r', q', Numbered-append run (suc n) es e h r (omega arith))

-- With what was drained before, the buffered lines are numbered from 0, and the next number follows.
abbrev pub IsLogged : String → List LoggedEvent → BridgeState → Type 0
IsLogged run out s =
    (s.run_id ≡ run)
    × Numbered run 0 (out ++ s.events)
    × (s.next_seq ≡ length (out ++ s.events) % u64_mod)

abbrev stamp : BridgeState → ExecutionEvent → LoggedEvent
stamp s e = record { run_id = s.run_id; seq = s.next_seq; event = e }

module _ (run : String) (out : List LoggedEvent) where
  pub append_event-IsLogged :
      (s : BridgeState) (e : ExecutionEvent)
      → IsLogged run out s
      → IsLogged run out (append_event s e)
  unfolding append_event
  append_event-IsLogged s e (r, h, n) = rw (← append_assoc out s.events (stamp s e ∷ [])) (
    r,
    Numbered-append run 0 (out ++ s.events) (stamp s e) h r (omega arith),
    omega (arith, length-append {0} (out ++ s.events) (stamp s e ∷ [])),
  )

  IsLogged-stable : IsStable (IsLogged run out)
  unfolding mark_stopped
  IsLogged-stable = record {
    append = append_event-IsLogged;
    stop = λ s r k h. h;
    harness = λ s v h. h;
    app = λ s v h. h;
    rules = λ s v h. h;
    stack = λ s v h. h;
    usage = λ s n h. h;
    calls = λ s clock tool d h. h;
  }

module _ (serde : Serde) (registry : ToolRegistry) (run : String) where
  live-IsLogged :
      (acts : List Act) (s : BridgeState) (out : List LoggedEvent)
      → IsLogged run out s
      → IsLogged run (live serde registry (s, out) acts).1 (live serde registry (s, out) acts).0
  unfolding live
  live-IsLogged [] s out h = h
  live-IsLogged (request clock ts e body ∷ acts) s out h =
      live-IsLogged acts _ _ (
        serve-keeps (IsLogged run out) (IsLogged-stable run out) serde registry clock ts e body s h)
  live-IsLogged (drain ∷ acts) s out h =
      live-IsLogged acts _ _ (unfold take_run_events in rw (append-nil (out ++ s.events)) h)
  live-IsLogged (close clock fallback ∷ acts) s out h =
      live-IsLogged acts _ _ (unfold close_run in append_event-IsLogged run out s _ h)

  -- Over any life of a new run, requests, drains and closings in any order, the lines drained so far
  -- followed by those still buffered carry the run's id and the numbers 0, 1, 2 and so on, with no gap
  -- and no repetition, in `u64` arithmetic.
  pub live-Numbered :
      (t : RunTemplate) (clock : Clock) (acts : List Act)
      → Numbered run 0 (
          (live serde registry (build_state t clock run, []) acts).1
          ++ (live serde registry (build_state t clock run, []) acts).0.events)
  live-Numbered t clock acts =
      (live-IsLogged acts (build_state t clock run) []
        (unfold build_state in (refl, (refl, refl, tt), refl))).1
