-- ===== src/Network/Governor/Traffic/Stays.antt =====
-- What one run of a governor of crates/bridge/src/network.rs keeps, whatever the traffic of all runs.
use mathlib.Core.Path.{subst}
use nanny.Prelude.{
  String, ◌≡◌, ◌∙◌, ap, Bool, true, false, Option, none, some, List, [], ◌∷◌, arith, if_rule,
  eq_iff, ◌==◌, string_eq, Bool-cases, inl, inr, Option-cases,
}
use nanny.Prelude.Dict.{Dict, get, insert, get-insert, keys}
use nanny.Core.Events.{LoggedEvent}
use nanny.Bridge.State.{BridgeState, Clock, stopped}
use nanny.Bridge.Wire.{Serde}
use nanny.Bridge.Handlers.{take_run_events}
use nanny.Bridge.Stable.{IsStable}
use nanny.Network.RateLimiter.{check}
use nanny.Network.Router.{Route, build_router, Response, run_id_of}
use nanny.Network.Router.Keeps.{serve-keeps}
use nanny.Network.Drain.{close_run, close_all, Drained, deliver, drain_run, sweep, pass}
use nanny.Network.Governor.{
  AppState, Request, Routing, matched, method_not_allowed, unmatched, Moment, run_state, with_run,
  routed, dispatch, govern,
}
use nanny.Network.Governor.Traffic.{Event, arrives, drains, drained_runs, traffic}
use nanny.Network.Governor.Traffic.Keeps.{run_state-known, get-close_all, closed}
use nanny.Network.Router.Stops.{IsStopped-stable}

-- The run with an id is in the map, and the predicate holds of it.
abbrev pub RunHolds : (BridgeState → Type 0) → String → Dict BridgeState → Type 0
RunHolds P id runs = (s : BridgeState) × (get id runs ≡ some s) × P s

RunHolds-insert :
    (P : BridgeState → Type 0) (runs : Dict BridgeState) (id k : String) (s : BridgeState)
    → RunHolds P id runs
    → (k ≡ id → P s)
    → RunHolds P id (insert k s runs)
RunHolds-insert P runs id k s (r, known, p) q = elim (Bool-cases (k == id)) [
  | inl same ↦ (s, ground (arith, get-insert k id s runs, same), q ((eq_iff k id).0 same))
  | inr differ ↦ (r, ground (arith, get-insert k id s runs, differ, known), p)
]

module _ (P : BridgeState → Type 0) (st : IsStable P)
    (cleared : (s : BridgeState) → P s → P (record s { events = [] })) (id : String) where
  run_state-stays :
      (a : AppState) (clock : Clock) (k : String)
      → RunHolds P id a.runs
      → k ≡ id
      → P (run_state a clock k)
  run_state-stays a clock k (s, known, p) same =
      subst P (run_state-known a clock k s (cc (known, same))) p

  routed-stays :
      (serde : Serde) (a : AppState) (m : Moment) (req : Request) (r : Routing)
      → RunHolds P id a.runs
      → RunHolds P id (routed serde a m req r).0.runs
  unfolding routed with_run
  routed-stays serde a m req (matched e) h =
      RunHolds-insert P a.runs id (run_id_of req.run_id) _ h λ same.
        serve-keeps P st serde a.registry m.clock m.ts e req.body _
          (run_state-stays a m.clock (run_id_of req.run_id) h same)
  routed-stays serde a m req method_not_allowed h = h
  routed-stays serde a m req unmatched h = h

  govern-stays :
      (serde : Serde) (axum : List Route → String → String → Routing) (a : AppState) (m : Moment)
      (req : Request)
      → RunHolds P id a.runs
      → RunHolds P id (govern serde axum a m req).0.runs
  unfolding govern dispatch
  govern-stays serde axum a m req h =
      let (limiter, passed) = check a.rate_limiter req.peer m.nanos in
      let a' : AppState = record a { rate_limiter = limiter } in
      if_rule (λ (r : AppState × Response). RunHolds P id r.0.runs) passed _ _
        (if_rule (λ (r : AppState × Response). RunHolds P id r.0.runs) _ _ _
          (routed-stays serde a' m req (axum build_router req.method req.path) h) h)
        h

  close_all-stays :
      (clock : Clock) (fallback : String) (runs : Dict BridgeState)
      → RunHolds P id runs
      → RunHolds P id (close_all clock fallback runs)
  close_all-stays clock fallback runs (s, known, p) = (
    close_run clock fallback s,
    get-close_all clock fallback id runs ∙ ap (closed clock fallback) known,
    unfold close_run in st.append s _ p,
  )

  module _ (local_log : Bool) (sink : Option (String → List LoggedEvent → Bool)) where
    deliver-stays :
        (sink' : Option (String → List LoggedEvent → Bool)) (k : String) (s : BridgeState)
        (lines : List LoggedEvent) (d : Drained)
        → RunHolds P id d.runs
        → (k ≡ id → P s)
        → RunHolds P id (deliver local_log sink' k s lines d).runs
    deliver-stays sink' k s [] d h q = h
    deliver-stays none k s (line ∷ lines) d h q = RunHolds-insert P d.runs id k s h q
    deliver-stays (some send) k s (line ∷ lines) d h q =
        if_rule (λ (d' : Drained). RunHolds P id d'.runs) _ _ _
          (RunHolds-insert P d.runs id k s h q) (RunHolds-insert P d.runs id k s h q)

    drain_run-stays :
        (k : String) (d : Drained)
        → RunHolds P id d.runs
        → RunHolds P id (drain_run local_log sink k d).runs
    unfolding drain_run take_run_events
    drain_run-stays k d (s, known, p) = elim (Option-cases (get k d.runs)) [
      | inl missing ↦ rw (missing, drain_run) (s, known, p)
      | inr (r, here) ↦
          rw (here, drain_run, take_run_events)
            (deliver-stays sink k (record r { events = [] }) r.events d (s, known, p)
              λ same. cleared r (subst P (ground (arith, known, here, same)) p))
    ]

    sweep-stays :
        (ids : List String) (d : Drained)
        → RunHolds P id d.runs
        → RunHolds P id (sweep local_log sink ids d).runs
    unfolding sweep
    sweep-stays [] d h = h
    sweep-stays (k ∷ ids) d h =
        let h' = drain_run-stays k d h in
        if_rule (λ (d' : Drained). RunHolds P id d'.runs) _ _ _ h'
          (sweep-stays ids (drain_run local_log sink k d) h')

    drained_runs-stays :
        (clock : Clock) (stopping : Bool) (reason : Option String) (runs : Dict BridgeState)
        → RunHolds P id runs
        → RunHolds P id (drained_runs local_log sink clock stopping reason runs)
    unfolding drained_runs pass
    drained_runs-stays clock false reason runs h = sweep-stays (keys runs) _ h
    drained_runs-stays clock true none runs h = sweep-stays (keys runs) _ h
    drained_runs-stays clock true (some reason) runs h =
        sweep-stays (keys (close_all clock reason runs)) _ (close_all-stays clock reason runs h)

    traffic-stays :
        (serde : Serde) (axum : List Route → String → String → Routing) (es : List Event)
        (a : AppState)
        → RunHolds P id a.runs
        → RunHolds P id (traffic serde axum local_log sink a es).runs
    unfolding traffic
    traffic-stays serde axum [] a h = h
    traffic-stays serde axum (arrives m req ∷ es) a h =
        traffic-stays serde axum es _ (govern-stays serde axum a m req h)
    traffic-stays serde axum (drains clock stopping reason ∷ es) a h =
        traffic-stays serde axum es _ (drained_runs-stays clock stopping reason a.runs h)

-- A run of the governor that has stopped is never lost, replaced or started again: after any traffic,
-- of its own clients and of others, it is in the map and stopped for the same reason.
pub traffic-stopped :
    (serde : Serde) (axum : List Route → String → String → Routing) (local_log : Bool)
    (sink : Option (String → List LoggedEvent → Bool)) (a : AppState) (es : List Event)
    (id reason : String) (s : BridgeState)
    → get id a.runs ≡ some s
    → s.execution ≡ stopped reason
    → RunHolds (λ r. r.execution ≡ stopped reason) id (traffic serde axum local_log sink a es).runs
traffic-stopped serde axum local_log sink a es id reason s known h =
    traffic-stays (λ r. r.execution ≡ stopped reason) (IsStopped-stable reason) (λ r k. k) id
      local_log sink serde axum es a (s, known, h)
