-- ===== src/Network/Governor/Traffic/Keeps.antt =====
-- What the traffic of a governor of crates/bridge/src/network.rs keeps, of every run of its map.
use mathlib.Core.Path.{subst}
use nanny.Prelude.{
  String, ◌≡◌, refl, Bool, true, false, Option, none, some, List, [], ◌∷◌, arith, if_rule, ◌==◌,
  string_eq, Bool-cases, inl, inr, Option-cases,
}
use nanny.Prelude.Dict.{Dict, get, insert, get-insert, keys}
use nanny.Core.Events.{LoggedEvent}
use nanny.Bridge.State.{BridgeState, Clock}
use nanny.Bridge.Wire.{Serde}
use nanny.Bridge.Handlers.{take_run_events}
use nanny.Bridge.Template.{RunTemplate, build_state}
use nanny.Bridge.Stable.{IsStable}
use nanny.Network.RateLimiter.{check}
use nanny.Network.Router.{Route, build_router, Response, run_id_of}
use nanny.Network.Router.Keeps.{serve-keeps}
use nanny.Network.Drain.{close_run, close_all, Drained, deliver, drain_run, sweep, pass}
use nanny.Network.Governor.{
  AppState, Request, Routing, matched, method_not_allowed, unmatched, Moment, run_state, with_run,
  routed, dispatch, govern,
}
use nanny.Network.Governor.Traffic.{Event, arrives, drains, drained_runs, traffic}

-- What holds of every run of a map.
abbrev pub Runs : (BridgeState → Type 0) → Dict BridgeState → Type 0
Runs P runs = (id : String) (s : BridgeState) → get id runs ≡ some s → P s

pub Runs-insert :
    (P : BridgeState → Type 0) (runs : Dict BridgeState) (id : String) (s : BridgeState)
    → Runs P runs
    → P s
    → Runs P (insert id s runs)
Runs-insert P runs id s h p j s' e = elim (Bool-cases (id == j)) [
  | inl same ↦ subst P (ground (arith, get-insert id j s runs, e, same)) p
  | inr differ ↦ h j s' (ground (arith, get-insert id j s runs, e, differ))
]

run_state-new :
    (a : AppState) (clock : Clock) (id : String) (t : RunTemplate)
    → a.template ≡ t
    → get id a.runs ≡ none
    → build_state t clock id ≡ run_state a clock id
unfolding run_state build_state
run_state-new a clock id t h fresh = rw (fresh, h, run_state)

pub run_state-known :
    (a : AppState) (clock : Clock) (id : String) (s : BridgeState)
    → get id a.runs ≡ some s
    → s ≡ run_state a clock id
unfolding run_state
run_state-known a clock id s known = rw (known, run_state)

abbrev pub closed : Clock → String → Option BridgeState → Option BridgeState
closed clock fallback none = none
closed clock fallback (some s) = some (close_run clock fallback s)

pub get-close_all :
    (clock : Clock) (fallback id : String) (runs : Dict BridgeState)
    → get id (close_all clock fallback runs) ≡ closed clock fallback (get id runs)
unfolding close_all get
get-close_all clock fallback id [] = refl
get-close_all clock fallback id ((k, r) ∷ runs) =
    ground (arith, get-close_all clock fallback id runs)

module _ (P : BridgeState → Type 0) (st : IsStable P)
    (cleared : (s : BridgeState) → P s → P (record s { events = [] })) (template : RunTemplate)
    (new : (clock : Clock) (id : String) → P (build_state template clock id)) where
  -- A request of a run that is new to the map starts from a fresh state.
  run_state-keeps :
      (a : AppState) (clock : Clock) (id : String)
      → a.template ≡ template
      → Runs P a.runs
      → P (run_state a clock id)
  run_state-keeps a clock id t h = elim (Option-cases (get id a.runs)) [
    | inl fresh ↦ subst P (run_state-new a clock id template t fresh) (new clock id)
    | inr (s, known) ↦ subst P (run_state-known a clock id s known) (h id s known)
  ]

  -- The template stays, and what holds of every run holds still.
  HoldsOf : AppState → Type 0
  HoldsOf a = (a.template ≡ template) × Runs P a.runs

  routed-HoldsOf :
      (serde : Serde) (a : AppState) (m : Moment) (req : Request) (r : Routing)
      → HoldsOf a
      → HoldsOf (routed serde a m req r).0
  unfolding routed with_run HoldsOf
  routed-HoldsOf serde a m req (matched e) (t, h) = (
    t,
    Runs-insert P a.runs (run_id_of req.run_id) _ h (
        serve-keeps P st serde a.registry m.clock m.ts e req.body _
          (run_state-keeps a m.clock (run_id_of req.run_id) t h)),
  )
  routed-HoldsOf serde a m req method_not_allowed h = h
  routed-HoldsOf serde a m req unmatched h = h

  govern-HoldsOf :
      (serde : Serde) (axum : List Route → String → String → Routing) (a : AppState) (m : Moment)
      (req : Request)
      → HoldsOf a
      → HoldsOf (govern serde axum a m req).0
  unfolding govern dispatch HoldsOf
  govern-HoldsOf serde axum a m req h =
      let (limiter, passed) = check a.rate_limiter req.peer m.nanos in
      let a' : AppState = record a { rate_limiter = limiter } in
      if_rule (λ (r : AppState × Response). HoldsOf r.0) passed _ _
        (if_rule (λ (r : AppState × Response). HoldsOf r.0) _ _ _
          (routed-HoldsOf serde a' m req (axum build_router req.method req.path) h) h)
        h

  close_all-keeps :
      (clock : Clock) (fallback : String) (runs : Dict BridgeState)
      → Runs P runs
      → Runs P (close_all clock fallback runs)
  close_all-keeps clock fallback runs h id s e = elim (Option-cases (get id runs)) [
    | inl missing ↦ absurd (ground (arith, get-close_all clock fallback id runs, e, missing))
    | inr (r, known) ↦
        subst P {x = close_run clock fallback r}
          (ground (arith, get-close_all clock fallback id runs, e, known))
          (unfold close_run in st.append r _ (h id r known))
  ]

  deliver-keeps :
      (local_log : Bool) (sink : Option (String → List LoggedEvent → Bool)) (id : String)
      (s : BridgeState) (lines : List LoggedEvent) (d : Drained)
      → Runs P d.runs
      → P s
      → Runs P (deliver local_log sink id s lines d).runs
  deliver-keeps local_log sink id s [] d h p = h
  deliver-keeps local_log none id s (line ∷ lines) d h p = Runs-insert P d.runs id s h p
  deliver-keeps local_log (some send) id s (line ∷ lines) d h p =
      if_rule (λ (d' : Drained). Runs P d'.runs) _ _ _ (Runs-insert P d.runs id s h p)
        (Runs-insert P d.runs id s h p)

  module _ (local_log : Bool) (sink : Option (String → List LoggedEvent → Bool)) where
    drain_run-keeps :
        (id : String) (d : Drained) → Runs P d.runs → Runs P (drain_run local_log sink id d).runs
    unfolding drain_run take_run_events get
    drain_run-keeps id d h = elim (Option-cases (get id d.runs)) [
      | inl missing ↦ rw (missing, drain_run) h
      | inr (s, known) ↦
          rw (known, drain_run, take_run_events)
            (deliver-keeps local_log sink id (record s { events = [] }) s.events d h
              (cleared s (h id s known)))
    ]

    sweep-keeps :
        (ids : List String) (d : Drained) → Runs P d.runs → Runs P (sweep local_log sink ids d).runs
    unfolding sweep
    sweep-keeps [] d h = h
    sweep-keeps (id ∷ ids) d h =
        let h' = drain_run-keeps id d h in
        if_rule (λ (d' : Drained). Runs P d'.runs) _ _ _ h'
          (sweep-keeps ids (drain_run local_log sink id d) h')

  drained_runs-keeps :
      (local_log : Bool) (sink : Option (String → List LoggedEvent → Bool)) (clock : Clock)
      (stopping : Bool) (reason : Option String) (runs : Dict BridgeState)
      → Runs P runs
      → Runs P (drained_runs local_log sink clock stopping reason runs)
  unfolding drained_runs pass
  drained_runs-keeps local_log sink clock false reason runs h =
      sweep-keeps local_log sink (keys runs) _ h
  drained_runs-keeps local_log sink clock true none runs h =
      sweep-keeps local_log sink (keys runs) _ h
  drained_runs-keeps local_log sink clock true (some reason) runs h =
      sweep-keeps local_log sink (keys (close_all clock reason runs)) _
        (close_all-keeps clock reason runs h)

  -- What holds of every fresh run, and is stable, holds of every run of a governor whatever traffic it
  -- sees.
  pub traffic-keeps :
      (serde : Serde) (axum : List Route → String → String → Routing) (local_log : Bool)
      (sink : Option (String → List LoggedEvent → Bool)) (es : List Event) (a : AppState)
      → a.template ≡ template
      → Runs P a.runs
      → Runs P (traffic serde axum local_log sink a es).runs
  unfolding traffic HoldsOf
  traffic-keeps serde axum local_log sink [] a t h = h
  traffic-keeps serde axum local_log sink (arrives m req ∷ es) a t h =
      let (t', h') = govern-HoldsOf serde axum a m req (t, h) in
      traffic-keeps serde axum local_log sink es _ t' h'
  traffic-keeps serde axum local_log sink (drains clock stopping reason ∷ es) a t h =
      traffic-keeps serde axum local_log sink es _ t
        (drained_runs-keeps local_log sink clock stopping reason a.runs h)
