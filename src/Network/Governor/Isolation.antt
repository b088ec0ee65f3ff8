-- ===== src/Network/Governor/Isolation.antt =====
-- One governor, many runs: what a request can and cannot change (crates/bridge/src/network.rs).
use nanny.Prelude.{String, ◌≡◌, ◌≢◌, refl, ◌⊎◌, false, List, arith, eq_iff, if_rule}
use nanny.Prelude.Dict.{get, get-insert}
use nanny.Bridge.State.{BridgeState, Clock}
use nanny.Bridge.Wire.{Serde}
use nanny.Network.RateLimiter.{check}
use nanny.Network.Auth.{session_token_ok}
use nanny.Network.Router.{Route, build_router, Response, run_id_of}
use nanny.Network.Governor.{
  AppState, Request, Routing, matched, method_not_allowed, unmatched, Moment, run_state, with_run,
  routed, dispatch, govern, too_many_requests, unauthorized,
}

with_run-other :
    (app : AppState) (clock : Clock) (id j : String)
    (handler : BridgeState → BridgeState × Response)
    → j ≢ id
    → get j (with_run app clock id handler).0.runs ≡ get j app.runs
unfolding with_run
with_run-other app clock id j handler h =
    ground (arith, get-insert id j (handler (run_state app clock id)).0 app.runs, eq_iff id j)

module _ (serde : Serde) where
  routed-other :
      (app : AppState) (m : Moment) (req : Request) (r : Routing) (j : String)
      → j ≢ run_id_of req.run_id
      → get j (routed serde app m req r).0.runs ≡ get j app.runs
  unfolding routed
  routed-other app m req (matched e) j h = with_run-other app m.clock (run_id_of req.run_id) j _ h
  routed-other app m req method_not_allowed j h = refl
  routed-other app m req unmatched j h = refl

module _ (serde : Serde) (axum : List Route → String → String → Routing) where
  -- Nanny stops the run, not the host: a request changes no other run than its own, whatever it asks
  -- and whatever comes of it.
  pub govern-other :
      (app : AppState) (m : Moment) (req : Request) (j : String)
      → j ≢ run_id_of req.run_id
      → get j (govern serde axum app m req).0.runs ≡ get j app.runs
  unfolding govern dispatch
  govern-other app m req j h =
      let (limiter, passed) = check app.rate_limiter req.peer m.nanos in
      let app' : AppState = record app { rate_limiter = limiter } in
      if_rule (λ (r : AppState × Response). get j r.0.runs ≡ get j app.runs) passed _ _
        (if_rule (λ (r : AppState × Response). get j r.0.runs ≡ get j app.runs) _ _ _
          (routed-other serde app' m req (axum build_router req.method req.path) j h) refl)
        refl

  -- Without an accepted token, a request for anything but `/health` changes no run and creates none,
  -- and is answered 401, or 429 if its address is over the rate limit.
  pub govern-unauthorized :
      (app : AppState) (m : Moment) (req : Request)
      → req.path ≢ "/health"
      → session_token_ok req.session_token app.session_tokens ≡ false
      → ((govern serde axum app m req).0.runs ≡ app.runs)
        × (((govern serde axum app m req).1 ≡ unauthorized)
            ⊎ ((govern serde axum app m req).1 ≡ too_many_requests))
  unfolding govern
  govern-unauthorized app m req p t = ground (arith, eq_iff req.path "/health")
