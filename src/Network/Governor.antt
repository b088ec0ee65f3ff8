-- ===== src/Network/Governor.antt =====
-- crates/bridge/src/network.rs: `AppState`, and `GovernorService::call`, through which every request
-- passes. The router that matches a request with a route is axum's, a parameter.
pub mod Isolation
pub mod Traffic
pub mod Boot
use nanny.Prelude.{
  ℕ, String, Bool, true, false, not, ◌&&◌, Option, none, some, List, if◌then◌else◌, ◌==◌, string_eq,
}
use nanny.Prelude.Dict.{Dict, get, insert}
use nanny.Runtime.Registry.{ToolRegistry}
use nanny.Bridge.State.{BridgeState, Clock}
use nanny.Bridge.Wire.{Body, Serde}
use nanny.Bridge.Template.{RunTemplate, build_state}
use nanny.Network.RateLimiter.{RateLimiter, check}
use nanny.Network.Auth.{session_token_ok}
use nanny.Network.Router.{Endpoint, Route, build_router, Response, serve, run_id_of}

pub record AppState : Type 0 where
  pub runs : Dict BridgeState
  pub template : RunTemplate
  pub registry : ToolRegistry
  pub session_tokens : List (List ℕ)
  pub rate_limiter : RateLimiter

pub record Request : Type 0 where
  pub peer : String
  pub method : String
  pub path : String
  pub session_token : Option (List ℕ)
  pub run_id : Option String
  pub body : Body

-- What axum's `Router` makes of a method and a path.
pub data Routing : Type 0 where
  matched : Endpoint → Routing
  method_not_allowed : Routing
  unmatched : Routing

-- The readings that one request takes: the rate limiter's instant in nanoseconds, the clocks of the
-- handler, and the time of the event that it appends.
pub record Moment : Type 0 where
  pub nanos : ℕ
  pub clock : Clock
  pub ts : ℕ

-- `entry(run_id).or_insert_with(|| template.build_state(&run_id))`
unfoldable pub run_state : AppState → Clock → String → BridgeState
run_state app clock run_id = elim (get run_id app.runs) [
  | none ↦ build_state app.template clock run_id
  | some s ↦ s
]

-- A handler on the state of one run, which the map shares.
unfoldable pub with_run :
    AppState → Clock → String → (BridgeState → BridgeState × Response) → AppState × Response
with_run app clock run_id handler =
    let (s, response) = handler (run_state app clock run_id) in
    (record app { runs = insert run_id s app.runs }, response)

abbrev plain : ℕ → String → Response
plain status body = record { status = status; content_type = none; body = body }

abbrev pub too_many_requests : Response
too_many_requests = plain 429 "{\"error\":\"rate limit exceeded\"}"

abbrev pub unauthorized : Response
unauthorized = plain 401 "{\"error\":\"Unauthorized\"}"

-- `route_not_found`
abbrev pub route_not_found : Response
route_not_found = plain 404 "{\"error\":\"Not Found\"}"

-- What the router does with a request.
unfoldable pub routed : Serde → AppState → Moment → Request → Routing → AppState × Response
routed serde app m req (matched endpoint) =
    with_run app m.clock (run_id_of req.run_id)
      (serve serde app.registry m.clock m.ts endpoint req.body)
routed serde app m req method_not_allowed = (app, plain 405 "")
routed serde app m req unmatched = (app, route_not_found)

module _ (serde : Serde) (axum : List Route → String → String → Routing) where
  -- The call of the router.
  unfoldable pub dispatch : AppState → Moment → Request → AppState × Response
  dispatch app m req = routed serde app m req (axum build_router req.method req.path)

  -- Whether the request may pass without the token, or carries it.
  abbrev pub is_admitted : AppState → Request → Bool
  is_admitted app req =
      if req.path == "/health" then true else session_token_ok req.session_token app.session_tokens

  -- `GovernorService::call`
  unfoldable pub govern : AppState → Moment → Request → AppState × Response
  govern app m req =
      let (limiter, passed) = check app.rate_limiter req.peer m.nanos in
      let app' : AppState = record app { rate_limiter = limiter } in
      if passed
      then if is_admitted app' req then dispatch app' m req else (app', unauthorized)
      else (app', too_many_requests)
