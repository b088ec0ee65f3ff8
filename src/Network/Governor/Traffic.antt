-- ===== src/Network/Governor/Traffic.antt =====
-- The governor of crates/bridge/src/network.rs under traffic: requests of all its clients and passes of
-- the drain thread, in any order, on the one map of runs.
pub mod Keeps
pub mod Safety
pub mod Stays
use mathlib.Core.Path.{subst}
use nanny.Prelude.{
  ℕ, String, ◌≡◌, refl, ◌∙◌, ap, Bool, true, false, Option, none, some, List, [], ◌∷◌, arith,
  if_rule, if◌then◌else◌, ◌==◌, string_eq, Bool-cases, inl, inr, push, Option-cases,
}
use nanny.Prelude.Dict.{Dict, get, insert, get-insert, keys}
use nanny.Core.Events.{LoggedEvent}
use nanny.Bridge.State.{BridgeState, Clock, stopped}
use nanny.Bridge.Wire.{Serde}
use nanny.Bridge.Handlers.{take_run_events}
use nanny.Bridge.Template.{RunTemplate, build_state}
use nanny.Bridge.Stable.{IsStable}
use nanny.Runtime.Registry.{ToolRegistry}
use nanny.Network.RateLimiter.{check}
use nanny.Network.Router.{Route, build_router, Endpoint, Response, serve, run_id_of}
use nanny.Network.Router.Keeps.{serve-keeps}
use nanny.Network.Router.Accounting.{
  IsAccounted, AreU32, IsAccounted-stable, IsAccounted-new, IsAccounted-cleared,
}
use nanny.Network.Drain.{close_run, close_all, Drained, deliver, drain_run, sweep, pass}
use nanny.Network.Governor.{
  AppState, Request, Routing, matched, method_not_allowed, unmatched, Moment, run_state, with_run,
  routed, dispatch, govern,
}

pub data Event : Type 0 where
  arrives : Moment → Request → Event
  drains : Clock → Bool → Option String → Event

-- What the drain thread makes of the map in one pass.
unfoldable pub drained_runs :
    Bool
    → Option (String → List LoggedEvent → Bool)
    → Clock
    → Bool
    → Option String
    → Dict BridgeState
    → Dict BridgeState
drained_runs local_log sink clock stopping reason runs =
    (pass local_log sink clock stopping reason
      (record { runs = runs; logged = []; sent = []; gone = false })).runs

module _ (serde : Serde) (axum : List Route → String → String → Routing) (local_log : Bool)
    (sink : Option (String → List LoggedEvent → Bool)) where
  unfoldable pub event : AppState → Event → AppState
  event a (arrives m req) = (govern serde axum a m req).0
  event a (drains clock stopping reason) = record a {
    runs = drained_runs local_log sink clock stopping reason a.runs;
  }

  unfoldable pub traffic : AppState → List Event → AppState
  unfolding event
  traffic a [] = a
  traffic a (e ∷ es) = traffic (event a e) es
