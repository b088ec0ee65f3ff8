-- ===== src/Network/Router/Trace.antt =====
-- The life of one run of crates/bridge/src/network.rs: requests, drains and closings, in any order.
use nanny.Prelude.{ℕ, String, List, [], ◌∷◌, ◌++◌}
use nanny.Core.Events.{LoggedEvent}
use nanny.Runtime.Registry.{ToolRegistry}
use nanny.Bridge.State.{BridgeState, Clock}
use nanny.Bridge.Wire.{Body, Serde}
use nanny.Bridge.Handlers.{take_run_events}
use nanny.Network.Router.{Endpoint, serve}
use nanny.Network.Drain.{close_run}
use nanny.Bridge.Stable.{IsStable}
use nanny.Network.Router.Keeps.{serve-keeps}

pub data Act : Type 0 where
  request : Clock → ℕ → Endpoint → Body → Act
  drain : Act
  close : Clock → String → Act

module _ (serde : Serde) (registry : ToolRegistry) where
  -- The state, and all lines drained so far.
  unfoldable pub step : BridgeState × List LoggedEvent → Act → BridgeState × List LoggedEvent
  step (s, out) (request clock ts e body) = ((serve serde registry clock ts e body s).0, out)
  step (s, out) drain = let (s', lines) = take_run_events s in (s', out ++ lines)
  step (s, out) (close clock fallback) = (close_run clock fallback s, out)

  unfoldable pub live : BridgeState × List LoggedEvent → List Act → BridgeState × List LoggedEvent
  unfolding step
  live w [] = w
  live w (act ∷ acts) = live (step w act) acts

  -- What is stable, and does not look at the buffered lines, holds through a run's life.
  pub live-keeps :
      (P : BridgeState → Type 0)
      → IsStable P
      → ((s : BridgeState) → P s → P (record s { events = [] }))
      → (acts : List Act) (s : BridgeState) (out : List LoggedEvent) → P s
      → P (live (s, out) acts).0
  unfolding live
  live-keeps P st cleared [] s out h = h
  live-keeps P st cleared (request clock ts e body ∷ acts) s out h =
      live-keeps P st cleared acts _ _ (serve-keeps P st serde registry clock ts e body s h)
  live-keeps P st cleared (drain ∷ acts) s out h =
      live-keeps P st cleared acts _ _ (unfold take_run_events in cleared s h)
  live-keeps P st cleared (close clock fallback ∷ acts) s out h =
      live-keeps P st cleared acts _ _ (unfold close_run in st.append s _ h)
