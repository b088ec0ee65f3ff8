-- ===== src/Network/Router/Stops.antt =====
-- Stopping a run of crates/bridge/src: the state after it, its reason, and the routes.
use nanny.Prelude.{ℕ, String, ◌≡◌, ◌≢◌, refl, ◌⊎◌, inl, inr, List, []}
use nanny.Core.Events.{LoggedEvent}
use nanny.Runtime.Registry.{ToolRegistry}
use nanny.Bridge.State.{
  BridgeState, ExecutionState, running, stopped, Clock, append_event, mark_stopped, stopped_reason,
  stop_with,
}
use nanny.Bridge.Wire.{Body, Serde}
use nanny.Bridge.Template.{RunTemplate, build_state}
use nanny.Bridge.Stable.{IsStable, IsKnown}
use nanny.Network.Router.{
  Endpoint, health, status, events, stop, tool_call, rule_evaluate, agent_enter, agent_exit,
  llm_usage, harness, rules, app, serve, stopped_gone,
}
use nanny.Network.Router.Trace.{Act, live, live-keeps}

abbrev pub IsStopped : String → BridgeState → Type 0
IsStopped r s = s.execution ≡ stopped r

stop_with-IsStopped :
    (e : ExecutionState) (r r' : String) → e ≡ stopped r → stop_with r' e ≡ stopped r
stop_with-IsStopped running r r' h = cc
stop_with-IsStopped (stopped first) r r' h = h

pub IsStopped-stable : (r : String) → IsStable (IsStopped r)
unfolding append_event mark_stopped
IsStopped-stable r = record {
  append = λ s e h. h;
  stop = λ s r' k h. stop_with-IsStopped s.execution r r' h;
  harness = λ s v h. h;
  app = λ s v h. h;
  rules = λ s v h. h;
  stack = λ s v h. h;
  usage = λ s n h. h;
  calls = λ s clock tool d h. h;
}

-- A run that has stopped stays stopped for the same reason, whatever is requested, drained or closed.
pub live-stopped :
    (serde : Serde) (registry : ToolRegistry) (acts : List Act) (s : BridgeState)
    (out : List LoggedEvent) (reason : String)
    → s.execution ≡ stopped reason
    → (live serde registry (s, out) acts).0.execution ≡ stopped reason
live-stopped serde registry acts s out reason h =
    live-keeps serde registry (IsStopped reason) (IsStopped-stable reason) (λ s h. h) acts s out h

abbrev IsKnownStop : BridgeState → Type 0
IsKnownStop s = (s.execution ≡ running) ⊎ ((r : String) × (s.execution ≡ stopped r) × IsKnown r)

stop_with-IsKnownStop :
    (e : ExecutionState) (r : String)
    → IsKnown r
    → ((e ≡ running) ⊎ ((q : String) × (e ≡ stopped q) × IsKnown q))
    → (stop_with r e ≡ running) ⊎ ((q : String) × (stop_with r e ≡ stopped q) × IsKnown q)
stop_with-IsKnownStop running r k h = inr (r, refl, k)
stop_with-IsKnownStop (stopped first) r k h = h

IsKnownStop-stable : IsStable IsKnownStop
unfolding append_event mark_stopped
IsKnownStop-stable = record {
  append = λ s e h. h;
  stop = λ s r k h. stop_with-IsKnownStop s.execution r k h;
  harness = λ s v h. h;
  app = λ s v h. h;
  rules = λ s v h. h;
  stack = λ s v h. h;
  usage = λ s n h. h;
  calls = λ s clock tool d h. h;
}

-- Over any life of a new run, it is running or has stopped for one of the six reasons of the closed
-- set, whatever a client posts to `/stop`.
pub live-IsKnown :
    (serde : Serde) (registry : ToolRegistry) (t : RunTemplate) (clock : Clock) (run : String)
    (acts : List Act)
    → ((live serde registry (build_state t clock run, []) acts).0.execution ≡ running)
      ⊎ ((r : String) × ((live serde registry (build_state t clock run, []) acts).0.execution
            ≡ stopped r)
          × IsKnown r)
live-IsKnown serde registry t clock run acts =
    live-keeps serde registry IsKnownStop IsKnownStop-stable (λ s h. h) acts
      (build_state t clock run) [] (unfold build_state in inl refl)

-- The routes that check whether the run has stopped.
abbrev pub IsAction : Endpoint → Type 0
IsAction e = (e ≢ health) × (e ≢ status) × (e ≢ events) × (e ≢ stop) × (e ≢ agent_exit)

-- Once a run has stopped, a request to an action route, which is every route but health, status,
-- events, stop and agent exit, changes nothing and is answered 410 with the reason of the stop.
pub serve-stopped :
    (serde : Serde) (registry : ToolRegistry) (clock : Clock) (ts : ℕ) (e : Endpoint) (body : Body)
    (s : BridgeState) (reason : String)
    → IsAction e
    → s.execution ≡ stopped reason
    → serve serde registry clock ts e body s ≡ (s, stopped_gone reason)
unfolding serve stopped_reason
serve-stopped serde registry clock ts health body s reason a h = absurd (a.0 refl)
serve-stopped serde registry clock ts status body s reason a h = absurd (a.1 refl)
serve-stopped serde registry clock ts events body s reason a h = absurd (a.2 refl)
serve-stopped serde registry clock ts stop body s reason a h = absurd (a.3 refl)
serve-stopped serde registry clock ts agent_exit body s reason a h = absurd (a.4 refl)
serve-stopped serde registry clock ts tool_call body s reason a h = rw h
serve-stopped serde registry clock ts rule_evaluate body s reason a h = rw h
serve-stopped serde registry clock ts agent_enter body s reason a h = rw h
serve-stopped serde registry clock ts llm_usage body s reason a h = rw h
serve-stopped serde registry clock ts harness body s reason a h = rw h
serve-stopped serde registry clock ts rules body s reason a h = rw h
serve-stopped serde registry clock ts app body s reason a h = rw h
