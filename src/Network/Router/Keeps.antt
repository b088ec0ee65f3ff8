-- ===== src/Network/Router/Keeps.antt =====
-- Whatever the handlers keep, the routes of crates/bridge/src/network.rs keep.
use nanny.Prelude.{ℕ, String, Option, none, some}
use nanny.Runtime.Registry.{ToolRegistry}
use nanny.Bridge.State.{BridgeState, Clock, stopped_reason}
use nanny.Bridge.Wire.{Body, Serde, BridgeResp}
use nanny.Bridge.Stable.{
  IsStable, handle_tool_call-keeps, handle_stop-keeps, handle_agent_enter-keeps,
  handle_agent_exit-keeps, handle_llm_usage-keeps, handle_harness-keeps, handle_rules-keeps,
  handle_app-keeps,
}
use nanny.Network.Router.{
  Endpoint, health, status, events, stop, tool_call, rule_evaluate, agent_enter, agent_exit,
  llm_usage, harness, rules, app, serve, unless_stopped,
}

module _ (P : BridgeState → Type 0) (st : IsStable P) where
  unless_stopped-keeps :
      (o : Option String) (s : BridgeState) (result : BridgeState × BridgeResp)
      → P s
      → P result.0
      → P (unless_stopped o s result).0
  unless_stopped-keeps (some reason) s result h k = h
  unless_stopped-keeps none s result h k = k

  pub serve-keeps :
      (serde : Serde) (registry : ToolRegistry) (clock : Clock) (ts : ℕ) (e : Endpoint)
      (body : Body) (s : BridgeState)
      → P s
      → P (serve serde registry clock ts e body s).0
  unfolding serve
  serve-keeps serde registry clock ts health body s h = h
  serve-keeps serde registry clock ts status body s h = h
  serve-keeps serde registry clock ts events body s h = h
  serve-keeps serde registry clock ts stop body s h = handle_stop-keeps P st serde ts body s h
  serve-keeps serde registry clock ts tool_call body s h =
      unless_stopped-keeps (stopped_reason s) s _ h
        (handle_tool_call-keeps P st serde registry clock ts body s h)
  serve-keeps serde registry clock ts rule_evaluate body s h =
      unless_stopped-keeps (stopped_reason s) s _ h h
  serve-keeps serde registry clock ts agent_enter body s h =
      unless_stopped-keeps (stopped_reason s) s _ h
        (handle_agent_enter-keeps P st serde ts body s h)
  serve-keeps serde registry clock ts agent_exit body s h = handle_agent_exit-keeps P st ts s h
  serve-keeps serde registry clock ts llm_usage body s h =
      unless_stopped-keeps (stopped_reason s) s _ h (handle_llm_usage-keeps P st serde ts body s h)
  serve-keeps serde registry clock ts harness body s h =
      unless_stopped-keeps (stopped_reason s) s _ h (handle_harness-keeps P st serde ts body s h)
  serve-keeps serde registry clock ts rules body s h =
      unless_stopped-keeps (stopped_reason s) s _ h (handle_rules-keeps P st serde ts body s h)
  serve-keeps serde registry clock ts app body s h =
      unless_stopped-keeps (stopped_reason s) s _ h (handle_app-keeps P st serde ts body s h)
