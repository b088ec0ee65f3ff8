-- ===== src/Network/Router.antt =====
-- crates/bridge/src/network.rs: the routes of one run, and the resolution of the run of a request.
pub mod Keeps
pub mod Trace
pub mod Log
pub mod Stops
pub mod Accounting
pub mod Interleaved
use nanny.Prelude.{
  ℕ, String, Bool, true, false, ◌&&◌, Option, none, some, List, [], ◌∷◌, leb, trim, is_empty,
  if◌then◌else◌, ◌<>◌,
}
use nanny.Runtime.Registry.{ToolRegistry}
use nanny.Bridge.State.{BridgeState, Clock, stopped_reason}
use nanny.Bridge.Wire.{Body, Serde, BridgeResp, ContentType, json, ndjson}
use nanny.Bridge.ToolCall.{handle_tool_call}
use nanny.Bridge.Handlers.{
  handle_health, handle_status, handle_events, handle_stop, handle_rule_evaluate,
  handle_agent_enter, handle_agent_exit, handle_llm_usage, handle_harness, handle_rules, handle_app,
}

-- The handlers that `build_router` mounts.
pub data Endpoint : Type 0 where
  health status events stop tool_call rule_evaluate agent_enter agent_exit : Endpoint
  llm_usage harness rules app : Endpoint

pub data Method : Type 0 where
  get post : Method

pub record Route : Type 0 where
  pub path : String
  pub method : Method
  pub endpoint : Endpoint

abbrev route : String → Method → Endpoint → Route
route path method endpoint = record { path = path; method = method; endpoint = endpoint }

-- `build_router`
abbrev pub build_router : List Route
build_router =
    route "/health" get health
    ∷ route "/status" get status
    ∷ route "/events" get events
    ∷ route "/stop" post stop
    ∷ route "/tool/call" post tool_call
    ∷ route "/rule/evaluate" post rule_evaluate
    ∷ route "/agent/enter" post agent_enter
    ∷ route "/agent/exit" post agent_exit
    ∷ route "/llm/usage" post llm_usage
    ∷ route "/harness" post harness
    ∷ route "/rules" post rules
    ∷ route "/app" post app
    ∷ []

pub record Response : Type 0 where
  pub status : ℕ
  pub content_type : Option String
  pub body : String

abbrev content_type_text : ContentType → String
content_type_text json = "application/json"
content_type_text ndjson = "application/x-ndjson"

-- `StatusCode::from_u16(..).unwrap_or(INTERNAL_SERVER_ERROR)`
abbrev status_code : ℕ → ℕ
status_code s = if leb 100 s && leb s 999 then s else 500

-- `to_response`
abbrev pub to_response : BridgeResp → Response
to_response r = record {
  status = status_code r.status;
  content_type = some (content_type_text r.content_type);
  body = r.body;
}

-- `stopped_gone`
abbrev pub stopped_gone : String → Response
stopped_gone reason = record {
  status = 410;
  content_type = some "application/json";
  body = "{\"error\":\"execution stopped\",\"reason\":\"" <> reason <> "\"}";
}

abbrev respond : BridgeState × BridgeResp → BridgeState × Response
respond (s, r) = (s, to_response r)

-- The guard of the action routes: `if let Some(reason) = stopped_reason(&shared)`.
abbrev pub unless_stopped :
    Option String → BridgeState → BridgeState × BridgeResp → BridgeState × Response
unless_stopped (some reason) s result = (s, stopped_gone reason)
unless_stopped none s result = respond result

-- The functions `route_*`.
unfoldable pub serve :
    Serde → ToolRegistry → Clock → ℕ → Endpoint → Body → BridgeState → BridgeState × Response
serve serde registry clock ts health body s = (s, to_response (handle_health s))
serve serde registry clock ts status body s = (s, to_response (handle_status serde clock s))
serve serde registry clock ts events body s = (s, to_response (handle_events serde s))
serve serde registry clock ts stop body s = respond (handle_stop serde ts body s)
serve serde registry clock ts tool_call body s =
    unless_stopped (stopped_reason s) s (handle_tool_call serde registry clock ts body s)
serve serde registry clock ts rule_evaluate body s =
    unless_stopped (stopped_reason s) s (s, handle_rule_evaluate serde clock body s)
serve serde registry clock ts agent_enter body s =
    unless_stopped (stopped_reason s) s (handle_agent_enter serde ts body s)
serve serde registry clock ts agent_exit body s = respond (handle_agent_exit ts s)
serve serde registry clock ts llm_usage body s =
    unless_stopped (stopped_reason s) s (handle_llm_usage serde ts body s)
serve serde registry clock ts harness body s =
    unless_stopped (stopped_reason s) s (handle_harness serde ts body s)
serve serde registry clock ts rules body s =
    unless_stopped (stopped_reason s) s (handle_rules serde ts body s)
serve serde registry clock ts app body s =
    unless_stopped (stopped_reason s) s (handle_app serde ts body s)

abbrev pub default_run_id : String
default_run_id = "default"

-- The run id of `AppState::run_state`, from the header `x-nanny-run-id`, if it is there and readable.
unfoldable pub run_id_of : Option String → String
run_id_of none = default_run_id
run_id_of (some header) = if is_empty (trim header) then default_run_id else trim header
