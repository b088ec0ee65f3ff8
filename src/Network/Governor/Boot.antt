-- ===== src/Network/Governor/Boot.antt =====
-- crates/bridge/src/network.rs: what `start_blocking_synced` makes of the components before it listens:
-- the tokens, the template, the first run and the `AppState`.
use nanny.Prelude.{ℕ, String, Option, none, some, List, [], ◌∷◌, map}
use nanny.Prelude.Dict.{insert}
use nanny.Bridge.State.{BridgeState, Clock}
use nanny.Bridge.Template.{
  BridgeComponents, RunTemplate, init_run_template, build_state, build_placeholder_state,
}
use nanny.Bridge.Attribution.{record_governor}
use nanny.Network.Router.{default_run_id}
use nanny.Network.Governor.{AppState}

-- What a start is given and reads: the components, the tokens and the id of its app's run if it has
-- them, a fresh UUID, the requests per second, the address that is bound, its hostname if there is one
-- and its version, the clocks, and the bytes of a text.
pub record Boot : Type 0 where
  pub components : BridgeComponents
  pub session_tokens : Option (List String)
  pub primary_run_id : Option String
  pub uuid : String
  pub rate_limit_rps : ℕ
  pub addr : String
  pub hostname : Option String
  pub version : String
  pub clock : Clock
  pub ts : ℕ
  pub as_bytes : String → List ℕ

abbrev pub tokens_or_uuid : Option (List String) → String → List String
tokens_or_uuid none uuid = uuid ∷ []
tokens_or_uuid (some tokens) uuid = tokens

abbrev first_token : List String → String
first_token [] = ""
first_token (token ∷ tokens) = token

abbrev pub primary_of : Option String → String
primary_of none = default_run_id
primary_of (some id) = id

-- `default_state`: the run of the governor's own app, or a placeholder.
abbrev pub default_state : RunTemplate → Clock → Option String → BridgeState
default_state template clock none = build_placeholder_state template clock default_run_id
default_state template clock (some id) = build_state template clock id

abbrev or_unknown : Option String → String
or_unknown none = "unknown"
or_unknown (some name) = name

-- The `AppState` before the first request.
unfoldable pub initial_state : Boot → AppState
unfolding init_run_template build_state build_placeholder_state record_governor
initial_state b =
    let tokens = tokens_or_uuid b.session_tokens b.uuid in
    let (template, registry) = init_run_template b.components (first_token tokens) in
    let identified =
      record_governor b.ts (default_state template b.clock b.primary_run_id) (or_unknown b.hostname)
        b.addr b.version in
    record {
      runs = insert (primary_of b.primary_run_id) identified [];
      template = template;
      registry = registry;
      session_tokens = map b.as_bytes tokens;
      rate_limiter = record { inner = []; rps = b.rate_limit_rps };
    }
