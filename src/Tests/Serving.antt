-- ===== src/Tests/Serving.antt =====
-- The server of crates/bridge/src/network.rs, at concrete requests and addresses.
use nanny.Prelude.{All, ◌++◌, Bool}
use nanny.Core.Events.{LoggedEvent}
use nanny.Network.Drain.{Drained, pass}
use nanny.Network.Drain.Close.{last_batches, pass-last_batches}
use mathlib.Core.List.{Mem}
use nanny.Prelude.{
  ℕ, String, ◌≡◌, ◌≢◌, ◌↔◌, ◌⊎◌, refl, ◌≤◌, true, false, none, some, List, [], ◌∷◌, arith, ok, trim,
  is_whitespace, if◌then◌else◌, ◌==◌, string_eq, list_eq,
}
use nanny.Prelude.Dict.{get}
use nanny.Runtime.Enforcement.{permission_policy, rules_policy}
use nanny.Bridge.State.{BridgeState, stopped}
use nanny.Bridge.Template.{build_state}
use nanny.Bridge.ToolCall.{handle_tool_call}
use nanny.Bridge.State.{stopped_reason}
use nanny.Prelude.Dict.{insert}
use nanny.Network.Governor.{run_state, with_run, routed, dispatch}
use nanny.Network.RateLimiter.{check}
use nanny.Network.Auth.{session_token_ok}
use nanny.Network.Auth.Compare.{session_token_ok_iff}
use nanny.Network.Router.{Route, tool_call, serve, run_id_of}
use nanny.Network.Router.Accounting.{IsAccounted}
use nanny.Network.Governor.{
  AppState, Request, Routing, matched, unmatched, Moment, govern, unauthorized, too_many_requests,
}
use nanny.Network.Governor.Isolation.{govern-other, govern-unauthorized}
use nanny.Prelude.Order.{string_ord}
use nanny.Prelude.{◌+◌, ◌*◌, ◌<◌, leb}
use nanny.Network.RateLimiter.{RateLimiter}
use nanny.Network.RateLimiter.Window.{passed_of, passed_of-second}
use nanny.Network.Bind.{
  SocketAddr, BindAnswer, bound, addr_in_use, default_governor_addr, attempts,
  bind_with_fallforward,
}
use nanny.Network.Bind.Search.{at_port, IsFirstFree, bind_with_fallforward-default_iff}
use nanny.Bridge.State.{append_event}
use nanny.Bridge.Template.{init_run_template}
use nanny.Bridge.Attribution.{record_governor}
use nanny.Network.Governor.Boot.{Boot, initial_state}
use nanny.Network.Governor.Traffic.{Event, arrives, drains, traffic}
use nanny.Network.Governor.Traffic.Safety.{traffic-IsAccounted}
use nanny.Network.Governor.Traffic.Stays.{RunHolds, traffic-stopped}
use nanny.Tests.{serde, registry, caps, template, clock, fresh, halted, caps-AreU32}

session_token_ok_iff_example :
    (session_token_ok (some (1 ∷ 2 ∷ [])) ((7 ∷ []) ∷ (1 ∷ 2 ∷ []) ∷ []) ≡ true)
    ↔ ((got : List ℕ) × (some (1 ∷ 2 ∷ []) ≡ some got) × Mem got ((7 ∷ []) ∷ (1 ∷ 2 ∷ []) ∷ []))
session_token_ok_iff_example =
    session_token_ok_iff (some (1 ∷ 2 ∷ [])) ((7 ∷ []) ∷ (1 ∷ 2 ∷ []) ∷ [])

-- A router that knows one path.
abbrev axum : List Route → String → String → Routing
axum routes method path = if path == "/tool/call" then matched tool_call else unmatched

abbrev app : AppState
app = record {
  runs = ("run-1", fresh) ∷ ("run-12", fresh) ∷ [];
  template = template;
  registry = registry;
  session_tokens = (1 ∷ 2 ∷ []) ∷ [];
  rate_limiter = record { inner = []; rps = 10 };
}

abbrev tool_request : Request
tool_request = record {
  peer = "10.0.0.1";
  method = "POST";
  path = "/tool/call";
  session_token = some (1 ∷ 2 ∷ []);
  run_id = some "run-1";
  body = 1 ∷ [];
}

abbrev anonymous : Request
anonymous = record tool_request { session_token = none }

abbrev moment : Moment
moment = record { nanos = 1000; clock = clock; ts = 110 }

run_1 : run_id_of (some "run-1") ≡ "run-1"
unfolding run_id_of trim is_whitespace
run_1 = refl

other_run : "run-12" ≢ run_id_of (some "run-1")
other_run h = cc (h, run_1)

govern-other_example :
    get "run-12" (govern serde axum app moment tool_request).0.runs ≡ get "run-12" app.runs
govern-other_example = govern-other serde axum app moment tool_request "run-12" other_run

not_health : ◌≢◌ {A = String} "/tool/call" "/health"
not_health h = cc

no_token : session_token_ok none ((1 ∷ 2 ∷ []) ∷ []) ≡ false
unfolding session_token_ok
no_token = refl

govern-unauthorized_example :
    ((govern serde axum app moment anonymous).0.runs ≡ app.runs)
    × (((govern serde axum app moment anonymous).1 ≡ unauthorized)
        ⊎ ((govern serde axum app moment anonymous).1 ≡ too_many_requests))
govern-unauthorized_example =
    govern-unauthorized serde axum app moment anonymous not_health no_token

abbrev limiter : RateLimiter
limiter = record { inner = []; rps = 2 }

passed_of-second_example :
    passed_of "10.0.0.1" limiter (("10.0.0.1", 5) ∷ ("10.0.0.2", 6) ∷ ("10.0.0.1", 7) ∷ []) ≤ 2 * 2
passed_of-second_example =
    passed_of-second "10.0.0.1" limiter 5 (("10.0.0.1", 5) ∷ ("10.0.0.2", 6) ∷ ("10.0.0.1", 7) ∷ [])
      (omega arith)
      ((omega arith, omega arith), ((omega arith, omega arith), ((omega arith, omega arith), tt)))

-- Ports 62669 and 62670 are taken.
abbrev two_taken : SocketAddr → BindAnswer
two_taken addr = if leb addr.port 62670 then addr_in_use else bound

bind_with_fallforward-default_iff_example :
    (bind_with_fallforward two_taken default_governor_addr
      ≡ ok (at_port default_governor_addr 62671))
    ↔ ((k : ℕ) × (k < attempts)
        × (at_port default_governor_addr 62671
            ≡ at_port default_governor_addr (default_governor_addr.port + k))
        × IsFirstFree two_taken default_governor_addr k)
bind_with_fallforward-default_iff_example =
    bind_with_fallforward-default_iff two_taken (at_port default_governor_addr 62671)

abbrev elsewhere : SocketAddr
elsewhere = record { ip = "10.0.0.9"; port = 8080 }

abbrev boot : Boot
boot = record {
  components = record {
    registry = registry;
    allowed_tools = "http_get" ∷ [];
    per_tool_max_calls = caps;
    tool_labels = ("http_get", "network" ∷ []) ∷ [];
    config_hash = "hash";
    runtime_version = "1";
    start_command = none;
  };
  session_tokens = some ("t" ∷ []);
  primary_run_id = some "run-1";
  uuid = "u";
  rate_limit_rps = 10;
  addr = "127.0.0.1:62669";
  hostname = none;
  version = "1";
  clock = clock;
  ts = 90;
  as_bytes = λ s. 1 ∷ 2 ∷ [];
}

abbrev busy : List Event
busy =
    arrives moment tool_request
    ∷ drains clock false none
    ∷ arrives moment anonymous
    ∷ arrives moment tool_request
    ∷ drains clock true (some "ManualStop")
    ∷ []

-- The call is served, the request without a token is not.
abbrev served : List Event
served = arrives moment tool_request ∷ arrives moment anonymous ∷ []

-- The governor's own run, after that.
abbrev called : BridgeState
called =
    (handle_tool_call serde registry clock 110 (1 ∷ [])
      (record_governor 90 fresh "unknown" "127.0.0.1:62669" "1")).0

served_runs :
    get "run-1" (traffic serde axum true none (initial_state boot) served).runs ≡ some called
unfolding traffic govern check dispatch routed with_run run_state serve stopped_reason build_state
    get insert run_id_of trim is_whitespace session_token_ok initial_state init_run_template
    record_governor handle_tool_call append_event
served_runs = refl

traffic-IsAccounted_example : IsAccounted ("http_get" ∷ []) caps called
traffic-IsAccounted_example =
    traffic-IsAccounted serde axum true none boot served "run-1" called caps-AreU32 served_runs

abbrev halted_app : AppState
halted_app = record app { runs = ("run-1", halted) ∷ [] }

halted_known : get "run-1" halted_app.runs ≡ some halted
unfolding get
halted_known = refl

traffic-stopped_example :
    RunHolds
      (λ r. r.execution ≡ stopped "RuleDenied")
      "run-1"
      (traffic serde axum true none halted_app busy).runs
traffic-stopped_example =
    traffic-stopped serde axum true none halted_app busy "run-1" "RuleDenied" halted halted_known
      refl

abbrev two_runs : Drained
two_runs = record {
  runs = ("run-1", fresh) ∷ ("run-2", halted) ∷ [];
  logged = [];
  sent = [];
  gone = false;
}

abbrev takes_all : String → List LoggedEvent → Bool
takes_all id lines = true

pass-last_batches_example :
    ((pass true (some takes_all) clock true (some "ManualStop") two_runs).sent
      ≡ [] ++ last_batches clock "ManualStop" two_runs.runs)
    × All
        (λ r. r.1.events ≡ [])
        (pass true (some takes_all) clock true (some "ManualStop") two_runs).runs
pass-last_batches_example =
    pass-last_batches true takes_all (λ id lines. refl) clock "ManualStop" two_runs
      (refl, (refl, tt)) refl
