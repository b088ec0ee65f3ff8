-- ===== src/Tests/Starting.antt =====
-- Tests of a governor's start, of the files by which it is found, and of its end.
use nanny.Prelude.{
  ℕ, String, ◌<>◌, ◌≡◌, ◌↔◌, refl, Bool, true, false, Option, none, some, List, [], ◌∷◌, ok, err,
  ◌==◌, string_eq, map, if◌then◌else◌, trim, trim_start, trim_end, is_whitespace, chars_count,
  text_lines,
}
use nanny.Runtime.Registry.{new_registry}
use nanny.Config.Settings.{NannyConfig}
use nanny.Config.Tokens.{resolve_session_token, tokens_of, first_short}
use nanny.Network.Auth.{session_token_ok}
use nanny.Network.Bind.{SocketAddr}
use nanny.Cli.Components.{build_bridge_components}
use nanny.Cli.Folder.{Folder, find}
use nanny.Cli.Sync.{no_api_key}
use nanny.Cli.Discovery.{
  local_addr, replace_from, publish, unpublish, remove_discovery_files, discovery_files,
  detect_joined_server, wait_for_governor, missing_token,
}
use nanny.Cli.Discovery.Joined.{detect_joined_server-publish}
use nanny.Cli.Discovery.Stale.{wait_for_governor-unpublish}
use nanny.Cli.Start.{Found, Plan, plan_of, cmd_server_start}
use nanny.Cli.Supervise.{Round, running, watch, closing, EndsClean, closing-EndsClean_iff}
use nanny.Prelude.{contains}
use nanny.Tests.Bundles.{working, no_bundle}

abbrev token : String
token = "0123456789abcdef0123456789abcdef"

abbrev raw : String
raw = "  " <> token <> "\n\n" <> token <> "2\n"

abbrev bound : String
bound = "0.0.0.0:62669"

abbrev parse_addr : String → Option SocketAddr
parse_addr s =
    if s == "127.0.0.1:62669" then some (record { ip = "127.0.0.1"; port = 62669 }) else none

abbrev reaches : SocketAddr → Bool
reaches a = true

abbrev as_bytes : String → List ℕ
as_bytes s = chars_count s ∷ []

resolves : resolve_session_token (some raw) ≡ ok (some (token ∷ (token <> "2") ∷ []))
unfolding resolve_session_token tokens_of first_short text_lines trim trim_start trim_end
    is_whitespace chars_count
resolves = refl

local : parse_addr (local_addr bound) ≡ some (record { ip = "127.0.0.1"; port = 62669 })
unfolding local_addr replace_from chars_count
local = refl

bound_trimmed : trim bound ≡ bound
unfolding trim trim_start trim_end is_whitespace
bound_trimmed = refl

detect_joined_server-publish_example :
    (detect_joined_server parse_addr reaches working (publish working bound token "7" no_bundle) ≡ (
      publish working bound token "7" no_bundle,
      ok (record { addr = local_addr bound; token = token }),
    ))
    × (session_token_ok (some (as_bytes token)) (map as_bytes (token ∷ (token <> "2") ∷ [])) ≡ true)
detect_joined_server-publish_example =
    detect_joined_server-publish parse_addr reaches as_bytes working working raw token
      ((token <> "2") ∷ []) bound "7" (record { ip = "127.0.0.1"; port = 62669 }) no_bundle resolves
      (refl, refl, refl) refl refl (bound_trimmed, refl) local refl

abbrev stopped : Folder
stopped = unpublish working (publish working bound token "7" no_bundle)

can_remove : (name : String) → working.removes name ≡ true
can_remove name = refl

wait_for_governor-unpublish_example :
    (wait_for_governor parse_addr reaches working (λ round. (stopped, false)) ≡ err missing_token)
    × ((a : String)
        → find a (remove_discovery_files working (publish working bound token "7" no_bundle)) ≡ (
            if contains discovery_files a
            then none
            else find a (publish working bound token "7" no_bundle)))
wait_for_governor-unpublish_example =
    wait_for_governor-unpublish parse_addr reaches working working bound token "7" no_bundle false
      (λ round. (stopped, false)) (refl, refl, refl) can_remove refl refl

abbrev config : NannyConfig
config = record {
  start = some (record { cmd = "python agent.py" });
  tools = record { allowed = []; per_tool = [] };
  rules = record { extends = [] };
}

-- An address that is not a loopback address, with all three files, one of them elsewhere.
abbrev found : Found
found = record {
  config = ok config;
  identity = ok none;
  packs_of = λ c. ok [];
  components_of = build_bridge_components new_registry (λ c. "hash") "1";
  is_loopback = false;
  cert = some "/tls/server.crt";
  key = none;
  ca = none;
  certs_dir = some "/certs";
  exists = λ path. contains ("/tls/server.crt" ∷ "/certs/server.key" ∷ "/certs/ca.crt" ∷ []) path;
  cwd_name = some "agents";
  session_token_var = some raw;
  run_id_var = some " ";
  sync = err no_api_key;
  uuid = "u";
  new_run_id = "run_1";
  ephemeral_run_id = "run_2";
  shlex = λ cmd. some ("python" ∷ "agent.py" ∷ []);
  extra_args = "--fast" ∷ [];
}

abbrev plan : Plan
plan =
    plan_of found config none [] (some (token ∷ (token <> "2") ∷ []))
      (some ("python" ∷ "agent.py" ∷ "--fast" ∷ []))

abbrev started : Folder
started = (cmd_server_start working found no_bundle).0

abbrev rounds : List Round
rounds = running false ∷ running false ∷ running true ∷ []

closing-EndsClean_iff_example :
    (closing (watch rounds) ≡ some ("AgentCompleted", 0)) ↔ EndsClean rounds
closing-EndsClean_iff_example = closing-EndsClean_iff rounds
