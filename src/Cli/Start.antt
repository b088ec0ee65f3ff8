-- ===== src/Cli/Start.antt =====
-- crates/cli/src/commands/server.rs: what `nanny run` settles before the governor listens,
-- `cmd_server_start`. What is loaded and looked up is an argument, the folder is the one of the
-- app's state. What is printed is left out.
pub mod Guarded
use nanny.Prelude.{
  String, ◌<>◌, Bool, true, false, not, ◌&&◌, Option, none, some, List, [], ◌∷◌, ◌++◌, Result, ok,
  err, if◌then◌else◌, trim, is_empty,
}
use nanny.Prelude.Exec.{Exec, pure, raise, raise_if, or_raise, lift, ◌>>=◌, ◌>>◌}
use nanny.Bridge.Template.{BridgeComponents}
use nanny.Config.Settings.{NannyConfig, StartConfig, LoadError}
use nanny.Config.Pack.{PackManifest}
use nanny.Config.Tokens.{resolve_session_token}
use nanny.Cli.Folder.{Folder, Access, IoError, create_dir_all, write}
use nanny.Cli.Identity.{AppIdentity, IdentityError}
use nanny.Cli.Packs.{PacksError}
use nanny.Cli.Sync.{SyncTarget, NoSyncReason, strip_suffix_or}
use nanny.Cli.Discovery.{replace_from}

-- A file of the mTLS material: its label, and whether it is there.
pub record TlsFile : Type 0 where
  pub label : String
  pub is_there : Bool

-- What the command finds: the configuration, the identity in .nanny/app.json, the packs, the bridge's
-- components, the paths of the TLS files that are given, the app's directory of certificates if it is
-- known, which paths exist, the environment, fresh ids, and what shlex makes of a command.
pub record Found : Type 0 where
  pub config : Result LoadError NannyConfig
  pub identity : Result IdentityError (Option AppIdentity)
  pub packs_of : NannyConfig → Result PacksError (List PackManifest)
  pub components_of : NannyConfig → BridgeComponents
  pub is_loopback : Bool
  pub cert : Option String
  pub key : Option String
  pub ca : Option String
  pub certs_dir : Option String
  pub exists : String → Bool
  pub cwd_name : Option String
  pub session_token_var : Option String
  pub run_id_var : Option String
  pub sync : Result NoSyncReason SyncTarget
  pub uuid : String
  pub new_run_id : String
  pub ephemeral_run_id : String
  pub shlex : String → Option (List String)
  pub extra_args : List String

pub data StartError : Type 0 where
  config_failed : LoadError → StartError
  identity_failed : IdentityError → StartError
  packs_failed : PacksError → StartError
  tls_not_found : (label : String) → StartError
  folder_failed : IoError → StartError
  token_refused : (message : String) → StartError
  invalid_command : (cmd : String) → StartError
  empty_command arguments_without_start : StartError

-- What the governor is started with.
pub record Plan : Type 0 where
  pub app : AppIdentity
  pub packs : List PackManifest
  pub components : BridgeComponents
  pub session_tokens : List String
  pub target : Result NoSyncReason SyncTarget
  pub command : Option (List String)
  pub primary_run_id : Option String

abbrev pub Starting : Type 0 → Type 0
Starting A = Exec Folder StartError A

abbrev or_app : Option String → String
or_app none = "app"
or_app (some name) = name

-- Without an identity, one for this run.
abbrev pub app_or_ephemeral : Found → Option AppIdentity → AppIdentity
app_or_ephemeral found (some app) = app
app_or_ephemeral found none = record {
  app_id = replace_from 0 "run_" "eph_" found.ephemeral_run_id;
  name = or_app found.cwd_name;
}

-- `bundle`
abbrev pub bundle : Option String → String
bundle none = ".nanny/certs-not-resolved"
bundle (some dir) = dir

-- `cert.unwrap_or_else(|| bundle().join("server.crt"))`, and its like
abbrev pub path_or : Option String → Option String → String → String
path_or none dir file = bundle dir <> "/" <> file
path_or (some path) dir file = path

abbrev pub tls_file : Found → String → String → TlsFile
tls_file found label path = record { label = label; is_there = found.exists path }

-- The three files, in the order in which they are looked for.
unfoldable pub tls_files : Found → List TlsFile
tls_files found =
    tls_file found "server cert" (path_or found.cert found.certs_dir "server.crt")
    ∷ tls_file found "server key" (path_or found.key found.certs_dir "server.key")
    ∷ tls_file found "CA cert" (path_or found.ca found.certs_dir "ca.crt")
    ∷ []

-- The loop over the three files: the first that is not there.
unfoldable pub check_tls : List TlsFile → Starting (Unit {0})
check_tls [] = pure tt
check_tls (file ∷ files) = do
  raise_if (not file.is_there) (tls_not_found file.label)
  check_tls files

abbrev pub require_tls : Bool → List TlsFile → Starting (Unit {0})
require_tls is_loopback files = if is_loopback then pure tt else check_tls files

abbrev pub tokens_or_minted : String → Option (List String) → List String
tokens_or_minted uuid none = uuid ∷ []
tokens_or_minted uuid (some configured) = configured

-- The content of server.sync.
abbrev pub sync_state : Result NoSyncReason SyncTarget → String
sync_state (ok t) = strip_suffix_or t.endpoint "/v1/ingest"
sync_state (err reason) = "off"

abbrev pub split_command : String → List String → List String → Starting (Option (List String))
split_command cmd [] extra_args = raise empty_command
split_command cmd (program ∷ args) extra_args = pure (some (program ∷ args ++ extra_args))

abbrev pub unless_extra : List String → Starting (Option (List String))
unless_extra [] = pure none
unless_extra (arg ∷ args) = raise arguments_without_start

-- `child_command`
unfoldable pub child_command : Found → Option StartConfig → Starting (Option (List String))
child_command found none = unless_extra found.extra_args
child_command found (some start) = do
  command ← or_raise (invalid_command start.cmd) (found.shlex start.cmd)
  split_command start.cmd command found.extra_args

abbrev pub filled_or : Option String → String → String
filled_or none fresh = fresh
filled_or (some v) fresh = if not (is_empty (trim v)) then v else fresh

-- `primary_run_id`
abbrev pub primary_run_id_of : Found → Option (List String) → Option String
primary_run_id_of found none = none
primary_run_id_of found (some command) = some (filled_or found.run_id_var found.new_run_id)

abbrev pub command_text : Option StartConfig → Option String
command_text none = none
command_text (some start) = some start.cmd

abbrev pub plan_of :
    Found
    → NannyConfig
    → Option AppIdentity
    → List PackManifest
    → Option (List String)
    → Option (List String)
    → Plan
plan_of found config identity packs configured command = record {
  app = app_or_ephemeral found identity;
  packs = packs;
  components = record (found.components_of config) { start_command = command_text config.start };
  session_tokens = tokens_or_minted found.uuid configured;
  target = found.sync;
  command = command;
  primary_run_id = primary_run_id_of found command;
}

module _ (access : Access) (found : Found) where
  -- `cmd_server_start`, up to `NetworkServer::start_blocking_synced`
  unfoldable pub cmd_server_start : Starting Plan
  unfolding tls_files
  cmd_server_start = do
    config ← lift config_failed found.config
    identity ← lift identity_failed found.identity
    packs ← lift packs_failed (found.packs_of config)
    require_tls found.is_loopback (tls_files found)
    create_dir_all access folder_failed
    configured ← lift token_refused (resolve_session_token found.session_token_var)
    write access folder_failed "server.sync" (sync_state found.sync)
    command ← child_command found config.start
    create_dir_all access folder_failed
    pure (plan_of found config identity packs configured command)
