-- ===== src/Cli/Sync.antt =====
-- crates/cli/src/sync.rs: whether a run syncs, and where to. The environment variables are arguments.
pub mod Delivery
pub mod Disk
pub mod Spool
pub mod Forwarder
use Prim.Native.String.{len, slice}
use text.Mathlib.Text.{starts_with}
use nanny.Prelude.{
  ◌-◌, ◌==◌, string_eq, ◌≡◌, refl, trim_start, trim_end, is_whitespace, String, Bool, true, false,
  not, Option, none, some, Result, ok, err, trim, is_empty, ◌<>◌, if◌then◌else◌,
}

-- crates/cli/src/cloud.rs: `CloudEnv`
pub data CloudEnv : Type 0 where
  dev staging prod : CloudEnv

-- `CloudEnv::api_base`
unfoldable pub api_base : CloudEnv → String
api_base dev = "http://localhost:3000"
api_base staging = "https://sandbox-api.nanny.run"
api_base prod = "https://api.nanny.run"

-- `CloudEnv::ingest_url`
unfoldable pub ingest_url : CloudEnv → String
unfolding api_base
ingest_url env = api_base env <> "/v1/ingest"

pub record SyncTarget : Type 0 where
  pub endpoint : String
  pub api_key : String

abbrev unless_blank : String → Option String
unless_blank key = if is_empty key then none else some key

-- `api_key_from_env`, from the variable, if it is set and readable.
unfoldable pub api_key_from_env : Option String → Option String
api_key_from_env none = none
api_key_from_env (some value) = unless_blank (trim value)

-- `no_sync_from_env`
unfoldable pub no_sync_from_env : Option String → Bool
no_sync_from_env none = false
no_sync_from_env (some value) = not (is_empty (trim value))

pub data Environment : Type 0 where
  live sandbox : Environment

-- `Environment::from_api_key`
unfoldable pub from_api_key : String → Environment
from_api_key api_key = if starts_with api_key "nny_sdbx_" then sandbox else live

-- `Environment::dir_name`
unfoldable pub dir_name : Environment → String
dir_name live = "live"
dir_name sandbox = "sandbox"

-- `Environment::other`
unfoldable pub other : Environment → Environment
other live = sandbox
other sandbox = live

pub data NoSyncReason : Type 0 where
  flag env_override no_api_key : NoSyncReason

abbrev with_key : CloudEnv → Option String → Result NoSyncReason SyncTarget
with_key env none = err no_api_key
with_key env (some api_key) = ok (record { endpoint = ingest_url env; api_key = api_key })

-- `resolve_sync`, with the values of `NANNY_NO_SYNC` and `NANNY_API_KEY`.
unfoldable pub resolve_sync :
    CloudEnv → Bool → Option String → Option String → Result NoSyncReason SyncTarget
unfolding no_sync_from_env api_key_from_env
resolve_sync env no_sync no_sync_var api_key_var =
    if no_sync
    then err flag
    else if no_sync_from_env no_sync_var
    then err env_override
    else with_key env (api_key_from_env api_key_var)

-- `strip_suffix(end)`, or the text itself.
abbrev pub strip_suffix_or : String → String → String
strip_suffix_or s end =
    let cut = len s - len end in if slice s cut (len s) == end then slice s 0 cut else s

abbrev and_app : Option String → String
and_app none = ""
and_app (some name) = " (app: " <> name <> ")"

-- `sync_status_line`
unfoldable pub sync_status_line : Result NoSyncReason SyncTarget → Option String → String
sync_status_line (ok t) app_name =
    "nanny: mode managed, syncing to "
    <> strip_suffix_or t.endpoint "/v1/ingest"
    <> and_app app_name
sync_status_line (err flag) app_name =
    "nanny: mode local, not syncing (--no-sync). Enforcing locally."
sync_status_line (err env_override) app_name =
    "nanny: mode local, not syncing (NANNY_NO_SYNC is set). Enforcing locally."
sync_status_line (err no_api_key) app_name =
    "nanny: mode local, not syncing (NANNY_API_KEY is not set). Enforcing locally."

status_line_dev :
    sync_status_line (resolve_sync dev false none (some " nny_sdbx_1 ")) (some "a")
    ≡ "nanny: mode managed, syncing to http://localhost:3000 (app: a)"
unfolding sync_status_line ingest_url resolve_sync trim trim_start trim_end is_whitespace
status_line_dev = refl
