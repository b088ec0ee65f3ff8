-- ===== src/Cli/Discovery.antt =====
-- How another process on the machine finds a governor, by the files of its app: what
-- crates/bridge/src/network.rs writes once it listens and removes when it stops,
-- crates/cli/src/commands/server.rs waits for and removes, and crates/cli/src/main.rs reads to join.
pub mod Joined
pub mod Stale
use Prim.Native.Char.{Char}
use nanny.Prelude.{
  ℕ, zero, suc, String, ◌<>◌, ◌-◌, Bool, true, false, not, ◌||◌, Option, none, some, List, [], ◌∷◌,
  Result, ok, err, if◌then◌else◌, trim, is_empty, starts_with, chars_count, to_decimal,
}
use nanny.Prelude.Dict.{insert}
use nanny.Prelude.Exec.{Exec, pure, raise_if, or_raise, ◌>>=◌, ◌>>◌}
use nanny.Cli.Folder.{
  Folder, Stored, Access, IoError, Written, whole, failed, failed_to_write, find, exists,
  create_dir_all, read, write, restrict, remove_file,
}
use nanny.Network.Bind.{SocketAddr}

-- What an operation leaves whose error is only reported.
abbrev pub left_by : Folder × Result IoError (Unit {0}) → Folder
left_by (folder, r) = folder

abbrev pub only_reported : IoError → IoError
only_reported e = e

-- A file that is new is made with mode 0600, one that is there keeps its mode.
abbrev pub mode_of : Option Stored → Bool
mode_of none = true
mode_of (some f) = f.owner_only

abbrev pub put_secret : String → String → Folder → Folder
put_secret name text folder = record folder {
  files =
      insert name (record { text = text; owner_only = mode_of (find name folder) }) folder.files;
}

abbrev pub put_secret_left : String → Option String → Folder → Folder
put_secret_left name none folder = folder
put_secret_left name (some text) folder = put_secret name text folder

abbrev pub discovery_files : List String
discovery_files = "server.pid" ∷ "server.addr" ∷ "server.token" ∷ "server.sync" ∷ []

module _ (access : Access) where
  abbrev pub write_secret_as : String → String → Written → Exec Folder IoError (Unit {0})
  write_secret_as name text whole folder =
      restrict access only_reported name (put_secret name text folder)
  write_secret_as name text (failed left) folder =
      (put_secret_left name left folder, err (failed_to_write name))

  -- `write_secret_file`
  unfoldable pub write_secret_file : String → String → Exec Folder IoError (Unit {0})
  write_secret_file name text = write_secret_as name text (access.writes name)

  abbrev pub with_files : String → String → String → Folder × Result IoError (Unit {0}) → Folder
  with_files addr token pid (folder, err e) = folder
  with_files addr token pid (folder, ok u) =
      let addressed = left_by (write access only_reported "server.addr" addr folder) in
      let secret = left_by (write_secret_file "server.token" token addressed) in
      left_by (write access only_reported "server.pid" pid secret)

  -- The files of `start_blocking_synced`, for the address that is bound and the first token.
  unfoldable pub publish : String → String → String → Folder → Folder
  publish addr token pid folder =
      with_files addr token pid (create_dir_all access only_reported folder)

  -- What it removes when it stops.
  unfoldable pub unpublish : Folder → Folder
  unpublish folder =
      let without_pid = left_by (remove_file access only_reported "server.pid" folder) in
      left_by (remove_file access only_reported "server.token" without_pid)

  -- The loop of `remove_discovery_files`.
  unfoldable pub remove_all : List String → Folder → Folder
  remove_all [] folder = folder
  remove_all (name ∷ names) folder =
      remove_all names (left_by (remove_file access only_reported name folder))

  -- `remove_discovery_files`
  unfoldable pub remove_discovery_files : Folder → Folder
  unfolding remove_all
  remove_discovery_files folder = remove_all discovery_files folder

-- `s.replace(from, to)`, from the left; `skip` characters of a match are still to be left out.
unfoldable pub replace_from : ℕ → String → String → String → String
replace_from skip from to String.[] = ""
replace_from (suc skip) from to (String.◌∷◌ c s) = replace_from skip from to s
replace_from zero from to (String.◌∷◌ c s) =
    let matched = to <> replace_from (chars_count from - 1) from to s in
    let kept = String.◌∷◌ c (replace_from zero from to s) in
    if starts_with from (String.◌∷◌ c s) then matched else kept

-- "Replace 0.0.0.0 (bind-all listen addr) with 127.0.0.1 for local connections."
unfoldable pub local_addr : String → String
unfolding replace_from
local_addr addr = replace_from 0 "0.0.0.0" "127.0.0.1" addr

pub record NetworkServerInfo : Type 0 where
  pub addr : String
  pub token : String

pub data JoinError : Type 0 where
  no_server missing_token corrupt_state invalid_address unreachable : JoinError
  exited_early not_ready : JoinError

abbrev pub on_addr : IoError → JoinError
on_addr e = no_server

abbrev pub on_token : IoError → JoinError
on_token e = missing_token

module _ (parse_addr : String → Option SocketAddr) (reaches : SocketAddr → Bool)
    (access : Access) where
  -- What follows the two files.
  unfoldable pub connect_with : String → String → Exec Folder JoinError NetworkServerInfo
  connect_with addr token = do
    raise_if (is_empty addr || is_empty token) corrupt_state
    socket ← or_raise invalid_address (parse_addr (local_addr addr))
    raise_if (not (reaches socket)) unreachable
    pure (record { addr = local_addr addr; token = token })

  -- `detect_joined_server`
  unfoldable pub detect_joined_server : Exec Folder JoinError NetworkServerInfo
  detect_joined_server = do
    addr_raw ← read access on_addr "server.addr"
    token ← read access on_token "server.token"
    connect_with (trim addr_raw) (trim token)

  -- What a round of the wait sees: the folder, and whether the governor's thread has ended.
  unfoldable pub wait_from : (ℕ → Folder × Bool) → ℕ → ℕ → Result JoinError NetworkServerInfo
  wait_from seen round zero = err not_ready
  wait_from seen round (suc left) =
      let rest = wait_from seen (suc round) left in
      let (folder, finished) = seen round in
      if exists "server.addr" folder
      then (detect_joined_server folder).1
      else if finished
      then err exited_early
      else rest

  -- `wait_for_governor`, a round every 50 ms
  unfoldable pub wait_for_governor : (ℕ → Folder × Bool) → Result JoinError NetworkServerInfo
  unfolding wait_from
  wait_for_governor seen = wait_from seen 0 200
