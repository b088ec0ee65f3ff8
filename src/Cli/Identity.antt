-- ===== src/Cli/Identity.antt =====
-- crates/cli/src/identity.rs: the identity of an app, in .nanny/app.json. The file is its text, if it is
-- there; serde_json reads and writes it, and is a parameter.
use nanny.Prelude.{String, Bool, Option, none, some, Result, ok, err, ◌<>◌, if◌then◌else◌}

pub record AppIdentity : Type 0 where
  pub app_id : String
  pub name : String

pub data IdentityError : Type 0 where
  failed_to_read failed_to_parse already_exists failed_to_create failed_to_write not_initialised :
      IdentityError

-- The file system, of this file alone: whether it can be read, the directory made, the file
-- written, and what a failed write leaves.
pub record Access : Type 0 where
  pub reads : Bool
  pub creates : Bool
  pub writes : Bool
  pub left_by_failure : Option String

-- `generate_id`, from a fresh UUID.
abbrev pub generate_id : String → String
generate_id uuid = "app_" <> uuid

module _ (from_str : String → Option AppIdentity) (to_string_pretty : AppIdentity → String) where
  abbrev parsed : Option AppIdentity → Result IdentityError (Option AppIdentity)
  parsed none = err failed_to_parse
  parsed (some identity) = ok (some identity)

  -- `AppIdentity::load`
  unfoldable pub load_identity : Access → Option String → Result IdentityError (Option AppIdentity)
  load_identity access none = ok none
  load_identity access (some contents) =
      let read = parsed (from_str contents) in if access.reads then read else err failed_to_read

  abbrev required : Result IdentityError (Option AppIdentity) → Result IdentityError AppIdentity
  required (err e) = err e
  required (ok none) = err not_initialised
  required (ok (some identity)) = ok identity

  -- `AppIdentity::load_required`
  unfoldable pub load_required : Access → Option String → Result IdentityError AppIdentity
  unfolding load_identity
  load_required access app_file = required (load_identity access app_file)

  -- `AppIdentity::create`, with the note among what is written.
  unfoldable pub create_identity :
      Access → String → String → Option String → Option String × Result IdentityError AppIdentity
  create_identity access uuid name (some contents) = (some contents, err already_exists)
  create_identity access uuid name none =
      let identity : AppIdentity = record { app_id = generate_id uuid; name = name } in
      if access.creates
      then (if access.writes
          then (some (to_string_pretty identity <> "\n"), ok identity)
          else (access.left_by_failure, err failed_to_write))
      else (none, err failed_to_create)
