-- ===== src/Cli/Certs/Manage.antt =====
-- crates/cli/src/commands/certs.rs: `nanny certs remove` and `nanny certs show`.
pub mod Removed
use Prim.Native.Char.{Char, code}
use nanny.Prelude.{
  ℕ, String, ◌+◌, ◌==◌, nat_eq, Bool, true, false, ◌&&◌, ◌||◌, Option, none, some, List, [], ◌∷◌,
  ◌++◌, Result, ok, err, map, if◌then◌else◌, trim, is_empty,
}
use nanny.Prelude.Exec.{pure, raise, or_raise, gets, for_each, ◌>>=◌, ◌>>◌}
use nanny.Cli.Folder.{Folder, Access, exists, read, remove_file, remove_dir}
use nanny.Cli.Certs.Bundle.{
  Crates, CertsMeta, CertsError, Certs, io_failed, expiry_unread, confirmation_unread, bundle_files,
  read_meta,
}
use nanny.Cli.Certs.Import.{X509Parser, cert_expiry_from_pem}

-- A letter, in lower or in upper case, by the code of the first.
abbrev pub is_letter : ℕ → Char → Bool
is_letter lower c = (code c == lower) || (code c + 32 == lower)

abbrev is_es : String → Bool
is_es (String.◌∷◌ e (String.◌∷◌ s String.[])) = is_letter 101 e && is_letter 115 s
is_es _ = false

abbrev pub is_y_or_yes : String → Bool
is_y_or_yes String.[] = false
is_y_or_yes (String.◌∷◌ y rest) = is_letter 121 y && (is_empty rest || is_es rest)

-- `matches!(input.trim().to_lowercase().as_str(), "y" | "yes")`
unfoldable pub is_confirmed : String → Bool
is_confirmed input = is_y_or_yes (trim input)

-- `files` of `cmd_certs_remove`
abbrev pub removed_files : List String
removed_files = bundle_files ++ "meta.json" ∷ []

pub data Removal : Type 0 where
  nothing_to_remove aborted removed : Removal

-- What `cmd_certs_show` prints: the expiry, the names if meta.json has them, and which files are there.
pub data Shown : Type 0 where
  none_found no_server_cert : Shown
  details : String → Option (List String) → List (String × Bool) → Shown

module _ (access : Access) where
  unfoldable pub remove_one : String → Certs (Unit {0})
  remove_one name folder =
      if exists name folder then remove_file access io_failed name folder else (folder, ok tt)

  abbrev pub try_remove_dir : Certs Removal
  try_remove_dir folder = (remove_dir access folder, ok removed)

  unfoldable pub remove_confirmed : Bool → Certs Removal
  remove_confirmed false = pure aborted
  remove_confirmed true = do for_each remove_one removed_files; try_remove_dir

  abbrev pub remove_asked : Option String → Bool → Certs Removal
  remove_asked input false = pure nothing_to_remove
  remove_asked none true = raise confirmation_unread
  remove_asked (some line) true = remove_confirmed (is_confirmed line)

  -- `cmd_certs_remove`, with the line that it reads, if it can.
  unfoldable pub cmd_certs_remove : Option String → Certs Removal
  cmd_certs_remove input folder = remove_asked input folder.is_there folder

abbrev present : Folder → List (String × Bool)
present folder = map (λ name. (name, exists name folder)) bundle_files

abbrev or_blank : Option String → String
or_blank none = ""
or_blank (some s) = s

module _ (access : Access) (crates : Crates) (x509 : X509Parser) where
  -- Without a meta.json: the expiry from server.crt.
  unfoldable pub show_cert : Bool → Certs Shown
  show_cert false = pure no_server_cert
  show_cert true = do
    pem ← read access io_failed "server.crt"
    expiry ← or_raise expiry_unread (cert_expiry_from_pem x509 pem)
    gets (λ folder. details (or_blank (crates.time.format expiry)) none (present folder))

  abbrev shown : Folder → Folder × Result CertsError CertsMeta → Folder × Result CertsError Shown
  shown before (folder, ok meta) =
      (folder, ok (details meta.expires (some meta.san) (present folder)))
  shown before (folder, err e) = show_cert (exists "server.crt" before) folder

  -- `cmd_certs_show`
  unfoldable pub cmd_certs_show : Certs Shown
  cmd_certs_show folder =
      let details = shown folder (read_meta access crates folder) in
      if folder.is_there then details else (folder, ok none_found)
