-- ===== src/Cli/Certs/Issue.antt =====
-- crates/cli/src/commands/certs.rs: `nanny certs generate` and `nanny certs rotate`. What they print is
-- left out, with the warning of `check_git_warning`, which changes no file.
pub mod Rotation
pub mod Rotated
pub mod Names
pub mod Generation
use nanny.Prelude.{
  ℕ, String, Bool, true, false, not, ◌&&◌, Option, none, some, List, [], ◌∷◌, Result, ok, err, any,
  if◌then◌else◌,
}
use nanny.Prelude.Exec.{Exec, pure, raise_if, or_raise, gets, for_each, ◌>>=◌, ◌>>◌}
use nanny.Cli.Folder.{Folder, Access, exists, create_dir_all, read, restrict}
use nanny.Cli.Certs.{server_sans}
use nanny.Cli.Certs.Bundle.{
  CertificateParams, Rcgen, Calendar, Crates, CertsMeta, Party, authority, server, client, Certs,
  CertsError, already_exist, ca_not_found, ca_key_not_found, ca_key_unusable, io_failed,
  params_failed, key_failed, sign_failed, date_out_of_range, bundle_files, write_meta, read_meta,
  write_pem, issue,
}

-- The parameters of the three certificates.
abbrev pub ca_params_of : Option (ℕ × ℕ) → CertificateParams
ca_params_of validity = record {
  names = [];
  common_name = "Nanny CA";
  is_ca = true;
  validity = validity;
}

abbrev pub server_params_of : List String → ℕ → ℕ → CertificateParams
server_params_of names not_before not_after = record {
  names = names;
  common_name = "Nanny Server";
  is_ca = false;
  validity = some (not_before, not_after);
}

abbrev pub client_params_of : ℕ → ℕ → CertificateParams
client_params_of not_before not_after = record {
  names = "nanny-client" ∷ [];
  common_name = "Nanny Client";
  is_ca = false;
  validity = some (not_before, not_after);
}

-- `read_meta(&dir).map(|m| m.san).unwrap_or_default()`
abbrev pub san_or_default :
    Folder × Result CertsError CertsMeta → Folder × Result CertsError (List String)
san_or_default (folder, ok meta) = (folder, ok meta.san)
san_or_default (folder, err e) = (folder, ok [])

module _ (access : Access) (crates : Crates) where
  open crates use {rcgen, time}

  -- "Guard: refuse to overwrite without --force."
  unfoldable pub refuse_existing : Bool → Certs (Unit {0})
  refuse_existing force = do
    present ← gets (λ folder. any (λ name. exists name folder) bundle_files)
    raise_if (not force && present) already_exist

  -- The CA's key and its certificate.
  unfoldable pub issue_ca : CertificateParams → Certs (String × String)
  issue_ca params = do
    raise_if (not (rcgen.accepts params.names)) (params_failed authority)
    key ← or_raise (key_failed authority) (rcgen.generate 0)
    cert ← or_raise (sign_failed authority) (rcgen.self_signed params key)
    pure (cert, key)

  -- The rest of `cmd_certs_generate`.
  unfoldable pub generate_bundle : ℕ → List String → Certs (Unit {0})
  generate_bundle days sans = do
    create_dir_all access io_failed
    not_after ← or_raise date_out_of_range (time.plus_days time.now_utc days)
    let names = server_sans sans
    let ca_params = ca_params_of (some (time.now_utc, not_after))
    (ca_cert, ca_key) ← issue_ca ca_params
    (server_cert, server_key) ←
        issue access crates server (server_params_of names time.now_utc not_after) 1 ca_params
          ca_key
    (client_cert, client_key) ←
        issue access crates client (client_params_of time.now_utc not_after) 2 ca_params ca_key
    for_each (write_pem access crates) (
        ("ca.crt", ca_cert)
        ∷ ("ca.key", ca_key)
        ∷ ("server.crt", server_cert)
        ∷ ("server.key", server_key)
        ∷ ("client.crt", client_cert)
        ∷ ("client.key", client_key)
        ∷ [])
    for_each (restrict access io_failed) ("ca.key" ∷ "server.key" ∷ "client.key" ∷ [])
    write_meta access crates not_after names

  -- `cmd_certs_generate`
  unfoldable pub cmd_certs_generate : Bool → ℕ → List String → Certs (Unit {0})
  cmd_certs_generate force days sans = do refuse_existing force; generate_bundle days sans

  -- The CA's key, from the bundle.
  unfoldable pub load_ca_key : Certs String
  load_ca_key = do
    has_cert ← gets (exists "ca.crt")
    raise_if (not has_cert) ca_not_found
    has_key ← gets (exists "ca.key")
    raise_if (not has_key) ca_key_not_found
    pem ← read access io_failed "ca.key"
    or_raise ca_key_unusable (rcgen.from_pem pem)

  -- `carried_names`
  unfoldable pub carried_names : List String → Certs (List String)
  carried_names [] folder = san_or_default (read_meta access crates folder)
  carried_names (name ∷ sans) folder = (folder, ok (name ∷ sans))

  -- `cmd_certs_rotate`
  unfoldable pub cmd_certs_rotate : List String → Certs (Unit {0})
  cmd_certs_rotate sans = do
    ca_key ← load_ca_key
    let ca_params = ca_params_of none
    raise_if (not (rcgen.accepts ca_params.names)) (params_failed authority)
    not_after ← or_raise date_out_of_range (time.plus_days time.now_utc 365)
    kept ← carried_names sans
    let names = server_sans kept
    (server_cert, server_key) ←
        issue access crates server (server_params_of names time.now_utc not_after) 0 ca_params
          ca_key
    (client_cert, client_key) ←
        issue access crates client (client_params_of time.now_utc not_after) 1 ca_params ca_key
    for_each (write_pem access crates) (
        ("server.crt", server_cert)
        ∷ ("server.key", server_key)
        ∷ ("client.crt", client_cert)
        ∷ ("client.key", client_key)
        ∷ [])
    for_each (restrict access io_failed) ("server.key" ∷ "client.key" ∷ [])
    write_meta access crates not_after names
