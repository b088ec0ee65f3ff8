-- ===== src/Cli/Certs/Import.antt =====
-- crates/cli/src/commands/certs.rs: `nanny certs import`, and what it checks. The crate x509-parser is a
-- parameter, and so is reading a file that an argument names.
pub mod Chained
use Prim.Native.Char.{code}
use nanny.Prelude.{
  ℕ, String, ◌==◌, nat_eq, string_eq, Bool, true, false, not, ◌&&◌, ◌||◌, Option, none, some, List,
  [], ◌∷◌, if◌then◌else◌, split_once, trim_start, starts_with,
}
use nanny.Prelude.Dict.{Dict, get, insert}
use nanny.Prelude.Exec.{pure, raise, raise_if, or_raise, gets, ◌>>=◌, ◌>>◌}
use nanny.Cli.Folder.{Folder, Access, exists, create_dir_all, read, write, restrict}
use nanny.Cli.Certs.Bundle.{
  Crates, Certs, io_failed, invalid_argument, unknown_key, unreadable, not_pem, no_pairs,
  chain_invalid, expiry_unread, write_meta,
}

pub record X509Certificate : Type 0 where
  pub public_key : String
  -- `OffsetDateTime::from_unix_timestamp` of its notAfter
  pub not_after : Option ℕ

pub record X509Parser : Type 0 where
  pub parse_pem : String → Option String
  pub from_der : String → Option X509Certificate
  -- whether a certificate, by its DER, is signed by the owner of a public key
  pub verify_signature : String → String → Bool

abbrev pub begin_mark : String
begin_mark = "-----BEGIN"

-- `validate_pem`
unfoldable pub validate_pem : String → Bool
validate_pem pem = starts_with begin_mark (trim_start pem)

-- `v.strip_prefix('@')`
abbrev pub after_at : String → Option String
after_at String.[] = none
after_at (String.◌∷◌ c path) = if code c == 64 then some path else none

abbrev pub is_import_key : String → Bool
is_import_key k = (k == "ca") || (k == "cert") || (k == "key")

-- The files that are still missing.
unfoldable pub missing_files : Folder → List String
missing_files folder =
    let key = if exists "server.key" folder then [] else "server.key" ∷ [] in
    let cert = if exists "server.crt" folder then key else "server.crt" ∷ key in
    if exists "ca.crt" folder then cert else "ca.crt" ∷ cert

abbrev with_der : String → Option X509Certificate → Option (String × X509Certificate)
with_der der none = none
with_der der (some cert) = some (der, cert)

module _ (x509 : X509Parser) where
  abbrev of_der : Option String → Option (String × X509Certificate)
  of_der none = none
  of_der (some der) = with_der der (x509.from_der der)

  -- The DER of a PEM, and what it says.
  abbrev pub parse : String → Option (String × X509Certificate)
  parse pem = of_der (x509.parse_pem pem)

  abbrev pub signed_by_ca :
      Option (String × X509Certificate) → Option (String × X509Certificate) → Bool
  signed_by_ca (some (_, ca)) (some (der, _)) = x509.verify_signature der ca.public_key
  signed_by_ca _ _ = false

  -- `validate_chain`
  unfoldable pub validate_chain : String → String → Bool
  validate_chain ca_pem cert_pem = signed_by_ca (parse ca_pem) (parse cert_pem)

  abbrev pub expiry_of : Option (String × X509Certificate) → Option ℕ
  expiry_of none = none
  expiry_of (some (_, cert)) = cert.not_after

  -- `cert_expiry_from_pem`
  unfoldable pub cert_expiry_from_pem : String → Option ℕ
  cert_expiry_from_pem pem = expiry_of (parse pem)

module _ (access : Access) (crates : Crates) (x509 : X509Parser)
    (read_path : String → Option String) where
  abbrev pub value_of : String → Option String → Certs String
  value_of v none = pure v
  value_of v (some path) = or_raise (unreadable path) (read_path path)

  abbrev pub parse_key_value : String → Dict String → Option (String × String) → Certs (Dict String)
  parse_key_value pair values none = raise (invalid_argument pair)
  parse_key_value pair values (some (k, v)) = do
    value ← value_of v (after_at v)
    raise_if (not (is_import_key k)) (unknown_key k)
    pure (insert k value values)

  -- The loop over the arguments.
  unfoldable pub parse_pairs : Dict String → List String → Certs (Dict String)
  parse_pairs values [] = pure values
  parse_pairs values (pair ∷ pairs) = do
    more ← parse_key_value pair values (split_once 61 pair)
    parse_pairs more pairs

  -- One of the three files, if it was given.
  unfoldable pub import_file : String → String → Option String → Certs (Unit {0})
  import_file label name none = pure tt
  import_file label name (some pem) = do
    raise_if (not (validate_pem pem)) (not_pem label)
    write access io_failed name pem

  unfoldable pub import_key : Option String → Certs (Unit {0})
  import_key none = pure tt
  import_key (some pem) = do
    import_file "key" "server.key" (some pem)
    restrict access io_failed "server.key"

  -- "Validate cert chain", and the meta.json.
  unfoldable pub check_chain : Certs (Unit {0})
  check_chain = do
    ca_pem ← read access io_failed "ca.crt"
    cert_pem ← read access io_failed "server.crt"
    raise_if (not (validate_chain x509 ca_pem cert_pem)) chain_invalid
    expiry ← or_raise expiry_unread (cert_expiry_from_pem x509 cert_pem)
    write_meta access crates expiry ("imported" ∷ [])

  abbrev is_none_given : Dict String → Bool
  is_none_given [] = true
  is_none_given (_ ∷ _) = false

  abbrev pub checked_or_missing : List String → Certs (List String)
  checked_or_missing [] = do check_chain; pure []
  checked_or_missing (name ∷ names) = pure (name ∷ names)

  -- `cmd_certs_import`, and the files that it says are still missing.
  unfoldable pub cmd_certs_import : List String → Certs (List String)
  cmd_certs_import pairs = do
    values ← parse_pairs [] pairs
    raise_if (is_none_given values) no_pairs
    create_dir_all access io_failed
    import_file "ca" "ca.crt" (get "ca" values)
    import_file "cert" "server.crt" (get "cert" values)
    import_key (get "key" values)
    missing ← gets missing_files
    checked_or_missing missing
