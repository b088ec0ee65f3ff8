-- ===== src/Cli/Certs/Import/Chained.antt =====
-- What an import leaves as it is, and what it has checked when it returns with nothing missing.
use nanny.Prelude.{
  ℕ, String, ◌≡◌, refl, ap, ◌∙◌, Bool, true, false, not, Option, none, some, List, [], ◌∷◌, ok,
  arith, ◌==◌, string_eq, split_once, Option-cases, inl, inr,
}
use nanny.Prelude.Dict.{Dict}
use nanny.Prelude.Exec.{
  Ensures, Keeps, Ensures-bind, Ensures-after, Ensures-given, Ensures-raise_if, Ensures-or_raise,
  Ensures-from, Ensures-and, Ensures-weaken, Ensures-pure, Keeps-bind, Keeps-and, Keeps-pure,
  Keeps-or_raise, keeps_rules, returned,
}
use nanny.Cli.Folder.{Stored, Folder, Access, find, contents, stored_text, read}
use nanny.Cli.Folder.Laws.{
  Has, Holds, Keeps-find, Keeps-read, Keeps-write, Keeps-restrict, Keeps-create_dir_all,
  read-contents,
}
use nanny.Cli.Certs.Bundle.{Crates, io_failed, chain_invalid, expiry_unread, write_meta}
use nanny.Cli.Certs.Bundle.Stored.{Records, Keeps-write_meta, write_meta-Records}
use nanny.Cli.Certs.Import.{
  X509Parser, X509Certificate, parse, signed_by_ca, expiry_of, validate_chain, cert_expiry_from_pem,
  value_of, parse_key_value, parse_pairs, import_file, import_key, check_chain, checked_or_missing,
  cmd_certs_import,
}

not-false : (b : Bool) → not b ≡ false → b ≡ true
not-false b h = ground (arith, h)

-- The one certificate is read, and so is the other, whose bytes verify under the first one's key; and
-- this other one has an expiry.
abbrev pub IsSignedUntil : X509Parser → String → String → ℕ → Type 0
IsSignedUntil x509 ca_pem cert_pem expiry =
    (ca_der : String) × (ca : X509Certificate) × (der : String) × (cert : X509Certificate)
    × (x509.parse_pem ca_pem ≡ some ca_der)
    × (x509.from_der ca_der ≡ some ca)
    × (x509.parse_pem cert_pem ≡ some der)
    × (x509.from_der der ≡ some cert)
    × (x509.verify_signature der ca.public_key ≡ true)
    × (cert.not_after ≡ some expiry)

module _ (x509 : X509Parser) where
  Reads : String → Option (String × X509Certificate) → Type 0
  Reads pem none = Unit
  Reads pem (some (der, cert)) = (x509.parse_pem pem ≡ some der) × (x509.from_der der ≡ some cert)

  parse-Reads : (pem : String) → Reads pem (parse x509 pem)
  unfolding Reads
  parse-Reads pem = elim (Option-cases (x509.parse_pem pem)) [
    | inl e ↦ rw (e, Reads) tt
    | inr (der, e) ↦ elim (Option-cases (x509.from_der der)) [
      | inl k ↦ rw (e, k, Reads) tt
      | inr (cert, k) ↦ rw (e, k, Reads) (e, k)
    ]
  ]

  signed_by_ca-IsSignedUntil :
      (ca_pem cert_pem : String) (expiry : ℕ) (ca cert : Option (String × X509Certificate))
      → Reads ca_pem ca
      → Reads cert_pem cert
      → signed_by_ca x509 ca cert ≡ true
      → expiry_of x509 cert ≡ some expiry
      → IsSignedUntil x509 ca_pem cert_pem expiry
  unfolding Reads
  signed_by_ca-IsSignedUntil ca_pem cert_pem expiry none cert h k v e = cc
  signed_by_ca-IsSignedUntil ca_pem cert_pem expiry (some a) none h k v e = cc
  signed_by_ca-IsSignedUntil ca_pem cert_pem expiry (some (ca_der, ca)) (some (der, cert)) (h, h')
        (k, k') v e =
      (ca_der, ca, der, cert, h, h', k, k', v, e)

  validate_chain-IsSignedUntil :
      (ca_pem cert_pem : String) (expiry : ℕ)
      → validate_chain x509 ca_pem cert_pem ≡ true
      → cert_expiry_from_pem x509 cert_pem ≡ some expiry
      → IsSignedUntil x509 ca_pem cert_pem expiry
  unfolding validate_chain cert_expiry_from_pem
  validate_chain-IsSignedUntil ca_pem cert_pem expiry v e =
      signed_by_ca-IsSignedUntil ca_pem cert_pem expiry (parse x509 ca_pem) (parse x509 cert_pem)
        (parse-Reads ca_pem) (parse-Reads cert_pem) v e

-- The chain of the bundle is valid, and the meta.json is the one of an import.
abbrev pub IsChained : Crates → X509Parser → Folder → Type 0
IsChained crates x509 folder =
    (ca_pem : String) × (cert_pem : String) × (expiry : ℕ) × IsSignedUntil x509 ca_pem cert_pem
      expiry
    × Holds "ca.crt" ca_pem folder
    × Holds "server.crt" cert_pem folder
    × Records crates expiry ("imported" ∷ []) folder

module _ (access : Access) (crates : Crates) (x509 : X509Parser)
    (read_path : String → Option String) where
  module _ (a : String) (o : Option Stored) where
    Keeps-value_of :
        (v : String) (path : Option String)
        → Keeps (Has a o) (value_of access crates x509 read_path v path)
    Keeps-value_of v none = Keeps-pure v
    Keeps-value_of v (some path) = Keeps-or_raise _ (read_path path)

    Keeps-parse_key_value :
        (pair : String) (values : Dict String) (split : Option (String × String))
        → Keeps (Has a o) (parse_key_value access crates x509 read_path pair values split)
    Keeps-parse_key_value pair values none = search keeps_rules
    Keeps-parse_key_value pair values (some (k, v)) = search (keeps_rules, Keeps-value_of)

    Keeps-parse_pairs :
        (values : Dict String) (pairs : List String)
        → Keeps (Has a o) (parse_pairs access crates x509 read_path values pairs)
    unfolding parse_pairs
    Keeps-parse_pairs values [] = Keeps-pure values
    Keeps-parse_pairs values (pair ∷ pairs) =
        Keeps-bind _ _ (Keeps-parse_key_value pair values (split_once 61 pair))
          (λ more. Keeps-parse_pairs more pairs)

    Keeps-import_file :
        (label name : String) (given : Option String)
        → (name == a) ≡ false
        → Keeps (Has a o) (import_file access crates x509 read_path label name given)
    unfolding import_file
    Keeps-import_file label name none h = Keeps-pure tt
    Keeps-import_file label name (some pem) h = search (keeps_rules, Keeps-write)

    Keeps-import_key :
        (given : Option String)
        → ("server.key" == a) ≡ false
        → Keeps (Has a o) (import_key access crates x509 read_path given)
    unfolding import_key
    Keeps-import_key none h = Keeps-pure tt
    Keeps-import_key (some pem) h = search (keeps_rules, Keeps-import_file, Keeps-restrict)

    Keeps-check_chain :
        ("meta.json" == a) ≡ false → Keeps (Has a o) (check_chain access crates x509 read_path)
    unfolding check_chain
    Keeps-check_chain h = search (keeps_rules, Keeps-read, Keeps-write_meta) depth 12

    Keeps-checked_or_missing :
        (missing : List String)
        → ("meta.json" == a) ≡ false
        → Keeps (Has a o) (checked_or_missing access crates x509 read_path missing)
    Keeps-checked_or_missing [] h = search (keeps_rules, Keeps-check_chain)
    Keeps-checked_or_missing (name ∷ names) h = Keeps-pure _

    -- An import writes the files that are given, and the meta.json.
    Keeps-cmd_certs_import :
        (pairs : List String)
        → ("ca.crt" == a) ≡ false
        → ("server.crt" == a) ≡ false
        → ("server.key" == a) ≡ false
        → ("meta.json" == a) ≡ false
        → Keeps (Has a o) (cmd_certs_import access crates x509 read_path pairs)
    unfolding cmd_certs_import
    Keeps-cmd_certs_import pairs h k l m =
        search
          (
            keeps_rules, Keeps-parse_pairs, Keeps-create_dir_all, Keeps-import_file,
            Keeps-import_key, Keeps-checked_or_missing,
          )
          depth 20

  recorded :
      (folder : Folder) (ca_pem cert_pem : String) (expiry : ℕ)
      → contents "ca.crt" folder ≡ some ca_pem
      → contents "server.crt" folder ≡ some cert_pem
      → validate_chain x509 ca_pem cert_pem ≡ true
      → cert_expiry_from_pem x509 cert_pem ≡ some expiry
      → Ensures
          (λ s. s ≡ folder)
          (write_meta access crates expiry ("imported" ∷ []))
          (λ _. IsChained crates x509)
          (λ _. Unit {0})
  recorded folder ca_pem cert_pem expiry c d v e =
      let writes = write_meta access crates expiry ("imported" ∷ []) in
      let keeps = λ (a : String) (text : String) (h : ("meta.json" == a) ≡ false).
        Keeps-find a (λ f. stored_text f ≡ some text) writes
          (λ o. Keeps-write_meta access crates a o expiry ("imported" ∷ []) h) in
      Ensures-from writes
        (Ensures-weaken writes
          (Ensures-and writes
            (Keeps-and writes (keeps "ca.crt" ca_pem refl) (keeps "server.crt" cert_pem refl))
            (write_meta-Records access crates expiry ("imported" ∷ [])))
          (λ _ s ((h, k), r). (
            ca_pem,
            cert_pem,
            expiry,
            validate_chain-IsSignedUntil x509 ca_pem cert_pem expiry v e,
            h,
            k,
            r,
          )))
        (λ s q. (ap (contents "ca.crt") q ∙ c, ap (contents "server.crt") q ∙ d))

  check_chain-IsChained :
      (folder : Folder)
      → Ensures
          (λ s. s ≡ folder)
          (check_chain access crates x509 read_path)
          (λ _. IsChained crates x509)
          (λ _. Unit {0})
  unfolding check_chain
  check_chain-IsChained folder =
      Ensures-bind (read access io_failed "ca.crt") _
        (read-contents access io_failed "ca.crt" folder)
        (λ ca_pem. Ensures-given _ (λ c.
          Ensures-bind (read access io_failed "server.crt") _
            (read-contents access io_failed "server.crt" folder)
            (λ cert_pem. Ensures-given _ (λ d.
              Ensures-raise_if (not (validate_chain x509 ca_pem cert_pem)) chain_invalid _ (λ _ v.
                Ensures-or_raise expiry_unread (cert_expiry_from_pem x509 cert_pem) _
                  (λ expiry. recorded folder ca_pem cert_pem expiry c d (not-false _ v)))))))

  checked_or_missing-IsChained :
      (missing : List String)
      → Ensures
          (λ _. Unit {0})
          (checked_or_missing access crates x509 read_path missing)
          (λ left s. left ≡ [] → IsChained crates x509 s)
          (λ _. Unit {0})
  checked_or_missing-IsChained [] =
      Ensures-bind (check_chain access crates x509 read_path) _
        (record { at = λ s h. (check_chain-IsChained s).at s refl })
        (λ _. Ensures-pure [] (λ s h e. h))
  checked_or_missing-IsChained (name ∷ names) = Ensures-pure (name ∷ names) (λ s h e. cc)

  cmd_certs_import-IsChained :
      (pairs : List String)
      → Ensures
          (λ _. Unit {0})
          (cmd_certs_import access crates x509 read_path pairs)
          (λ left s. left ≡ [] → IsChained crates x509 s)
          (λ _. Unit {0})
  unfolding cmd_certs_import
  cmd_certs_import-IsChained pairs = search (Ensures-after, checked_or_missing-IsChained) depth 20

-- An import that returns with nothing missing has checked the chain of what is then in the bundle:
-- both certificates are read, the bytes of server.crt verify under the public key of ca.crt, and the
-- meta.json has the expiry of server.crt. The CA's own key and
-- the files of the clients are what they were.
pub cmd_certs_import_checks :
    (access : Access) (crates : Crates) (x509 : X509Parser) (read_path : String → Option String)
    (pairs : List String) (folder after : Folder)
    → cmd_certs_import access crates x509 read_path pairs folder ≡ (after, ok [])
    → IsChained crates x509 after
      × (find "ca.key" after ≡ find "ca.key" folder)
      × (find "client.crt" after ≡ find "client.crt" folder)
      × (find "client.key" after ≡ find "client.key" folder)
cmd_certs_import_checks access crates x509 read_path pairs folder after e =
    let imports = cmd_certs_import access crates x509 read_path pairs in
    let keeps =
      λ (a : String). Keeps-cmd_certs_import access crates x509 read_path a (find a folder) pairs in
    (
      returned imports folder after []
          (cmd_certs_import-IsChained access crates x509 read_path pairs) tt e refl,
      returned imports folder after [] (keeps "ca.key" refl refl refl refl) refl e,
      returned imports folder after [] (keeps "client.crt" refl refl refl refl) refl e,
      returned imports folder after [] (keeps "client.key" refl refl refl refl) refl e,
    )
