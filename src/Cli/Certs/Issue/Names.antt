-- ===== src/Cli/Certs/Issue/Names.antt =====
-- A rotation after a generation.
use mathlib.Core.Path.{subst}
use nanny.Prelude.{
  ℕ, String, ◌≡◌, refl, sym, ap, ◌∙◌, Bool, true, Option, some, List, [], Result, ok,
}
use nanny.Prelude.Exec.{continue, or_raise, pure, returned}
use nanny.Cli.Folder.{Folder, Access, find, stored_text}
use nanny.Cli.Folder.Laws.{Holds, read-returns}
use nanny.Cli.Certs.{server_sans}
use nanny.Cli.Certs.Sans.{server_sans_idempotent}
use nanny.Cli.Certs.Bundle.{Crates, CertsMeta, CertsError, meta_unparsed, io_failed, read_meta}
use nanny.Cli.Certs.Bundle.Stored.{Records}
use nanny.Cli.Certs.Issue.{
  ca_params_of, san_or_default, carried_names, cmd_certs_generate, cmd_certs_rotate,
}
use nanny.Cli.Certs.Issue.Generation.{IsSelfSigned, cmd_certs_generate-IsGenerated}
use nanny.Cli.Certs.Issue.Rotation.{cmd_certs_rotate-ca}
use nanny.Cli.Certs.Issue.Rotated.{IsCaKey, IsRotated, cmd_certs_rotate-IsRotated}

-- A bundle of these names whose certificates the CA signed that is in it.
abbrev pub IsReissued : Crates → Crates → List String → Folder → Type 0
IsReissued made crates sans folder =
    (validity : Option (ℕ × ℕ)) × (ca : String × String) × IsSelfSigned made (ca_params_of validity)
      ca
    × Holds "ca.crt" ca.0 folder
    × Holds "ca.key" ca.1 folder
    × IsRotated crates ca.1 sans folder

module _ (access : Access) (crates : Crates) (folder : Folder) where
  or_raise-some :
      (e : CertsError) (o : Option CertsMeta) (m : CertsMeta)
      → o ≡ some m
      → or_raise e o folder ≡ (folder, ok m)
  unfolding or_raise pure
  or_raise-some e o m h = ap (λ q. or_raise e q folder) h

  read_meta-returns :
      (m : CertsMeta) (text : String)
      → access.reads "meta.json" ≡ true
      → Holds "meta.json" text folder
      → crates.json.from_str text ≡ some m
      → read_meta access crates folder ≡ (folder, ok m)
  unfolding read_meta
  read_meta-returns m text reads h parsed =
      ap (continue λ raw. or_raise meta_unparsed (crates.json.from_str raw))
        (read-returns access io_failed "meta.json" text folder reads h)
      ∙ or_raise-some meta_unparsed (crates.json.from_str text) m parsed

  carried_names-Records :
      (until : ℕ) (sans : List String) (made : Crates)
      → access.reads "meta.json" ≡ true
      → ((m : CertsMeta) (text : String)
          → made.json.to_string_pretty m ≡ some text
          → crates.json.from_str text ≡ some m)
      → Records made until sans folder
      → carried_names access crates [] folder ≡ (folder, ok sans)
  unfolding carried_names
  carried_names-Records until sans made reads json (formatted, text, f, t, h) = ap san_or_default (
      read_meta-returns (record { expires = formatted; san = sans }) text reads h
        (json (record { expires = formatted; san = sans }) text t))

same_key :
    (crates : Crates) (folder : Folder) (key ca_key : String)
    → crates.rcgen.from_pem key ≡ some key
    → Holds "ca.key" key folder
    → IsCaKey crates folder ca_key
    → ca_key ≡ key
same_key crates folder key ca_key p h (pem, c, f) = let same : pem ≡ key = cc in cc

Holds-rotated :
    (access : Access) (crates : Crates) (sans : List String) (a text : String)
    (folder rotated : Folder) (r : Result CertsError (Unit {0}))
    → cmd_certs_rotate access crates sans folder ≡ (rotated, r)
    → find a (cmd_certs_rotate access crates sans folder).0 ≡ find a folder
    → Holds a text folder
    → Holds a text rotated
Holds-rotated access crates sans a text folder rotated r e same h =
    ap stored_text (sym (ap (λ (x : Folder × Result CertsError (Unit {0})). find a x.0) e) ∙ same)
    ∙ h

-- If a bundle was generated for some names, over whatever was there, and is then rotated with no names
-- given, and both return, then the bundle has ca.crt and ca.key as they were generated, new certificates
-- of the server and of the clients that this key signed, for the names that it had before, with the keys
-- of mode 0600 and a meta.json that says so. This is so if meta.json can be read, serde_json reads
-- what it wrote, and rcgen loads the key of the CA that it made.
pub cmd_certs_rotate-IsReissued :
    (before access : Access) (made crates : Crates) (force : Bool) (days : ℕ) (sans : List String)
    (folder generated rotated : Folder)
    → cmd_certs_generate before made force days sans folder ≡ (generated, ok tt)
    → access.reads "meta.json" ≡ true
    → ((m : CertsMeta) (text : String)
        → made.json.to_string_pretty m ≡ some text
        → crates.json.from_str text ≡ some m)
    → ((key : String) → made.rcgen.generate 0 ≡ some key → crates.rcgen.from_pem key ≡ some key)
    → cmd_certs_rotate access crates [] generated ≡ (rotated, ok tt)
    → IsReissued made crates (server_sans sans) rotated
cmd_certs_rotate-IsReissued before access made crates force days sans folder generated rotated g
      reads json pem r =
    let (
      until,
      ca,
      of_server,
      of_client,
      e,
      self,
      k,
      l,
      (((of_crt, (of_key, rest)), private), records),
    ) =
      returned (cmd_certs_generate before made force days sans) folder generated tt
        (cmd_certs_generate-IsGenerated before made force days sans) tt g in
    let (kept_crt, kept_key) = cmd_certs_rotate-ca access crates [] generated in
    let (ca_key, is_key, reissued) =
      returned (cmd_certs_rotate access crates []) generated rotated tt
        (cmd_certs_rotate-IsRotated access crates [] (server_sans sans) generated (
          carried_names-Records access crates generated until (server_sans sans) made reads json
            records))
        refl r in
    let same = same_key crates generated ca.1 ca_key (pem ca.1 self.0) of_key is_key in
    (
      some (made.time.now_utc, until),
      ca,
      self,
      Holds-rotated access crates [] "ca.crt" ca.0 generated rotated (ok tt) r kept_crt of_crt,
      Holds-rotated access crates [] "ca.key" ca.1 generated rotated (ok tt) r kept_key of_key,
      subst (λ key. IsRotated crates key (server_sans sans) rotated) same
          (subst (λ names. IsRotated crates ca_key names rotated) (server_sans_idempotent sans)
            reissued),
    )
