-- ===== src/Cli/Certs/Issue/Rotation.antt =====
-- What a rotation leaves as it is.
use nanny.Prelude.{
  String, ◌≡◌, refl, false, Option, List, [], ◌∷◌, Result, ok, err, ◌==◌, string_eq, contains, map,
}
use nanny.Prelude.Exec.{Keeps, After, keeps_rules}
use nanny.Cli.Folder.{Stored, Folder, Access, find}
use nanny.Cli.Folder.Laws.{Has, Keeps-read}
use nanny.Cli.Certs.Bundle.{CertsMeta, Crates, CertsError, read_meta, tmp}
use nanny.Cli.Certs.Bundle.Stored.{
  Keeps-read_meta, Keeps-issue, Keeps-write_pems, Keeps-restricts, Keeps-write_meta,
}
use nanny.Cli.Certs.Issue.{san_or_default, load_ca_key, carried_names, cmd_certs_rotate}

-- The certificates that a rotation writes, with their keys.
abbrev rotated_pems : List String
rotated_pems = "server.crt" ∷ "server.key" ∷ "client.crt" ∷ "client.key" ∷ []

-- A file that a rotation does not write.
module _ (access : Access) (crates : Crates) (a : String) (o : Option Stored) where
  Keeps-load_ca_key : Keeps (Has a o) (load_ca_key access crates)
  unfolding load_ca_key
  Keeps-load_ca_key = search (keeps_rules, Keeps-read) depth 12

  Has-san_or_default :
      (r : Folder × Result CertsError CertsMeta)
      → After (λ _. Has a o) (Has a o) r
      → After (λ _. Has a o) (Has a o) (san_or_default r)
  Has-san_or_default (folder, ok meta) h = h
  Has-san_or_default (folder, err e) h = h

  Keeps-carried_names : (sans : List String) → Keeps (Has a o) (carried_names access crates sans)
  unfolding carried_names
  Keeps-carried_names [] = record {
    at = λ s h.
        Has-san_or_default (read_meta access crates s) ((Keeps-read_meta access crates a o).at s h);
  }
  Keeps-carried_names (name ∷ sans) = record { at = λ s h. h }

  Keeps-cmd_certs_rotate :
      (sans : List String)
      → contains rotated_pems a ≡ false
      → contains (map tmp rotated_pems) a ≡ false
      → contains ("server.key" ∷ "client.key" ∷ []) a ≡ false
      → ("meta.json" == a) ≡ false
      → Keeps (Has a o) (cmd_certs_rotate access crates sans)
  unfolding cmd_certs_rotate
  Keeps-cmd_certs_rotate sans h k l m =
      search
        (
          keeps_rules, Keeps-load_ca_key, Keeps-carried_names, Keeps-issue, Keeps-write_pems,
          Keeps-restricts, Keeps-write_meta,
        )
        depth 20

After-Has :
    {A : Type 0} (a : String) (o : Option Stored) (r : Folder × Result CertsError A)
    → After (λ _. Has a o) (Has a o) r
    → find a r.0 ≡ o
After-Has a o (s, ok b) h = h
After-Has a o (s, err e) h = h

-- A rotation, whether it returns or fails at any step, leaves the CA's certificate and its key as they
-- were, with their modes.
pub cmd_certs_rotate-ca :
    (access : Access) (crates : Crates) (sans : List String) (folder : Folder)
    → (find "ca.crt" (cmd_certs_rotate access crates sans folder).0 ≡ find "ca.crt" folder)
      × (find "ca.key" (cmd_certs_rotate access crates sans folder).0 ≡ find "ca.key" folder)
cmd_certs_rotate-ca access crates sans folder =
    let rotated = cmd_certs_rotate access crates sans folder in
    let kept = λ (a : String). Keeps-cmd_certs_rotate access crates a (find a folder) sans in
    (
      After-Has "ca.crt" (find "ca.crt" folder) rotated
          ((kept "ca.crt" refl refl refl refl).at folder refl),
      After-Has "ca.key" (find "ca.key" folder) rotated
          ((kept "ca.key" refl refl refl refl).at folder refl),
    )
