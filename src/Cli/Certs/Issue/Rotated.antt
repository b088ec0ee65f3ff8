-- ===== src/Cli/Certs/Issue/Rotated.antt =====
-- What a bundle holds when `nanny certs rotate` returns.
use mathlib.Core.Path.{subst}
use nanny.Prelude.{
  ℕ, String, ◌≡◌, refl, sym, ap, ◌∙◌, not, none, some, List, [], ◌∷◌, ok, arith, string_eq,
}
use nanny.Prelude.Dict.{Dict}
use nanny.Prelude.Exec.{
  Ensures, Ensures-bind, Ensures-then, Ensures-knowing, Ensures-or_raise, Ensures-weaken,
  Keeps-Unit, Keeps-raise_if, Keeps-gets, Ensures-given, Ensures-from_any, After, or_raise,
  or_raise-Ensures, gets, raise_if, for_each, ◌>>=◌, ◌>>◌,
}
use nanny.Cli.Folder.{Folder, Access, restrict, contents, exists, read}
use nanny.Cli.Folder.Laws.{read-contents}
use nanny.Cli.Certs.{server_sans}
use nanny.Cli.Certs.Bundle.{
  Crates, authority, server, client, ca_not_found, ca_key_not_found, ca_key_unusable, params_failed,
  io_failed, date_out_of_range, write_pem, write_meta, issue,
}
use nanny.Cli.Certs.Bundle.Stored.{IsStored, for_each-IsStored}
use nanny.Cli.Certs.Issue.{
  ca_params_of, server_params_of, client_params_of, load_ca_key, carried_names, cmd_certs_rotate,
}
use nanny.Cli.Certs.Issue.Generation.{IsSigned, issue-IsSigned}

-- The files of the loop, for the two certificates.
abbrev pub pems_of : String × String → String × String → Dict String
pems_of (server_cert, server_key) (client_cert, client_key) =
    ("server.crt", server_cert)
    ∷ ("server.key", server_key)
    ∷ ("client.crt", client_cert)
    ∷ ("client.key", client_key)
    ∷ []

-- A bundle whose server and clients have new certificates, for these names, that this key of the CA
-- signed.
abbrev pub IsRotated : Crates → String → List String → Folder → Type 0
IsRotated crates ca_key names folder =
    let now : ℕ = crates.time.now_utc in
    (until : ℕ) × (of_server : String × String) × (of_client : String × String)
    × (crates.time.plus_days now 365 ≡ some until)
    × IsSigned crates (server_params_of names now until) 0 (ca_params_of none) ca_key of_server
    × IsSigned crates (client_params_of now until) 1 (ca_params_of none) ca_key of_client
    × IsStored crates (pems_of of_server of_client) ("server.key" ∷ "client.key" ∷ []) until names
        folder

-- The CA's key, from the folder.
abbrev pub IsCaKey : Crates → Folder → String → Type 0
IsCaKey crates folder ca_key =
    (pem : String) × (contents "ca.key" folder ≡ some pem)
    × (crates.rcgen.from_pem pem ≡ some ca_key)

module _ (access : Access) (crates : Crates) where
  open crates use {rcgen, time}

  rewritten :
      (ca_key : String) (names : List String) (until : ℕ)
      → time.plus_days time.now_utc 365 ≡ some until
      → (of_server : String × String)
      → IsSigned crates
          (server_params_of names time.now_utc until)
          0
          (ca_params_of none)
          ca_key
          of_server
      → (of_client : String × String)
      → IsSigned crates (client_params_of time.now_utc until) 1 (ca_params_of none) ca_key of_client
      → Ensures
          (λ _. Unit {0})
          (do
            for_each (write_pem access crates) (pems_of of_server of_client)
            for_each (restrict access io_failed) ("server.key" ∷ "client.key" ∷ [])
            write_meta access crates until names)
          (λ _. IsRotated crates ca_key names)
          (λ _. Unit {0})
  rewritten ca_key names until e of_server k of_client l =
      Ensures-weaken _
        (for_each-IsStored access crates (pems_of of_server of_client)
          ("server.key" ∷ "client.key" ∷ []) until names (ground arith) refl refl)
        (λ _ s st. (until, of_server, of_client, e, k, l, st))

  returned_key :
      (folder : Folder) (pem : String)
      → contents "ca.key" folder ≡ some pem
      → Ensures
          (λ s. s ≡ folder)
          (or_raise ca_key_unusable (rcgen.from_pem pem))
          (λ ca_key s. (s ≡ folder) × IsCaKey crates folder ca_key)
          (λ _. Unit {0})
  returned_key folder pem c =
      or_raise-Ensures ca_key_unusable (rcgen.from_pem pem) (λ ca_key e s h. (h, (pem, c, e)))

  load_ca_key-IsCaKey :
      (folder : Folder)
      → Ensures
          (λ s. s ≡ folder)
          (load_ca_key access crates)
          (λ ca_key s. (s ≡ folder) × IsCaKey crates folder ca_key)
          (λ _. Unit {0})
  unfolding load_ca_key
  load_ca_key-IsCaKey folder = Ensures-then (gets (exists "ca.crt")) _ (Keeps-gets _) (λ has_cert.
      Ensures-then (raise_if (not has_cert) ca_not_found) _ (Keeps-raise_if _ _) (λ _.
        Ensures-then (gets (exists "ca.key")) _ (Keeps-gets _) (λ has_key.
          Ensures-then (raise_if (not has_key) ca_key_not_found) _ (Keeps-raise_if _ _) (λ _.
            Ensures-bind (read access io_failed "ca.key") _
              (read-contents access io_failed "ca.key" folder)
              (λ pem. Ensures-given _ (λ c. returned_key folder pem c))))))

  -- The names that are carried_names over, from the folder as it was.
  carried_names-kept :
      (sans kept : List String) (folder : Folder)
      → carried_names access crates sans folder ≡ (folder, ok kept)
      → Ensures
          (λ s. s ≡ folder)
          (carried_names access crates sans)
          (λ names s. (s ≡ folder) × (names ≡ kept))
          (λ _. Unit {0})
  carried_names-kept sans kept folder c = record {
    at = λ s e.
        subst (After (λ names s. (s ≡ folder) × (names ≡ kept)) (λ _. Unit {0}))
          (sym (ap (carried_names access crates sans) e ∙ c)) (refl, refl);
  }

  reissued :
      (ca_key : String) (names : List String) (until : ℕ)
      → time.plus_days time.now_utc 365 ≡ some until
      → Ensures
          (λ _. Unit {0})
          (do
            (server_cert, server_key) ←
                issue access crates server
                  (server_params_of names time.now_utc until)
                  0
                  (ca_params_of none)
                  ca_key
            (client_cert, client_key) ←
                issue access crates client
                  (client_params_of time.now_utc until)
                  1
                  (ca_params_of none)
                  ca_key
            for_each (write_pem access crates) (
                ("server.crt", server_cert)
                ∷ ("server.key", server_key)
                ∷ ("client.crt", client_cert)
                ∷ ("client.key", client_key)
                ∷ [])
            for_each (restrict access io_failed) ("server.key" ∷ "client.key" ∷ [])
            write_meta access crates until names)
          (λ _. IsRotated crates ca_key names)
          (λ _. Unit {0})
  reissued ca_key names until e =
      let for_server = server_params_of names time.now_utc until in
      let for_client = client_params_of time.now_utc until in
      Ensures-knowing (IsSigned crates for_server 0 (ca_params_of none) ca_key)
        (issue access crates server for_server 0 (ca_params_of none) ca_key) _ (Keeps-Unit _)
        (issue-IsSigned access crates server for_server 0 (ca_params_of none) ca_key)
        (λ of_server k.
          Ensures-knowing (IsSigned crates for_client 1 (ca_params_of none) ca_key)
            (issue access crates client for_client 1 (ca_params_of none) ca_key) _ (Keeps-Unit _)
            (issue-IsSigned access crates client for_client 1 (ca_params_of none) ca_key)
            (rewritten ca_key names until e of_server k))

  -- A rotation that returned used the CA's key, and the names that were carried_names over.
  pub cmd_certs_rotate-IsRotated :
      (sans kept : List String) (folder : Folder)
      → carried_names access crates sans folder ≡ (folder, ok kept)
      → Ensures
          (λ s. s ≡ folder)
          (cmd_certs_rotate access crates sans)
          (λ _ s.
            (ca_key : String) × IsCaKey crates folder ca_key
            × IsRotated crates ca_key (server_sans kept) s)
          (λ _. Unit {0})
  unfolding cmd_certs_rotate
  cmd_certs_rotate-IsRotated sans kept folder c =
      Ensures-bind (load_ca_key access crates) _ (load_ca_key-IsCaKey folder) (λ ca_key.
        Ensures-given _ (λ d.
          Ensures-then (raise_if (not (rcgen.accepts [])) (params_failed authority)) _
            (Keeps-raise_if _ _)
            (λ _. Ensures-or_raise date_out_of_range (time.plus_days time.now_utc 365) _ (λ until e.
              Ensures-bind (carried_names access crates sans) _
                (carried_names-kept sans kept folder c)
                (λ names. Ensures-given _ (λ same. Ensures-from_any _ (
                  Ensures-weaken _ (reissued ca_key (server_sans names) until e) (λ _ s r. (
                    ca_key,
                    d,
                    subst (λ n. IsRotated crates ca_key (server_sans n) s) same r,
                  )))))))))
