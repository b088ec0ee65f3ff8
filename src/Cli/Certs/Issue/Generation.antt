-- ===== src/Cli/Certs/Issue/Generation.antt =====
-- What a bundle holds when `nanny certs generate` or `nanny certs rotate` returns.
use nanny.Prelude.{
  ℕ, String, ◌≡◌, refl, Bool, true, false, some, List, [], ◌∷◌, err, any, if◌then◌else◌, arith,
  string_eq,
}
use nanny.Prelude.Dict.{Dict}
use nanny.Prelude.Exec.{
  Ensures, Ensures-after, Ensures-knowing, Ensures-or_raise, Ensures-weaken, Ensures-pure,
  Keeps-Unit, gets, raise_if, raise_if-bind, raise, pure, for_each, ◌>>◌,
}
use nanny.Cli.Folder.{Folder, Access, restrict, exists, create_dir_all}
use nanny.Cli.Certs.{server_sans}
use nanny.Cli.Certs.Bundle.{
  CertificateParams, Crates, Party, server, client, bundle_files, already_exist, io_failed,
  date_out_of_range, write_pem, write_meta, issue,
}
use nanny.Cli.Certs.Bundle.Stored.{IsStored, for_each-IsStored}
use nanny.Cli.Certs.Issue.{
  ca_params_of, server_params_of, client_params_of, refuse_existing, issue_ca, generate_bundle,
  cmd_certs_generate,
}

-- A key pair that was made in the run, and a certificate for it.
abbrev pub IsSelfSigned : Crates → CertificateParams → String × String → Type 0
IsSelfSigned crates params (cert, key) =
    (crates.rcgen.generate 0 ≡ some key) × (crates.rcgen.self_signed params key ≡ some cert)

abbrev pub IsSigned :
    Crates → CertificateParams → ℕ → CertificateParams → String → String × String → Type 0
IsSigned crates params n ca_params ca_key (cert, key) =
    (crates.rcgen.generate n ≡ some key)
    × (crates.rcgen.signed_by params key ca_params ca_key ≡ some cert)

-- The files of the loop, for the three certificates.
abbrev pub pems_of : String × String → String × String → String × String → Dict String
pems_of (ca_cert, ca_key) (server_cert, server_key) (client_cert, client_key) =
    ("ca.crt", ca_cert)
    ∷ ("ca.key", ca_key)
    ∷ ("server.crt", server_cert)
    ∷ ("server.key", server_key)
    ∷ ("client.crt", client_cert)
    ∷ ("client.key", client_key)
    ∷ []

-- A bundle of the names and the days: a CA that signed itself, the certificates of the server and of
-- the clients that it signed, the six files, the modes of the keys, and the meta.json.
abbrev pub IsGenerated : Crates → ℕ → List String → Folder → Type 0
IsGenerated crates days sans folder =
    let now : ℕ = crates.time.now_utc in
    (until : ℕ) × (ca : String × String) × (of_server : String × String) × (of_client : String
      × String)
    × (crates.time.plus_days now days ≡ some until)
    × IsSelfSigned crates (ca_params_of (some (now, until))) ca
    × IsSigned crates (server_params_of (server_sans sans) now until) 1
        (ca_params_of (some (now, until))) ca.1 of_server
    × IsSigned crates (client_params_of now until) 2 (ca_params_of (some (now, until))) ca.1
        of_client
    × IsStored crates (pems_of ca of_server of_client) ("ca.key" ∷ "server.key" ∷ "client.key" ∷ [])
        until (server_sans sans) folder

module _ (access : Access) (crates : Crates) where
  open crates use {rcgen, time}

  issue_ca-IsSelfSigned :
      (params : CertificateParams)
      → Ensures
          (λ _. Unit {0})
          (issue_ca access crates params)
          (λ issued _. IsSelfSigned crates params issued)
          (λ _. Unit {0})
  unfolding issue_ca
  issue_ca-IsSelfSigned params = search (Ensures-after, Ensures-or_raise, Ensures-pure)

  pub issue-IsSigned :
      (party : Party) (params : CertificateParams) (n : ℕ) (ca_params : CertificateParams)
      (ca_key : String)
      → Ensures
          (λ _. Unit {0})
          (issue access crates party params n ca_params ca_key)
          (λ issued _. IsSigned crates params n ca_params ca_key issued)
          (λ _. Unit {0})
  unfolding issue
  issue-IsSigned party params n ca_params ca_key =
      search (Ensures-after, Ensures-or_raise, Ensures-pure)

  stored :
      (days : ℕ) (sans : List String) (until : ℕ)
      → time.plus_days time.now_utc days ≡ some until
      → (ca : String × String) → IsSelfSigned crates (ca_params_of (some (time.now_utc, until))) ca
      → (of_server : String × String)
      → IsSigned crates
          (server_params_of (server_sans sans) time.now_utc until)
          1
          (ca_params_of (some (time.now_utc, until)))
          ca.1
          of_server
      → (of_client : String × String)
      → IsSigned crates
          (client_params_of time.now_utc until)
          2
          (ca_params_of (some (time.now_utc, until)))
          ca.1
          of_client
      → Ensures
          (λ _. Unit {0})
          (do
            for_each (write_pem access crates) (pems_of ca of_server of_client)
            for_each (restrict access io_failed) ("ca.key" ∷ "server.key" ∷ "client.key" ∷ [])
            write_meta access crates until (server_sans sans))
          (λ _. IsGenerated crates days sans)
          (λ _. Unit {0})
  stored days sans until e ca h of_server k of_client l =
      Ensures-weaken _
        (for_each-IsStored access crates (pems_of ca of_server of_client)
          ("ca.key" ∷ "server.key" ∷ "client.key" ∷ []) until (server_sans sans) (ground arith) refl
          refl)
        (λ _ s st. (until, ca, of_server, of_client, e, h, k, l, st))

  pub cmd_certs_generate-IsGenerated :
      (force : Bool) (days : ℕ) (sans : List String)
      → Ensures
          (λ _. Unit {0})
          (cmd_certs_generate access crates force days sans)
          (λ _. IsGenerated crates days sans)
          (λ _. Unit {0})
  unfolding cmd_certs_generate generate_bundle
  cmd_certs_generate-IsGenerated force days sans =
      Ensures-after (refuse_existing access crates force) _ (λ _.
        Ensures-after (create_dir_all access io_failed) _ (λ _.
          Ensures-or_raise date_out_of_range (time.plus_days time.now_utc days) _ (λ until e.
            let ca_params = ca_params_of (some (time.now_utc, until)) in
            let for_server = server_params_of (server_sans sans) time.now_utc until in
            let for_client = client_params_of time.now_utc until in
            Ensures-knowing (IsSelfSigned crates ca_params) (issue_ca access crates ca_params) _
              (Keeps-Unit _) (issue_ca-IsSelfSigned ca_params)
              (λ ca h.
                Ensures-knowing (IsSigned crates for_server 1 ca_params ca.1)
                  (issue access crates server for_server 1 ca_params ca.1) _ (Keeps-Unit _)
                  (issue-IsSigned server for_server 1 ca_params ca.1)
                  (λ of_server k.
                    Ensures-knowing (IsSigned crates for_client 2 ca_params ca.1)
                      (issue access crates client for_client 2 ca_params ca.1) _ (Keeps-Unit _)
                      (issue-IsSigned client for_client 2 ca_params ca.1)
                      (stored days sans until e ca h of_server k))))))

  -- Without --force, a bundle of which any of the six files is there is refused and left as it is.
  -- Otherwise the bundle is generated as it is with --force.
  pub cmd_certs_generate_unforced :
      (days : ℕ) (sans : List String) (folder : Folder)
      → cmd_certs_generate access crates false days sans folder ≡ (
          if any (λ name. exists name folder) bundle_files
          then (folder, err already_exist)
          else cmd_certs_generate access crates true days sans folder)
  unfolding cmd_certs_generate refuse_existing gets raise_if raise pure
  cmd_certs_generate_unforced days sans folder =
      raise_if-bind (any (λ name. exists name folder) bundle_files) already_exist
        (λ _. generate_bundle access crates days sans) folder
