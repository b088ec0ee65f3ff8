-- ===== src/Cli/Start/Guarded.antt =====
-- What a governor that starts is guarded by.
use nanny.Prelude.{
  String, ◌≡◌, ◌≢◌, ◌⊎◌, ◌≤◌, true, Option, none, some, List, [], ◌∷◌, ok, All, chars_count, ◌<>◌,
  trim,
}
use nanny.Config.Tokens.{resolve_session_token}
use nanny.Config.Settings.{NannyConfig}
use nanny.Cli.Folder.{Folder}
use nanny.Cli.Start.{TlsFile, Found, Plan}

-- Every file is there.
abbrev pub AreThere : List TlsFile → Type 0
AreThere = All (λ file. file.is_there ≡ true)

-- A file exists, at the path that is given, or, if none is, in the app's directory of certificates, which
-- may not be known.
abbrev pub IsAt : Found → Option String → String → Type 0
IsAt found none file = elim found.certs_dir [
  | none ↦ found.exists (".nanny/certs-not-resolved" <> "/" <> file) ≡ true
  | some dir ↦ found.exists (dir <> "/" <> file) ≡ true
]
IsAt found (some path) file = found.exists path ≡ true

-- The certificate, the key and the CA's certificate exist.
abbrev pub HasTls : Found → Type 0
HasTls found =
    IsAt found found.cert "server.crt"
    × IsAt found found.key "server.key"
    × IsAt found found.ca "ca.crt"

-- The id of the run of a governor's own app: the one of the variable, if that is set and not blank, or
-- one that is minted. Without an app there is none.
abbrev pub IsOwnRun : Found → Option (List String) → Option String → Type 0
IsOwnRun found none run = run ≡ none
IsOwnRun found (some command) run = elim found.run_id_var [
  | none ↦ run ≡ some found.new_run_id
  | some v ↦ ((trim v ≢ "") × (run ≡ some v)) ⊎ ((trim v ≡ "") × (run ≡ some found.new_run_id))
]

-- The tokens of a governor: those that are configured, none shorter than 32 characters, or one that is
-- minted, if the variable is not set or has no line.
abbrev pub AreGuards : Found → List String → Type 0
AreGuards found tokens =
    (tokens ≢ [])
    × ((resolve_session_token found.session_token_var ≡ ok (some tokens)
          × All (λ token. 32 ≤ chars_count token) tokens)
        ⊎ ((resolve_session_token found.session_token_var ≡ ok none) × (tokens ≡ found.uuid ∷ [])))

-- What a plan promises.
abbrev pub IsGuarded : Found → Plan → Type 0
IsGuarded found plan =
    (config : NannyConfig) × (found.config ≡ ok config)
    × (found.packs_of config ≡ ok plan.packs)
    × ((found.is_loopback ≡ true) ⊎ HasTls found)
    × AreGuards found plan.session_tokens
    × IsOwnRun found plan.command plan.primary_run_id
