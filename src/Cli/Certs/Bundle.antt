-- ===== src/Cli/Certs/Bundle.antt =====
-- crates/cli/src/commands/certs.rs: the files of a certificate bundle, its meta.json, and writing the
-- certificates. The crates time, rcgen and serde_json are parameters.
pub mod Stored
use nanny.Prelude.{ℕ, String, ◌<>◌, Bool, not, Option, none, some, List, [], ◌∷◌}
use nanny.Prelude.Exec.{Exec, pure, raise, raise_if, or_raise, for_each, ◌>>=◌, ◌>>◌}
use nanny.Cli.Folder.{Folder, Access, IoError, read, write, rename, restrict}

-- The key files of rcgen are PEM texts, a key pair is the text that it is serialized to.
pub record CertificateParams : Type 0 where
  pub names : List String
  pub common_name : String
  pub is_ca : Bool
  pub validity : Option (ℕ × ℕ)  -- from and until; rcgen's own where the code sets none

pub record Rcgen : Type 0 where
  -- whether `CertificateParams::new` takes these names
  pub accepts : List String → Bool
  -- the key pairs that `KeyPair::generate` makes in one run, by number
  pub generate : ℕ → Option String
  pub from_pem : String → Option String
  pub self_signed : CertificateParams → String → Option String
  -- what is signed, its key, and the issuer's parameters and key
  pub signed_by : CertificateParams → String → CertificateParams → String → Option String

pub record Calendar : Type 0 where
  pub now_utc : ℕ
  -- `now + Duration::days(n)`, which panics out of the range of the type
  pub plus_days : ℕ → ℕ → Option ℕ
  pub format : ℕ → Option String

pub record CertsMeta : Type 0 where
  pub expires : String
  pub san : List String

pub record MetaJson : Type 0 where
  pub to_string_pretty : CertsMeta → Option String
  pub from_str : String → Option CertsMeta

pub record Crates : Type 0 where
  pub rcgen : Rcgen
  pub time : Calendar
  pub json : MetaJson

pub data Party : Type 0 where
  authority server client : Party

pub data CertsError : Type 0 where
  already_exist ca_not_found ca_key_not_found ca_key_unusable : CertsError
  io_failed : IoError → CertsError
  params_failed key_failed sign_failed : Party → CertsError
  date_out_of_range : CertsError  -- a panic
  meta_unformatted meta_unserialised meta_unparsed : CertsError
  -- of `import`
  invalid_argument unknown_key unreadable not_pem : String → CertsError
  no_pairs chain_invalid expiry_unread : CertsError
  confirmation_unread : CertsError  -- of `remove`

abbrev pub Certs : Type 0 → Type 0
Certs A = Exec Folder CertsError A

-- `existing` of `cmd_certs_generate`
abbrev pub bundle_files : List String
bundle_files = "ca.crt" ∷ "ca.key" ∷ "server.crt" ∷ "server.key" ∷ "client.crt" ∷ "client.key" ∷ []

abbrev pub tmp : String → String
tmp name = name <> ".tmp"

module _ (access : Access) (crates : Crates) where
  open crates use {rcgen, time, json}

  -- `write_meta`
  unfoldable pub write_meta : ℕ → List String → Certs (Unit {0})
  write_meta expires san = do
    formatted ← or_raise meta_unformatted (time.format expires)
    text ←
        or_raise meta_unserialised
          (json.to_string_pretty (record { expires = formatted; san = san }))
    write access io_failed "meta.json" text

  -- `read_meta`
  unfoldable pub read_meta : Certs CertsMeta
  read_meta = do raw ← read access io_failed "meta.json"; or_raise meta_unparsed (json.from_str raw)

  -- One file of the loop under "Write atomically".
  unfoldable pub write_pem : String × String → Certs (Unit {0})
  write_pem (name, pem) = do
    write access io_failed (tmp name) pem
    rename access io_failed (tmp name) name

  -- The certificate of the server or of a client, with its key.
  unfoldable pub issue :
      Party → CertificateParams → ℕ → CertificateParams → String → Certs (String × String)
  issue party params n ca_params ca_key = do
    raise_if (not (rcgen.accepts params.names)) (params_failed party)
    key ← or_raise (key_failed party) (rcgen.generate n)
    cert ← or_raise (sign_failed party) (rcgen.signed_by params key ca_params ca_key)
    pure (cert, key)
