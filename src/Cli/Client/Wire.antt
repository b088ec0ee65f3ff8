-- ===== src/Cli/Client/Wire.antt =====
-- crates/cli/src/lib.rs: how the governed process reaches the bridge. Over a loopback address it writes the
-- request itself, elsewhere the HTTP client library sends it with the client's certificate. The sockets,
-- the files, the clock and that library are parameters, over an unknown world.
pub mod Answers
pub mod Guarded
use Prim.Native.Char.{code}
use Prim.Native.String
use nanny.Prelude.{
  ℕ, ◌+◌, String, Bool, true, false, Option, none, some, List, [], ◌∷◌, ◌++◌, ◌<>◌, ◌==◌, nat_eq,
  string_eq, ltb, is_empty, starts_with, rsplit_once, to_decimal, if◌then◌else◌,
}
use nanny.Cli.Client.{BridgeResponse, or_given}
use nanny.Cli.Client.Scopes.{run_id}
use nanny.Cli.Client.FirstContact.{Contact, Ended, ended, with_first_contact_retry}
use nanny.Cli.Client.Wire.Answers.{◌>>=◌, parse_http_response}

-- What the process reads of its surroundings: the variables, a file's bytes, the scopes, the bytes of a
-- text, and whether a socket address that the text spells is a loopback address.
pub record Surroundings (Bytes : Type 0) : Type 0 where
  pub var : String → Option String
  pub read : String → Option Bytes
  pub bytes_of : String → Bytes
  pub task_scope : Option String
  pub thread_scope : Option String
  pub certs_dir : String
  pub parsed_is_loopback : String → Option Bool

-- `bridge_addr`
unfoldable pub bridge_addr : {Bytes : Type 0} → Surroundings Bytes → Option String
bridge_addr around = elim (around.var "NANNY_BRIDGE_ADDR") [
  | none ↦ none
  | some s ↦ if is_empty s then none else some s
]

-- `is_active`
abbrev pub is_active : {Bytes : Type 0} → Surroundings Bytes → Bool
is_active around = elim (bridge_addr around) [ none ↦ false | some addr ↦ true ]

abbrev host_is_localhost : Option (String × String) → Bool
host_is_localhost none = false
host_is_localhost (some (h, port)) = h == "localhost"

-- `addr_is_loopback`
unfoldable pub addr_is_loopback : {Bytes : Type 0} → Surroundings Bytes → String → Bool
addr_is_loopback around addr = elim (around.parsed_is_loopback addr) [
  | some answer ↦ answer
  | none ↦ host_is_localhost (rsplit_once 58 addr)
]

-- `session_token`
abbrev pub session_token : {Bytes : Type 0} → Surroundings Bytes → String
session_token around = or_given (around.var "NANNY_SESSION_TOKEN") ""

-- `run_id`, at the surroundings.
abbrev pub current_run_id : {Bytes : Type 0} → Surroundings Bytes → Option String
current_run_id around = run_id around.task_scope around.thread_scope (around.var "NANNY_RUN_ID")

-- `run_id_header_line`
abbrev pub run_id_header_line : {Bytes : Type 0} → Surroundings Bytes → String
run_id_header_line around = elim (current_run_id around) [
  | none ↦ ""
  | some id ↦ "X-Nanny-Run-Id: " <> id <> "\r\n"
]

-- `resolve_pem`
unfoldable pub resolve_pem : {Bytes : Type 0} → Surroundings Bytes → String → String → Option Bytes
resolve_pem around env_var fallback = elim (around.var env_var) [
  | none ↦ around.read fallback
  | some val ↦
      if starts_with "-----BEGIN" val
      then some (around.bytes_of val)
      else if is_empty val
      then around.read fallback
      else around.read val
]

-- `str::len`: the bytes of a text in UTF-8.
abbrev pub bytes_len : String → ℕ
bytes_len String.[] = 0
bytes_len (String.◌∷◌ c s) =
    let rest = bytes_len s in
    let n = code c in
    (if ltb n 0x80 then 1 else if ltb n 0x800 then 2 else if ltb n 0x10000 then 3 else 4) + rest

-- The request that `http_get` writes.
abbrev pub get_request : {Bytes : Type 0} → Surroundings Bytes → String → String
get_request around path =
    "GET "
    <> path
    <> " HTTP/1.1\r\nHost: localhost\r\nX-Nanny-Session-Token: "
    <> session_token around
    <> "\r\n"
    <> run_id_header_line around
    <> "Connection: close\r\n\r\n"

-- The request that `http_post` writes.
abbrev pub post_request : {Bytes : Type 0} → Surroundings Bytes → String → String → String
post_request around path body =
    "POST "
    <> path
    <> " HTTP/1.1\r\nHost: localhost\r\nX-Nanny-Session-Token: "
    <> session_token around
    <> "\r\n"
    <> run_id_header_line around
    <> "Content-Type: application/json\r\nContent-Length: "
    <> to_decimal (bytes_len body)
    <> "\r\nConnection: close\r\n\r\n"
    <> body

-- A request handed to the client library: its method, headers and body.
pub record TlsRequest : Type 0 where
  pub method : String
  pub url : String
  pub headers : List (String × String)
  pub body : Option String

abbrev run_id_header : Option String → List (String × String)
run_id_header none = []
run_id_header (some id) = ("X-Nanny-Run-Id", id) ∷ []

-- The client library: what it makes of PEM bytes, and the client that it builds.
pub record Reqwest (Bytes Identity Authority Client : Type 0) : Type 0 where
  pub extend : Bytes → Bytes → Bytes
  pub no_bytes : Bytes
  pub identity_from_pem : Bytes → Option Identity
  pub certificate_from_pem : Bytes → Option Authority
  pub build : Authority → Identity → Option Client

module _ {W : Type 0} (tcp : String → String → W → W × Option String) where
  -- `tcp_roundtrip`, where `tcp` connects, writes the request and reads the text to its end.
  unfoldable pub tcp_roundtrip : String → String → W → W × Option BridgeResponse
  tcp_roundtrip addr req w =
      let (w', raw) = tcp addr req w in
      (w', elim raw [ none ↦ none | some text ↦ parse_http_response text ])

module _ {Bytes Identity Authority Client : Type 0}
    (reqwest : Reqwest Bytes Identity Authority Client) (around : Surroundings Bytes) where
  -- `build_tls_client`
  unfoldable pub build_tls_client : Option Client
  build_tls_client = do
    cert_pem ← resolve_pem around "NANNY_BRIDGE_CERT" (around.certs_dir <> "/client.crt")
    let key_pem =
        or_given (resolve_pem around "NANNY_BRIDGE_KEY" (around.certs_dir <> "/client.key"))
          reqwest.no_bytes
    ca_pem ← resolve_pem around "NANNY_BRIDGE_CA" (around.certs_dir <> "/ca.crt")
    identity ← reqwest.identity_from_pem (reqwest.extend cert_pem key_pem)
    ca_cert ← reqwest.certificate_from_pem ca_pem
    reqwest.build ca_cert identity

  module _ {W : Type 0} (tcp : String → String → W → W × Option String)
      (send : Client → TlsRequest → W → W × Option BridgeResponse) (now : W → ℕ)
      (sleep : ℕ → W → W) where
    abbrev pub Exchange : Type 0
    Exchange = Ended (Contact W × Option BridgeResponse)

    abbrev pub plainly : ℕ → String → String → Contact W → Exchange
    plainly fuel addr req c = with_first_contact_retry (tcp_roundtrip tcp addr req) now sleep fuel c

    abbrev pub over_tls : ℕ → TlsRequest → Contact W → Exchange
    over_tls fuel req c = elim build_tls_client [
      | none ↦ ended (c, none)
      | some client ↦ with_first_contact_retry (send client req) now sleep fuel c
    ]

    -- `http_get_tls`
    abbrev pub http_get_tls : ℕ → String → String → Contact W → Exchange
    http_get_tls fuel addr path c =
        over_tls fuel
          (record {
            method = "GET";
            url = "https://" <> addr <> path;
            headers =
                ("X-Nanny-Session-Token", session_token around)
                ∷ run_id_header (current_run_id around);
            body = none;
          })
          c

    -- `http_post_tls`
    abbrev pub http_post_tls : ℕ → String → String → String → Contact W → Exchange
    http_post_tls fuel addr path body c =
        over_tls fuel
          (record {
            method = "POST";
            url = "https://" <> addr <> path;
            headers =
                ("X-Nanny-Session-Token", session_token around)
                ∷ ("Content-Type", "application/json")
                ∷ run_id_header (current_run_id around);
            body = some body;
          })
          c

    -- The way by which `http_get` and `http_post` go: none, over plain HTTP, or over TLS.
    abbrev pub via :
        Option String → Contact W → (String → Exchange) → (String → Exchange) → Exchange
    via none c plain tls = ended (c, none)
    via (some addr) c plain tls = if addr_is_loopback around addr then plain addr else tls addr

    -- `http_get`
    unfoldable pub http_get : ℕ → String → Contact W → Exchange
    http_get fuel path c =
        via (bridge_addr around) c (λ addr. plainly fuel addr (get_request around path) c)
          (λ addr. http_get_tls fuel addr path c)

    -- `http_post`
    unfoldable pub http_post : ℕ → String → String → Contact W → Exchange
    http_post fuel path body c =
        via (bridge_addr around) c (λ addr. plainly fuel addr (post_request around path body) c)
          (λ addr. http_post_tls fuel addr path body c)
