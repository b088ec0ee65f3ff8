-- ===== src/Tests/Wires.antt =====
-- The client's transport on concrete addresses and answers.
use nanny.Prelude.{
  ℕ, String, true, false, Option, none, some, ◌+◌, ◌<>◌, ◌≡◌, refl, ◌==◌, string_eq, rsplit_once,
  text_lines, is_whitespace, if◌then◌else◌,
}
use nanny.Cli.Client.{BridgeResponse}
use nanny.Cli.Client.Scopes.{run_id}
use nanny.Cli.Client.FirstContact.{Contact}
use nanny.Cli.Client.Wire.{Surroundings, Reqwest, TlsRequest, addr_is_loopback, get_request}
use nanny.Cli.Client.Wire.Answers.{
  parse_http_response, strip_prefix, split_once_at, split_whitespace, read_digits, parse_u16,
}

reads_answer :
    parse_http_response "HTTP/1.1 403 Forbidden\r\nContent-Length: 2\r\n\r\nno\r\n\r\n."
    ≡ some (record { status = 403; body = "no\r\n\r\n." })
unfolding parse_http_response strip_prefix split_once_at split_whitespace read_digits parse_u16
    text_lines is_whitespace
reads_answer = refl

no_status_word : parse_http_response "HTTP/1.1\r\n\r\nbody" ≡ none
unfolding parse_http_response strip_prefix split_once_at split_whitespace read_digits parse_u16
    text_lines is_whitespace
no_status_word = refl

not_in_range : parse_http_response "HTTP/1.1 65536 X\r\n\r\n" ≡ none
unfolding parse_http_response strip_prefix split_once_at split_whitespace read_digits parse_u16
    text_lines is_whitespace
not_in_range = refl

abbrev with_addr : String → String → Option String
with_addr addr name =
    if name == "NANNY_BRIDGE_ADDR"
    then some addr
    else if name == "NANNY_SESSION_TOKEN"
    then some "tok"
    else none

abbrev at_addr : String → Surroundings String
at_addr addr = record {
  var = with_addr addr;
  read = λ path. some path;
  bytes_of = λ text. text;
  task_scope = none;
  thread_scope = some "run_1";
  certs_dir = "/certs";
  parsed_is_loopback = λ a.
      if a == "127.0.0.1:62669"
      then some true
      else if a == "10.0.0.5:62669"
      then some false
      else none;
}

loopback_names : addr_is_loopback (at_addr "") "localhost:1" ≡ true
unfolding addr_is_loopback rsplit_once
loopback_names = refl

no_port : addr_is_loopback (at_addr "") "localhost" ≡ false
unfolding addr_is_loopback rsplit_once
no_port = refl

request_text :
    get_request (at_addr "") "/status"
    ≡ "GET /status HTTP/1.1\r\nHost: localhost\r\nX-Nanny-Session-Token: tok\r\nX-Nanny-Run-Id: run_1\r\nConnection: close\r\n\r\n"
unfolding run_id
request_text = refl

abbrev library : Reqwest String String String String
library = record {
  extend = λ a b. a <> b;
  no_bytes = "";
  identity_from_pem = λ pem. some pem;
  certificate_from_pem = λ pem. some pem;
  build = λ ca identity. some (identity <> ca);
}

-- The world counts the plain requests; its clock stands still.
abbrev counting : String → String → ℕ → ℕ × Option String
counting addr req w = (w + 1, some "HTTP/1.1 200 OK\r\n\r\n{}")

abbrev away_dead : String → String → ℕ → ℕ × Option String
away_dead addr req w =
    if addr_is_loopback (at_addr "10.0.0.5:62669") addr then counting addr req w else (w, none)

abbrev answers_tls : String → TlsRequest → ℕ → ℕ × Option BridgeResponse
answers_tls client req w = (w, some (record { status = 201; body = client <> req.url }))

abbrev first_try : Contact ℕ
first_try = record { world = 0; reached = false; tries_made = 0 }
