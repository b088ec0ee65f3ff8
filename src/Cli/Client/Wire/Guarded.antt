-- ===== src/Cli/Client/Wire/Guarded.antt =====
-- crates/cli/src/lib.rs: plain HTTP is for a loopback address only, and the HTTP client library for the
-- others.
use nanny.Prelude.{ℕ, String, true, false, Option, none, some, ◌≡◌}
use nanny.Cli.Client.{BridgeResponse}
use nanny.Cli.Client.FirstContact.{Contact, Ended, ended, with_first_contact_retry}
use nanny.Cli.Client.Wire.{
  Surroundings, Reqwest, TlsRequest, addr_is_loopback, bridge_addr, build_tls_client,
}

module _ {Bytes Identity Authority Client W : Type 0}
    (reqwest : Reqwest Bytes Identity Authority Client) (around : Surroundings Bytes)
    (tcp tcp' : String → String → W → W × Option String)
    (send send' : Client → TlsRequest → W → W × Option BridgeResponse) (now : W → ℕ)
    (sleep : ℕ → W → W)
    (agree : (addr req : String) (w : W)
      → addr_is_loopback around addr ≡ true
      → tcp addr req w ≡ tcp' addr req w)
    (agree_tls : (addr : String) (client : Client) (req : TlsRequest) (w : W)
      → bridge_addr around ≡ some addr
      → addr_is_loopback around addr ≡ false
      → send client req w ≡ send' client req w) where
  abbrev attempt_over :
      ℕ
      → Contact W
      → (Client → W → W × Option BridgeResponse)
      → Ended (Contact W × Option BridgeResponse)
  attempt_over fuel c sends = elim (build_tls_client reqwest around) [
    | none ↦ ended (c, none)
    | some client ↦ with_first_contact_retry (sends client) now sleep fuel c
  ]
