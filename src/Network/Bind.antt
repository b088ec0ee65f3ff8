-- ===== src/Network/Bind.antt =====
-- crates/bridge/src/network.rs: `bind_with_fallforward`. What the kernel answers to a `bind` is a
-- parameter; each port is tried once.
pub mod Search
use nanny.Prelude.{
  ℕ, zero, suc, String, ◌+◌, Bool, not, ◌&&◌, ltb, if◌then◌else◌, ◌==◌, nat_eq, string_eq, Result,
  ok, err,
}

pub record SocketAddr : Type 0 where
  pub ip : String
  pub port : ℕ

-- The answer to `TcpListener::bind`, with that to `set_nonblocking` for a bound listener.
pub data BindAnswer : Type 0 where
  bound : BindAnswer
  bound_blocking : BindAnswer
  addr_in_use : BindAnswer
  refused : BindAnswer

pub data BindError : Type 0 where
  not_nonblocking : BindError
  already_in_use : SocketAddr → BindError
  failed_to_bind : SocketAddr → BindError
  no_free_port : BindError

abbrev pub default_governor_port : ℕ
default_governor_port = 62669

abbrev pub attempts : ℕ
attempts = 64

-- `default_governor_addr`
abbrev pub default_governor_addr : SocketAddr
default_governor_addr = record { ip = "127.0.0.1"; port = default_governor_port }

-- `requested != default_governor_addr()`
abbrev pub is_explicit : SocketAddr → Bool
is_explicit a = not ((a.ip == default_governor_addr.ip) && (a.port == default_governor_addr.port))

module _ (bind : SocketAddr → BindAnswer) where
  -- The loop, with the attempts that are left.
  unfoldable pub bind_from : Bool → ℕ → SocketAddr → Result BindError SocketAddr
  bind_from explicit zero addr = err no_free_port
  bind_from explicit (suc n) addr = elim (bind addr) [
    | bound ↦ ok addr
    | bound_blocking ↦ err not_nonblocking
    | addr_in_use ↦
        let next = bind_from explicit n (record addr { port = addr.port + 1 }) in
        if explicit
        then err (already_in_use addr)
        else if ltb (addr.port + 1) 65536
        then next
        else err no_free_port
    | refused ↦ err (failed_to_bind addr)
  ]

  -- `bind_with_fallforward`
  unfoldable pub bind_with_fallforward : SocketAddr → Result BindError SocketAddr
  unfolding bind_from
  bind_with_fallforward requested = bind_from (is_explicit requested) attempts requested
