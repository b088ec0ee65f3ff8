-- ===== src/Network/Bind/Search.antt =====
-- Which address `bind_with_fallforward` of crates/bridge/src/network.rs ends on.
use nanny.Prelude.{
  ℕ, zero, suc, ◌+◌, ◌≤◌, ◌<◌, ◌≡◌, ◌↔◌, refl, sym, ap, ◌∙◌, true, false, arith, ok,
}
use nanny.Network.Bind.{
  SocketAddr, BindAnswer, bound, bound_blocking, addr_in_use, refused, attempts,
  default_governor_addr, is_explicit, bind_from, bind_with_fallforward,
}

-- The address with another port.
abbrev pub at_port : SocketAddr → ℕ → SocketAddr
at_port addr port = record addr { port = port }

module _ (bind : SocketAddr → BindAnswer) where
  -- The `k`-th port from an address is free, and those before it are in use.
  abbrev pub IsFirstFree : SocketAddr → ℕ → Type 0
  IsFirstFree addr k =
      (bind (at_port addr (addr.port + k)) ≡ bound)
      × ((m : ℕ) → m < k → bind (at_port addr (addr.port + m)) ≡ addr_in_use)

  IsFirstFree-suc :
      (addr : SocketAddr) (k : ℕ)
      → bind addr ≡ addr_in_use
      → IsFirstFree (at_port addr (addr.port + 1)) k
      → IsFirstFree addr (suc k)
  IsFirstFree-suc addr k used (free, before) =
      (ap (λ p. bind (at_port addr p)) (omega arith) ∙ free, λ m. go m)
    where
      go : (m : ℕ) → m < suc k → bind (at_port addr (addr.port + m)) ≡ addr_in_use
      go zero l = ap (λ p. bind (at_port addr p)) (omega arith) ∙ used
      go (suc m) l = ap (λ p. bind (at_port addr p)) (omega arith) ∙ before m (omega arith)

  Found : ℕ → SocketAddr → SocketAddr → Type 0
  Found n addr a = (k : ℕ) × (k < n) × (a ≡ at_port addr (addr.port + k)) × IsFirstFree addr k

  Found-suc :
      (n : ℕ) (addr a : SocketAddr)
      → bind addr ≡ addr_in_use
      → Found n (at_port addr (addr.port + 1)) a
      → Found (suc n) addr a
  unfolding Found
  Found-suc n addr a e (k, l, same, first) =
      (suc k, omega arith, same ∙ ap (at_port addr) (omega arith), IsFirstFree-suc addr k e first)

  Found-zero : (n : ℕ) (addr a : SocketAddr) → bind addr ≡ bound → a ≡ addr → Found (suc n) addr a
  unfolding Found
  Found-zero n addr a e same = (
    0,
    omega arith,
    same ∙ ap (at_port addr) (omega arith),
    (ap (λ p. bind (at_port addr p)) (omega arith) ∙ e, λ m l. absurd (omega arith)),
  )

  bind_from-Found :
      (n : ℕ) (addr a : SocketAddr) → bind_from bind false n addr ≡ ok a → Found n addr a
  unfolding bind_from
  bind_from-Found zero addr a h = cc
  bind_from-Found (suc n) addr a h =
      go (bind addr) refl (λ k. bind_from-Found n (at_port addr (addr.port + 1)) a k)
    where
      go :
          (answer : BindAnswer)
          → bind addr ≡ answer
          → (bind_from bind false n (at_port addr (addr.port + 1)) ≡ ok a
              → Found n (at_port addr (addr.port + 1)) a)
          → Found (suc n) addr a
      go bound e next = Found-zero n addr a e (ground (arith, h, e))
      go bound_blocking e next = absurd (ground (arith, h, e))
      go refused e next = absurd (ground (arith, h, e))
      go addr_in_use e next = Found-suc n addr a e (next (ground (arith, h, e)))

  before-free :
      (addr : SocketAddr) (k : ℕ)
      → IsFirstFree addr (suc k)
      → (bind addr ≡ addr_in_use) × IsFirstFree (at_port addr (addr.port + 1)) k
  before-free addr k (free, before) = (
    ap (λ p. bind (at_port addr p)) (omega arith) ∙ before 0 (omega arith),
    (
      ap (λ p. bind (at_port addr p)) (omega arith) ∙ free,
      λ m l. ap (λ p. bind (at_port addr p)) (omega arith) ∙ before (suc m) (omega arith),
    ),
  )

  bind_from-ok :
      (n k : ℕ) (addr : SocketAddr)
      → k < n
      → addr.port + n ≤ 65536
      → IsFirstFree addr k
      → bind_from bind false n addr ≡ ok (at_port addr (addr.port + k))
  unfolding bind_from
  bind_from-ok zero k addr l r f = absurd (omega arith)
  bind_from-ok (suc n) zero addr l r (free, before) =
      let e : bind addr ≡ bound = ap (λ p. bind (at_port addr p)) (omega arith) ∙ free in
      ground (arith, e)
  bind_from-ok (suc n) (suc k) addr l r f =
      let (used, f') = before-free addr k f in
      let next = bind_from-ok n k (at_port addr (addr.port + 1)) (omega arith) (omega arith) f' in
      ground (arith, used, next)

  -- Asked for the default address, the governor listens on an address exactly if it is the first free
  -- one of the 64 that start at port 62669: it is free, and all ports before it are in use.
  pub bind_with_fallforward-default_iff :
      (a : SocketAddr)
      → (bind_with_fallforward bind default_governor_addr ≡ ok a) ↔ (
          (k : ℕ) × (k < attempts)
          × (a ≡ at_port default_governor_addr (default_governor_addr.port + k))
          × IsFirstFree default_governor_addr k)
  unfolding bind_with_fallforward Found
  bind_with_fallforward-default_iff a = (
    λ h. bind_from-Found attempts default_governor_addr a h,
    λ (k, l, same, f).
        bind_from-ok attempts k default_governor_addr l (omega arith) f ∙ ap ok (sym same),
  )

  -- Asked for any other address, the governor listens on that address or on none: exactly if it is
  -- free.
  pub bind_with_fallforward-explicit_iff :
      (requested a : SocketAddr)
      → is_explicit requested ≡ true
      → (bind_with_fallforward bind requested ≡ ok a) ↔ ((a ≡ requested) × (bind requested ≡ bound))
  unfolding bind_with_fallforward bind_from
  bind_with_fallforward-explicit_iff requested a x = go (bind requested) refl
    where
      go :
          (answer : BindAnswer)
          → bind requested ≡ answer
          → (bind_with_fallforward bind requested ≡ ok a)
            ↔ ((a ≡ requested) × (bind requested ≡ bound))
      go bound e = (λ h. (ground (arith, h, e, x), e), λ (p, q). ground (arith, p, e, x))
      go bound_blocking e = (λ h. absurd (ground (arith, h, e, x)), λ (p, q). absurd (cc (e, q)))
      go addr_in_use e = (λ h. absurd (ground (arith, h, e, x)), λ (p, q). absurd (cc (e, q)))
      go refused e = (λ h. absurd (ground (arith, h, e, x)), λ (p, q). absurd (cc (e, q)))
