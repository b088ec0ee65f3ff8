-- ===== src/Cli/Client/FirstContact.antt =====
-- crates/cli/src/lib.rs: the first contact with a bridge, `with_first_contact_retry`. The world behind the
-- attempts, the clock and the sleep is unknown; times are in milliseconds.
pub mod Termination
use Prim.Native.Nat.{min}
use mathlib.Core.Path.{subst}
use nanny.Prelude.{
  ℕ, zero, suc, ◌+◌, ◌-◌, ◌≤◌, ◌<◌, ◌≡◌, ◌⊎◌, inl, inr, refl, ◌∙◌, Bool, true, false, Option, none,
  some, arith, ◌==◌, nat_eq, eqb_iff, Bool-cases, if◌then◌else◌,
}
use nanny.Cli.Client.{BridgeResponse}

abbrev pub first_contact_timeout : ℕ
first_contact_timeout = 30000

-- `FIRST_CONTACT_BACKOFF_MS[tries.min(4)]`
abbrev pub backoff_at : ℕ → ℕ
backoff_at zero = 250
backoff_at (suc zero) = 500
backoff_at (suc (suc zero)) = 1000
backoff_at (suc (suc (suc zero))) = 2000
backoff_at _ = 4000

-- The world, with the flag `REACHED_BRIDGE`, and the attempts that were made.
pub record Contact (W : Type 0) : Type 0 where
  pub world : W
  pub reached : Bool
  pub tries_made : ℕ

-- A loop that may run out of fuel.
pub data Ended (A : Type 0) : Type 0 where
  out_of_fuel : Ended A
  ended : A → Ended A

module _ {W : Type 0} (attempt : W → W × Option BridgeResponse) (now : W → ℕ)
    (sleep : ℕ → W → W) where
  unfoldable pub attempted : Contact W → Contact W × Option BridgeResponse
  attempted c =
      let (world, answer) = attempt c.world in
      (record c { world = world; tries_made = suc c.tries_made }, answer)

  abbrev pub slept : ℕ → Contact W → Contact W
  slept ms c = record c { world = sleep ms c.world }

  -- What follows an attempt of the loop: the answer, the deadline, or the sleep and the rest.
  abbrev pub after_attempt :
      ℕ
      → Contact W
      → Option BridgeResponse
      → Ended (Contact W × Option BridgeResponse)
      → Ended (Contact W × Option BridgeResponse)
  after_attempt deadline c (some r) rest = ended (record c { reached = true }, some r)
  after_attempt deadline c none rest =
      if (deadline - now c.world) == 0 then ended (c, none) else rest

  -- The loop, on fuel, at a number of tries.
  unfoldable pub retry_from : ℕ → ℕ → ℕ → Contact W → Ended (Contact W × Option BridgeResponse)
  unfolding attempted
  retry_from zero tries deadline c = out_of_fuel
  retry_from (suc fuel) tries deadline c =
      let (c', answer) = attempted c in
      let backoff = min (backoff_at tries) (deadline - now c'.world) in
      let rest = retry_from fuel (suc tries) deadline (slept backoff c') in
      after_attempt deadline c' answer rest

  -- `with_first_contact_retry`
  unfoldable pub with_first_contact_retry :
      ℕ → Contact W → Ended (Contact W × Option BridgeResponse)
  with_first_contact_retry fuel c =
      let once = ended (attempted c) in
      let loop = retry_from fuel 0 (now c.world + first_contact_timeout) c in
      if c.reached then once else loop
