-- ===== src/Cli/Client/FirstContact/Termination.antt =====
-- The attempts of `with_first_contact_retry` of crates/cli/src/lib.rs end.
use Prim.Native.Nat.{min}
use mathlib.Core.Path.{subst}
use nanny.Prelude.{
  ℕ, zero, suc, ◌+◌, ◌-◌, ◌≤◌, ◌<◌, ◌≡◌, ◌⊎◌, inl, inr, refl, ◌∙◌, Bool, true, false, Option, none,
  some, arith, ◌==◌, nat_eq, Bool-cases, if◌then◌else◌,
}
use nanny.Cli.Client.{BridgeResponse}
use nanny.Cli.Client.FirstContact.{
  first_contact_timeout, backoff_at, Contact, Ended, ended, attempted, slept, after_attempt,
  retry_from, with_first_contact_retry,
}

min_cases : (a b : ℕ) → (min a b ≡ a) ⊎ (min a b ≡ b)
min_cases a b = ground arith

module _ {W : Type 0} (attempt : W → W × Option BridgeResponse) (now : W → ℕ)
    (sleep : ℕ → W → W) where
  -- Time does not run back in an attempt, and a sleep takes at least its time.
  pub record IsClock : Type 0 where
    pub onward : (w : W) → now w ≤ now (attempt w).0
    pub sleeps : (ms : ℕ) (w : W) → now w + ms ≤ now (sleep ms w)

  -- The sleeps before a try.
  abbrev slept_before : ℕ → ℕ
  slept_before zero = 0
  slept_before (suc n) = slept_before n + backoff_at n

  -- An answer sets the flag; without one the time is over, and the flag stays as it was.
  abbrev pub IsOutcome : ℕ → Contact W → Contact W × Option BridgeResponse → Type 0
  IsOutcome deadline c (c', some r) = c'.reached ≡ true
  IsOutcome deadline c (c', none) = (c'.reached ≡ c.reached) × (deadline ≤ now c'.world)

  pub record HasEnded (most deadline : ℕ) (c : Contact W) (r : Contact W × Option BridgeResponse)
      : Type 0 where
    pub outcome : IsOutcome deadline c r
    pub at_most : r.0.tries_made ≤ c.tries_made + most

  after_attempt-HasEnded :
      (fuel deadline : ℕ) (c : Contact W) (answer : Option BridgeResponse)
      (rest : Ended (Contact W × Option BridgeResponse))
      → (now c.world < deadline
          → (r : Contact W × Option BridgeResponse) × (rest ≡ ended r) × HasEnded fuel deadline c r)
      → (r : Contact W × Option BridgeResponse) × (after_attempt attempt now sleep deadline c answer
            rest
          ≡ ended r)
        × HasEnded fuel deadline c r
  after_attempt-HasEnded fuel deadline c (some r) rest later =
      (_, refl, record { outcome = refl; at_most = omega arith })
  after_attempt-HasEnded fuel deadline c none rest later =
      elim (Bool-cases ((deadline - now c.world) == 0)) [
        | inl over ↦
            rw over
              (_, refl, record { outcome = (refl, ground (arith, over)); at_most = omega arith })
        | inr left ↦ rw left (later (ground (arith, left)))
      ]

  -- Where the clock stands at a try.
  IsLate : ℕ → ℕ → ℕ → Type 0
  IsLate start tries t = (start + slept_before tries ≤ t) ⊎ (start + first_contact_timeout ≤ t)

  later_still :
      (start tries t t' : ℕ)
      → IsLate start tries t
      → t < start + first_contact_timeout
      → t + min (backoff_at tries) (start + first_contact_timeout - t) ≤ t'
      → IsLate start (suc tries) t'
  unfolding IsLate
  later_still start tries t t' (inl late) before h =
      elim (min_cases (backoff_at tries) (start + first_contact_timeout - t)) [
        | inl e ↦ inl (omega (arith, late, before, h, e))
        | inr e ↦ inr (omega (arith, before, h, e))
      ]
  later_still start tries t t' (inr over) before h = absurd (omega (arith, over, before))

  same-IsOutcome :
      (deadline : ℕ) (c c' : Contact W) (r : Contact W × Option BridgeResponse)
      → c.reached ≡ c'.reached
      → IsOutcome deadline c r
      → IsOutcome deadline c' r
  same-IsOutcome deadline c c' (c'', some answer) e h = h
  same-IsOutcome deadline c c' (c'', none) e (h, k) = (h ∙ e, k)

  IsLate-onward : (start tries t t' : ℕ) → IsLate start tries t → t ≤ t' → IsLate start tries t'
  unfolding IsLate
  IsLate-onward start tries t t' (inl late) h = inl (omega (arith, late, h))
  IsLate-onward start tries t t' (inr late) h = inr (omega (arith, late, h))

  -- The loop has ended.
  Ends : ℕ → ℕ → ℕ → Contact W → Type 0
  Ends fuel tries deadline c =
      (r : Contact W × Option BridgeResponse) × (retry_from attempt now sleep fuel tries deadline c
        ≡ ended r)
      × HasEnded fuel deadline c r

  retry_from_step :
      IsClock
      → (fuel tries start : ℕ) (c : Contact W) → IsLate start tries (now c.world)
      → ((next : Contact W) (t : ℕ)
          → IsLate start tries t
          → t < start + first_contact_timeout
          → IsLate start (suc tries) (now next.world)
          → Ends fuel (suc tries) (start + first_contact_timeout) next)
      → Ends (suc fuel) tries (start + first_contact_timeout) c
  unfolding retry_from attempted Ends
  retry_from_step clock fuel tries start c late rest =
      let c' = (attempted attempt now sleep c).0 in
      let deadline = start + first_contact_timeout in
      let backoff = min (backoff_at tries) (deadline - now c'.world) in
      let next = slept attempt now sleep backoff c' in
      let late' = IsLate-onward start tries _ _ late (clock.onward c.world) in
      let (r, e, h) =
        after_attempt-HasEnded fuel deadline c' (attempted attempt now sleep c).1
          (retry_from attempt now sleep fuel (suc tries) deadline next)
          (λ before.
            let (r, e, h) =
              rest next (now c'.world) late' before
                (later_still start tries _ _ late' before (clock.sleeps backoff c'.world)) in
            (
              r,
              e,
              record {
                outcome = same-IsOutcome deadline next c' r refl h.outcome;
                at_most = h.at_most;
              },
            )) in
      (
        r,
        e,
        record {
          outcome = same-IsOutcome deadline c' c r refl h.outcome;
          at_most = omega (arith, h.at_most);
        },
      )

  eleventh :
      (start tries t : ℕ) → tries ≡ 11 → IsLate start tries t → start + first_contact_timeout ≤ t
  unfolding IsLate
  eleventh start tries t e (inl late) =
      omega (arith, subst (λ n. start + slept_before n ≤ t) e late)
  eleventh start tries t e (inr late) = late

  retry_from-HasEnded :
      IsClock
      → (fuel tries start : ℕ) (c : Contact W) → suc fuel + tries ≡ 12
      → IsLate start tries (now c.world)
      → Ends (suc fuel) tries (start + first_contact_timeout) c
  retry_from-HasEnded clock zero tries start c budget late =
      retry_from_step clock zero tries start c late (λ next t l before _.
        absurd (omega (arith, before, eleventh start tries t (omega (arith, budget)) l)))
  retry_from-HasEnded clock (suc fuel) tries start c budget late =
      retry_from_step clock (suc fuel) tries start c late (λ next t _ _ l.
        retry_from-HasEnded clock fuel (suc tries) start next (omega (arith, budget)) l)

  at_start : (start : ℕ) → IsLate start 0 start
  unfolding IsLate
  at_start start = inl (omega arith)

  chosen :
      (reached : Bool) (c : Contact W) (once : Contact W × Option BridgeResponse)
      (loop : Ended (Contact W × Option BridgeResponse)) (most deadline : ℕ)
      → ((r : Contact W × Option BridgeResponse) × (loop ≡ ended r) × HasEnded most deadline c r)
      → (r : Contact W × Option BridgeResponse) × ((if reached then ended once else loop) ≡ ended r)
        × (if reached then r ≡ once else HasEnded most deadline c r)
  chosen true c once loop most deadline h = (once, refl, refl)
  chosen false c once loop most deadline h = h

  -- Twelve attempts are enough: if time does not run back and sleeps take their time, the call returns.
  -- If the bridge was reached before, it made one attempt, and answers what that answered; else it made
  -- at most twelve, and either it has an answer, and the bridge counts as reached, or it has none, not
  -- before 30 seconds were over, and the bridge counts as unreached still.
  pub with_first_contact_retry-HasEnded :
      IsClock
      → (c : Contact W)
      → (r : Contact W × Option BridgeResponse) × (with_first_contact_retry attempt now sleep 12 c
          ≡ ended r)
        × (if c.reached
            then r ≡ attempted attempt now sleep c
            else HasEnded 12 (now c.world + first_contact_timeout) c r)
  unfolding with_first_contact_retry
  with_first_contact_retry-HasEnded clock c =
      chosen c.reached c (attempted attempt now sleep c)
        (retry_from attempt now sleep 12 0 (now c.world + first_contact_timeout) c) 12
        (now c.world + first_contact_timeout)
        (unfold Ends in
          retry_from-HasEnded clock 11 0 (now c.world) c refl (at_start (now c.world)))
