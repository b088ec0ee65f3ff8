-- ===== src/Network/RateLimiter/Window.antt =====
-- What `RateLimiter` of crates/bridge/src/network.rs lets pass.
use nanny.Prelude.{
  ℕ, suc, String, ◌+◌, ◌*◌, ◌-◌, ◌/◌, ◌≤◌, ◌<◌, ◌≡◌, refl, Option, none, some, List, [], ◌∷◌, arith,
  All, length, if◌then◌else◌, Bool-cases, inl, inr, ◌==◌, string_eq, ◌&&◌, eq_iff, if_rule,
}
use Prim.Native.Nat.{min}
use nanny.Prelude.Dict.{get, get-insert}
use nanny.Network.RateLimiter.{RateLimiter, second, entry_or, check_entry, check}

-- How many of the requests of one address, at the given instants, pass from a given entry.
unfoldable pub passes : ℕ → ℕ × ℕ → List ℕ → ℕ
passes rps entry [] = 0
passes rps entry (t ∷ ts) =
    let (entry', passed) = check_entry rps t entry in
    let rest = passes rps entry' ts in if passed then suc rest else rest

-- Within the second that an entry opened, exactly the first `rps` requests pass, those counted already
-- included.
pub passes_window :
    (rps count start : ℕ) (ts : List ℕ)
    → All (λ t. (t - start) / second < 1) ts
    → passes rps (count, start) ts ≡ min (length ts) (rps - count)
unfolding passes check_entry
passes_window rps count start [] h = omega arith
passes_window rps count start (t ∷ ts) (h, hs) =
    ground (arith, passes_window rps (count + 1) start ts hs, passes_window rps count start ts hs)

-- The instants of one second.
abbrev pub IsInSecond : ℕ → ℕ → Type 0
IsInSecond from t = (from ≤ t) × (t < from + second)

near :
    (from t : ℕ) (ts : List ℕ)
    → from ≤ t
    → All (IsInSecond from) ts
    → All (λ u. (u - t) / second < 1) ts
near from t [] l h = tt
near from t (u ∷ us) l ((a, b), h) = (omega arith, near from t us l h)

-- Whatever was counted before, at most twice the rate passes in one second: what a window that ends
-- in that second has left, and what the next one lets pass.
passes_second :
    (rps count start from : ℕ) (ts : List ℕ)
    → 1 ≤ rps
    → All (IsInSecond from) ts
    → passes rps (count, start) ts ≤ (rps - count) + rps
unfolding passes check_entry
passes_second rps count start from [] r h = omega arith
passes_second rps count start from (t ∷ ts) r ((a, b), h) = ground (
  arith,
  passes_window rps 1 t ts (near from t ts a h),
  passes_second rps (count + 1) start from ts r h,
  passes_second rps count start from ts r h,
)

-- The requests of all addresses, each with its instant; how many of one address pass.
unfoldable pub passed_of : String → RateLimiter → List (String × ℕ) → ℕ
passed_of ip r [] = 0
passed_of ip r ((j, t) ∷ reqs) =
    let (r', passed) = check r j t in
    let rest = passed_of ip r' reqs in if (j == ip) && passed then suc rest else rest

instants : String → List (String × ℕ) → List ℕ
instants ip [] = []
instants ip ((j, t) ∷ reqs) = let rest = instants ip reqs in if j == ip then t ∷ rest else rest

passes_from : ℕ → Option (ℕ × ℕ) → List ℕ → ℕ
passes_from rps none [] = 0
passes_from rps none (t ∷ ts) = passes rps (0, t) (t ∷ ts)
passes_from rps (some entry) ts = passes rps entry ts

passes_from-cons :
    (rps : ℕ) (o : Option (ℕ × ℕ)) (t : ℕ) (ts : List ℕ)
    → passes_from rps o (t ∷ ts) ≡ (
        if (check_entry rps t (entry_or t o)).1
        then suc (passes_from rps (some (check_entry rps t (entry_or t o)).0) ts)
        else passes_from rps (some (check_entry rps t (entry_or t o)).0) ts)
unfolding passes_from passes
passes_from-cons rps none t ts = refl
passes_from-cons rps (some entry) t ts = refl

passed_of-passes_from :
    (ip : String) (r : RateLimiter) (reqs : List (String × ℕ))
    → passed_of ip r reqs ≡ passes_from r.rps (get ip r.inner) (instants ip reqs)
unfolding passed_of instants check
passed_of-passes_from ip r [] = unfold passes_from passes in ground arith
passed_of-passes_from ip r ((j, t) ∷ reqs) = elim (Bool-cases (j == ip)) [
  | inl same ↦ ground (
    arith,
    same,
    passed_of-passes_from ip (check r j t).0 reqs,
    get-insert j ip (check_entry r.rps t (entry_or t (get j r.inner))).0 r.inner,
    passes_from-cons r.rps (get ip r.inner) t (instants ip reqs),
    eq_iff j ip,
  )
  | inr differ ↦ ground (
    arith,
    differ,
    passed_of-passes_from ip (check r j t).0 reqs,
    get-insert j ip (check_entry r.rps t (entry_or t (get j r.inner))).0 r.inner,
  )
]

instants-All :
    (P : ℕ → Type 0) (ip : String) (reqs : List (String × ℕ))
    → All (λ q. P q.1) reqs
    → All P (instants ip reqs)
unfolding instants
instants-All P ip [] h = tt
instants-All P ip ((j, t) ∷ reqs) (p, h) =
    if_rule (All P) (j == ip) _ _ (p, instants-All P ip reqs h) (instants-All P ip reqs h)

passes_from-second :
    (rps from : ℕ) (o : Option (ℕ × ℕ)) (ts : List ℕ)
    → 1 ≤ rps
    → All (IsInSecond from) ts
    → passes_from rps o ts ≤ 2 * rps
unfolding passes_from
passes_from-second rps from none [] r h = omega arith
passes_from-second rps from none (t ∷ ts) r h =
    omega (arith, passes_second rps 0 t from (t ∷ ts) r h)
passes_from-second rps from (some (count, start)) ts r h =
    omega (arith, passes_second rps count start from ts r h)

-- Whatever the limiter has seen before, and whatever other addresses send, of the requests of one
-- address in any one second at most twice the rate pass, if the rate is not 0.
pub passed_of-second :
    (ip : String) (r : RateLimiter) (from : ℕ) (reqs : List (String × ℕ))
    → 1 ≤ r.rps
    → All (λ q. IsInSecond from q.1) reqs
    → passed_of ip r reqs ≤ 2 * r.rps
passed_of-second ip r from reqs l h = omega (
  arith,
  passed_of-passes_from ip r reqs,
  passes_from-second r.rps from (get ip r.inner) (instants ip reqs) l
      (instants-All (IsInSecond from) ip reqs h),
)
