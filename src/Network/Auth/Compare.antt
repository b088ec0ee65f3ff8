-- ===== src/Network/Auth/Compare.antt =====
-- `secure_compare` and `session_token_ok` of crates/bridge/src/network.rs decide what they should,
-- though they look at every byte and every token.
use mathlib.Core.List.{Mem}
use mathlib.Core.Option.{some-injective}
use Prim.Native.Nat.{max, digits, differ, bit_or, bit_xor, bit_or-bitwise, bit_xor-bitwise}
use nanny.Prelude.{
  ℕ, zero, suc, ◌/◌, ◌%◌, ◌≤◌, ◌≡◌, ◌↔◌, refl, sym, ◌∙◌, ap, Bool, true, false, ◌||◌, inl, inr,
  Option, none, some, List, [], ◌∷◌, arith, length, contains, contains_iff, eqb_iff, nat_eq,
  list_eq, ◌==◌, list_beq_iff, Bool-cases,
}
use nanny.Network.Auth.{accumulate, secure_compare, match_all, session_token_ok}

or_digits-zero : (n a b : ℕ) → a ≤ n → digits (λ b. b) max n a b ≡ 0 → (a ≡ 0) × (b ≡ 0)
or_digits-zero zero zero b p h = (refl, h)
or_digits-zero zero (suc a) b p h = absurd (omega arith)
or_digits-zero (suc n) zero b p h = (refl, h)
or_digits-zero (suc n) (suc a) b p h =
    let ih = or_digits-zero n (suc a / 2) (b / 2) (omega arith) (omega arith) in
    (omega arith, omega arith)

differ-zero : (x y : ℕ) → differ x y ≡ 0 → x ≡ y
differ-zero zero y h = sym h
differ-zero (suc x) zero h = h
differ-zero (suc x) (suc y) h = ap suc (differ-zero x y h)

differ_self : (x : ℕ) → differ x x ≡ 0
differ_self zero = refl
differ_self (suc x) = differ_self x

xor_digits-zero : (n a b : ℕ) → a ≤ n → digits (λ b. b) differ n a b ≡ 0 → a ≡ b
xor_digits-zero zero zero b p h = sym h
xor_digits-zero zero (suc a) b p h = absurd (omega arith)
xor_digits-zero (suc n) zero b p h = sym h
xor_digits-zero (suc n) (suc a) b p h =
    let ih = xor_digits-zero n (suc a / 2) (b / 2) (omega arith) (omega arith) in
    let low = differ-zero (suc a % 2) (b % 2) (omega arith) in omega arith

xor_digits_self : (n a : ℕ) → a ≤ n → digits (λ b. b) differ n a a ≡ 0
xor_digits_self zero zero p = refl
xor_digits_self zero (suc a) p = absurd (omega arith)
xor_digits_self (suc n) zero p = refl
xor_digits_self (suc n) (suc a) p =
    omega (arith, xor_digits_self n (suc a / 2) (omega arith), differ_self (suc a % 2))

bit_or-zero_iff : (a b : ℕ) → (bit_or a b ≡ 0) ↔ ((a ≡ 0) × (b ≡ 0))
bit_or-zero_iff a b = (
  λ h. or_digits-zero a a b (omega arith) (sym (bit_or-bitwise a b) ∙ h),
  λ (p, q). rw (p, q) refl,
)

bit_xor-zero_iff : (a b : ℕ) → (bit_xor a b ≡ 0) ↔ (a ≡ b)
bit_xor-zero_iff a b = (
  λ h. xor_digits-zero a a b (omega arith) (sym (bit_xor-bitwise a b) ∙ h),
  λ p. rw p (bit_xor-bitwise b b ∙ xor_digits_self b b (omega arith)),
)

accumulate_iff :
    (d : ℕ) (a b : List ℕ) → length a ≡ length b → (accumulate d a b ≡ 0) ↔ ((d ≡ 0) × (a ≡ b))
unfolding accumulate
accumulate_iff d [] [] h = (λ k. (k, refl), λ (k, _). k)
accumulate_iff d [] (y ∷ ys) h = absurd (omega arith)
accumulate_iff d (x ∷ xs) [] h = absurd (omega arith)
accumulate_iff d (x ∷ xs) (y ∷ ys) h =
    let (to, from) = accumulate_iff (bit_or d (bit_xor x y)) xs ys (omega arith) in
    (
      λ k.
          let (z, same) = to k in
          let (dz, xz) = (bit_or-zero_iff d (bit_xor x y)).0 z in
          (dz, cc ((bit_xor-zero_iff x y).0 xz, same)),
      λ (dz, same).
          from
            ((bit_or-zero_iff d (bit_xor x y)).1 (dz, (bit_xor-zero_iff x y).1 (cc same)), cc same),
    )

-- The comparison that looks at every byte answers whether the two texts are the same.
pub secure_compare_iff : (a b : List ℕ) → (secure_compare a b ≡ true) ↔ (a ≡ b)
unfolding secure_compare
secure_compare_iff a b = elim (Bool-cases (length a == length b)) [
  | inl same ↦
      let (to, from) = accumulate_iff 0 a b ((eqb_iff _ _).0 same) in
      rw same (λ k. (to ((eqb_iff _ _).0 k)).1, λ k. (eqb_iff _ _).1 (from (refl, k)))
  | inr differs ↦
      rw differs (λ k. cc, λ k. cc (differs, (eqb_iff (length a) (length b)).1 (ap length k)))
]

secure_compare-== : (a b : List ℕ) → secure_compare a b ≡ (b == a)
secure_compare-== a b = ground (arith, secure_compare_iff a b, list_beq_iff b a)

match_all-contains :
    (m : Bool) (got : List ℕ) (expected : List (List ℕ))
    → match_all m got expected ≡ (m || contains expected got)
unfolding match_all
match_all-contains true got [] = refl
match_all-contains false got [] = refl
match_all-contains m got (c ∷ cs) =
    ground (arith, match_all-contains (m || secure_compare got c) got cs, secure_compare-== got c)

-- A request is authenticated exactly if it carries a readable token that is one of those accepted.
pub session_token_ok_iff :
    (header : Option (List ℕ)) (expected : List (List ℕ))
    → (session_token_ok header expected ≡ true)
      ↔ ((got : List ℕ) × (header ≡ some got) × Mem got expected)
unfolding session_token_ok
session_token_ok_iff none expected = (λ h. cc, λ (got, h, m). cc)
session_token_ok_iff (some got) expected = (
  λ h. (got, refl, (contains_iff expected got).0 (sym (match_all-contains false got expected) ∙ h)),
  λ (got', h, m).
      match_all-contains false got expected
      ∙ (contains_iff expected got).1 (rw (some-injective got got' h) m),
)
