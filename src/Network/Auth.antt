-- ===== src/Network/Auth.antt =====
-- crates/bridge/src/network.rs: the session token check. Tokens and header values are their bytes.
pub mod Compare
use Prim.Native.Nat.{bit_or, bit_xor}
use nanny.Prelude.{
  ℕ, Bool, true, false, Option, none, some, List, [], ◌∷◌, length, if◌then◌else◌, ◌==◌, nat_eq,
  ◌||◌,
}

-- The loop over `zip`: `diff |= x ^ y`.
unfoldable pub accumulate : ℕ → List ℕ → List ℕ → ℕ
accumulate diff [] _ = diff
accumulate diff (x ∷ xs) [] = diff
accumulate diff (x ∷ xs) (y ∷ ys) = accumulate (bit_or diff (bit_xor x y)) xs ys

-- `secure_compare`
unfoldable pub secure_compare : List ℕ → List ℕ → Bool
unfolding accumulate
secure_compare a b = if length a == length b then accumulate 0 a b == 0 else false

-- The loop over the accepted tokens: `matched |= secure_compare(got, candidate)`.
unfoldable pub match_all : Bool → List ℕ → List (List ℕ) → Bool
unfolding secure_compare
match_all matched got [] = matched
match_all matched got (candidate ∷ rest) =
    match_all (matched || secure_compare got candidate) got rest

-- `session_token_ok`, from the value of the header `x-nanny-session-token`, if it is there and
-- readable.
unfoldable pub session_token_ok : Option (List ℕ) → List (List ℕ) → Bool
unfolding match_all
session_token_ok none expected = false
session_token_ok (some got) expected = match_all false got expected
