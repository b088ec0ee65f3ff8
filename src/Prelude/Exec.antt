-- ===== src/Prelude/Exec.antt =====
-- Code that changes a state and may fail: what was done before a failure stays done, so the state
-- comes back beside the error too.
use mathlib.Core.Path.{◌≡◌, refl, subst}
use mathlib.Core.Bool.{Bool, true, false}
use mathlib.Core.Option.{Option, none, some}
use mathlib.Core.List.{List, [], ◌∷◌}
use nanny.Prelude.Tests.{if◌then◌else◌}
use nanny.Prelude.Results.{Result, ok, err}

abbrev pub Exec : Type 0 → Type 0 → Type 0 → Type 0
Exec S E A = S → S × Result E A

module _ {S E A : Type 0} where
  unfoldable pub pure : A → Exec S E A
  pure a s = (s, ok a)

  unfoldable pub raise : E → Exec S E A
  raise e s = (s, err e)

  -- `.context(...)?` on a value that may be missing
  unfoldable pub or_raise : E → Option A → Exec S E A
  unfolding pure raise
  or_raise e none = raise e
  or_raise e (some a) = pure a

  unfoldable pub gets : (S → A) → Exec S E A
  gets f s = (s, ok (f s))

module _ {S E F A : Type 0} where
  -- `map_err(...)?`
  unfoldable pub lift : (F → E) → Result F A → Exec S E A
  unfolding pure raise
  lift on_error (ok a) = pure a
  lift on_error (err e) = raise (on_error e)

module _ {S E : Type 0} where
  -- `if test { bail! }`
  unfoldable pub raise_if : Bool → E → Exec S E (Unit {0})
  unfolding pure raise
  raise_if true e = raise e
  raise_if false e = pure tt

module _ {S E A B : Type 0} where
  abbrev pub continue : (A → Exec S E B) → S × Result E A → S × Result E B
  continue f (s, ok a) = f a s
  continue f (s, err e) = (s, err e)

  infixl 5 ◌>>=◌ ◌>>◌
  abbrev pub ◌>>=◌ : Exec S E A → (A → Exec S E B) → Exec S E B
  ◌>>=◌ m f s = continue f (m s)

  abbrev pub ◌>>◌ : Exec S E A → Exec S E B → Exec S E B
  m >> n = m >>= λ _. n

module _ {S E B : Type 0} where
  pub raise_if-bind :
      (b : Bool) (e : E) (f : Unit {0} → Exec S E B) (s : S)
      → (raise_if b e >>= f) s ≡ (if b then (s, err e) else f tt s)
  unfolding raise_if raise pure
  raise_if-bind true e f s = refl
  raise_if-bind false e f s = refl

module _ {S E A : Type 0} where
  -- A loop over a list that stops at the first failure.
  unfoldable pub for_each : (A → Exec S E (Unit {0})) → List A → Exec S E (Unit {0})
  unfolding pure
  for_each f [] = pure tt
  for_each f (a ∷ as_) = f a >> for_each f as_

-- What holds when the code returns, and what when it fails.
module _ {S E A : Type 0} where
  abbrev pub After : (A → S → Type 0) → (S → Type 0) → S × Result E A → Type 0
  After Q R (s, ok a) = Q a s
  After Q R (s, err e) = R s

  -- From a state with `P` the code returns with `Q` or fails with `R`.
  pub record Ensures (P : S → Type 0) (m : Exec S E A) (Q : A → S → Type 0) (R : S → Type 0)
      : Type 0 where
    pub at : (s : S) → P s → After Q R (m s)

  -- `P` holds afterwards, whether the code returns or fails.
  abbrev pub Keeps : (S → Type 0) → Exec S E A → Type 0
  Keeps P m = Ensures P m (λ _. P) P

  pub Ensures-pure :
      {P : S → Type 0} {Q : A → S → Type 0} {R : S → Type 0} (a : A)
      → ((s : S) → P s → Q a s)
      → Ensures P (pure a) Q R
  unfolding pure
  Ensures-pure a h = record { at = h }

  pub Keeps-pure : {P : S → Type 0} (a : A) → Keeps P (pure a)
  unfolding pure
  Keeps-pure a = record { at = λ s h. h }

  pub Keeps-raise : {P : S → Type 0} (e : E) → Keeps P (raise e)
  unfolding raise
  Keeps-raise e = record { at = λ s h. h }

  pub Keeps-or_raise : {P : S → Type 0} (e : E) (o : Option A) → Keeps P (or_raise e o)
  unfolding or_raise
  Keeps-or_raise e none = Keeps-raise e
  Keeps-or_raise e (some a) = Keeps-pure a

  pub Keeps-gets : {P : S → Type 0} (f : S → A) → Keeps P (gets f)
  unfolding gets
  Keeps-gets f = record { at = λ s h. h }

module _ {S E A B : Type 0} {Q : A → S → Type 0} {T : B → S → Type 0} {R : S → Type 0} where
  Ensures-continue :
      (f : A → Exec S E B) (r : S × Result E A)
      → After Q R r
      → ((a : A) → Ensures (Q a) (f a) T R)
      → After T R (continue f r)
  Ensures-continue f (s, ok a) h k = (k a).at s h
  Ensures-continue f (s, err e) h k = h

  pub Ensures-bind :
      {P : S → Type 0} (m : Exec S E A) (f : A → Exec S E B)
      → Ensures P m Q R
      → ((a : A) → Ensures (Q a) (f a) T R)
      → Ensures P (m >>= f) T R
  Ensures-bind m f h k = record { at = λ s p. Ensures-continue f (m s) (h.at s p) k }

-- When only what holds on return matters: a part that keeps `P`, and one that may do anything.
module _ {S E A : Type 0} where
  any-After : (r : S × Result E A) → After (λ _ _. Unit {0}) (λ _. Unit {0}) r
  any-After (s, ok a) = tt
  any-After (s, err e) = tt

  pub Keeps-Unit : (m : Exec S E A) → Keeps (λ _. Unit {0}) m
  Keeps-Unit m = record { at = λ s h. any-After (m s) }

  weak-After :
      (P : S → Type 0) (r : S × Result E A) → After (λ _. P) P r → After (λ _. P) (λ _. Unit {0}) r
  weak-After P (s, ok a) h = h
  weak-After P (s, err e) h = tt

module _ {S E A B : Type 0} {T : B → S → Type 0} where
  pub Ensures-after :
      {P : S → Type 0} (m : Exec S E A) (f : A → Exec S E B)
      → ((a : A) → Ensures (λ _. Unit {0}) (f a) T (λ _. Unit {0}))
      → Ensures P (m >>= f) T (λ _. Unit {0})
  Ensures-after m f k =
      Ensures-bind {Q = λ _ _. Unit {0}} m f (record { at = λ s p. any-After (m s) }) k

  pub Ensures-then :
      {P : S → Type 0} (m : Exec S E A) (f : A → Exec S E B)
      → Keeps P m
      → ((a : A) → Ensures P (f a) T (λ _. Unit {0}))
      → Ensures P (m >>= f) T (λ _. Unit {0})
  Ensures-then {P} m f h k =
      Ensures-bind m f (record { at = λ s p. weak-After P (m s) (h.at s p) }) k

  knowing-After :
      (P : S → Type 0) (V : A → Type 0) (f : A → Exec S E B) (r : S × Result E A)
      → After (λ _. P) P r
      → After (λ a _. V a) (λ _. Unit {0}) r
      → ((a : A) → V a → Ensures P (f a) T (λ _. Unit {0}))
      → After T (λ _. Unit {0}) (continue f r)
  knowing-After P V f (s, ok a) h v k = (k a v).at s h
  knowing-After P V f (s, err e) h v k = tt

  -- The rest may use what is known of the value.
  pub Ensures-knowing :
      {P : S → Type 0} (V : A → Type 0) (m : Exec S E A) (f : A → Exec S E B)
      → Keeps P m
      → Ensures P m (λ a _. V a) (λ _. Unit {0})
      → ((a : A) → V a → Ensures P (f a) T (λ _. Unit {0}))
      → Ensures P (m >>= f) T (λ _. Unit {0})
  Ensures-knowing {P} V m f h v k = record {
    at = λ s p. knowing-After P V f (m s) (h.at s p) (v.at s p) k;
  }

  -- The rest may use that the value was there.
  pub Ensures-or_raise :
      {P : S → Type 0} (e : E) (o : Option A) (f : A → Exec S E B)
      → ((a : A) → o ≡ some a → Ensures P (f a) T (λ _. Unit {0}))
      → Ensures P (or_raise e o >>= f) T (λ _. Unit {0})
  unfolding or_raise raise pure
  Ensures-or_raise e none f k = record { at = λ s p. tt }
  Ensures-or_raise e (some a) f k = record { at = λ s p. (k a refl).at s p }

module _ {S E A : Type 0} {Q T : A → S → Type 0} (R : S → Type 0) where
  weaker-After :
      ((a : A) (s : S) → Q a s → T a s) → (r : S × Result E A) → After Q R r → After T R r
  weaker-After k (s, ok a) h = k a s h
  weaker-After k (s, err e) h = h

module _ {S E A : Type 0} {P : S → Type 0} {Q T : A → S → Type 0} {R : S → Type 0} where
  pub Ensures-weaken :
      (m : Exec S E A) → Ensures P m Q R → ((a : A) (s : S) → Q a s → T a s) → Ensures P m T R
  Ensures-weaken m h k = record { at = λ s p. weaker-After R k (m s) (h.at s p) }

module _ {S E A : Type 0} (P : S → Type 0) (Q : A → S → Type 0) where
  both-After :
      (r : S × Result E A)
      → After (λ _. P) P r
      → After Q (λ _. Unit {0}) r
      → After (λ a s. P s × Q a s) (λ _. Unit {0}) r
  both-After (s, ok a) h k = (h, k)
  both-After (s, err e) h k = tt

module _ {S E A : Type 0} {P : S → Type 0} {Q : A → S → Type 0} where
  pub Ensures-and :
      (m : Exec S E A)
      → Keeps P m
      → Ensures (λ _. Unit {0}) m Q (λ _. Unit {0})
      → Ensures P m (λ a s. P s × Q a s) (λ _. Unit {0})
  Ensures-and m h k = record { at = λ s p. both-After P Q (m s) (h.at s p) (k.at s tt) }

module _ {S E A : Type 0} (P T : S → Type 0) where
  two-After :
      (r : S × Result E A)
      → After (λ _. P) P r
      → After (λ _. T) T r
      → After (λ _ s. P s × T s) (λ s. P s × T s) r
  two-After (s, ok a) h k = (h, k)
  two-After (s, err e) h k = (h, k)

module _ {S E A : Type 0} {P T : S → Type 0} where
  pub Keeps-and : (m : Exec S E A) → Keeps P m → Keeps T m → Keeps (λ s. P s × T s) m
  Keeps-and m h k = record { at = λ s (p, t). two-After P T (m s) (h.at s p) (k.at s t) }

module _ {S E A B : Type 0} {P : S → Type 0} where
  pub Keeps-bind :
      (m : Exec S E A) (f : A → Exec S E B)
      → Keeps P m
      → ((a : A) → Keeps P (f a))
      → Keeps P (m >>= f)
  Keeps-bind m f h k = Ensures-bind m f h k

module _ {S E : Type 0} {P : S → Type 0} where
  pub Keeps-raise_if : (b : Bool) (e : E) → Keeps P (raise_if b e)
  unfolding raise_if
  Keeps-raise_if true e = Keeps-raise e
  Keeps-raise_if false e = Keeps-pure tt

module _ {S E A : Type 0} {P : S → Type 0} where
  pub Keeps-if :
      (b : Bool) (m n : Exec S E A) → Keeps P m → Keeps P n → Keeps P (if b then m else n)
  Keeps-if true m n h k = h
  Keeps-if false m n h k = k

  pub Keeps-for_each :
      (f : A → Exec S E (Unit {0})) (as_ : List A)
      → ((a : A) → Keeps P (f a))
      → Keeps P (for_each f as_)
  unfolding for_each
  Keeps-for_each f [] h = Keeps-pure tt
  Keeps-for_each f (a ∷ as_) h = Keeps-bind (f a) _ (h a) (λ _. Keeps-for_each f as_ h)

pub ruleset keeps_rules =
    (Keeps-pure, Keeps-raise, Keeps-or_raise, Keeps-gets, Keeps-raise_if, Keeps-if, Keeps-bind)

module _ {S E A : Type 0} {P : S → Type 0} {Q : A → S → Type 0} {R : S → Type 0} where
  -- What holds when the code returned.
  pub returned :
      (m : Exec S E A) (s s' : S) (a : A) → Ensures P m Q R → P s → m s ≡ (s', ok a) → Q a s'
  returned m s s' a h p e = subst (After Q R) e (h.at s p)

module _ {S E A : Type 0} {P : S → Type 0} {V : Type 0} {Q : A → S → Type 0} {R : S → Type 0} where
  -- What is known beside the state.
  pub Ensures-given : (m : Exec S E A) → (V → Ensures P m Q R) → Ensures (λ s. P s × V) m Q R
  Ensures-given m k = record { at = λ s (p, v). (k v).at s p }

module _ {S E A : Type 0} {P : S → Type 0} {Q : A → S → Type 0} {R : S → Type 0} where
  pub Ensures-from_any : (m : Exec S E A) → Ensures (λ _. Unit {0}) m Q R → Ensures P m Q R
  Ensures-from_any m h = record { at = λ s p. h.at s tt }

module _ {S E A : Type 0} (Q : A → S → Type 0) where
  or_raise-After :
      (e : E) (o : Option A) (s : S)
      → ((a : A) → o ≡ some a → Q a s)
      → After Q (λ _. Unit {0}) (or_raise e o s)
  unfolding or_raise raise pure
  or_raise-After e none s h = tt
  or_raise-After e (some a) s h = h a refl

module _ {S E A : Type 0} {P : S → Type 0} {Q : A → S → Type 0} where
  -- The value was there.
  pub or_raise-Ensures :
      (e : E) (o : Option A)
      → ((a : A) → o ≡ some a → (s : S) → P s → Q a s)
      → Ensures P (or_raise e o) Q (λ _. Unit {0})
  or_raise-Ensures e o h = record { at = λ s p. or_raise-After Q e o s (λ a k. h a k s p) }

module _ {S E B : Type 0} {P : S → Type 0} {T : B → S → Type 0} where
  -- The rest may use that the test was false.
  pub Ensures-raise_if :
      (b : Bool) (e : E) (f : Unit {0} → Exec S E B)
      → ((u : Unit {0}) → b ≡ false → Ensures P (f u) T (λ _. Unit {0}))
      → Ensures P (raise_if b e >>= f) T (λ _. Unit {0})
  unfolding raise_if raise pure
  Ensures-raise_if true e f k = record { at = λ s p. tt }
  Ensures-raise_if false e f k = k tt refl

module _ {S E A : Type 0} {P T : S → Type 0} {Q : A → S → Type 0} {R : S → Type 0} where
  pub Ensures-from : (m : Exec S E A) → Ensures T m Q R → ((s : S) → P s → T s) → Ensures P m Q R
  Ensures-from m h k = record { at = λ s p. h.at s (k s p) }

module _ {S E F A B : Type 0} {P : S → Type 0} {T : B → S → Type 0} where
  -- The rest may use that the result was there.
  pub Ensures-lift :
      (on_error : F → E) (r : Result F A) (f : A → Exec S E B)
      → ((a : A) → r ≡ ok a → Ensures P (f a) T (λ _. Unit {0}))
      → Ensures P (lift on_error r >>= f) T (λ _. Unit {0})
  unfolding lift raise pure
  Ensures-lift on_error (err e) f k = record { at = λ s p. tt }
  Ensures-lift on_error (ok a) f k = record { at = λ s p. (k a refl).at s p }
