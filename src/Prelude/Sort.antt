-- ===== src/Prelude/Sort.antt =====
-- `Vec::sort` and `Vec::dedup`, over an order in which equal means identical: the result depends on
-- the set of elements alone.
use Prim.Native.Nat.{Ordering}
use mathlib.Core.Path.{◌≡◌, refl, sym, ◌∙◌}
use mathlib.Core.Logic.{◌≢◌, inl, inr}
use mathlib.Core.Bool.{true}
use mathlib.Core.List.{List, [], ◌∷◌}
use native.Mathlib.Omega.{arith}
use nanny.Prelude.Tests.{Eq, ◌==◌, contains, if◌then◌else◌, Bool-cases}
use nanny.Prelude.Lists.{All}
use nanny.Prelude.Order.{Ord, cmp_self}

module _ {ℓ} {A : Type ℓ} ⦃o : Ord A⦄ where
  -- One step of an insertion sort.
  unfoldable pub place : A → List A → List A
  place x [] = x ∷ []
  place x (y ∷ ys) = elim (o.cmp x y) [ Ordering.gt ↦ y ∷ place x ys | _ ↦ x ∷ y ∷ ys ]

  unfoldable pub sort : List A → List A
  unfolding place
  sort [] = []
  sort (x ∷ xs) = place x (sort xs)

  abbrev pub IsSorted : List A → Type ℓ
  IsSorted [] = Unit
  IsSorted (x ∷ xs) = All (λ y. o.cmp x y ≢ Ordering.gt) xs × IsSorted xs

  abbrev pub IsStrict : List A → Type ℓ
  IsStrict [] = Unit
  IsStrict (x ∷ xs) = All (λ y. o.cmp x y ≡ Ordering.lt) xs × IsStrict xs

  place-All {κ} : (P : A → Type κ) (x : A) (ys : List A) → P x → All P ys → All P (place x ys)
  unfolding place
  place-All P x [] p h = (p, tt)
  place-All P x (y ∷ ys) p (q, h) = ground (arith, place-All P x ys p h)

  le_trans :
      (a b c : A) → o.cmp a b ≢ Ordering.gt → o.cmp b c ≢ Ordering.gt → o.cmp a c ≢ Ordering.gt
  le_trans a b c h k = ground (arith, o.trans a b c, o.same a b, o.same b c)

  All-le_trans :
      (x y : A) (ys : List A)
      → o.cmp x y ≢ Ordering.gt
      → All (λ z. o.cmp y z ≢ Ordering.gt) ys
      → All (λ z. o.cmp x z ≢ Ordering.gt) ys
  All-le_trans x y [] h k = tt
  All-le_trans x y (z ∷ ys) h (k, ks) = (le_trans x y z h k, All-le_trans x y ys h ks)

  place-IsSorted : (x : A) (ys : List A) → IsSorted ys → IsSorted (place x ys)
  unfolding place
  place-IsSorted x [] h = (tt, tt)
  place-IsSorted x (y ∷ ys) (h, hs) = ground (
    arith,
    place-IsSorted x ys hs,
    place-All (λ z. o.cmp y z ≢ Ordering.gt) x ys,
    All-le_trans x y ys,
    o.flip x y,
  )

  pub sort-IsSorted : (xs : List A) → IsSorted (sort xs)
  unfolding sort
  sort-IsSorted [] = tt
  sort-IsSorted (x ∷ xs) = place-IsSorted x (sort xs) (sort-IsSorted xs)

module _ {ℓ} {A : Type ℓ} ⦃o : Ord A⦄ ⦃e : Eq A⦄ where
  -- The loop of `dedup`: `x` is the last element that was kept.
  unfoldable pub dedup_from : A → List A → List A
  dedup_from x [] = []
  dedup_from x (y ∷ ys) =
      let dropped = dedup_from x ys in
      let kept = y ∷ dedup_from y ys in if x == y then dropped else kept

  unfoldable pub dedup : List A → List A
  unfolding dedup_from
  dedup [] = []
  dedup (x ∷ xs) = x ∷ dedup_from x xs

  contains-place : (a x : A) (ys : List A) → contains (place x ys) a ≡ contains (x ∷ ys) a
  unfolding place
  contains-place a x [] = refl
  contains-place a x (y ∷ ys) = ground (arith, contains-place a x ys)

  pub contains-sort : (a : A) (xs : List A) → contains (sort xs) a ≡ contains xs a
  unfolding sort
  contains-sort a [] = refl
  contains-sort a (x ∷ xs) = ground (arith, contains-place a x (sort xs), contains-sort a xs)

  contains-dedup_from :
      (a x : A) (ys : List A) → contains (x ∷ dedup_from x ys) a ≡ contains (x ∷ ys) a
  unfolding dedup_from
  contains-dedup_from a x [] = refl
  contains-dedup_from a x (y ∷ ys) =
      ground (arith, e.beq_iff x y, contains-dedup_from a x ys, contains-dedup_from a y ys)

  pub contains-dedup-sort : (a : A) (xs : List A) → contains (dedup (sort xs)) a ≡ contains xs a
  unfolding dedup
  contains-dedup-sort a xs = go (sort xs) ∙ contains-sort a xs
    where
      go : (ys : List A) → contains (dedup ys) a ≡ contains ys a
      go [] = refl
      go (y ∷ ys) = contains-dedup_from a y ys

  strict_trans :
      (x y : A) (ys : List A)
      → o.cmp x y ≡ Ordering.lt
      → All (λ z. o.cmp y z ≡ Ordering.lt) ys
      → All (λ z. o.cmp x z ≡ Ordering.lt) ys
  strict_trans x y [] h k = tt
  strict_trans x y (z ∷ ys) h (k, ks) = (o.trans x y z h k, strict_trans x y ys h ks)

  -- Deduplicating what is sorted leaves a strictly ascending list.
  dedup_from-IsStrict :
      (x : A) (ys : List A)
      → All (λ z. o.cmp x z ≢ Ordering.gt) ys
      → IsSorted ys
      → All (λ z. o.cmp x z ≡ Ordering.lt) (dedup_from x ys) × IsStrict (dedup_from x ys)
  unfolding dedup_from
  dedup_from-IsStrict x [] h s = (tt, tt)
  dedup_from-IsStrict x (y ∷ ys) (h, hs) (s, ss) = elim (Bool-cases (x == y)) [
    | inl same ↦ rw same (dedup_from-IsStrict x ys hs ss)
    | inr differ ↦
        let less : o.cmp x y ≡ Ordering.lt = ground (arith, o.same x y, e.beq_iff x y) in
        let (above, strict) = dedup_from-IsStrict y ys s ss in
        rw differ ((less, strict_trans x y (dedup_from y ys) less above), (above, strict))
  ]

  dedup-IsStrict : (xs : List A) → IsSorted xs → IsStrict (dedup xs)
  unfolding dedup
  dedup-IsStrict [] h = tt
  dedup-IsStrict (x ∷ xs) (h, s) = dedup_from-IsStrict x xs h s

  -- What stands in a strictly ascending tail lies above the head.
  above_head :
      (x a : A) (xs : List A)
      → All (λ z. o.cmp x z ≡ Ordering.lt) xs
      → contains xs a ≡ true
      → o.cmp x a ≡ Ordering.lt
  above_head x a [] h k = cc
  above_head x a (y ∷ ys) (h, hs) k = elim (Bool-cases (y == a)) [
    | inl same ↦ rw (← (e.beq_iff y a).0 same) h
    | inr differ ↦ above_head x a ys hs (rw differ at k)
  ]

  -- Two strictly ascending lists with the same members are one list.
  IsStrict-unique :
      (xs ys : List A)
      → IsStrict xs
      → IsStrict ys
      → ((a : A) → contains xs a ≡ contains ys a)
      → xs ≡ ys
  IsStrict-unique [] [] s t h = refl
  IsStrict-unique [] (y ∷ ys) s t h = ground (arith, h y, e.beq_iff y y)
  IsStrict-unique (x ∷ xs) [] s t h = ground (arith, h x, e.beq_iff x x)
  IsStrict-unique (x ∷ xs) (y ∷ ys) (sx, s) (ty, t) h =
      let heads : x ≡ y = ground (
        arith,
        h x,
        h y,
        e.beq_iff x x,
        e.beq_iff y y,
        e.beq_iff x y,
        e.beq_iff y x,
        above_head x y xs sx,
        above_head y x ys ty,
        o.flip x y,
      ) in
      let tails : (a : A) → contains xs a ≡ contains ys a = λ a. ground (
        arith,
        h a,
        heads,
        e.beq_iff x a,
        e.beq_iff y a,
        above_head x a xs sx,
        above_head y a ys ty,
        cmp_self a,
      ) in
      ground (arith, heads, IsStrict-unique xs ys s t tails)

  -- The sorted, deduplicated list depends on the set of elements alone.
  pub dedup-sort_eq :
      (xs ys : List A)
      → ((a : A) → contains xs a ≡ contains ys a)
      → dedup (sort xs) ≡ dedup (sort ys)
  dedup-sort_eq xs ys h =
      IsStrict-unique (dedup (sort xs)) (dedup (sort ys))
        (dedup-IsStrict (sort xs) (sort-IsSorted xs)) (dedup-IsStrict (sort ys) (sort-IsSorted ys))
        (λ a. contains-dedup-sort a xs ∙ h a ∙ sym (contains-dedup-sort a ys))
