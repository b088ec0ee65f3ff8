-- ===== src/Prelude/Order.antt =====
-- `Ord` and its derived instances: texts by code points, `None` before `Some`, fields in order.
use Prim.Native.Nat.{ℕ, compare, Ordering}
use Prim.Native.Char.{code}
use Prim.Native.String.{String}
use mathlib.Core.Path.{◌≡◌, refl, ap}
use mathlib.Core.Option.{Option, none, some}
use native.Mathlib.Omega.{arith}
use text.Mathlib.TextEquality.{codes_equal}

-- `Ordering::then`
abbrev pub then : Ordering → Ordering → Ordering
then Ordering.lt o = Ordering.lt
then Ordering.eq o = o
then Ordering.gt o = Ordering.gt

-- `Ordering::reverse`
abbrev pub swap : Ordering → Ordering
swap Ordering.lt = Ordering.gt
swap Ordering.eq = Ordering.eq
swap Ordering.gt = Ordering.lt

pub record Ord {ℓ} (A : Type ℓ) : Type ℓ where
  pub cmp : A → A → Ordering
  pub same : (a b : A) → cmp a b ≡ Ordering.eq → a ≡ b
  pub flip : (a b : A) → cmp b a ≡ swap (cmp a b)
  pub trans : (a b c : A) → cmp a b ≡ Ordering.lt → cmp b c ≡ Ordering.lt → cmp a c ≡ Ordering.lt

module _ {ℓ} {A : Type ℓ} ⦃o : Ord A⦄ where
  pub cmp_self : (a : A) → o.cmp a a ≡ Ordering.eq
  cmp_self a = ground (arith, o.flip a a)

pub nat_same : (a b : ℕ) → compare a b ≡ Ordering.eq → a ≡ b
nat_same a b h = ground arith

pub nat_flip : (a b : ℕ) → compare b a ≡ swap (compare a b)
nat_flip a b = ground arith

pub nat_trans :
    (a b c : ℕ) → compare a b ≡ Ordering.lt → compare b c ≡ Ordering.lt → compare a c ≡ Ordering.lt
nat_trans a b c h k = ground arith

abbrev pub str_cmp : String → String → Ordering
str_cmp String.[] String.[] = Ordering.eq
str_cmp String.[] (String.◌∷◌ d t) = Ordering.lt
str_cmp (String.◌∷◌ c s) String.[] = Ordering.gt
str_cmp (String.◌∷◌ c s) (String.◌∷◌ d t) = then (compare (code c) (code d)) (str_cmp s t)

pub str_same : (s t : String) → str_cmp s t ≡ Ordering.eq → s ≡ t
str_same String.[] String.[] h = refl
str_same String.[] (String.◌∷◌ d t) h = cc
str_same (String.◌∷◌ c s) String.[] h = cc
str_same (String.◌∷◌ c s) (String.◌∷◌ d t) h = ground (arith, codes_equal c d, str_same s t)

pub str_flip : (s t : String) → str_cmp t s ≡ swap (str_cmp s t)
str_flip String.[] String.[] = refl
str_flip String.[] (String.◌∷◌ d t) = refl
str_flip (String.◌∷◌ c s) String.[] = refl
str_flip (String.◌∷◌ c s) (String.◌∷◌ d t) = ground (arith, str_flip s t)

pub str_trans :
    (s t u : String)
    → str_cmp s t ≡ Ordering.lt
    → str_cmp t u ≡ Ordering.lt
    → str_cmp s u ≡ Ordering.lt
str_trans String.[] String.[] u h k = cc
str_trans String.[] (String.◌∷◌ d t) String.[] h k = cc
str_trans String.[] (String.◌∷◌ d t) (String.◌∷◌ e u) h k = refl
str_trans (String.◌∷◌ c s) String.[] u h k = cc
str_trans (String.◌∷◌ c s) (String.◌∷◌ d t) String.[] h k = cc
str_trans (String.◌∷◌ c s) (String.◌∷◌ d t) (String.◌∷◌ e u) h k = ground (arith, str_trans s t u)

instance abbrev pub string_ord : Ord String
string_ord = record { cmp = str_cmp; same = str_same; flip = str_flip; trans = str_trans }

module _ {ℓ} {A : Type ℓ} ⦃o : Ord A⦄ where
  abbrev pub option_cmp : Option A → Option A → Ordering
  option_cmp none none = Ordering.eq
  option_cmp none (some b) = Ordering.lt
  option_cmp (some a) none = Ordering.gt
  option_cmp (some a) (some b) = o.cmp a b

  pub option_same : (x y : Option A) → option_cmp x y ≡ Ordering.eq → x ≡ y
  option_same none none h = refl
  option_same none (some b) h = cc
  option_same (some a) none h = cc
  option_same (some a) (some b) h = ap some (o.same a b h)

  pub option_flip : (x y : Option A) → option_cmp y x ≡ swap (option_cmp x y)
  option_flip none none = refl
  option_flip none (some b) = refl
  option_flip (some a) none = refl
  option_flip (some a) (some b) = o.flip a b

  pub option_trans :
      (x y z : Option A)
      → option_cmp x y ≡ Ordering.lt
      → option_cmp y z ≡ Ordering.lt
      → option_cmp x z ≡ Ordering.lt
  option_trans none none z h k = cc
  option_trans none (some b) none h k = cc
  option_trans none (some b) (some c) h k = refl
  option_trans (some a) none z h k = cc
  option_trans (some a) (some b) none h k = cc
  option_trans (some a) (some b) (some c) h k = o.trans a b c h k

instance abbrev pub option_ord {ℓ} : {A : Type ℓ} ⦃o : Ord A⦄ → Ord (Option A)
option_ord = record {
  cmp = option_cmp;
  same = option_same;
  flip = option_flip;
  trans = option_trans;
}

module _ {ℓ κ} {A : Type ℓ} {B : Type κ} ⦃o : Ord A⦄ ⦃q : Ord B⦄ where
  abbrev pub pair_cmp : A × B → A × B → Ordering
  pair_cmp (a, b) (c, d) = then (o.cmp a c) (q.cmp b d)

  pub pair_same : (x y : A × B) → pair_cmp x y ≡ Ordering.eq → x ≡ y
  pair_same (a, b) (c, d) h = ground (arith, o.same a c, q.same b d)

  pub pair_flip : (x y : A × B) → pair_cmp y x ≡ swap (pair_cmp x y)
  pair_flip (a, b) (c, d) = ground (arith, o.flip a c, q.flip b d)

  pub pair_trans :
      (x y z : A × B)
      → pair_cmp x y ≡ Ordering.lt
      → pair_cmp y z ≡ Ordering.lt
      → pair_cmp x z ≡ Ordering.lt
  pair_trans (a, b) (c, d) (e, f) h k =
      ground (arith, o.trans a c e, q.trans b d f, o.same a c, o.same c e)

instance abbrev pub pair_ord {ℓ κ} : {A : Type ℓ} {B : Type κ} ⦃o : Ord A⦄ ⦃q : Ord B⦄ → Ord (A × B)
pair_ord = record { cmp = pair_cmp; same = pair_same; flip = pair_flip; trans = pair_trans }

instance abbrev pub nat_ord : Ord ℕ
nat_ord = record { cmp = compare; same = nat_same; flip = nat_flip; trans = nat_trans }
