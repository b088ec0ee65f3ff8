-- ===== src/Prelude/Dict.antt =====
-- `HashMap<String, V>` as an association list. The order of the entries stands for the order in
-- which the map is iterated, which Rust leaves unspecified.
use Prim.Native.String.{String}
use mathlib.Core.Path.{◌≡◌, refl}
use mathlib.Core.Bool.{Bool, true, false}
use mathlib.Core.Option.{Option, none, some}
use mathlib.Core.List.{List, [], ◌∷◌, map}
use native.Mathlib.Omega.{arith}
use text.Mathlib.TextEquality.{eq_iff}
use Prim.Native.Nat.{Ordering}
use nanny.Prelude.Order.{str_cmp}
use nanny.Prelude.Tests.{contains, if◌then◌else◌, ◌==◌, string_eq}

abbrev pub Dict {ℓ} : Type ℓ → Type ℓ
Dict V = List (String × V)

module _ {ℓ} {V : Type ℓ} where
  -- `map.get(k)`
  unfoldable pub get : String → Dict V → Option V
  get k [] = none
  get k ((j, v) ∷ m) = if j == k then some v else get k m

  -- `map.insert(k, v)`
  unfoldable pub insert : String → V → Dict V → Dict V
  insert k v [] = (k, v) ∷ []
  insert k v ((j, w) ∷ m) = if j == k then (j, v) ∷ m else (j, w) ∷ insert k v m

  -- `map.contains_key(k)`
  unfoldable pub contains_key : String → Dict V → Bool
  contains_key k [] = false
  contains_key k ((j, v) ∷ m) = if j == k then true else contains_key k m

  abbrev pub keys : Dict V → List String
  keys = map (λ (k, _). k)

  -- A map has each key once.
  abbrev pub HasDistinctKeys : Dict V → Type 0
  HasDistinctKeys [] = Unit
  HasDistinctKeys ((k, v) ∷ m) = (contains (keys m) k ≡ false) × HasDistinctKeys m

  pub get-insert :
      (k j : String) (v : V) (m : Dict V)
      → get j (insert k v m) ≡ (if k == j then some v else get j m)
  unfolding get insert
  get-insert k j v [] = refl
  get-insert k j v ((i, w) ∷ m) =
      ground (arith, eq_iff k j, eq_iff i k, eq_iff i j, get-insert k j v m)

  -- `map.remove(k)`
  unfoldable pub remove_key : String → Dict V → Dict V
  remove_key k [] = []
  remove_key k ((j, v) ∷ m) = let rest = remove_key k m in if j == k then rest else (j, v) ∷ rest

  pub get-remove_key :
      (k j : String) (m : Dict V) → get j (remove_key k m) ≡ (if k == j then none else get j m)
  unfolding get remove_key
  get-remove_key k j [] = ground arith
  get-remove_key k j ((i, w) ∷ m) =
      ground (arith, eq_iff k j, eq_iff i k, eq_iff i j, get-remove_key k j m)

  abbrev pub is_some : Option V → Bool
  is_some none = false
  is_some (some v) = true

  pub contains_key-get : (k : String) (m : Dict V) → contains_key k m ≡ is_some (get k m)
  unfolding get contains_key
  contains_key-get k [] = refl
  contains_key-get k ((j, v) ∷ m) = ground (arith, contains_key-get k m)

-- `collect` into a `BTreeMap`: the entries in the order of their keys.
module _ {ℓ} {V : Type ℓ} where
  abbrev btree_insert : String → V → Dict V → Dict V
  btree_insert k v [] = (k, v) ∷ []
  btree_insert k v ((j, w) ∷ m) = elim (str_cmp k j) [
    | Ordering.lt ↦ (k, v) ∷ (j, w) ∷ m
    | Ordering.eq ↦ (j, v) ∷ m
    | Ordering.gt ↦ (j, w) ∷ btree_insert k v m
  ]

  abbrev pub to_btree : Dict V → Dict V
  to_btree [] = []
  to_btree ((k, v) ∷ m) = btree_insert k v (to_btree m)
