-- ===== src/Cli/Sync/Spool/Listing.antt =====
-- What `entries` of crates/cli/src/sync.rs lists.
use Prim.Native.Nat.{Ordering}
use mathlib.Core.Path.{subst}
use nanny.Prelude.{
  ℕ, String, ◌≡◌, ◌≢◌, ◌↔◌, ◌⊎◌, refl, sym, Bool, true, false, some, List, [], ◌∷◌, map, arith, All,
  contains, nat_eq, string_eq, option_beq_iff, eq_iff, Bool-cases, Option-cases, inl, inr,
}
use nanny.Prelude.{pair_eq}
use nanny.Prelude.Sort.{IsSorted, sort-IsSorted, contains-sort}
use nanny.Prelude.Order.{string_ord, nat_ord, pair_ord}
use nanny.Cli.Sync.Disk.{SpoolFile, Disk, Faults, files_of, extension}
use nanny.Cli.Sync.Spool.{Spool, is_batch_name, is_batch, with_size, listed, entries}

-- A file of a directory, with a name that ends in `.ndjson` and a size that can be read.
abbrev pub IsBatchIn : List SpoolFile → String → ℕ → Type 0
IsBatchIn [] name size = ⊥
IsBatchIn (f ∷ files) name size =
    ((extension f.name ≡ some "ndjson") × (f.name ≡ name) × (f.size ≡ some size))
    ⊎ IsBatchIn files name size

-- The batches of a directory that can be listed, each once for every file, in the order of their names.
abbrev pub IsListing : Bool → List SpoolFile → List (String × ℕ) → Type 0
IsListing false files held = held ≡ []
IsListing true files held =
    IsSorted (map (λ e. e.0) held)
    × ((name : String) (size : ℕ) → (contains held (name, size) ≡ true) ↔ IsBatchIn files name size)

names-All :
    (x : String × ℕ) (ys : List (String × ℕ))
    → All (λ y. pair_ord.cmp x y ≢ Ordering.gt) ys
    → All (λ y. string_ord.cmp x.0 y ≢ Ordering.gt) (map (λ e. e.0) ys)
names-All x [] h = tt
names-All x (y ∷ ys) (h, hs) = (λ k. h (ground (arith, k)), names-All x ys hs)

names-IsSorted : (xs : List (String × ℕ)) → IsSorted xs → IsSorted (map (λ e. e.0) xs)
names-IsSorted [] h = tt
names-IsSorted (x ∷ xs) (h, hs) = (names-All x xs h, names-IsSorted xs hs)

contains-with_size :
    (f : SpoolFile) (rest : List (String × ℕ)) (name : String) (size : ℕ)
    → (contains (with_size f.name f.size rest) (name, size) ≡ true)
      ↔ (((f.name ≡ name) × (f.size ≡ some size)) ⊎ (contains rest (name, size) ≡ true))
contains-with_size f rest name size = elim (Option-cases f.size) [
  | inl e ↦ rw e (λ h. inr h, λ h. elim h [ inl (_, k) ↦ cc k | inr k ↦ k ])
  | inr (n, e) ↦ rw e (
    λ h. elim (Bool-cases (contains rest (name, size))) [
      | inl k ↦ inr k
      | inr k ↦ inl (ground (arith, h, k, eq_iff f.name name))
    ],
    λ h. elim h [
      | inl (a, b) ↦ ground (arith, a, b, eq_iff f.name name)
      | inr k ↦ ground (arith, k)
    ],
  )
]

is_batch-extension : (f : SpoolFile) → (is_batch f ≡ true) ↔ (extension f.name ≡ some "ndjson")
unfolding is_batch_name
is_batch-extension f = option_beq_iff (extension f.name) (some "ndjson")

contains-listed :
    (files : List SpoolFile) (name : String) (size : ℕ)
    → (contains (listed files) (name, size) ≡ true) ↔ IsBatchIn files name size
contains-listed [] name size = (λ h. cc, λ h. absurd h)
contains-listed (f ∷ files) name size = elim (Bool-cases (is_batch f)) [
  | inl e ↦
      let ext = (is_batch-extension f).0 e in
      let (to, back) = contains-with_size f (listed files) name size in
      let (into, out) = contains-listed files name size in
      rw e (
        λ h. elim (to h) [ inl (a, b) ↦ inl (ext, a, b) | inr k ↦ inr (into k) ],
        λ h. elim h [ inl (_, a, b) ↦ back (inl (a, b)) | inr k ↦ back (inr (out k)) ],
      )
  | inr e ↦
      let (into, out) = contains-listed files name size in
      rw e (
        λ h. inr (into h),
        λ h. elim h [ inl (ext, _, _) ↦ cc (e, (is_batch-extension f).1 ext) | inr k ↦ out k ],
      )
]

pub entries-IsListing :
    (fs : Faults) (spool : Spool) (disk : Disk)
    → IsListing fs.lists (files_of spool.environment disk) (entries fs spool disk)
unfolding entries
entries-IsListing fs spool disk = elim (Bool-cases fs.lists) [
  | inr unlisted ↦ rw unlisted refl
  | inl lists ↦ rw lists (
    names-IsSorted _ (sort-IsSorted (listed (files_of spool.environment disk))),
    λ name size.
        subst (λ b. (b ≡ true) ↔ IsBatchIn (files_of spool.environment disk) name size)
          (sym (contains-sort (name, size) (listed (files_of spool.environment disk))))
          (contains-listed (files_of spool.environment disk) name size),
  )
]
