-- ===== src/Cli/Rules/Digest.antt =====
-- The digest of a pack does not depend on the order in which its directories are read.
use Prim.Native.String.{String}
use nanny.Prelude.{ℕ, ◌≡◌, refl, ap, ◌∙◌, ◌++◌, arith, Option, List, [], ◌∷◌, string_eq}
use nanny.Prelude.Order.{Ord, string_ord}
use nanny.Prelude.Sort.{place, sort}
use nanny.Config.Pack.{PackManifest}
use nanny.Cli.Rules.{
  Listing, entry, Entry, folder, below, collect, collect_entry, checked_against, digest_of,
  content_digest, verify,
}

-- The same elements in another order.
pub data IsShuffle {ℓ} {A : Type ℓ} : List A → List A → Type ℓ where
  same : {xs : List A} → IsShuffle xs xs
  keep : {x : A} {xs ys : List A} → IsShuffle xs ys → IsShuffle (x ∷ xs) (x ∷ ys)
  swap_two : {x y : A} {xs : List A} → IsShuffle (x ∷ y ∷ xs) (y ∷ x ∷ xs)
  after : {xs ys zs : List A} → IsShuffle xs ys → IsShuffle ys zs → IsShuffle xs zs

module _ {ℓ} {A : Type ℓ} ⦃o : Ord A⦄ where
  place-place : (x y : A) (zs : List A) → place x (place y zs) ≡ place y (place x zs)
  unfolding place
  place-place x y [] = ground (arith, o.flip x y, o.same x y)
  place-place x y (z ∷ zs) = ground (
    arith,
    place-place x y zs,
    o.flip x y,
    o.same x y,
    o.same x z,
    o.same y z,
    o.trans x y z,
    o.trans y x z,
    o.trans y z x,
    o.trans x z y,
    o.flip x z,
    o.flip y z,
  )

  sort-IsShuffle : (xs ys : List A) → IsShuffle xs ys → sort xs ≡ sort ys
  unfolding sort
  sort-IsShuffle xs ys same = refl
  sort-IsShuffle xs ys (keep {x} h) = ap (place x) (sort-IsShuffle _ _ h)
  sort-IsShuffle xs ys (swap_two {x} {y} {xs = zs}) = place-place x y (sort zs)
  sort-IsShuffle xs ys (after h k) = sort-IsShuffle _ _ h ∙ sort-IsShuffle _ _ k

module _ {ℓ} {A : Type ℓ} where
  to_middle : (x : A) (ys zs : List A) → IsShuffle (x ∷ ys ++ zs) (ys ++ x ∷ zs)
  to_middle x [] zs = same
  to_middle x (y ∷ ys) zs = after swap_two (keep (to_middle x ys zs))

  swap_blocks : (xs ys zs : List A) → IsShuffle (xs ++ (ys ++ zs)) (ys ++ (xs ++ zs))
  swap_blocks [] ys zs = same
  swap_blocks (x ∷ xs) ys zs = after (keep (swap_blocks xs ys zs)) (to_middle x ys (xs ++ zs))

  keep_block : (xs ys zs : List A) → IsShuffle ys zs → IsShuffle (xs ++ ys) (xs ++ zs)
  keep_block [] ys zs h = h
  keep_block (x ∷ xs) ys zs h = keep (keep_block xs ys zs h)

  before_block : (xs ys zs : List A) → IsShuffle xs ys → IsShuffle (xs ++ zs) (ys ++ zs)
  before_block xs ys zs same = same
  before_block xs ys zs (keep h) = keep (before_block _ _ zs h)
  before_block xs ys zs swap_two = swap_two
  before_block xs ys zs (after h k) = after (before_block _ _ zs h) (before_block _ _ zs k)

-- The same files and folders, read in another order, at any depth.
pub data IsReread : Listing → Listing → Type 0 where
  unchanged : {dir : Listing} → IsReread dir dir
  later :
      {e : Entry} {dir dir' : Listing} → IsReread dir dir' → IsReread (entry e dir) (entry e dir')
  swapped :
      {e e' : Entry} {dir : Listing} → IsReread (entry e (entry e' dir)) (entry e' (entry e dir))
  inside :
      {name : String} {inner inner' dir : Listing}
      → IsReread inner inner'
      → IsReread (entry (folder name inner) dir) (entry (folder name inner') dir)
  further :
      {dir dir' dir'' : Listing} → IsReread dir dir' → IsReread dir' dir'' → IsReread dir dir''

collect-IsShuffle :
    (parent : String) (dir dir' : Listing)
    → IsReread dir dir'
    → IsShuffle (collect parent dir) (collect parent dir')
unfolding collect
collect-IsShuffle parent dir dir' unchanged = same
collect-IsShuffle parent dir dir' (later {e} h) =
    keep_block (collect_entry parent e) _ _ (collect-IsShuffle parent _ _ h)
collect-IsShuffle parent dir dir' (swapped {e} {e'} {dir = rest}) =
    swap_blocks (collect_entry parent e) (collect_entry parent e') (collect parent rest)
collect-IsShuffle parent dir dir' (inside {name} {dir = rest} h) =
    before_block _ _ (collect parent rest) (collect-IsShuffle (below parent name) _ _ h)
collect-IsShuffle parent dir dir' (further h k) =
    after (collect-IsShuffle parent _ _ h) (collect-IsShuffle parent _ _ k)

-- A pack that is read again in whatever order the file system lists its directories, at any depth, is
-- verified with the same answer: its digest is one of the paths and the contents alone.
pub verify-reread :
    (sha256_hex : List ℕ → String) (as_bytes : String → List ℕ) (read : String → Option (List ℕ))
    (manifest : PackManifest) (dir dir' : Listing)
    → IsReread dir dir'
    → verify sha256_hex as_bytes read dir manifest ≡ verify sha256_hex as_bytes read dir' manifest
unfolding verify content_digest
verify-reread sha256_hex as_bytes read manifest dir dir' h =
    ap
      (λ files.
        checked_against sha256_hex as_bytes read manifest.signature
          (digest_of sha256_hex as_bytes read files))
      (sort-IsShuffle _ _ (collect-IsShuffle "" dir dir' h))
