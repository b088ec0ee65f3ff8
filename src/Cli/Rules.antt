-- ===== src/Cli/Rules.antt =====
-- crates/cli/src/commands/rules_verify.rs and rules.rs: the integrity of a pack before it is installed.
-- The hash and the bytes of a text are parameters.
pub mod Digest
use Prim.Native.Char.{Char, code}
use Prim.Native.String.{String}
use nanny.Prelude.{
  ℕ, Bool, true, false, not, ◌&&◌, Option, none, some, List, [], ◌∷◌, ◌++◌, Result, ok, err, ◌<>◌,
  is_empty, trim, rsplit_once, ◌==◌, nat_eq, string_eq, if◌then◌else◌,
}
use nanny.Prelude.Order.{string_ord}
use nanny.Prelude.Sort.{sort}
use nanny.Config.Pack.{PackManifest}

-- A directory as it is read: the entries in the order of the file system, each a file or a
-- folder. It stands for a tree that can be listed.
mutual
  pub data Listing : Type 0 where
    no_entries : Listing
    entry : Entry → Listing → Listing

  pub data Entry : Type 0 where
    file : (name : String) → Entry
    folder : (name : String) → Listing → Entry

abbrev pub below : String → String → String
below parent name = if is_empty parent then name else parent <> "/" <> name

-- `replace('\\', "/")`
unfoldable pub forward_slashes : String → String
forward_slashes String.[] = ""
forward_slashes (String.◌∷◌ c s) =
    let rest = forward_slashes s in if code c == 92 then "/" <> rest else String.◌∷◌ c rest

-- A file's path, unless it is the manifest.
abbrev unless_manifest : String → List String
unless_manifest rel = if rel == "pack.toml" then [] else rel ∷ []

-- `collect`, of what stands below a path from the root.
unfoldable mutual
  unfolding forward_slashes

  pub collect : String → Listing → List String
  collect parent no_entries = []
  collect parent (entry e rest) = collect_entry parent e ++ collect parent rest

  pub collect_entry : String → Entry → List String
  collect_entry parent (file name) = unless_manifest (forward_slashes (below parent name))
  collect_entry parent (folder name inner) = collect (below parent name) inner

pub data Verified : Type 0 where
  unsigned : Verified
  verified : Verified
  unreadable : Verified
  failed : (declared actual : String) → Verified

-- `read` reads a file of the pack by its path.
module _ (sha256_hex : List ℕ → String) (as_bytes : String → List ℕ)
    (read : String → Option (List ℕ)) where
  -- What the hasher is fed, if every file can be read.
  unfoldable pub hashed : List String → Option (List ℕ)
  hashed [] = some []
  hashed (rel ∷ files) = elim (read rel) [
    | none ↦ none
    | some bytes ↦ elim (hashed files) [
      | none ↦ none
      | some rest ↦ some (as_bytes rel ++ 0 ∷ bytes ++ 0 ∷ rest)
    ]
  ]

  abbrev hex_of : Option (List ℕ) → Option String
  hex_of none = none
  hex_of (some bytes) = some (sha256_hex bytes)

  -- The digest of files, in the order of their paths; `none` is an error of a read.
  unfoldable pub digest_of : List String → Option String
  unfolding hashed
  digest_of files = hex_of (hashed files)

  -- `content_digest`
  unfoldable pub content_digest : Listing → Option String
  unfolding collect sort digest_of
  content_digest dir = digest_of (sort (collect "" dir))

  abbrev against : String → Option String → Verified
  against declared none = unreadable
  against declared (some actual) = if actual == declared then verified else failed declared actual

  abbrev pub checked_against : Option String → Option String → Verified
  checked_against none digest = unsigned
  checked_against (some declared) digest = against declared digest

  -- `verify`, with the manifest's signature.
  unfoldable pub verify : Listing → PackManifest → Verified
  unfolding content_digest
  verify dir manifest = checked_against manifest.signature (content_digest dir)

abbrev is_blank : String → Bool
is_blank s = is_empty (trim s)

abbrev split_of : String → Option (String × String) → Result String (String × String)
split_of pack none = err pack
split_of pack (some (name, version)) =
    if not (is_blank name) && not (is_blank version) then ok (trim name, trim version) else err pack

-- `split_pin`, with the pack that is not pinned as the error.
unfoldable pub split_pin : String → Result String (String × String)
split_pin pack = split_of pack (rsplit_once 64 (trim pack))
