-- ===== src/Config/Pack.antt =====
-- crates/config/src/pack.rs: rule packs on disk. The file system and the TOML reader are parameters. An
-- error is kept as the parts of its text.
pub mod Closed
use nanny.Prelude.{
  ℕ, String, Bool, true, false, ◌&&◌, Option, none, some, List, [], ◌∷◌, Result, ok, err, ◌<>◌,
  is_empty, if◌then◌else◌, ◌==◌, string_eq,
}

abbrev pub pack_dir : String
pack_dir = ".nanny/rules"

pub record PackManifest : Type 0 where
  pub name : String
  pub version : String
  pub description : String
  pub rules : List String
  pub python : Option String
  pub rust : Option String
  pub signature : Option String

pub data ConfigError : Type 0 where
  rule_pack_missing : (name version path : String) → ConfigError
  parse_failed : (path error : String) → ConfigError
  declares_itself : (dir slug name version : String) → ConfigError

-- `PackManifest::slug`
unfoldable pub slug : PackManifest → String
slug m = m.name <> "@" <> m.version

-- `name.replace(':', "-")`
unfoldable pub fold_colons : String → String
fold_colons String.[] = String.[]
fold_colons (String.◌∷◌ c s) =
    let rest = fold_colons s in
    if String.◌∷◌ c String.[] == ":" then "-" <> rest else String.◌∷◌ c rest

-- `pack_dir_name`
unfoldable pub pack_dir_name : String → String → String
unfolding fold_colons
pack_dir_name name version = fold_colons name <> "@" <> version

abbrev is_absolute : String → Bool
is_absolute String.[] = false
is_absolute (String.◌∷◌ c s) = String.◌∷◌ c String.[] == "/"

abbrev ends_with_slash : String → Bool
ends_with_slash String.[] = false
ends_with_slash (String.◌∷◌ c s) =
    let rest = ends_with_slash s in if is_empty s then String.◌∷◌ c String.[] == "/" else rest

-- `Path::join` on Unix.
unfoldable pub join : String → String → String
join base path =
    if is_absolute path
    then path
    else if is_empty base
    then path
    else if ends_with_slash base
    then base <> path
    else base <> "/" <> path

-- `pack_path`
unfoldable pub pack_path : String → String → String → String
unfolding join pack_dir_name
pack_path project_root name version = join (join project_root pack_dir) (pack_dir_name name version)

module _ (read_to_string : String → Option String)
    (from_str : String → Result String PackManifest) where
  -- What follows a file that has been read.
  abbrev pub checked :
      String
      → String
      → String
      → String
      → Result String PackManifest
      → Result ConfigError PackManifest
  checked dir manifest_path name version (err e) = err (parse_failed manifest_path e)
  checked dir manifest_path name version (ok manifest) =
      if (manifest.name == name) && (manifest.version == version)
      then ok manifest
      else err (declares_itself dir (slug manifest) name version)

  -- `load_pack`
  unfoldable pub load_pack : String → String → String → Result ConfigError PackManifest
  unfolding pack_path
  load_pack project_root name version =
      let dir = pack_path project_root name version in
      let manifest_path = join dir "pack.toml" in
      elim (read_to_string manifest_path) [
        | none ↦ err (rule_pack_missing name version manifest_path)
        | some raw ↦ checked dir manifest_path name version (from_str raw)
      ]

  -- One element of `collect` into a `Result`.
  abbrev pub and_rest :
      Result ConfigError PackManifest
      → Result ConfigError (List PackManifest)
      → Result ConfigError (List PackManifest)
  and_rest (err e) rest = err e
  and_rest (ok m) (err e) = err e
  and_rest (ok m) (ok ms) = ok (m ∷ ms)

  -- `load_declared_packs`; the iterator is lazy, and a later pack is not read after a failure.
  unfoldable pub load_declared_packs :
      String → List (String × String) → Result ConfigError (List PackManifest)
  unfolding load_pack
  load_declared_packs project_root [] = ok []
  load_declared_packs project_root ((name, version) ∷ extends) =
      and_rest (load_pack project_root name version) (load_declared_packs project_root extends)
