-- ===== src/Config/Pack/Closed.antt =====
-- Loading the declared packs: crates/config/src/pack.rs.
use nanny.Prelude.{
  String, ◌≡◌, ◌≢◌, refl, Option, none, List, [], ◌∷◌, map, arith, eq_iff, Result, ok, err, All,
  Option-cases, inl, inr, string_eq,
}
use nanny.Config.Pack.{
  PackManifest, ConfigError, load_pack, load_declared_packs, checked, and_rest, pack_path, join,
}

module _ (read_to_string : String → Option String)
    (from_str : String → Result String PackManifest) where
  checked-same :
      (dir path name version : String) (r : Result String PackManifest) (m : PackManifest)
      → checked read_to_string from_str dir path name version r ≡ ok m
      → (m.name ≡ name) × (m.version ≡ version)
  checked-same dir path name version (err e) m h = cc
  checked-same dir path name version (ok m') m h =
      ground (arith, h, eq_iff m'.name name, eq_iff m'.version version)

  load_pack-same :
      (root name version : String) (m : PackManifest)
      → load_pack read_to_string from_str root name version ≡ ok m
      → (m.name ≡ name) × (m.version ≡ version)
  unfolding load_pack
  load_pack-same root name version m h =
      elim (Option-cases (read_to_string (join (pack_path root name version) "pack.toml"))) [
        | inl missing ↦ absurd (ground (arith, h, missing))
        | inr (raw, there) ↦
            checked-same (pack_path root name version)
              (join (pack_path root name version) "pack.toml") name version (from_str raw) m
              (rw (there, load_pack) at h)
      ]

  abbrev pub manifest_path : String → String × String → String
  manifest_path root (name, version) = join (pack_path root name version) "pack.toml"

  load_pack-there :
      (root : String) (p : String × String) (m : PackManifest)
      → load_pack read_to_string from_str root p.0 p.1 ≡ ok m
      → read_to_string (manifest_path root p) ≢ none
  unfolding load_pack
  load_pack-there root p m h missing = absurd (ground (arith, h, missing))

  -- Packs fail closed: if the declared packs load, they are those declared, one for one and in that
  -- order, each under the name and the version that its own manifest states, and the manifest of each
  -- was there to read.
  pub load_declared_packs-pinned :
      (root : String) (extends : List (String × String)) (ms : List PackManifest)
      → load_declared_packs read_to_string from_str root extends ≡ ok ms
      → (map (λ (m : PackManifest). (m.name, m.version)) ms ≡ extends)
        × All (λ p. read_to_string (manifest_path root p) ≢ none) extends
  unfolding load_declared_packs
  load_declared_packs-pinned root [] ms h = (ground (arith, h), tt)
  load_declared_packs-pinned root ((name, version) ∷ extends) ms h =
      go ms (load_pack read_to_string from_str root name version) refl
        (load_declared_packs read_to_string from_str root extends) refl h
        (λ ms' h'. load_declared_packs-pinned root extends ms' h')
    where
      go :
          (ms : List PackManifest) (r : Result ConfigError PackManifest)
          → load_pack read_to_string from_str root name version ≡ r
          → (rs : Result ConfigError (List PackManifest))
          → load_declared_packs read_to_string from_str root extends ≡ rs
          → and_rest read_to_string from_str r rs ≡ ok ms
          → ((ms' : List PackManifest)
              → load_declared_packs read_to_string from_str root extends ≡ ok ms'
              → (map (λ (m : PackManifest). (m.name, m.version)) ms' ≡ extends)
                × All (λ p. read_to_string (manifest_path root p) ≢ none) extends)
          → (map (λ (m : PackManifest). (m.name, m.version)) ms ≡ ((name, version) ∷ extends))
            × All (λ p. read_to_string (manifest_path root p) ≢ none) ((name, version) ∷ extends)
      go ms (err e) a rs b h ih = cc
      go ms (ok m) a (err e) b h ih = cc
      go ms (ok m) a (ok ms') b h ih =
          let (pins, there) = ih ms' b in
          let (n, v) = load_pack-same root name version m a in
          (ground (arith, h, n, v, pins), (load_pack-there root (name, version) m a, there))
