-- ===== src/Cli/Packs.antt =====
-- crates/cli/src/main.rs: the packs that a governor starts with, `resolve_declared_packs`.
use nanny.Prelude.{String, Option, List, Result, ok, err, map, ◌≡◌, sym, ap, ◌∙◌, All, arith}
use nanny.Config.Settings.Pins.{IsPin, print_pin, pinned-print_pin}
use nanny.Config.Pack.Closed.{load_declared_packs-pinned}
use nanny.Config.Settings.{NannyConfig, LoadError, pinned}
use nanny.Config.Pack.{PackManifest, ConfigError, load_declared_packs, slug}

-- The two errors that it passes on.
pub data PacksError : Type 0 where
  not_pinned : LoadError → PacksError
  not_loaded : ConfigError → PacksError

module _ (read_to_string : String → Option String)
    (from_str : String → Result String PackManifest) where
  abbrev loaded : Result ConfigError (List PackManifest) → Result PacksError (List PackManifest)
  loaded (err e) = err (not_loaded e)
  loaded (ok packs) = ok packs

  -- What follows the pins.
  abbrev with_pins :
      String → Result LoadError (List (String × String)) → Result PacksError (List PackManifest)
  with_pins config_dir (err e) = err (not_pinned e)
  with_pins config_dir (ok pins) =
      loaded (load_declared_packs read_to_string from_str config_dir pins)

  -- `resolve_declared_packs`
  unfoldable pub resolve_declared_packs :
      NannyConfig → String → Result PacksError (List PackManifest)
  unfolding pinned load_declared_packs
  resolve_declared_packs config config_dir = with_pins config_dir (pinned config.rules)

-- What is printed of them.
abbrev pub slugs : List PackManifest → List String
slugs packs = map slug packs

-- A governor that starts with the packs which its configuration pins, as pins are written, has loaded
-- these packs, in this order, each under the name and the version that its own manifest states. As
-- written, a pin has no part that is empty or has space around it, and no `@` in the version.
pub resolve_declared_packs-print_pin :
    (read_to_string : String → Option String) (from_str : String → Result String PackManifest)
    (config : NannyConfig) (config_dir : String) (ps : List (String × String))
    (packs : List PackManifest)
    → config.rules.extends ≡ map print_pin ps
    → All IsPin ps
    → resolve_declared_packs read_to_string from_str config config_dir ≡ ok packs
    → map (λ (m : PackManifest). (m.name, m.version)) packs ≡ ps
unfolding resolve_declared_packs
resolve_declared_packs-print_pin read_to_string from_str config config_dir ps packs e h done =
    let read : pinned config.rules ≡ ok ps =
      ap (λ entries. pinned (record { extends = entries })) e ∙ pinned-print_pin ps h in
    (load_declared_packs-pinned read_to_string from_str config_dir ps packs (
      from_loaded (load_declared_packs read_to_string from_str config_dir ps) packs
        (ap (with_pins read_to_string from_str config_dir) (sym read) ∙ done))).0
  where
    from_loaded :
        (r : Result ConfigError (List PackManifest)) (packs : List PackManifest)
        → loaded read_to_string from_str r ≡ ok packs
        → r ≡ ok packs
    from_loaded (err x) packs k = cc
    from_loaded (ok ms) packs k = ground (arith, k)
