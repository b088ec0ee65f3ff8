-- ===== src/Config/Settings.antt =====
-- crates/config/src/lib.rs: the contents of a nanny.toml. Reading TOML and serialising are serde's, and
-- parameters, as the hash is.
pub mod Pins
use nanny.Prelude.{
  contains_text, ℕ, String, Bool, true, false, not, ◌&&◌, Option, none, some, List, [], ◌∷◌, map,
  Result, ok, err, ◌<>◌, is_empty, trim, rsplit_once, select, if◌then◌else◌,
}
use nanny.Prelude.Dict.{Dict}

pub record ToolConfig : Type 0 where
  pub max_calls : Option ℕ
  pub reads_untrusted : Bool
  pub external_effect : Bool
  pub destructive : Bool
  pub moves_money : Bool
  pub reads_sensitive : Bool

abbrev pub tool_labels : List String
tool_labels =
    "reads_untrusted" ∷ "external_effect" ∷ "destructive" ∷ "moves_money" ∷ "reads_sensitive" ∷ []

-- `ToolConfig::labels`
unfoldable pub labels : ToolConfig → List String
labels cfg =
    map (λ (on, name). name)
      (select (λ (on, name). on)
        ((cfg.reads_untrusted, "reads_untrusted")
          ∷ (cfg.external_effect, "external_effect")
          ∷ (cfg.destructive, "destructive")
          ∷ (cfg.moves_money, "moves_money")
          ∷ (cfg.reads_sensitive, "reads_sensitive")
          ∷ []))

pub record ToolsConfig : Type 0 where
  pub allowed : List String
  pub per_tool : Dict ToolConfig

pub record RulesConfig : Type 0 where
  pub extends : List String

pub record StartConfig : Type 0 where
  pub cmd : String

pub record NannyConfig : Type 0 where
  pub start : Option StartConfig
  pub tools : ToolsConfig
  pub rules : RulesConfig

pub data LoadError : Type 0 where
  not_found : (path : String) → LoadError
  io : (error : String) → LoadError
  parse : (message : String) → LoadError
  unpinned_rule_pack : (entry : String) → LoadError

abbrev is_blank : String → Bool
is_blank s = is_empty (trim s)

-- The `match` on one entry, trimmed.
abbrev pin_of : String → Option (String × String) → Result LoadError (String × String)
pin_of entry none = err (unpinned_rule_pack entry)
pin_of entry (some (name, version)) =
    if not (is_blank name) && not (is_blank version)
    then ok (trim name, trim version)
    else err (unpinned_rule_pack entry)

-- One entry of `extends`; 64 is the code of `@`.
unfoldable pub pin : String → Result LoadError (String × String)
pin entry = pin_of (trim entry) (rsplit_once 64 (trim entry))

abbrev pub and_pins :
    Result LoadError (String × String)
    → Result LoadError (List (String × String))
    → Result LoadError (List (String × String))
and_pins (err e) rest = err e
and_pins (ok p) (err e) = err e
and_pins (ok p) (ok ps) = ok (p ∷ ps)

-- `collect` into a `Result`: the first error.
unfoldable pub pins : List String → Result LoadError (List (String × String))
unfolding pin
pins [] = ok []
pins (entry ∷ entries) = and_pins (pin entry) (pins entries)

-- `RulesConfig::pinned`
unfoldable pub pinned : RulesConfig → Result LoadError (List (String × String))
unfolding pins
pinned rules = pins rules.extends

-- The hint that is added to serde's message.
unfoldable pub hint : String → String
hint msg =
    if contains_text msg "missing field `cmd`"
    then ", add `cmd = \"<your command>\"` under [start]"
    else if contains_text msg "missing field" && contains_text msg "start"
    then ", add a [start] section with `cmd = \"<your command>\"`"
    else ""

-- `from_str` is the TOML reader, `read_to_string` and `exists` the file system.
module _ (exists : String → Bool) (read_to_string : String → Result String String)
    (from_str : String → Result String NannyConfig) where
  abbrev parsed : Result String NannyConfig → Result LoadError NannyConfig
  parsed (err msg) = err (parse (msg <> hint msg))
  parsed (ok config) = ok config

  -- `load`
  unfoldable pub load : String → Result LoadError NannyConfig
  unfolding hint
  load path =
      if exists path
      then elim (read_to_string path) [
        | err e ↦ err (io e)
        | ok contents ↦ parsed (from_str contents)
      ]
      else err (not_found path)

-- `NannyConfig::fingerprint`, with serde's value, its text, and SHA-256 in hexadecimal.
unfoldable pub fingerprint :
    {V : Type 0} → (NannyConfig → V) → (V → String) → (String → String) → NannyConfig → String
fingerprint to_value to_string sha256_hex config = sha256_hex (to_string (to_value config))
