-- ===== src/Config/Settings/Pins.antt =====
-- The pins of rule packs, printed and read (`RulesConfig::pinned` of crates/config/src/lib.rs).
use Prim.Native.Char.{Char}
use Prim.Native.String.{String}
use text.Mathlib.TextLemmas.{nil-append, cons-append}
use nanny.Prelude.{
  ◌≤◌, ◌≡◌, refl, sym, ap, ◌∙◌, false, List, [], ◌∷◌, map, arith, ok, some, ◌<>◌, is_empty, trim,
  trim_start, trim_end, chars_count, is_whitespace, has_char, rsplit_once, rsplit_once-append,
  Bool-cases, inl, inr, All, nonempty-append, nonempty-before, one-append,
}
use nanny.Config.Settings.{pin, pins, pinned}

-- A text without space around it, and not empty.
pub record IsField (s : String) : Type 0 where
  pub start : trim_start s ≡ s
  pub finish : trim_end s ≡ s
  pub filled : is_empty s ≡ false

trim-IsField : (s : String) → IsField s → trim s ≡ s
unfolding trim
trim-IsField s f = ap trim_end f.start ∙ f.finish

trim_end-append : (s t : String) → trim_end t ≡ t → is_empty t ≡ false → trim_end (s <> t) ≡ s <> t
unfolding trim_end
trim_end-append String.[] t h k = ap trim_end (nil-append t) ∙ h ∙ sym (nil-append t)
trim_end-append (String.◌∷◌ c s) t h k =
    ground (arith, cons-append c s t, trim_end-append s t h k, nonempty-append s t k)

trim_start-shorter : (s : String) → chars_count (trim_start s) ≤ chars_count s
unfolding trim_start chars_count
trim_start-shorter String.[] = omega arith
trim_start-shorter (String.◌∷◌ c s) = ground (arith, trim_start-shorter s)

starts_plain :
    (c : Char) (s : String) → trim_start (String.◌∷◌ c s) ≡ String.◌∷◌ c s → is_whitespace c ≡ false
unfolding trim_start chars_count
starts_plain c s h = elim (Bool-cases (is_whitespace c)) [
  | inl white ↦ ground (arith, trim_start-shorter s, ap chars_count h)
  | inr plain ↦ plain
]

trim_start-append :
    (s t : String) → trim_start s ≡ s → is_empty s ≡ false → trim_start (s <> t) ≡ s <> t
unfolding trim_start
trim_start-append String.[] t h k = cc
trim_start-append (String.◌∷◌ c s) t h k =
    ap trim_start (cons-append c s t) ∙ rw (starts_plain c s h) (sym (cons-append c s t))

-- `name@version`
abbrev pub print_pin : String × String → String
print_pin (name, version) = name <> "@" <> version

-- What can be printed and read again: neither part has space around it or is empty, and no `@` stands
-- in the version.
abbrev pub IsPin : String × String → Type 0
IsPin (name, version) = IsField name × IsField version × (has_char 64 version ≡ false)

pin-print_pin : (p : String × String) → IsPin p → pin (print_pin p) ≡ ok p
unfolding pin
pin-print_pin (name, version) (n, v, plain) =
    let text = name <> "@" <> version in
    let whole : trim text ≡ text =
      unfold trim in
      ap trim_end (trim_start-append name ("@" <> version) n.start n.filled)
      ∙ trim_end-append name ("@" <> version) (trim_end-append "@" version v.finish v.filled)
          (nonempty-before "@" version refl) in
    let split : rsplit_once 64 (trim text) ≡ some (name, version) =
      ap (rsplit_once 64) whole
      ∙ ap (λ s. rsplit_once 64 (name <> s)) (one-append "@" version)
      ∙ rsplit_once-append 64 "@" name version refl plain in
    rw split (simp (trim-IsField name n, trim-IsField version v, n.filled, v.filled) refl)

pins-print_pin : (ps : List (String × String)) → All IsPin ps → pins (map print_pin ps) ≡ ok ps
unfolding pins
pins-print_pin [] h = refl
pins-print_pin (p ∷ ps) (h, hs) = ground (arith, pin-print_pin p h, pins-print_pin ps hs)

-- The packs that are pinned by name and version are read back from the entries as they are written.
pub pinned-print_pin :
    (ps : List (String × String))
    → All IsPin ps
    → pinned (record { extends = map print_pin ps }) ≡ ok ps
unfolding pinned
pinned-print_pin ps h = pins-print_pin ps h
