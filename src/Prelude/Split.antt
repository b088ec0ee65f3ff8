-- ===== src/Prelude/Split.antt =====
-- What the program uses of Rust's `str` to take texts apart: `split_once`, `rsplit_once`, `lines`,
-- `starts_with`, `ends_with`, `join`. A separator is one character, given by its code point.
use Prim.Native.Nat.{ℕ}
use Prim.Native.Char.{Char, code}
use Prim.Native.String.{String}
use mathlib.Core.Path.{◌≡◌, refl, ap, ◌∙◌}
use mathlib.Core.Bool.{Bool, true, false, ◌&&◌}
use mathlib.Core.Option.{Option, none, some}
use mathlib.Core.List.{List, [], ◌∷◌}
use text.Mathlib.Text.{find?}
use text.Mathlib.TextLemmas.{nil-append, cons-append}
use native.Mathlib.Omega.{arith}
use nanny.Prelude.Tests.{if◌then◌else◌, ◌==◌, nat_eq, string_eq, eqb_iff}
use nanny.Prelude.Text.{◌<>◌, is_empty}

abbrev at_front : Char → Option (String × String) → Option (String × String)
at_front c none = none
at_front c (some (a, b)) = some (String.◌∷◌ c a, b)

-- `s.split_once(sep)`
unfoldable pub split_once : ℕ → String → Option (String × String)
split_once sep String.[] = none
split_once sep (String.◌∷◌ c s) =
    let rest = split_once sep s in if code c == sep then some ("", s) else at_front c rest

abbrev or_here : Bool → Char → String → Option (String × String) → Option (String × String)
or_here here c s (some (a, b)) = some (String.◌∷◌ c a, b)
or_here true c s none = some ("", s)
or_here false c s none = none

-- `s.rsplit_once(sep)`
unfoldable pub rsplit_once : ℕ → String → Option (String × String)
rsplit_once sep String.[] = none
rsplit_once sep (String.◌∷◌ c s) = or_here (code c == sep) c s (rsplit_once sep s)

-- `s.contains(sep)`
unfoldable pub has_char : ℕ → String → Bool
has_char sep String.[] = false
has_char sep (String.◌∷◌ c s) = if code c == sep then true else has_char sep s

split_once_here :
    (sep : ℕ) (c : Char) (b : String)
    → code c ≡ sep
    → split_once sep (String.◌∷◌ c b) ≡ some ("", b)
unfolding split_once
split_once_here sep c b e = ground (arith, e, eqb_iff (code c) sep)

pub split_once-append :
    (sep : ℕ) (c : Char) (a b : String)
    → code c ≡ sep
    → has_char sep a ≡ false
    → split_once sep (a <> String.◌∷◌ c b) ≡ some (a, b)
unfolding split_once has_char
split_once-append sep c String.[] b e h =
    ap (split_once sep) (nil-append (String.◌∷◌ c b)) ∙ split_once_here sep c b e
split_once-append sep c (String.◌∷◌ d a) b e h =
    ground (arith, cons-append d a (String.◌∷◌ c b), split_once-append sep c a b e)

rsplit_once-none : (sep : ℕ) (s : String) → has_char sep s ≡ false → rsplit_once sep s ≡ none
unfolding rsplit_once has_char
rsplit_once-none sep String.[] h = refl
rsplit_once-none sep (String.◌∷◌ c s) h = ground (arith, rsplit_once-none sep s)

rsplit_once_here :
    (sep : ℕ) (c : Char) (b : String)
    → code c ≡ sep
    → rsplit_once sep b ≡ none
    → rsplit_once sep (String.◌∷◌ c b) ≡ some ("", b)
unfolding rsplit_once
rsplit_once_here sep c b e h = ground (arith, e, h, eqb_iff (code c) sep)

pub rsplit_once-append :
    (sep : ℕ) (c : Char) (a b : String)
    → code c ≡ sep
    → has_char sep b ≡ false
    → rsplit_once sep (a <> String.◌∷◌ c b) ≡ some (a, b)
unfolding rsplit_once
rsplit_once-append sep c String.[] b e h =
    ap (rsplit_once sep) (nil-append (String.◌∷◌ c b))
    ∙ rsplit_once_here sep c b e (rsplit_once-none sep b h)
rsplit_once-append sep c (String.◌∷◌ d a) b e h =
    ground (arith, cons-append d a (String.◌∷◌ c b), rsplit_once-append sep c a b e h)

abbrev pub starts_newline : String → Bool
starts_newline String.[] = false
starts_newline (String.◌∷◌ c s) = code c == 10

abbrev pub onto_first : Char → List String → List String
onto_first c [] = String.◌∷◌ c "" ∷ []
onto_first c (l ∷ ls) = String.◌∷◌ c l ∷ ls

-- `s.lines()`: a line ends in a newline, with one carriage return before it or without.
unfoldable pub text_lines : String → List String
text_lines String.[] = []
text_lines (String.◌∷◌ c s) =
    let rest = text_lines s in
    if code c == 10
    then "" ∷ rest
    else if (code c == 13) && starts_newline s
    then rest
    else onto_first c rest

-- `s.starts_with(part)`, with the part first
abbrev pub starts_with : String → String → Bool
starts_with String.[] s = true
starts_with (String.◌∷◌ c part) String.[] = false
starts_with (String.◌∷◌ c part) (String.◌∷◌ d s) = (code c == code d) && starts_with part s

abbrev found : Option ℕ → Bool
found none = false
found (some i) = true

-- `s.contains(part)`
abbrev pub contains_text : String → String → Bool
contains_text s part = found (find? s part)

-- `s.ends_with('\n')`
abbrev pub ends_with_newline : String → Bool
ends_with_newline String.[] = false
ends_with_newline (String.◌∷◌ c s) = if is_empty s then code c == 10 else ends_with_newline s

-- `lines.join(sep)`
abbrev pub join : String → List String → String
join sep [] = ""
join sep (l ∷ []) = l
join sep (l ∷ m ∷ ls) = l <> sep <> join sep (m ∷ ls)

pub nonempty-append : (s t : String) → is_empty t ≡ false → is_empty (s <> t) ≡ false
nonempty-append String.[] t h = ap is_empty (nil-append t) ∙ h
nonempty-append (String.◌∷◌ c s) t h = ap is_empty (cons-append c s t)

pub nonempty-before : (s t : String) → is_empty s ≡ false → is_empty (s <> t) ≡ false
nonempty-before String.[] t h = cc
nonempty-before (String.◌∷◌ c s) t h = ap is_empty (cons-append c s t)

-- A text of one character in front is that character and the rest.
pub one-append : (c : Char) (s : String) → String.◌∷◌ c "" <> s ≡ String.◌∷◌ c s
one-append c s = cons-append c "" s ∙ ap (λ r. String.◌∷◌ c r) (nil-append s)
