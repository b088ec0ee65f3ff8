-- ===== src/Cli/Client/Wire/Answers.antt =====
-- crates/cli/src/lib.rs: `parse_http_response`, the reading of an answer over plain HTTP, with what it uses
-- of Rust's `str`: `split_once` at a text, `split_whitespace`, and the reading of a `u16`.
use Prim.Native.Char.{Char, code}
use nanny.Prelude.{
  ℕ, ◌+◌, ◌-◌, ◌*◌, String, Bool, false, not, ◌&&◌, Option, none, some, List, [], ◌∷◌, ◌==◌, nat_eq,
  leb, ltb, is_empty, is_whitespace, onto_first, text_lines, if◌then◌else◌,
}
use nanny.Cli.Client.{BridgeResponse}

-- `strip_prefix`, with the prefix first
unfoldable pub strip_prefix : String → String → Option String
strip_prefix String.[] s = some s
strip_prefix (String.◌∷◌ c part) String.[] = none
strip_prefix (String.◌∷◌ c part) (String.◌∷◌ d s) =
    let rest = strip_prefix part s in if code c == code d then rest else none

abbrev kept_front : Char → Option (String × String) → Option (String × String)
kept_front c none = none
kept_front c (some (a, b)) = some (String.◌∷◌ c a, b)

abbrev or_further : Option String → Char → Option (String × String) → Option (String × String)
or_further (some b) c rest = some ("", b)
or_further none c rest = kept_front c rest

-- `s.split_once(sep)` for a text that is not empty
unfoldable pub split_once_at : String → String → Option (String × String)
split_once_at sep String.[] = none
split_once_at sep (String.◌∷◌ c s) =
    let rest = split_once_at sep s in or_further (strip_prefix sep (String.◌∷◌ c s)) c rest

abbrev starts_word : String → Bool
starts_word String.[] = false
starts_word (String.◌∷◌ c s) = not (is_whitespace c)

-- `s.split_whitespace()`
unfoldable pub split_whitespace : String → List String
split_whitespace String.[] = []
split_whitespace (String.◌∷◌ c s) =
    let rest = split_whitespace s in
    if is_whitespace c
    then rest
    else if starts_word s
    then onto_first c rest
    else String.◌∷◌ c "" ∷ rest

-- The digits of a `u16`, onto what is read; a step out of the range is an error.
unfoldable pub read_digits : ℕ → String → Option ℕ
read_digits n String.[] = some n
read_digits n (String.◌∷◌ c s) =
    let d = code c - 48 in
    let rest = read_digits (10 * n + d) s in
    if leb 48 (code c) && leb (code c) 57 && ltb (10 * n + d) 65536 then rest else none

abbrev without_plus : String → String
without_plus String.[] = String.[]
without_plus (String.◌∷◌ c s) = if code c == 43 then s else String.◌∷◌ c s

-- `parse::<u16>()`
unfoldable pub parse_u16 : String → Option ℕ
parse_u16 s = if is_empty (without_plus s) then none else read_digits 0 (without_plus s)

abbrev first_item : {A : Type 0} → List A → Option A
first_item [] = none
first_item (x ∷ xs) = some x

abbrev second_item : {A : Type 0} → List A → Option A
second_item [] = none
second_item (x ∷ xs) = first_item xs

-- `?`
infixl 5 ◌>>=◌
abbrev pub ◌>>=◌ : {A B : Type 0} → Option A → (A → Option B) → Option B
none >>= f = none
some x >>= f = f x

-- `parse_http_response`
unfoldable pub parse_http_response : String → Option BridgeResponse
parse_http_response raw = do
  (headers, body) ← split_once_at "\r\n\r\n" raw
  status_line ← first_item (text_lines headers)
  word ← second_item (split_whitespace status_line)
  status ← parse_u16 word
  some (record { status = status; body = body })
