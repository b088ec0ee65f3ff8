-- ===== src/Config/Tokens.antt =====
-- crates/config/src/lib.rs: the session tokens that a governor accepts, and the retired section.
use text.Mathlib.Text.{starts_with}
use mathlib.Core.Path.{subst}
use nanny.Prelude.{
  ℕ, String, ◌≤◌, ◌≡◌, ◌≢◌, ◌↔◌, refl, sym, ap, ◌∙◌, Bool, true, false, Bool-cases, ◌⊎◌, not, ◌||◌,
  Option, none, some, List, [], ◌∷◌, map, arith, Result, ok, err, ◌<>◌, is_empty, trim, trim_start,
  text_lines, chars_count, to_decimal, select, any, All, ltb, inl, inr, Option-cases, if◌then◌else◌,
}

abbrev pub min_session_token_len : ℕ
min_session_token_len = 32

abbrev too_short : String → String
too_short token =
    "NANNY_SESSION_TOKEN contains a token that is too short ("
    <> to_decimal (chars_count token)
    <> " characters; "
    <> to_decimal min_session_token_len
    <> " minimum). This token is what admits a process to this governor, so a guessable one is a policy bypass. Generate one with `openssl rand -hex 32` or `uuidgen`."

-- The tokens of a value: its lines, trimmed, without the empty ones.
unfoldable pub tokens_of : String → List String
tokens_of raw = select (λ line. not (is_empty line)) (map trim (text_lines raw))

-- The loop over the tokens: the first error, if one is too short.
unfoldable pub first_short : List String → Option String
first_short [] = none
first_short (token ∷ tokens) =
    let rest = first_short tokens in
    if ltb (chars_count token) min_session_token_len then some (too_short token) else rest

abbrev answer_of : List String → Option String → Result String (Option (List String))
answer_of tokens (some message) = err message
answer_of tokens none = ok (some tokens)

abbrev checked_tokens : List String → Result String (Option (List String))
checked_tokens [] = ok none
checked_tokens (token ∷ tokens) = answer_of (token ∷ tokens) (first_short (token ∷ tokens))

-- `resolve_session_token`
unfoldable pub resolve_session_token : Option String → Result String (Option (List String))
unfolding tokens_of first_short
resolve_session_token none = ok none
resolve_session_token (some raw) = checked_tokens (tokens_of raw)

abbrev is_managed : String → Bool
is_managed t = starts_with t "[managed]" || starts_with t "[managed."

-- `has_managed_section`
unfoldable pub has_managed_section : String → Bool
has_managed_section contents = any (λ line. is_managed (trim_start line)) (text_lines contents)

-- Every token that is accepted has at least 32 characters.
abbrev AreLong : List String → Type 0
AreLong = All (λ token. 32 ≤ chars_count token)

first_short-none : (tokens : List String) → first_short tokens ≡ none → AreLong tokens
unfolding first_short
first_short-none [] h = tt
first_short-none (token ∷ tokens) h = (ground arith, first_short-none tokens (ground arith))

first_short-long : (tokens : List String) → AreLong tokens → first_short tokens ≡ none
unfolding first_short
first_short-long [] h = refl
first_short-long (token ∷ tokens) (h, hs) = ground (arith, first_short-long tokens hs)

checked_tokens_iff :
    (given tokens : List String)
    → (checked_tokens given ≡ ok (some tokens))
      ↔ ((given ≡ tokens) × (tokens ≢ []) × AreLong tokens)
checked_tokens_iff [] tokens = (λ h. cc, λ (e, some_tokens, long). absurd (some_tokens (cc e)))
checked_tokens_iff (t ∷ ts) tokens = (
  λ h. elim (Option-cases (first_short (t ∷ ts))) [
    | inl e ↦
        let same : t ∷ ts ≡ tokens = cc (e, h) in
        (same, (λ k. cc (same, k)), subst AreLong same (first_short-none (t ∷ ts) e))
    | inr (message, e) ↦ cc (e, h)
  ],
  λ (e, some_tokens, long).
      rw (first_short-long (t ∷ ts) (subst AreLong (sym e) long)) (ap (λ r. ok (some r)) e),
)

-- The tokens among some lines: what a line is when it is trimmed, unless that is the empty text.
abbrev pub AreTokens : List String → List String → Type 0
AreTokens [] tokens = tokens ≡ []
AreTokens (line ∷ lines) [] = (trim line ≡ "") × AreTokens lines []
AreTokens (line ∷ lines) (token ∷ tokens) =
    ((trim line ≡ "") × AreTokens lines (token ∷ tokens))
    ⊎ ((trim line ≡ token) × (token ≢ "") × AreTokens lines tokens)

pub is_empty-true : (s : String) → is_empty s ≡ true → s ≡ ""
is_empty-true String.[] h = refl
is_empty-true (String.◌∷◌ c s) h = cc

pub is_empty-false : (s : String) → is_empty s ≡ false → s ≢ ""
is_empty-false String.[] h = cc
is_empty-false (String.◌∷◌ c s) h = λ e. cc

abbrev pub kept_lines : List String → List String
kept_lines lines = select (λ line. not (is_empty line)) (map trim lines)

AreTokens-blank :
    (line : String) (lines tokens : List String)
    → trim line ≡ ""
    → AreTokens lines tokens
    → AreTokens (line ∷ lines) tokens
AreTokens-blank line lines [] e h = (e, h)
AreTokens-blank line lines (token ∷ tokens) e h = inl (e, h)

kept_lines-AreTokens : (lines : List String) → AreTokens lines (kept_lines lines)
kept_lines-AreTokens [] = refl
kept_lines-AreTokens (line ∷ lines) = elim (Bool-cases (is_empty (trim line))) [
  | inl e ↦
      rw e (AreTokens-blank line lines _ (is_empty-true (trim line) e) (kept_lines-AreTokens lines))
  | inr e ↦ rw e (inr (refl, is_empty-false (trim line) e, kept_lines-AreTokens lines))
]

pub AreTokens-kept_lines :
    (lines tokens : List String) → AreTokens lines tokens → kept_lines lines ≡ tokens
AreTokens-kept_lines [] tokens h = sym h
AreTokens-kept_lines (line ∷ lines) [] (e, h) = rw e (AreTokens-kept_lines lines [] h)
AreTokens-kept_lines (line ∷ lines) (token ∷ tokens) (inl (e, h)) =
    rw e (AreTokens-kept_lines lines (token ∷ tokens) h)
AreTokens-kept_lines (line ∷ lines) (token ∷ tokens) (inr (e, filled, h)) =
    elim (Bool-cases (is_empty (trim line))) [
      | inl k ↦ absurd (filled (sym e ∙ is_empty-true (trim line) k))
      | inr k ↦ rw k (
          ap (λ t. t ∷ kept_lines lines) e
          ∙ ap (λ ts. token ∷ ts) (AreTokens-kept_lines lines tokens h))
    ]

-- A governor takes its tokens from the configured value exactly if one is set and its lines, trimmed and
-- without the empty ones, are these tokens, at least one and each of 32 characters or more.
pub resolve_session_token_iff :
    (configured : Option String) (tokens : List String)
    → (resolve_session_token configured ≡ ok (some tokens)) ↔ (
        (raw : String) × (configured ≡ some raw)
        × AreTokens (text_lines raw) tokens
        × (tokens ≢ [])
        × All (λ token. 32 ≤ chars_count token) tokens)
unfolding resolve_session_token tokens_of
resolve_session_token_iff none tokens = (λ h. cc, λ (raw, e, _, _, _). cc e)
resolve_session_token_iff (some raw) tokens = (
  λ h.
      let (same, filled, long) = (checked_tokens_iff (tokens_of raw) tokens).0 h in
      (
        raw,
        refl,
        subst (AreTokens (text_lines raw)) same (kept_lines-AreTokens (text_lines raw)),
        filled,
        long,
      ),
  λ (r, e, k, filled, long). (checked_tokens_iff (tokens_of raw) tokens).1 (
    AreTokens-kept_lines (text_lines raw) tokens
        (subst (λ t. AreTokens (text_lines t) tokens) (sym (ground (arith, e))) k),
    filled,
    long,
  ),
)
