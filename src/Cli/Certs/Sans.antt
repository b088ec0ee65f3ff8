-- ===== src/Cli/Certs/Sans.antt =====
-- The names of a certificate that is reissued for the names that it has.
use mathlib.Core.List.{append-nil, append_assoc}
use nanny.Prelude.{
  String, ◌≡◌, refl, sym, ap, ◌∙◌, false, List, [], ◌∷◌, ◌++◌, ◌⊎◌, string_eq, push, contains,
  is_empty, trim, trim_start, trim_end, is_whitespace, trim_idempotent, arith, Bool-cases, inl, inr,
}
use nanny.Cli.Certs.{always_sans, add_name, add_names, server_sans}

-- Trimmed names, none empty and none there before.
abbrev IsAdded : List String → List String → Type 0
IsAdded sans [] = Unit
IsAdded sans (name ∷ names) =
    (trim name ≡ name)
    × (is_empty name ≡ false)
    × (contains sans name ≡ false)
    × IsAdded (push sans name) names

push-append :
    (sans : List String) (name : String) (names : List String)
    → push sans name ++ names ≡ sans ++ name ∷ names
push-append sans name names = append_assoc sans (name ∷ []) names

add_name_fresh :
    (sans : List String) (name : String)
    → trim name ≡ name
    → is_empty name ≡ false
    → contains sans name ≡ false
    → add_name sans name ≡ push sans name
unfolding add_name
add_name_fresh sans name t e c = rw t (ground (arith, t, e, c))

add_names-IsAdded :
    (sans names : List String) → IsAdded sans names → add_names sans names ≡ sans ++ names
unfolding add_names
add_names-IsAdded sans [] h = sym (append-nil sans)
add_names-IsAdded sans (name ∷ names) (t, e, c, h) =
    ap (λ l. add_names l names) (add_name_fresh sans name t e c)
    ∙ add_names-IsAdded (push sans name) names h
    ∙ push-append sans name names

add_name-cases :
    (sans : List String) (name : String)
    → (add_name sans name ≡ sans)
      ⊎ ((n : String) × (add_name sans name ≡ push sans n)
          × (trim n ≡ n)
          × (is_empty n ≡ false)
          × (contains sans n ≡ false))
unfolding add_name
add_name-cases sans name = elim (Bool-cases (is_empty (trim name))) [
  | inl e ↦ inl (rw e)
  | inr e ↦ elim (Bool-cases (contains sans (trim name))) [
    | inl c ↦ inl (ground (arith, e, c))
    | inr c ↦ inr (trim name, ground (arith, e, c), trim_idempotent name, e, c)
  ]
]

-- Whatever is asked for, what the loop adds is such a list.
added :
    (sans extra : List String)
    → (names : List String) × (add_names sans extra ≡ sans ++ names) × IsAdded sans names
unfolding add_names
added sans [] = ([], sym (append-nil sans), tt)
added sans (name ∷ extra) = elim (add_name-cases sans name) [
  | inl same ↦ rw same (added sans extra)
  | inr (n, more, t, e, c) ↦
      let (names, eq, h) = added (push sans n) extra in
      (n ∷ names, rw more (eq ∙ push-append sans n names), (t, e, c, h))
]

always_present : add_name (add_name always_sans "localhost") "127.0.0.1" ≡ always_sans
unfolding add_name trim trim_start trim_end is_whitespace
always_present = refl

-- The names of a certificate, asked for again, are its names.
pub server_sans_idempotent :
    (extra : List String) → server_sans (server_sans extra) ≡ server_sans extra
unfolding server_sans add_names
server_sans_idempotent extra =
    let (names, eq, h) = added always_sans extra in
    ap (add_names always_sans) eq
    ∙ ap (λ l. add_names l names) always_present
    ∙ add_names-IsAdded always_sans names h
    ∙ sym eq
