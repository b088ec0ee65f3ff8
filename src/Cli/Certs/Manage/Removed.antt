-- ===== src/Cli/Certs/Manage/Removed.antt =====
-- What `nanny certs remove` leaves.
use Prim.Native.Char.{Char, code}
use nanny.Prelude.{
  String, ◌≡◌, refl, string_eq, ==_refl, eq_iff, Bool, true, false, Option, none, some, List, [],
  ◌∷◌, ok, arith, ℕ, ◌+◌, ◌≤◌, ◌⊎◌, ◌&&◌, ap, leb, trim, if◌then◌else◌, Bool-cases, Option-cases,
  inl, inr,
}
use nanny.Prelude.Dict.{get-remove_key}
use nanny.Prelude.Exec.{
  Ensures, Keeps, Ensures-bind, Ensures-and, Ensures-pure, Ensures-from_any, Keeps-for_each, raise,
  for_each, returned,
}
use nanny.Cli.Folder.{Folder, Access, find, remove_file, remove_dir}
use nanny.Cli.Folder.Laws.{Has}
use nanny.Cli.Certs.Manage.{
  is_letter, is_y_or_yes, Removal, nothing_to_remove, aborted, removed, is_confirmed, removed_files,
  remove_one, try_remove_dir, remove_confirmed, remove_asked, cmd_certs_remove,
}

-- No file of the list is there.
abbrev pub AllGone : List String → Folder → Type 0
AllGone [] folder = Unit
AllGone (name ∷ names) folder = Has name none folder × AllGone names folder

module _ (access : Access) where
  remove_one-gone :
      (name : String)
      → Ensures (λ _. Unit {0}) (remove_one access name) (λ _. Has name none) (λ _. Unit {0})
  unfolding remove_one remove_file
  remove_one-gone name = record {
    at = λ s h. elim (Option-cases (find name s)) [
      | inl e ↦ rw e (e)
      | inr (f, e) ↦ elim (Bool-cases (access.removes name)) [
        | inl r ↦ rw (e, r) (ground (arith, ==_refl name, get-remove_key name name s.files))
        | inr r ↦ rw (e, r) (tt)
      ]
    ];
  }

  Keeps-remove_one : (a name : String) → Keeps (Has a none) (remove_one access name)
  unfolding remove_one remove_file
  Keeps-remove_one a name = record {
    at = λ s h. ground (arith, h, get-remove_key name a s.files, eq_iff name a);
  }

  removes-AllGone :
      (names : List String)
      → Ensures
          (λ _. Unit {0})
          (for_each (remove_one access) names)
          (λ _. AllGone names)
          (λ _. Unit {0})
  unfolding for_each
  removes-AllGone [] = Ensures-pure tt (λ s h. tt)
  removes-AllGone (name ∷ names) =
      Ensures-bind (remove_one access name) _ (remove_one-gone name) (λ _.
        Ensures-and _ (Keeps-for_each (remove_one access) names (Keeps-remove_one name))
          (removes-AllGone names))

  AllGone-remove_dir :
      (names : List String) (folder : Folder)
      → AllGone names folder
      → AllGone names (remove_dir access folder)
  unfolding remove_dir
  AllGone-remove_dir [] folder h = tt
  AllGone-remove_dir (name ∷ names) folder (h, hs) =
      (ground (arith, h), AllGone-remove_dir names folder hs)

-- The characters of a text by their codes, those of `A` to `Z` by the codes of `a` to `z`.
abbrev lower_code : ℕ → ℕ
lower_code n = if leb 65 n && leb n 90 then n + 32 else n

abbrev pub lower_codes : String → List ℕ
lower_codes String.[] = []
lower_codes (String.◌∷◌ c s) = lower_code (code c) ∷ lower_codes s

-- "y" or "yes"
abbrev pub IsYes : List ℕ → Type 0
IsYes codes = (codes ≡ 121 ∷ []) ⊎ (codes ≡ 121 ∷ 101 ∷ 115 ∷ [])

lower-is_letter :
    (lower : ℕ) (c : Char)
    → 97 ≤ lower
    → lower ≤ 122
    → is_letter lower c ≡ true
    → lower_code (code c) ≡ lower
lower-is_letter lower c h k e = ground (arith, e)

is_y_or_yes-IsYes : (s : String) → is_y_or_yes s ≡ true → IsYes (lower_codes s)
is_y_or_yes-IsYes String.[] h = cc
is_y_or_yes-IsYes (String.◌∷◌ y String.[]) h =
    inl (ap (λ n. n ∷ []) (lower-is_letter 121 y (omega arith) (omega arith) (ground (arith, h))))
is_y_or_yes-IsYes (String.◌∷◌ y (String.◌∷◌ e String.[])) h = ground (arith, h)
is_y_or_yes-IsYes (String.◌∷◌ y (String.◌∷◌ e (String.◌∷◌ s String.[]))) h = inr (
    ground (
      arith,
      h,
      lower-is_letter 121 y (omega arith) (omega arith),
      lower-is_letter 101 e (omega arith) (omega arith),
      lower-is_letter 115 s (omega arith) (omega arith),
    ))
is_y_or_yes-IsYes (String.◌∷◌ y (String.◌∷◌ e (String.◌∷◌ s (String.◌∷◌ c rest)))) h =
    ground (arith, h)

-- The files of a bundle, and its meta.json.
abbrev pub seven_files : List String
seven_files =
    "ca.crt" ∷ "ca.key" ∷ "server.crt" ∷ "server.key" ∷ "client.crt" ∷ "client.key" ∷ "meta.json"
    ∷ []

-- What a removal comes to: a bundle without any of its files, and this only after a line that agreed,
-- or the bundle as it was.
abbrev pub IsRemoval : Folder → Option String → Removal → Folder → Type 0
IsRemoval folder input removed after =
    (line : String) × (input ≡ some line)
    × IsYes (lower_codes (trim line))
    × AllGone seven_files after
IsRemoval folder input aborted after = after ≡ folder
IsRemoval folder input nothing_to_remove after = after ≡ folder

module _ (access : Access) where
  confirmed-IsRemoval :
      (folder : Folder) (line : String) (yes_ : Bool)
      → is_confirmed line ≡ yes_
      → Ensures
          (λ s. s ≡ folder)
          (remove_confirmed access yes_)
          (λ outcome. IsRemoval folder (some line) outcome)
          (λ _. Unit {0})
  unfolding remove_confirmed
  confirmed-IsRemoval folder line false c = Ensures-pure aborted (λ s h. h)
  confirmed-IsRemoval folder line true c = Ensures-from_any _ (
      Ensures-bind (for_each (remove_one access) removed_files) (λ _. try_remove_dir access)
        (removes-AllGone access removed_files)
        (λ _. record {
          at = λ s h. (
            line,
            refl,
            is_y_or_yes-IsYes (trim line) (unfold is_confirmed in c),
            AllGone-remove_dir access removed_files s h,
          );
        }))

  asked-IsRemoval :
      (folder : Folder) (input : Option String) (there : Bool)
      → Ensures
          (λ s. s ≡ folder)
          (remove_asked access input there)
          (λ outcome. IsRemoval folder input outcome)
          (λ _. Unit {0})
  unfolding raise
  asked-IsRemoval folder input false = Ensures-pure nothing_to_remove (λ s h. h)
  asked-IsRemoval folder none true = record { at = λ s h. tt }
  asked-IsRemoval folder (some line) true = confirmed-IsRemoval folder line (is_confirmed line) refl

  -- If a removal returns, then either it read a line that is "y" or "yes", in any case and with space
  -- around it, and none of the six files and no meta.json is there, or the bundle is as it was.
  pub cmd_certs_remove-IsRemoval :
      (input : Option String) (folder after : Folder) (outcome : Removal)
      → cmd_certs_remove access input folder ≡ (after, ok outcome)
      → IsRemoval folder input outcome after
  unfolding cmd_certs_remove
  cmd_certs_remove-IsRemoval input folder after outcome e =
      returned (remove_asked access input folder.is_there) folder after outcome
        (asked-IsRemoval folder input folder.is_there) refl e
