-- ===== src/Cli/Folder/Laws.antt =====
-- What an operation on one file leaves of the others, and of the file itself.
use mathlib.Core.Path.{subst}
use nanny.Prelude.{
  String, ◌≡◌, refl, sym, ap, ◌∙◌, ==_refl, Bool-cases, inl, inr, true, false, Option, none, some,
  Result, ok, err, arith, eq_iff, ◌==◌, string_eq,
}
use nanny.Prelude.Dict.{remove_key, get-insert, get-remove_key}
use nanny.Prelude.Exec.{Exec, Ensures, After, Keeps}
use nanny.Cli.Folder.{
  Stored, Folder, Access, IoError, Written, whole, failed, find, put, put_left, contents,
  stored_text, create_dir_all, read, read_as, write, write_as, rename, rename_as, restrict,
  restrict_as, remove_file, is_owner_only,
}

find-put :
    (a name text : String) (folder : Folder)
    → (name == a) ≡ false
    → find a (put name text folder) ≡ find a folder
find-put a name text folder h = ground (
  arith,
  h,
  get-insert name a (record { text = text; owner_only = is_owner_only (find name folder) })
      folder.files,
)

-- What the folder has under a name.
abbrev pub Has : String → Option Stored → Folder → Type 0
Has a o folder = find a folder ≡ o

-- A file of another name stays what it is.
module _ {E : Type 0} (access : Access) (on_error : IoError → E) (a : String)
    (o : Option Stored) where
  pub Keeps-create_dir_all : Keeps (Has a o) (create_dir_all access on_error)
  unfolding create_dir_all
  Keeps-create_dir_all = record { at = λ s h. ground (arith, h) }

  Has-read_as :
      (name : String) (folder : Folder) (f : Option Stored)
      → Has a o folder
      → After (λ _. Has a o) (Has a o) (read_as access on_error name folder f)
  Has-read_as name folder none h = h
  Has-read_as name folder (some f) h = ground (arith, h)

  pub Keeps-read : (name : String) → Keeps (Has a o) (read access on_error name)
  unfolding read
  Keeps-read name = record { at = λ s h. Has-read_as name s (find name s) h }

  Has-put :
      (name text : String) (folder : Folder)
      → (name == a) ≡ false
      → Has a o folder
      → Has a o (put name text folder)
  Has-put name text folder other h = find-put a name text folder other ∙ h

  Has-put_left :
      (name : String) (left : Option String) (folder : Folder)
      → (name == a) ≡ false
      → Has a o folder
      → Has a o (put_left name left folder)
  Has-put_left name none folder other h = h
  Has-put_left name (some text) folder other h = Has-put name text folder other h

  Has-write_as :
      (name text : String) (w : Written) (folder : Folder)
      → (name == a) ≡ false
      → Has a o folder
      → After (λ _. Has a o) (Has a o) (write_as access on_error name text w folder)
  Has-write_as name text whole folder other h = Has-put name text folder other h
  Has-write_as name text (failed left) folder other h = Has-put_left name left folder other h

  pub Keeps-write :
      (name text : String) → (name == a) ≡ false → Keeps (Has a o) (write access on_error name text)
  unfolding write
  Keeps-write name text other = record {
    at = λ s h. Has-write_as name text (access.writes name) s other h;
  }

  Has-rename_as :
      (old new : String) (folder : Folder) (f : Option Stored)
      → (old == a) ≡ false
      → (new == a) ≡ false
      → Has a o folder
      → After (λ _. Has a o) (Has a o) (rename_as access on_error old new folder f)
  Has-rename_as old new folder none other another h = h
  Has-rename_as old new folder (some f) other another h = ground (
    arith,
    h,
    other,
    another,
    get-insert new a f (remove_key old folder.files),
    get-remove_key old a folder.files,
  )

  pub Keeps-rename :
      (old new : String)
      → (old == a) ≡ false
      → (new == a) ≡ false
      → Keeps (Has a o) (rename access on_error old new)
  unfolding rename
  Keeps-rename old new other another = record {
    at = λ s h. Has-rename_as old new s (find old s) other another h;
  }

  Has-restrict_as :
      (name : String) (folder : Folder) (f : Option Stored)
      → (name == a) ≡ false
      → Has a o folder
      → After (λ _. Has a o) (Has a o) (restrict_as access on_error name folder f)
  Has-restrict_as name folder none other h = h
  Has-restrict_as name folder (some f) other h =
      ground (arith, h, other, get-insert name a (record f { owner_only = true }) folder.files)

  pub Keeps-restrict :
      (name : String) → (name == a) ≡ false → Keeps (Has a o) (restrict access on_error name)
  unfolding restrict
  Keeps-restrict name other = record { at = λ s h. Has-restrict_as name s (find name s) other h }

  pub Keeps-remove_file :
      (name : String) → (name == a) ≡ false → Keeps (Has a o) (remove_file access on_error name)
  unfolding remove_file
  Keeps-remove_file name other = record {
    at = λ s h. ground (arith, h, other, get-remove_key name a s.files);
  }

-- The text of a file.
abbrev pub Holds : String → String → Folder → Type 0
Holds a text folder = contents a folder ≡ some text

-- Whether its mode is 0600.
abbrev pub IsPrivate : String → Folder → Type 0
IsPrivate a folder = is_owner_only (find a folder) ≡ true

module _ {E A : Type 0} (a : String) (P : Option Stored → Type 0) where
  find-After :
      (o : Option Stored) (r : Folder × Result E A)
      → P o
      → After (λ _. Has a o) (Has a o) r
      → After (λ _ f. P (find a f)) (λ f. P (find a f)) r
  find-After o (s, ok b) e h = subst P (sym h) e
  find-After o (s, err b) e h = subst P (sym h) e

  -- What leaves a file as it is leaves every property of it.
  pub Keeps-find :
      (m : Exec Folder E A)
      → ((o : Option Stored) → Keeps (Has a o) m)
      → Keeps (λ f. P (find a f)) m
  Keeps-find m h = record { at = λ s e. find-After (find a s) (m s) e ((h (find a s)).at s refl) }

module _ {E : Type 0} (access : Access) (on_error : IoError → E) where
  pub Holds-put : (a text : String) (folder : Folder) → Holds a text (put a text folder)
  Holds-put a text folder = ground (
    arith,
    ==_refl a,
    get-insert a a (record { text = text; owner_only = is_owner_only (find a folder) })
        folder.files,
  )

  Holds-write_as :
      (a text : String) (w : Written) (folder : Folder)
      → After (λ _. Holds a text) (λ _. Unit {0}) (write_as access on_error a text w folder)
  Holds-write_as a text whole folder = Holds-put a text folder
  Holds-write_as a text (failed left) folder = tt

  -- A file that was written has its text.
  pub write-Holds :
      (a text : String)
      → Ensures (λ _. Unit {0}) (write access on_error a text) (λ _. Holds a text) (λ _. Unit {0})
  unfolding write
  write-Holds a text = record { at = λ s h. Holds-write_as a text (access.writes a) s }

  Holds-rename_as :
      (old a text : String) (folder : Folder) (f : Option Stored)
      → stored_text f ≡ some text
      → After (λ _. Holds a text) (λ _. Unit {0}) (rename_as access on_error old a folder f)
  Holds-rename_as old a text folder none h = tt
  Holds-rename_as old a text folder (some f) h = elim (Bool-cases (access.renames old)) [
    | inl e ↦ rw e (ground (arith, h, ==_refl a, get-insert a a f (remove_key old folder.files)))
    | inr e ↦ rw e (tt)
  ]

  -- A file that was renamed has the text of the old name.
  pub rename-Holds :
      (old a text : String)
      → Ensures (Holds old text) (rename access on_error old a) (λ _. Holds a text) (λ _. Unit {0})
  unfolding rename
  rename-Holds old a text = record { at = λ s h. Holds-rename_as old a text s (find old s) h }

  Holds-restrict_as :
      (name a text : String) (folder : Folder) (f : Option Stored)
      → f ≡ find name folder
      → Holds a text folder
      → After (λ _. Holds a text) (Holds a text) (restrict_as access on_error name folder f)
  Holds-restrict_as name a text folder none e h = h
  Holds-restrict_as name a text folder (some f) e h =
      ground
        (arith, h, eq_iff name a, get-insert name a (record f { owner_only = true }) folder.files)

  -- Setting the mode leaves every text.
  pub Keeps-Holds-restrict :
      (name a text : String) → Keeps (Holds a text) (restrict access on_error name)
  unfolding restrict
  Keeps-Holds-restrict name a text = record {
    at = λ s h. Holds-restrict_as name a text s (find name s) refl h;
  }

  IsPrivate-restrict_as :
      (a name : String) (folder : Folder) (f : Option Stored)
      → f ≡ find name folder
      → IsPrivate a folder
      → After (λ _. IsPrivate a) (IsPrivate a) (restrict_as access on_error name folder f)
  IsPrivate-restrict_as a name folder none e h = h
  IsPrivate-restrict_as a name folder (some f) e h =
      ground
        (arith, h, eq_iff name a, get-insert name a (record f { owner_only = true }) folder.files)

  pub Keeps-IsPrivate-restrict :
      (a name : String) → Keeps (IsPrivate a) (restrict access on_error name)
  unfolding restrict
  Keeps-IsPrivate-restrict a name = record {
    at = λ s h. IsPrivate-restrict_as a name s (find name s) refl h;
  }

  restricted-IsPrivate :
      (a : String) (folder : Folder) (f : Option Stored)
      → After (λ _. IsPrivate a) (λ _. Unit {0}) (restrict_as access on_error a folder f)
  restricted-IsPrivate a folder none = tt
  restricted-IsPrivate a folder (some f) = elim (Bool-cases (access.restricts a)) [
    | inl e ↦
        rw e
          (ground (arith, ==_refl a, get-insert a a (record f { owner_only = true }) folder.files))
    | inr e ↦ rw e (tt)
  ]

  pub restrict-IsPrivate :
      (a : String)
      → Ensures (λ _. Unit {0}) (restrict access on_error a) (λ _. IsPrivate a) (λ _. Unit {0})
  unfolding restrict
  restrict-IsPrivate a = record { at = λ s h. restricted-IsPrivate a s (find a s) }

  read_as-contents :
      (name : String) (s folder : Folder) (f : Option Stored)
      → f ≡ find name s
      → s ≡ folder
      → After
          (λ text t. (t ≡ folder) × (contents name folder ≡ some text))
          (λ _. Unit {0})
          (read_as access on_error name s f)
  read_as-contents name s folder none e h = tt
  read_as-contents name s folder (some f) e h = elim (Bool-cases (access.reads name)) [
    | inl r ↦ rw r (h, ap (contents name) (sym h) ∙ ap stored_text (sym e))
    | inr r ↦ rw r (tt)
  ]

  -- What was read is the text of the file, and reading changes nothing.
  pub read-contents :
      (name : String) (folder : Folder)
      → Ensures
          (λ s. s ≡ folder)
          (read access on_error name)
          (λ text s. (s ≡ folder) × (contents name folder ≡ some text))
          (λ _. Unit {0})
  unfolding read
  read-contents name folder = record {
    at = λ s h. read_as-contents name s folder (find name s) refl h;
  }

  read_as-returns :
      (name text : String) (folder : Folder) (f : Option Stored)
      → access.reads name ≡ true
      → stored_text f ≡ some text
      → read_as access on_error name folder f ≡ (folder, ok text)
  read_as-returns name text folder none r h = cc
  read_as-returns name text folder (some f) r h = rw r (ground (arith, h))

  -- A file that can be read gives its text.
  pub read-returns :
      (name text : String) (folder : Folder)
      → access.reads name ≡ true
      → Holds name text folder
      → read access on_error name folder ≡ (folder, ok text)
  unfolding read
  read-returns name text folder r h = read_as-returns name text folder (find name folder) r h
