-- ===== src/Cli/Certs/Bundle/Stored.antt =====
-- Writing a bundle: which files it leaves as they are, and what is stored when it returns.
use nanny.Prelude.{
  ℕ, String, ◌≡◌, true, false, Option, some, List, [], ◌∷◌, arith, eq_iff, ◌==◌, string_eq,
  contains, map,
}
use nanny.Prelude.Dict.{Dict, keys}
use nanny.Prelude.Exec.{
  Ensures, Keeps, Ensures-bind, Ensures-and, Keeps-and, Keeps-bind, Ensures-pure, Ensures-or_raise,
  Ensures-weaken, Keeps-pure, Keeps-Unit, Keeps-for_each, keeps_rules, for_each, ◌>>◌,
}
use nanny.Cli.Folder.{Stored, Folder, Access, write, restrict, stored_text, is_owner_only}
use nanny.Cli.Folder.Laws.{
  Has, Holds, IsPrivate, Keeps-find, Keeps-read, Keeps-write, Keeps-rename, Keeps-restrict,
  write-Holds, rename-Holds, Keeps-Holds-restrict, Keeps-IsPrivate-restrict, restrict-IsPrivate,
}
use nanny.Cli.Certs.Bundle.{
  CertificateParams, Crates, Party, io_failed, write_meta, read_meta, write_pem, issue, tmp,
}

-- A file that is not written.
module _ (access : Access) (crates : Crates) (a : String) (o : Option Stored) where
  pub Keeps-write_meta :
      (expires : ℕ) (san : List String)
      → ("meta.json" == a) ≡ false
      → Keeps (Has a o) (write_meta access crates expires san)
  unfolding write_meta
  Keeps-write_meta expires san other = search (keeps_rules, Keeps-write)

  pub Keeps-write_pem :
      (name pem : String)
      → (tmp name == a) ≡ false
      → (name == a) ≡ false
      → Keeps (Has a o) (write_pem access crates (name, pem))
  unfolding write_pem
  Keeps-write_pem name pem other another = search (keeps_rules, Keeps-write, Keeps-rename)

  pub Keeps-issue :
      (party : Party) (params : CertificateParams) (n : ℕ) (ca_params : CertificateParams)
      (ca_key : String)
      → Keeps (Has a o) (issue access crates party params n ca_params ca_key)
  unfolding issue
  Keeps-issue party params n ca_params ca_key = search keeps_rules

  pub Keeps-read_meta : Keeps (Has a o) (read_meta access crates)
  unfolding read_meta
  Keeps-read_meta = search (keeps_rules, Keeps-read)

  pub Keeps-write_pems :
      (files : Dict String)
      → contains (keys files) a ≡ false
      → contains (map tmp (keys files)) a ≡ false
      → Keeps (Has a o) (for_each (write_pem access crates) files)
  unfolding for_each
  Keeps-write_pems [] h k = Keeps-pure tt
  Keeps-write_pems ((name, pem) ∷ files) h k =
      Keeps-bind (write_pem access crates (name, pem)) _
        (Keeps-write_pem name pem (ground (arith, k)) (ground (arith, h)))
        (λ _. Keeps-write_pems files (ground (arith, h)) (ground (arith, k)))

  pub Keeps-restricts :
      (names : List String)
      → contains names a ≡ false
      → Keeps (Has a o) (for_each (restrict access io_failed) names)
  unfolding for_each
  Keeps-restricts [] h = Keeps-pure tt
  Keeps-restricts (name ∷ names) h =
      Keeps-bind (restrict access io_failed name) _
        (Keeps-restrict access io_failed a o name (ground (arith, h)))
        (λ _. Keeps-restricts names (ground (arith, h)))

-- What has been stored: the texts of these files, the private ones among them, and the meta.json.
abbrev pub HoldsAll : Dict String → Folder → Type 0
HoldsAll [] folder = Unit
HoldsAll ((name, pem) ∷ files) folder = Holds name pem folder × HoldsAll files folder

abbrev pub AllPrivate : List String → Folder → Type 0
AllPrivate [] folder = Unit
AllPrivate (name ∷ names) folder = IsPrivate name folder × AllPrivate names folder

-- No file has the name of one after it, or its temporary name.
abbrev pub HasDistinctFiles : Dict String → Type 0
HasDistinctFiles [] = Unit
HasDistinctFiles ((name, pem) ∷ files) =
    (contains (keys files) name ≡ false)
    × (contains (map tmp (keys files)) name ≡ false)
    × HasDistinctFiles files

abbrev pub Records : Crates → ℕ → List String → Folder → Type 0
Records crates expires san folder =
    (formatted text : String) × (crates.time.format expires ≡ some formatted)
    × (crates.json.to_string_pretty (record { expires = formatted; san = san }) ≡ some text)
    × Holds "meta.json" text folder

-- What is stored once the files are written, the modes set and the meta.json written.
abbrev pub IsStored : Crates → Dict String → List String → ℕ → List String → Folder → Type 0
IsStored crates files names expires san folder =
    (HoldsAll files folder × AllPrivate names folder) × Records crates expires san folder

module _ (access : Access) (crates : Crates) where
  write_pem-Holds :
      (name pem : String)
      → Ensures
          (λ _. Unit {0})
          (write_pem access crates (name, pem))
          (λ _. Holds name pem)
          (λ _. Unit {0})
  unfolding write_pem
  write_pem-Holds name pem =
      Ensures-bind (write access io_failed (tmp name) pem) _
        (write-Holds access io_failed (tmp name) pem)
        (λ _. rename-Holds access io_failed (tmp name) name pem)

  write_pems-HoldsAll :
      (files : Dict String)
      → HasDistinctFiles files
      → Ensures
          (λ _. Unit {0})
          (for_each (write_pem access crates) files)
          (λ _. HoldsAll files)
          (λ _. Unit {0})
  unfolding for_each
  write_pems-HoldsAll [] h = Ensures-pure tt (λ s h. tt)
  write_pems-HoldsAll ((name, pem) ∷ files) (h, k, hs) =
      Ensures-bind (write_pem access crates (name, pem)) _ (write_pem-Holds name pem) (λ _.
        Ensures-and (for_each (write_pem access crates) files)
          (Keeps-find name (λ f. stored_text f ≡ some pem)
            (for_each (write_pem access crates) files)
            (λ o. Keeps-write_pems access crates name o files h k))
          (write_pems-HoldsAll files hs))

  Keeps-IsPrivate-restricts :
      (a : String) (names : List String)
      → Keeps (IsPrivate a) (for_each (restrict access io_failed) names)
  Keeps-IsPrivate-restricts a names =
      Keeps-for_each (restrict access io_failed) names (Keeps-IsPrivate-restrict access io_failed a)

  Keeps-Holds-restricts :
      (files : Dict String) (names : List String)
      → Keeps (HoldsAll files) (for_each (restrict access io_failed) names)
  Keeps-Holds-restricts [] names = Keeps-Unit _
  Keeps-Holds-restricts ((a, text) ∷ files) names =
      Keeps-and _
        (Keeps-for_each (restrict access io_failed) names
          (λ name. Keeps-Holds-restrict access io_failed name a text))
        (Keeps-Holds-restricts files names)

  restricts-AllPrivate :
      (names : List String)
      → Ensures
          (λ _. Unit {0})
          (for_each (restrict access io_failed) names)
          (λ _. AllPrivate names)
          (λ _. Unit {0})
  unfolding for_each
  restricts-AllPrivate [] = Ensures-pure tt (λ s h. tt)
  restricts-AllPrivate (name ∷ names) =
      Ensures-bind (restrict access io_failed name) _ (restrict-IsPrivate access io_failed name)
        (λ _.
          Ensures-and (for_each (restrict access io_failed) names)
            (Keeps-IsPrivate-restricts name names) (restricts-AllPrivate names))

  write-Records :
      (expires : ℕ) (san : List String) (formatted text : String)
      → crates.time.format expires ≡ some formatted
      → crates.json.to_string_pretty (record { expires = formatted; san = san }) ≡ some text
      → Ensures
          (λ _. Unit {0})
          (write access io_failed "meta.json" text)
          (λ _. Records crates expires san)
          (λ _. Unit {0})
  write-Records expires san formatted text e k =
      Ensures-weaken (write access io_failed "meta.json" text)
        (write-Holds access io_failed "meta.json" text) (λ _ s h. (formatted, text, e, k, h))

  pub write_meta-Records :
      (expires : ℕ) (san : List String)
      → Ensures
          (λ _. Unit {0})
          (write_meta access crates expires san)
          (λ _. Records crates expires san)
          (λ _. Unit {0})
  unfolding write_meta
  write_meta-Records expires san = search (Ensures-or_raise, write-Records)

  Keeps-HoldsAll-write_meta :
      (files : Dict String) (expires : ℕ) (san : List String)
      → contains (keys files) "meta.json" ≡ false
      → Keeps (HoldsAll files) (write_meta access crates expires san)
  Keeps-HoldsAll-write_meta [] expires san h = Keeps-Unit _
  Keeps-HoldsAll-write_meta ((a, text) ∷ files) expires san h =
      Keeps-and _
        (Keeps-find a (λ f. stored_text f ≡ some text) _
          (λ o.
            Keeps-write_meta access crates a o expires san
              (ground (arith, h, eq_iff a "meta.json", eq_iff "meta.json" a))))
        (Keeps-HoldsAll-write_meta files expires san (ground (arith, h)))

  Keeps-AllPrivate-write_meta :
      (names : List String) (expires : ℕ) (san : List String)
      → contains names "meta.json" ≡ false
      → Keeps (AllPrivate names) (write_meta access crates expires san)
  Keeps-AllPrivate-write_meta [] expires san h = Keeps-Unit _
  Keeps-AllPrivate-write_meta (a ∷ names) expires san h =
      Keeps-and _
        (Keeps-find a (λ f. is_owner_only f ≡ true) _
          (λ o.
            Keeps-write_meta access crates a o expires san
              (ground (arith, h, eq_iff a "meta.json", eq_iff "meta.json" a))))
        (Keeps-AllPrivate-write_meta names expires san (ground (arith, h)))

  pub for_each-IsStored :
      (files : Dict String) (names : List String) (expires : ℕ) (san : List String)
      → HasDistinctFiles files
      → contains (keys files) "meta.json" ≡ false
      → contains names "meta.json" ≡ false
      → Ensures
          (λ _. Unit {0})
          (do
            for_each (write_pem access crates) files
            for_each (restrict access io_failed) names
            write_meta access crates expires san)
          (λ _. IsStored crates files names expires san)
          (λ _. Unit {0})
  for_each-IsStored files names expires san distinct h k =
      Ensures-bind (for_each (write_pem access crates) files) _ (write_pems-HoldsAll files distinct)
        (λ _.
          Ensures-bind (for_each (restrict access io_failed) names) _
            (Ensures-and _ (Keeps-Holds-restricts files names) (restricts-AllPrivate names))
            (λ _.
              Ensures-and _
                (Keeps-and _ (Keeps-HoldsAll-write_meta files expires san h)
                  (Keeps-AllPrivate-write_meta names expires san k))
                (write_meta-Records expires san)))
