-- ===== src/Cli/Sync/Spool/Cap.antt =====
-- What `enforce_cap` of crates/cli/src/sync.rs drops to make room.
use nanny.Prelude.{
  ℕ, String, ◌+◌, ◌-◌, ◌≤◌, ◌<◌, ◌%◌, u64_mod, ◌≡◌, ◌⊎◌, inl, inr, refl, ap, ◌∙◌, true, List, [],
  ◌∷◌, ◌++◌, arith, ltb, Bool-cases,
}
use nanny.Cli.Sync.Disk.{SpoolFile, Disk, Faults, files_of, say, without_file, remove_file}
use nanny.Cli.Sync.Disk.Laws.{files_of-remove_file, files_of-say}
use nanny.Cli.Sync.Spool.Listing.{IsListing, entries-IsListing}
use nanny.Cli.Sync.Spool.{
  Spool, entries, sum64, drop_oldest, enforce_cap, max_spool_bytes, dropped_notice, outbox_full,
}

-- The bytes of some batches.
abbrev pub bytes_of : List (String × ℕ) → ℕ
bytes_of [] = 0
bytes_of ((name, size) ∷ rest) = size + bytes_of rest

abbrev pub without_all : List (String × ℕ) → List SpoolFile → List SpoolFile
without_all [] files = files
without_all ((name, size) ∷ gone) files = without_all gone (without_file name files)

-- None of the batches that went could have stayed.
abbrev pub AreNeeded : ℕ → List (String × ℕ) → List (String × ℕ) → Type 0
AreNeeded incoming [] kept = Unit
AreNeeded incoming ((name, size) ∷ gone) kept =
    (max_spool_bytes < size + bytes_of (gone ++ kept) + incoming) × AreNeeded incoming gone kept

pub record IsRoom (incoming : ℕ) (held gone kept : List (String × ℕ))
    (before after : List SpoolFile) : Type 0 where
  pub oldest_first : held ≡ gone ++ kept
  pub files_are : after ≡ without_all gone before
  pub fits : (bytes_of kept + incoming ≤ max_spool_bytes) ⊎ (kept ≡ [])
  pub needed : AreNeeded incoming gone kept

small_mod : (n : ℕ) → n < u64_mod → n % u64_mod ≡ n
small_mod n h = omega (arith, h)

sum64_lem : (held : List (String × ℕ)) → bytes_of held < u64_mod → sum64 held ≡ bytes_of held
sum64_lem [] h = refl
sum64_lem ((name, size) ∷ rest) h =
    ap (λ n. (size + n) % u64_mod) (sum64_lem rest (omega (arith, h)))
    ∙ small_mod (size + bytes_of rest) h

module _ (fs : Faults) (spool : Spool) (removes : (n : String) → fs.removes n ≡ true)
    (incoming : ℕ) where
  Room : List (String × ℕ) → Disk → Disk → Type 0
  Room held disk disk' =
      (gone kept : List (String × ℕ)) × IsRoom incoming held gone kept
        (files_of spool.environment disk) (files_of spool.environment disk')

  dropping :
      (name : String) (size : ℕ) (held : List (String × ℕ)) (disk disk' : Disk)
      → max_spool_bytes < size + bytes_of held + incoming
      → Room held
          (remove_file fs spool.environment name
            (say (dropped_notice outbox_full spool.log_path) disk))
          disk'
      → Room ((name, size) ∷ held) disk disk'
  unfolding Room
  dropping name size held disk disk' over (gone, kept, h) =
      let line = dropped_notice outbox_full spool.log_path in
      let removed : files_of spool.environment
            (remove_file fs spool.environment name (say line disk))
          ≡ without_file name (files_of spool.environment disk) =
        files_of-remove_file fs spool.environment name (say line disk) (removes name)
        ∙ ap (without_file name) (files_of-say spool.environment line disk) in
      (
        (name, size) ∷ gone,
        kept,
        record {
          oldest_first = ap (λ r. (name, size) ∷ r) h.oldest_first;
          files_are = h.files_are ∙ ap (without_all gone) removed;
          fits = h.fits;
          needed = (rw h.oldest_first at over, h.needed);
        },
      )

  keeping :
      (held : List (String × ℕ)) (disk : Disk)
      → (bytes_of held + incoming ≤ max_spool_bytes) ⊎ (held ≡ [])
      → Room held disk disk
  unfolding Room
  keeping held disk fits =
      ([], held, record { oldest_first = refl; files_are = refl; fits = fits; needed = tt })

  drop_oldest-Room :
      (held : List (String × ℕ)) (total : ℕ) (disk : Disk)
      → total ≡ bytes_of held
      → bytes_of held + incoming < u64_mod
      → Room held disk (drop_oldest fs spool incoming held total disk)
  unfolding drop_oldest
  drop_oldest-Room [] total disk e h = keeping [] disk (inr refl)
  drop_oldest-Room ((name, size) ∷ held) total disk e h =
      let line = dropped_notice outbox_full spool.log_path in
      let disk1 = remove_file fs spool.environment name (say line disk) in
      let whole : (total + incoming) % u64_mod ≡ size + bytes_of held + incoming =
        ap (λ n. (n + incoming) % u64_mod) e ∙ small_mod (size + bytes_of held + incoming) h in
      elim (Bool-cases (ltb max_spool_bytes ((total + incoming) % u64_mod))) [
        | inl over ↦ rw over (
            dropping name size held disk _ (ground (arith, whole, over))
              (drop_oldest-Room held (total - size) disk1 (omega (arith, e)) (omega (arith, h))))
        | inr room ↦
            rw room (keeping ((name, size) ∷ held) disk (inl (ground (arith, whole, room))))
      ]

  -- If files can be removed and the sizes fit a `u64`, making room drops batches from the front of the
  -- environment's, which are in the order of their names: all the files with the extension `ndjson` and
  -- a size, or none if the directory cannot be listed. It drops only as many as it must: what is kept
  -- and what comes fit the cap, or nothing is kept, and none of those dropped could have stayed beside
  -- those that follow it.
  pub enforce_cap-IsRoom :
      (disk : Disk)
      → bytes_of (entries fs spool disk) + incoming < u64_mod
      → IsListing fs.lists (files_of spool.environment disk) (entries fs spool disk)
        × ((gone kept : List (String × ℕ)) × IsRoom incoming
              (entries fs spool disk)
              gone
              kept
              (files_of spool.environment disk)
              (files_of spool.environment (enforce_cap fs spool incoming disk)))
  unfolding enforce_cap Room
  enforce_cap-IsRoom disk h = (
    entries-IsListing fs spool disk,
    drop_oldest-Room (entries fs spool disk) (sum64 (entries fs spool disk)) disk
        (sum64_lem (entries fs spool disk) (omega (arith, h))) h,
  )
