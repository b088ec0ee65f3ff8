-- ===== src/Cli/Sync/Spool/Isolation.antt =====
-- The outboxes of the two environments of crates/cli/src/sync.rs stay apart.
use Prim.Native.String.{len}
use nanny.Prelude.{
  ℕ, String, ◌≡◌, refl, ◌∙◌, Option, none, some, List, [], ◌∷◌, arith, string_eq, if_rule,
}
use nanny.Cli.Sync.{Environment, live, sandbox, other}
use nanny.Cli.Sync.Disk.{Disk, Written, whole, failed, Faults, files_of, say, text_file}
use nanny.Cli.Sync.Disk.Laws.{files_of-say, other-remove_file, other-put_file, other-rename_file}
use nanny.Cli.Sync.Spool.{
  Spool, ensure_gitignored, drop_oldest, enforce_cap, batch_name, temporary, write_batch, store,
  dropped_notice, outbox_full, left_behind,
}

pub files_of-ensure_gitignored :
    (fs : Faults) (env : Environment) (disk : Disk)
    → files_of env (ensure_gitignored fs disk) ≡ files_of env disk
unfolding ensure_gitignored
files_of-ensure_gitignored fs live disk = ground arith
files_of-ensure_gitignored fs sandbox disk = ground arith

module _ (fs : Faults) (spool : Spool) where
  other-drop_oldest :
      (incoming : ℕ) (held : List (String × ℕ)) (total : ℕ) (disk : Disk)
      → files_of (other spool.environment) (drop_oldest fs spool incoming held total disk)
        ≡ files_of (other spool.environment) disk
  unfolding drop_oldest
  other-drop_oldest incoming [] total disk = refl
  other-drop_oldest incoming ((name, size) ∷ held) total disk =
      let line = dropped_notice outbox_full spool.log_path in
      if_rule (λ d. files_of (other spool.environment) d ≡ files_of (other spool.environment) disk)
        _ _ _
        (other-drop_oldest incoming held _ _
          ∙ other-remove_file fs spool.environment name (say line disk)
          ∙ files_of-say (other spool.environment) line disk)
        refl

  other-left_behind :
      (tmp : String) (left : Option String) (disk : Disk)
      → files_of (other spool.environment) (left_behind spool.environment tmp left disk)
        ≡ files_of (other spool.environment) disk
  other-left_behind tmp none disk = refl
  other-left_behind tmp (some text) disk =
      other-put_file spool.environment (text_file tmp text) disk

  other-write_batch :
      (name contents : String) (disk : Disk) (w : Written)
      → files_of (other spool.environment) (write_batch fs spool name contents disk w)
        ≡ files_of (other spool.environment) disk
  unfolding write_batch
  other-write_batch name contents disk whole =
      other-rename_file fs spool.environment (temporary name) name _
      ∙ other-put_file spool.environment (text_file (temporary name) contents) disk
  other-write_batch name contents disk (failed left) =
      other-remove_file fs spool.environment (temporary name) _
      ∙ other-left_behind (temporary name) left disk

  -- Storing a batch never touches the outbox of the other environment.
  pub other-store :
      (millis : ℕ) (uuid session body : String) (disk : Disk)
      → files_of (other spool.environment) (store fs spool millis uuid session body disk)
        ≡ files_of (other spool.environment) disk
  unfolding store enforce_cap
  other-store millis uuid session body disk =
      if_rule (λ d. files_of (other spool.environment) d ≡ files_of (other spool.environment) disk)
        fs.creates _ _
        (other-write_batch (batch_name millis uuid) _ _ _
          ∙ other-drop_oldest (len body) _ _ _
          ∙ files_of-ensure_gitignored fs (other spool.environment) disk)
        refl
