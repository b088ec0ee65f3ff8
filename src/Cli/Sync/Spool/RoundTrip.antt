-- ===== src/Cli/Sync/Spool/RoundTrip.antt =====
-- A batch of crates/cli/src/sync.rs from the outbox that stores it to the drain that posts it.
use Prim.Native.String.{len}
use mathlib.Core.Path.{subst}
use nanny.Prelude.{
  ℕ, String, ◌≡◌, refl, sym, ap, ◌∙◌, true, false, Option, some, List, [], ◌∷◌, arith, ◌<>◌,
  string_eq, Bool-cases, inl, inr, has_char, split_once, split_once-append, eq_iff, one-append,
}
use nanny.Prelude.Sort.{sort}
use nanny.Cli.Sync.Disk.{
  SpoolFile, Disk, whole, Faults, files_of, say, without_file, text_file, put_file, renamed,
  remove_file, read_to_string,
}
use nanny.Cli.Sync.Disk.Laws.{files_of-with_files, files_of-say, files_of-remove_file}
use nanny.Cli.Sync.Delivery.{Delivery, sent, retryable, permanent, Net, send_batch}
use nanny.Cli.Sync.Spool.{
  Spool, is_batch_name, entries, ensure_gitignored, drop_oldest, enforce_cap, batch_name, temporary,
  write_batch, store, dropped_notice, refused_stored,
}
use nanny.Cli.Sync.Spool.Drain.{SpoolDrain, settle, stop_or, drain_from, drain}
use nanny.Cli.Sync.Spool.Storing.{temporary-is_batch_name, batch_name-is_batch_name}
use nanny.Cli.Sync.Spool.Isolation.{files_of-ensure_gitignored}

-- Nothing fails.
pub record IsSound (fs : Faults) : Type 0 where
  pub creates : fs.creates ≡ true
  pub lists : fs.lists ≡ true
  pub removes : (name : String) → fs.removes name ≡ true
  pub writes : (name : String) → fs.writes name ≡ whole
  pub renames : (name : String) → fs.renames name ≡ true

enforce_cap_none :
    (fs : Faults) (spool : Spool) (incoming : ℕ) (disk : Disk)
    → files_of spool.environment disk ≡ []
    → enforce_cap fs spool incoming disk ≡ disk
unfolding enforce_cap drop_oldest entries sort
enforce_cap_none fs spool incoming disk h = elim (Bool-cases fs.lists) [
  | inl e ↦ rw (e, h) refl
  | inr e ↦ rw e refl
]

renamed_only :
    (tmp name contents : String)
    → is_batch_name tmp ≡ false
    → is_batch_name name ≡ true
    → renamed tmp name (without_file name (text_file tmp contents ∷ []))
      ≡ text_file name contents ∷ []
renamed_only tmp name contents h k = ground (arith, eq_iff tmp name, eq_iff tmp tmp)

write_batch-files :
    (fs : Faults) (spool : Spool) (name contents : String) (disk : Disk)
    → fs.renames (temporary name) ≡ true
    → is_batch_name name ≡ true
    → files_of spool.environment disk ≡ []
    → files_of spool.environment (write_batch fs spool name contents disk whole)
      ≡ text_file name contents ∷ []
unfolding write_batch
write_batch-files fs spool name contents disk h k e =
    let tmp = temporary name in
    let env = spool.environment in
    let put = put_file env (text_file tmp contents) disk in
    simp h (
      files_of-with_files env _ put
      ∙ ap (λ files. renamed tmp name (without_file name files)) (files_of-with_files env _ disk)
      ∙ rw e (renamed_only tmp name contents (temporary-is_batch_name name) k))

module _ (fs : Faults) (spool : Spool) (sound : IsSound fs) (millis : ℕ)
    (uuid session body : String) where
  -- An empty outbox that stores a batch has this batch.
  pub store-files :
      (disk : Disk)
      → files_of spool.environment disk ≡ []
      → files_of spool.environment (store fs spool millis uuid session body disk)
        ≡ text_file (batch_name millis uuid) (session <> "\n" <> body) ∷ []
  unfolding store
  store-files disk h =
      let name = batch_name millis uuid in
      let env = spool.environment in
      let disk1 = ensure_gitignored fs disk in
      let e1 = files_of-ensure_gitignored fs env disk ∙ h in
      let room = enforce_cap_none fs spool (len body) disk1 e1 in
      let written =
        write_batch-files fs spool name (session <> "\n" <> body) disk1
          (sound.renames (temporary name)) (batch_name-is_batch_name millis uuid) e1 in
      simp (sound.creates, room, sound.writes) written

-- The outbox that has one batch, after the batch was posted.
abbrev pub kept_after : Delivery → SpoolFile → List SpoolFile
kept_after retryable f = f ∷ []
kept_after _ f = []

abbrev pub delivered_after : Delivery → ℕ
delivered_after sent = 1
delivered_after _ = 0

module _ {C : Type 0} (post : C → String → String → C × Option ℕ) (fs : Faults) (spool : Spool)
    (sound : IsSound fs) where
  -- What a drain of one batch comes to.
  pub record IsPosted (session body : String) (f : SpoolFile) (net : Net C) (d : SpoolDrain C)
      : Type 0 where
    pub net_is : d.net ≡ (send_batch post session body net).0
    pub kept : files_of spool.environment d.disk ≡ kept_after (send_batch post session body net).1 f
    pub counted : d.delivered ≡ delivered_after (send_batch post session body net).1

  removed-files :
      (name contents : String) (disk : Disk)
      → files_of spool.environment disk ≡ text_file name contents ∷ []
      → files_of spool.environment (remove_file fs spool.environment name disk) ≡ []
  removed-files name contents disk h =
      files_of-remove_file fs spool.environment name disk (sound.removes name)
      ∙ rw h (ground (arith, eq_iff name name))

  settled-IsPosted :
      (name contents session body : String) (disk : Disk) (net : Net C) (outcome : Delivery)
      → (send_batch post session body net).1 ≡ outcome
      → files_of spool.environment disk ≡ text_file name contents ∷ []
      → let d : SpoolDrain C = record { disk = disk; net = net; delivered = 0 } in
        let settled = settle fs spool name d (send_batch post session body net).0 outcome in
        IsPosted session body (text_file name contents) net (stop_or outcome settled settled)
  settled-IsPosted name contents session body disk net sent e h = record {
    net_is = refl;
    kept = rw e (removed-files name contents disk h);
    counted = rw e refl;
  }
  settled-IsPosted name contents session body disk net (permanent status) e h =
      let line = dropped_notice (refused_stored status) spool.log_path in
      record {
        net_is = refl;
        kept = rw e (
            removed-files name contents (say line disk)
              (files_of-say spool.environment line disk ∙ h));
        counted = rw e refl;
      }
  settled-IsPosted name contents session body disk net retryable e h = record {
    net_is = refl;
    kept = rw e h;
    counted = rw e refl;
  }

  drain_from_one :
      (name contents session body : String) (size : ℕ) (d : SpoolDrain C)
      → read_to_string spool.environment name d.disk ≡ some contents
      → split_once 10 contents ≡ some (session, body)
      → let (net', outcome) = send_batch post session body d.net in
        let settled = settle fs spool name d net' outcome in
        drain_from post fs spool ((name, size) ∷ []) d ≡ stop_or outcome settled settled
  unfolding drain_from
  drain_from_one name contents session body size d read parts = rw (read, drain_from, parts) refl

  entries_one :
      (name contents : String) (disk : Disk)
      → is_batch_name name ≡ true
      → files_of spool.environment disk ≡ text_file name contents ∷ []
      → entries fs spool disk ≡ (name, len contents) ∷ []
  unfolding entries sort
  entries_one name contents disk batch h = simp (sound.lists, h, batch) refl

  pub drain_one :
      (name session body : String) (disk : Disk) (net : Net C)
      → is_batch_name name ≡ true
      → has_char 10 session ≡ false
      → files_of spool.environment disk ≡ text_file name (session <> "\n" <> body) ∷ []
      → IsPosted session body
          (text_file name (session <> "\n" <> body))
          net
          (drain post fs spool disk net)
  unfolding drain
  drain_one name session body disk net batch plain h =
      let contents = session <> "\n" <> body in
      let newline = one-append "\n" body in
      let parts : split_once 10 contents ≡ some (session, body) =
        ap (λ s. split_once 10 (session <> s)) newline
        ∙ split_once-append 10 "\n" session body refl plain in
      let read : read_to_string spool.environment name disk ≡ some contents =
        rw h (ground (arith, eq_iff name name)) in
      let d : SpoolDrain C = record { disk = disk; net = net; delivered = 0 } in
      subst (λ r. IsPosted session body (text_file name contents) net r)
        (sym (
          ap (λ held. drain_from post fs spool held d) (entries_one name contents disk batch h)
          ∙ drain_from_one name contents session body (len contents) d read parts))
        (settled-IsPosted name contents session body disk net _ refl h)

-- A batch that an empty outbox stores, when no operation on files fails, is what the next drain of this
-- environment posts, under its session, and the drain keeps it only if it cannot be sent yet. The session
-- has no newline.
pub drain-store :
    {C : Type 0} (post : C → String → String → C × Option ℕ) (fs fs' : Faults) (spool : Spool)
    (sound : IsSound fs) (sound' : IsSound fs') (millis : ℕ) (uuid session body : String)
    (disk : Disk) (net : Net C)
    → files_of spool.environment disk ≡ []
    → has_char 10 session ≡ false
    → IsPosted post fs' spool sound' session body
        (text_file (batch_name millis uuid) (session <> "\n" <> body))
        net
        (drain post fs' spool (store fs spool millis uuid session body disk) net)
drain-store post fs fs' spool sound sound' millis uuid session body disk net h plain =
    drain_one post fs' spool sound' (batch_name millis uuid) session body
      (store fs spool millis uuid session body disk) net (batch_name-is_batch_name millis uuid)
      plain (store-files fs spool sound millis uuid session body disk h)
