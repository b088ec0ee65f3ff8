-- ===== src/Cli/Sync/Spool/Storing.antt =====
-- What `store` of crates/cli/src/sync.rs leaves in the outbox, whichever operations on files fail.
use Prim.Native.String.{len}
use text.Mathlib.TextLemmas.{append_assoc}
use nanny.Prelude.{
  ℕ, String, ◌≡◌, ◌⊎◌, inl, inr, refl, sym, ap, ◌∙◌, true, false, Option, none, some, List, [], ◌∷◌,
  arith, ◌==◌, string_eq, option_eq, if◌then◌else◌, Bool-cases, if_rule, select, push, to_decimal,
  ◌<>◌, is_empty, rsplit_once-append, has_char, eq_iff, nonempty-append, nonempty-before,
}
use nanny.Cli.Sync.{Environment}
use nanny.Cli.Sync.Disk.{
  SpoolFile, Disk, Written, whole, failed, Faults, files_of, without_file, text_file, put_file,
  renamed, remove_file, extension,
}
use nanny.Cli.Sync.Disk.Laws.{files_of-with_files}
use nanny.Cli.Sync.Spool.{
  Spool, is_batch_name, is_batch, ensure_gitignored, enforce_cap, batch_name, temporary,
  write_batch, store,
}

extension_lem :
    (stem ext : String)
    → is_empty stem ≡ false
    → has_char 46 ext ≡ false
    → extension (stem <> String.◌∷◌ "." ext) ≡ some ext
unfolding extension
extension_lem stem ext h k = rw (rsplit_once-append 46 "." stem ext refl k, h) refl

-- A temporary file is no batch.
pub temporary-is_batch_name : (name : String) → is_batch_name (temporary name) ≡ false
unfolding is_batch_name temporary has_char
temporary-is_batch_name name =
    ap (λ s. extension s == some "ndjson") (sym (append_assoc "." name ".tmp"))
    ∙ ap (λ e. e == some "ndjson")
        (extension_lem ("." <> name) "tmp" (nonempty-before "." name refl) refl)

pub batch_name-is_batch_name :
    (millis : ℕ) (uuid : String) → is_batch_name (batch_name millis uuid) ≡ true
unfolding is_batch_name batch_name has_char
batch_name-is_batch_name millis uuid =
    ap (λ s. extension (to_decimal millis <> s) == some "ndjson")
      (sym (append_assoc "-" uuid ".ndjson"))
    ∙ ap (λ s. extension s == some "ndjson")
        (sym (append_assoc (to_decimal millis) ("-" <> uuid) ".ndjson"))
    ∙ ap (λ e. e == some "ndjson")
        (extension_lem (to_decimal millis <> "-" <> uuid) "ndjson"
          (nonempty-append (to_decimal millis) ("-" <> uuid) (nonempty-before "-" uuid refl)) refl)

-- The batches of some files.
abbrev pub batches : List SpoolFile → List SpoolFile
batches files = select is_batch files

-- Files that are no batches come and go unseen.
batches-without :
    (name : String) (files : List SpoolFile)
    → is_batch_name name ≡ false
    → batches (without_file name files) ≡ batches files
batches-without name [] h = refl
batches-without name (f ∷ files) h =
    ground (arith, eq_iff f.name name, batches-without name files h)

batches-push :
    (f : SpoolFile) (files : List SpoolFile)
    → is_batch f ≡ false
    → batches (push files f) ≡ batches files
batches-push f [] h = ground (arith, h)
batches-push f (g ∷ files) h = ground (arith, batches-push f files h)

batches-remove_file :
    (fs : Faults) (env : Environment) (name : String) (disk : Disk)
    → is_batch_name name ≡ false
    → batches (files_of env (remove_file fs env name disk)) ≡ batches (files_of env disk)
batches-remove_file fs env name disk h =
    if_rule (λ d. batches (files_of env d) ≡ batches (files_of env disk)) (fs.removes name) _ _
      (ap batches (files_of-with_files env _ disk) ∙ batches-without name (files_of env disk) h)
      refl

batches-put_file :
    (env : Environment) (f : SpoolFile) (disk : Disk)
    → is_batch f ≡ false
    → batches (files_of env (put_file env f disk)) ≡ batches (files_of env disk)
batches-put_file env f disk h =
    ap batches (files_of-with_files env _ disk)
    ∙ batches-push f (without_file f.name (files_of env disk)) h
    ∙ batches-without f.name (files_of env disk) h

-- The temporary file takes the name of the batch.
batches-renamed :
    (tmp name contents : String) (files : List SpoolFile)
    → is_batch_name tmp ≡ false
    → is_batch_name name ≡ true
    → batches (
        renamed tmp name
          (without_file name (push (without_file tmp files) (text_file tmp contents))))
      ≡ push (batches (without_file name files)) (text_file name contents)
batches-renamed tmp name contents [] h k = ground (arith, eq_iff tmp name, eq_iff tmp tmp)
batches-renamed tmp name contents (f ∷ files) h k = ground (
  arith,
  eq_iff f.name name,
  eq_iff f.name tmp,
  eq_iff tmp name,
  batches-renamed tmp name contents files h k,
)

write_batch-failed :
    (fs : Faults) (spool : Spool) (name contents : String) (disk : Disk) (left : Option String)
    → batches (files_of spool.environment (write_batch fs spool name contents disk (failed left)))
      ≡ batches (files_of spool.environment disk)
unfolding write_batch
write_batch-failed fs spool name contents disk none =
    batches-remove_file fs spool.environment (temporary name) disk (temporary-is_batch_name name)
write_batch-failed fs spool name contents disk (some text) =
    batches-remove_file fs spool.environment (temporary name) _ (temporary-is_batch_name name)
    ∙ batches-put_file spool.environment (text_file (temporary name) text) disk
        (temporary-is_batch_name name)

-- A batch is stored whole, or not at all.
abbrev pub IsWholeOrAbsent : String → String → List SpoolFile → List SpoolFile → Type 0
IsWholeOrAbsent name contents before after =
    (batches after ≡ batches before)
    ⊎ (batches after ≡ push (batches (without_file name before)) (text_file name contents))

write_batch-IsWholeOrAbsent :
    (fs : Faults) (spool : Spool) (millis : ℕ) (uuid contents : String) (disk : Disk) (w : Written)
    → let name = batch_name millis uuid in
      IsWholeOrAbsent name contents
        (files_of spool.environment disk)
        (files_of spool.environment (write_batch fs spool name contents disk w))
write_batch-IsWholeOrAbsent fs spool millis uuid contents disk (failed left) =
    inl (write_batch-failed fs spool (batch_name millis uuid) contents disk left)
write_batch-IsWholeOrAbsent fs spool millis uuid contents disk whole =
    let name = batch_name millis uuid in
    let env = spool.environment in
    let tmp = temporary name in
    let put = put_file env (text_file tmp contents) disk in
    let e =
      files_of-with_files env (push (without_file tmp (files_of env disk)) (text_file tmp contents))
        disk in
    unfold write_batch in
    if_rule (λ d. IsWholeOrAbsent name contents (files_of env disk) (files_of env d))
      (fs.renames tmp) _ _
      (inr (
        ap batches
          (files_of-with_files env (renamed tmp name (without_file name (files_of env put))) put)
        ∙ ap (λ files. batches (renamed tmp name (without_file name files))) e
        ∙ batches-renamed tmp name contents (files_of env disk) (temporary-is_batch_name name)
            (batch_name-is_batch_name millis uuid)))
      (inl (batches-put_file env (text_file tmp contents) disk (temporary-is_batch_name name)))

-- The outbox when `store` comes to the write.
abbrev pub with_room : Faults → Spool → String → Disk → Disk
with_room fs spool body disk =
    if fs.creates then enforce_cap fs spool (len body) (ensure_gitignored fs disk) else disk

-- Whatever fails, `store` leaves no part of a batch that a drain would take for one: after the room was
-- made, the outbox has the batches that it had, or these and the whole batch under its session.
pub store-IsWholeOrAbsent :
    (fs : Faults) (spool : Spool) (millis : ℕ) (uuid session body : String) (disk : Disk)
    → IsWholeOrAbsent
        (batch_name millis uuid)
        (session <> "\n" <> body)
        (files_of spool.environment (with_room fs spool body disk))
        (files_of spool.environment (store fs spool millis uuid session body disk))
unfolding store
store-IsWholeOrAbsent fs spool millis uuid session body disk = elim (Bool-cases fs.creates) [
  | inl e ↦ rw e (write_batch-IsWholeOrAbsent fs spool millis uuid _ _ _)
  | inr e ↦ rw e (inl refl)
]
