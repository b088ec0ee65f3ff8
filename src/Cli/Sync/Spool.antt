-- ===== src/Cli/Sync/Spool.antt =====
-- `Spool` of crates/cli/src/sync.rs, the outbox for the batches that the cloud could not take.
pub mod Drain
pub mod Fates
pub mod Draining
pub mod Storing
pub mod Cap
pub mod Isolation
pub mod Listing
pub mod RoundTrip
use Prim.Native.String.{len}
use nanny.Prelude.{
  ℕ, suc, String, ◌+◌, ◌-◌, ◌*◌, ◌%◌, u64_mod, Bool, true, false, not, ◌||◌, Option, none, some,
  List, [], ◌∷◌, map, ltb, ◌==◌, string_eq, option_eq, if◌then◌else◌, any, length, trim, is_empty,
  to_decimal, ◌<>◌, split_once, text_lines, ends_with_newline,
}
use nanny.Prelude.Sort.{sort}
use nanny.Prelude.Order.{string_ord, nat_ord, pair_ord}
use nanny.Cli.Sync.{Environment, from_api_key, other, dir_name}
use nanny.Cli.Sync.Disk.{
  SpoolFile, Disk, Written, whole, failed, Faults, files_of, say, read_to_string, remove_file,
  text_file, put_file, rename_file, extension,
}
use nanny.Cli.Sync.Delivery.{Delivery, sent, retryable, permanent, Net, send_batch}

abbrev pub max_spool_bytes : ℕ
max_spool_bytes = 64 * 1024 * 1024

-- The directory is the environment's.
pub record Spool : Type 0 where
  pub environment : Environment
  pub log_path : Option String

-- `Spool::new`
abbrev pub new_spool : String → Spool
new_spool api_key = record { environment = from_api_key api_key; log_path = none }

-- `Spool::logging_to`
abbrev pub logging_to : Spool → Option String → Spool
logging_to spool path = record spool { log_path = path }

pub data Dropped : Type 0 where
  refused_live : (status : ℕ) → Dropped
  refused_stored : (status : ℕ) → Dropped
  outbox_full : Dropped

abbrev cause_of : Dropped → String
cause_of (refused_live status) =
    "the cloud refused these events (" <> to_decimal status <> "); not retrying"
cause_of (refused_stored status) =
    "the cloud refused a batch held from an earlier run ("
    <> to_decimal status
    <> "); discarding it"
cause_of outbox_full =
    "outbox is full (" <> to_decimal max_spool_bytes <> " bytes); dropping the oldest unsent batch"

-- `dropped_notice`
unfoldable pub dropped_notice : Dropped → Option String → String
dropped_notice dropped (some path) =
    "nanny: sync: "
    <> cause_of dropped
    <> ". Those events remain in "
    <> path
    <> ". Enforcement is unaffected."
dropped_notice dropped none =
    "nanny: sync: "
    <> cause_of dropped
    <> ". Those events went to stdout and nowhere else, so keep a copy by redirecting it if you need one. Enforcement is unaffected."

unfoldable pub is_batch_name : String → Bool
unfolding extension
is_batch_name name = extension name == some "ndjson"

abbrev pub is_batch : SpoolFile → Bool
is_batch f = is_batch_name f.name

abbrev pub with_size : String → Option ℕ → List (String × ℕ) → List (String × ℕ)
with_size name none rest = rest
with_size name (some size) rest = (name, size) ∷ rest

abbrev pub listed : List SpoolFile → List (String × ℕ)
listed [] = []
listed (f ∷ files) =
    let rest = listed files in if is_batch f then with_size f.name f.size rest else rest

-- `entries`. The names in a directory differ, so that the sizes decide nothing in the sort.
unfoldable pub entries : Faults → Spool → Disk → List (String × ℕ)
unfolding sort
entries fs spool disk = if fs.lists then sort (listed (files_of spool.environment disk)) else []

-- `count`
unfoldable pub count_held : Faults → Spool → Disk → ℕ
unfolding entries
count_held fs spool disk = length (entries fs spool disk)

-- `other_environment_notice`
unfoldable pub other_environment_notice : Faults → Environment → Disk → Option String
unfolding count_held
other_environment_notice fs environment disk =
    let beside = other environment in
    let held = count_held fs (record { environment = beside; log_path = none }) disk in
    if ltb 0 held
    then some (
        "nanny: sync: "
        <> to_decimal held
        <> " batch(es) held for "
        <> dir_name beside
        <> ", not sent: this run is "
        <> dir_name environment)
    else none

abbrev ignore_line : String
ignore_line = ".nanny/spool/"

-- A line of a `.gitignore` that covers the outbox.
unfoldable pub covers : String → Bool
covers l =
    let t = trim l in
    (t == ignore_line) || (t == ".nanny/spool") || (t == ".nanny/") || (t == ".nanny")

abbrev text_or_empty : Option String → String
text_or_empty none = ""
text_or_empty (some text) = text

abbrev with_newline : String → String
with_newline text = if is_empty text || ends_with_newline text then text else text <> "\n"

-- `ensure_gitignored`. A write that fails leaves the file as it was.
unfoldable pub ensure_gitignored : Faults → Disk → Disk
unfolding covers
ensure_gitignored fs disk =
    let existing = text_or_empty disk.gitignore in
    if any covers (text_lines existing)
    then disk
    else if fs.ignores
    then record disk { gitignore = some (with_newline existing <> ignore_line <> "\n") }
    else disk

-- `sizes.sum()`, in a `u64`
abbrev pub sum64 : List (String × ℕ) → ℕ
sum64 [] = 0
sum64 ((name, size) ∷ rest) = (size + sum64 rest) % u64_mod

-- The loop of `enforce_cap`.
unfoldable pub drop_oldest : Faults → Spool → ℕ → List (String × ℕ) → ℕ → Disk → Disk
drop_oldest fs spool incoming [] total disk = disk
drop_oldest fs spool incoming ((name, size) ∷ rest) total disk =
    let disk' =
      remove_file fs spool.environment name
        (say (dropped_notice outbox_full spool.log_path) disk) in
    let dropped = drop_oldest fs spool incoming rest (total - size) disk' in
    if ltb max_spool_bytes ((total + incoming) % u64_mod) then dropped else disk

-- `enforce_cap`
unfoldable pub enforce_cap : Faults → Spool → ℕ → Disk → Disk
unfolding drop_oldest
enforce_cap fs spool incoming disk =
    let held = entries fs spool disk in drop_oldest fs spool incoming held (sum64 held) disk

-- The name of a batch, from `now_millis` and a fresh UUID.
unfoldable pub batch_name : ℕ → String → String
batch_name millis uuid = to_decimal millis <> "-" <> uuid <> ".ndjson"

unfoldable pub temporary : String → String
temporary name = "." <> name <> ".tmp"

abbrev left_behind : Environment → String → Option String → Disk → Disk
left_behind env tmp none disk = disk
left_behind env tmp (some text) disk = put_file env (text_file tmp text) disk

-- The write of the temporary file, and the rename or the removal that follows.
unfoldable pub write_batch : Faults → Spool → String → String → Disk → Written → Disk
unfolding temporary
write_batch fs spool name contents disk whole =
    rename_file fs spool.environment (temporary name) name
      (put_file spool.environment (text_file (temporary name) contents) disk)
write_batch fs spool name contents disk (failed left) =
    remove_file fs spool.environment (temporary name)
      (left_behind spool.environment (temporary name) left disk)

-- `store`, at a time in milliseconds and with a fresh UUID.
unfoldable pub store : Faults → Spool → ℕ → String → String → String → Disk → Disk
unfolding ensure_gitignored enforce_cap batch_name write_batch
store fs spool millis uuid session body disk =
    let name = batch_name millis uuid in
    let room = enforce_cap fs spool (len body) (ensure_gitignored fs disk) in
    let stored =
      write_batch fs spool name (session <> "\n" <> body) room (fs.writes (temporary name)) in
    if fs.creates then stored else disk
