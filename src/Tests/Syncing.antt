-- ===== src/Tests/Syncing.antt =====
-- The forwarder and the outbox of crates/cli/src/sync.rs, at concrete batches, disks and clouds.
use nanny.Prelude.{
  ℕ, suc, String, ◌+◌, ◌<◌, ◌≡◌, refl, Bool, true, false, Option, none, some, List, [], ◌∷◌, ltb,
  if◌then◌else◌, ◌<>◌, arith, u64_mod, has_char,
}
use nanny.Cli.Sync.{Environment, live}
use nanny.Cli.Sync.Disk.{Disk, Faults, whole, failed, files_of, text_file}
use nanny.Cli.Sync.Delivery.{Net, retryable, send_batch}
use nanny.Cli.Sync.Delivery.Attempts.{IsRun, send_batch-IsRun}
use nanny.Cli.Sync.Spool.{Spool, entries, batch_name, enforce_cap, store}
use nanny.Cli.Sync.Spool.Listing.{IsListing}
use nanny.Cli.Sync.Spool.Drain.{drain}
use nanny.Cli.Sync.Spool.Cap.{bytes_of, IsRoom, enforce_cap-IsRoom}
use nanny.Cli.Sync.Spool.Fates.{Fate, IsDrained}
use nanny.Cli.Sync.Spool.Draining.{drain-IsDrained}
use nanny.Cli.Sync.Spool.Storing.{IsWholeOrAbsent, with_room, store-IsWholeOrAbsent}
use nanny.Cli.Sync.Spool.RoundTrip.{IsSound, IsPosted}
use nanny.Cli.Sync.Forwarder.{Message, Forwarding, session_of, forward_one, forward_all}
use nanny.Cli.Sync.Forwarder.Backfill.{batch_of, drain-forward_one}
use nanny.Cli.Sync.Forwarder.Conservation.{Try, IsForwarded, forward_all-IsForwarded}

-- A cloud that does not answer the first four posts, and then accepts.
abbrev post : ℕ → String → String → ℕ × Option ℕ
post n session body = (suc n, if ltb n 4 then none else some 200)

abbrev net : Net ℕ
net = record { cloud = 0; posts = []; slept = 0 }

abbrev healthy : Faults
healthy = record {
  creates = true;
  lists = true;
  removes = λ _. true;
  writes = λ _. whole;
  renames = λ _. true;
  ignores = true;
}

abbrev full_disk : Faults
full_disk = record healthy { writes = λ _. failed (some "par"); removes = λ _. false }

healthy-IsSound : IsSound healthy
healthy-IsSound = record {
  creates = refl;
  lists = refl;
  removes = λ _. refl;
  writes = λ _. refl;
  renames = λ _. refl;
}

abbrev spool : Spool
spool = record { environment = live; log_path = none }

abbrev two_held : Disk
two_held = record {
  of_live = text_file "20-b.ndjson" "s:run-1\nb" ∷ text_file "10-a.ndjson" "s:run-1\na" ∷ [];
  of_sandbox = text_file "10-c.ndjson" "s:run-2\nc" ∷ [];
  gitignore = none;
  said = [];
}

abbrev empty_disk : Disk
empty_disk = record { of_live = []; of_sandbox = []; gitignore = none; said = [] }

abbrev message : Message
message = record {
  run_id = "run-1";
  lines = "a" ∷ "b" ∷ [];
  faults = healthy;
  millis = 7;
  uuid = "u";
}

abbrev start : Forwarding ℕ
start = record { disk = empty_disk; net = net; warned = false }

send_batch-IsRun_example :
    (answers : List (Option ℕ)) × IsRun "s" "a" 4 250 net
      (send_batch post "s" "a" net).0
      (send_batch post "s" "a" net).1
      answers
send_batch-IsRun_example = send_batch-IsRun post "s" "a" net

drain-IsDrained_example :
    IsListing true (files_of live two_held) (entries healthy spool two_held)
    × ((fates : List (String × Fate)) × (untried : List String) × IsDrained live
          (entries healthy spool two_held)
          (record { disk = two_held; net = net; delivered = 0 })
          (drain post healthy spool two_held net)
          fates
          untried)
drain-IsDrained_example = drain-IsDrained post healthy spool (λ _. refl) two_held net

store-IsWholeOrAbsent_example :
    IsWholeOrAbsent
      (batch_name 30 "d")
      ("s:run-1" <> "\n" <> "d")
      (files_of live (with_room full_disk spool "d" two_held))
      (files_of live (store full_disk spool 30 "d" "s:run-1" "d" two_held))
store-IsWholeOrAbsent_example = store-IsWholeOrAbsent full_disk spool 30 "d" "s:run-1" "d" two_held

few_bytes : bytes_of (entries healthy spool two_held) + 67108860 < u64_mod
unfolding entries nanny.Prelude.Sort.sort nanny.Cli.Sync.Spool.is_batch_name
    nanny.Prelude.rsplit_once
few_bytes = omega arith

enforce_cap-IsRoom_example :
    IsListing true (files_of live two_held) (entries healthy spool two_held)
    × ((gone kept : List (String × ℕ)) × IsRoom 67108860
          (entries healthy spool two_held)
          gone
          kept
          (files_of live two_held)
          (files_of live (enforce_cap healthy spool 67108860 two_held)))
enforce_cap-IsRoom_example =
    enforce_cap-IsRoom healthy spool (λ _. refl) 67108860 two_held few_bytes

cannot_send : (send_batch post (session_of "s" "run-1") (batch_of message) net).1 ≡ retryable
unfolding send_batch
cannot_send = refl

one_line : has_char 10 (session_of "s" "run-1") ≡ false
unfolding has_char
one_line = refl

drain-forward_one_example :
    IsPosted post healthy spool healthy-IsSound
      (session_of "s" "run-1")
      (batch_of message)
      (text_file (batch_name 7 "u") (session_of "s" "run-1" <> "\n" <> batch_of message))
      net
      (drain post healthy spool (forward_one post spool "s" message start).disk net)
drain-forward_one_example =
    drain-forward_one post spool "s" message start healthy healthy-IsSound net refl cannot_send
      healthy-IsSound refl one_line

forward_all-IsForwarded_example :
    (tries : List Try) × IsForwarded spool "s"
      (message ∷ message ∷ [])
      start
      (forward_all post spool "s" (message ∷ message ∷ []) start)
      tries
forward_all-IsForwarded_example =
    forward_all-IsForwarded post spool "s" (message ∷ message ∷ []) start
