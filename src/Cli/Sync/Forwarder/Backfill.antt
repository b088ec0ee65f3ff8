-- ===== src/Cli/Sync/Forwarder/Backfill.antt =====
-- A batch of crates/cli/src/sync.rs that one governor could not send, and the drain of the next one.
use nanny.Prelude.{
  ℕ, String, ◌≡◌, refl, ap, ◌∙◌, true, false, Option, List, [], ◌∷◌, ◌<>◌, join, has_char,
}
use nanny.Cli.Sync.Disk.{Faults, files_of, text_file}
use nanny.Cli.Sync.Delivery.{Delivery, retryable, Net, send_batch}
use nanny.Cli.Sync.Spool.{Spool, batch_name, store}
use nanny.Cli.Sync.Spool.Drain.{drain}
use nanny.Cli.Sync.Spool.Storing.{batch_name-is_batch_name}
use nanny.Cli.Sync.Spool.RoundTrip.{IsSound, store-files, IsPosted, drain_one}
use nanny.Cli.Sync.Forwarder.{
  Message, Forwarding, session_of, unreachable_notice, hold_or_drop, send_message, unless_empty,
  forward_one,
}
use nanny.Cli.Sync.Forwarder.Conservation.{has_lines, files_of-warn}

abbrev pub batch_of : Message → String
batch_of m = join "\n" m.lines

module _ {C : Type 0} (post : C → String → String → C × Option ℕ) (spool : Spool)
    (secret : String) where
  held-files :
      (m : Message) (f : Forwarding C) (net' : Net C) (outcome : Delivery)
      → outcome ≡ retryable
      → IsSound m.faults
      → files_of spool.environment f.disk ≡ []
      → let session = session_of secret m.run_id in
        files_of spool.environment
          (hold_or_drop spool m session (batch_of m) (record f { net = net' }) outcome).disk
        ≡ text_file (batch_name m.millis m.uuid) (session <> "\n" <> batch_of m) ∷ []
  held-files m f net' outcome e sound h =
      let session = session_of secret m.run_id in
      rw e (
        files_of-warn spool.environment unreachable_notice (record f {
          net = net';
          disk = store m.faults spool m.millis m.uuid session (batch_of m) f.disk;
        })
        ∙ store-files m.faults spool sound m.millis m.uuid session (batch_of m) f.disk h)

  sent_with_lines :
      (m : Message) (lines : List String) (f : Forwarding C)
      → lines ≡ m.lines
      → has_lines m ≡ true
      → unless_empty lines f (send_message post spool secret m (batch_of m) f)
        ≡ send_message post spool secret m (batch_of m) f
  sent_with_lines m [] f e h = cc (e, h)
  sent_with_lines m (l ∷ ls) f e h = refl

  -- A batch that the cloud cannot take now, while no operation on files fails and the outbox is empty,
  -- is not lost: the drain of the next governor of this environment posts the same lines under the
  -- session of the run that they belong to. The secret and the run's id have no newline.
  pub drain-forward_one :
      (m : Message) (f : Forwarding C) (fs' : Faults) (sound' : IsSound fs') (net' : Net C)
      → has_lines m ≡ true
      → (send_batch post (session_of secret m.run_id) (batch_of m) f.net).1 ≡ retryable
      → IsSound m.faults
      → files_of spool.environment f.disk ≡ []
      → has_char 10 (session_of secret m.run_id) ≡ false
      → let session = session_of secret m.run_id in
        IsPosted post fs' spool sound' session
          (batch_of m)
          (text_file (batch_name m.millis m.uuid) (session <> "\n" <> batch_of m))
          net'
          (drain post fs' spool (forward_one post spool secret m f).disk net')
  unfolding forward_one
  drain-forward_one m f fs' sound' net' some_lines later sound h plain =
      let session = session_of secret m.run_id in
      drain_one post fs' spool sound' (batch_name m.millis m.uuid) session (batch_of m) _ net'
        (batch_name-is_batch_name m.millis m.uuid) plain
        (ap (λ g. files_of spool.environment g.disk) (sent_with_lines m m.lines f refl some_lines)
          ∙ unfold send_message in held-files m f _ _ later sound h)
