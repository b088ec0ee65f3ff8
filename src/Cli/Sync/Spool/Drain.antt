-- ===== src/Cli/Sync/Spool/Drain.antt =====
-- `drain` of crates/cli/src/sync.rs: the delivery of what an outbox holds.
use nanny.Prelude.{
  ℕ, suc, String, Option, none, some, List, [], ◌∷◌, string_eq, option_eq, split_once,
}
use nanny.Prelude.Order.{string_ord, nat_ord, pair_ord}
use nanny.Cli.Sync.Disk.{Disk, Faults, say, read_to_string, remove_file}
use nanny.Cli.Sync.Delivery.{Delivery, sent, retryable, permanent, Net, send_batch}
use nanny.Cli.Sync.Spool.{Spool, entries, dropped_notice, refused_stored}

-- What a drain keeps: the disk, the cloud, and the batches that it delivered.
pub record SpoolDrain (C : Type 0) : Type 0 where
  pub disk : Disk
  pub net : Net C
  pub delivered : ℕ

module _ {C : Type 0} where
  -- What the outcome of a batch does: the state that the loop goes on with, or none to stop.
  abbrev pub settle : Faults → Spool → String → SpoolDrain C → Net C → Delivery → SpoolDrain C
  settle fs spool name d net sent = record {
    disk = remove_file fs spool.environment name d.disk;
    net = net;
    delivered = suc d.delivered;
  }
  settle fs spool name d net (permanent status) = record d {
    disk =
        remove_file fs spool.environment name
          (say (dropped_notice (refused_stored status) spool.log_path) d.disk);
    net = net;
  }
  settle fs spool name d net retryable = record d { net = net }

  -- `break`, or the rest of the loop.
  abbrev pub stop_or : Delivery → SpoolDrain C → SpoolDrain C → SpoolDrain C
  stop_or retryable settled onward = settled
  stop_or _ settled onward = onward

module _ {C : Type 0} (post : C → String → String → C × Option ℕ) where
  -- The loop of `drain`.
  unfoldable pub drain_from : Faults → Spool → List (String × ℕ) → SpoolDrain C → SpoolDrain C
  unfolding send_batch split_once
  drain_from fs spool [] d = d
  drain_from fs spool ((name, size) ∷ rest) d =
      elim (read_to_string spool.environment name d.disk) [
        | none ↦ drain_from fs spool rest d
        | some contents ↦ elim (split_once 10 contents) [
          | none ↦
              drain_from fs spool rest
                (record d { disk = remove_file fs spool.environment name d.disk })
          | some parts ↦
              let (net', outcome) = send_batch post parts.0 parts.1 d.net in
              let settled = settle fs spool name d net' outcome in
              let onward = drain_from fs spool rest settled in stop_or outcome settled onward
        ]
      ]

  -- `drain`
  unfoldable pub drain : Faults → Spool → Disk → Net C → SpoolDrain C
  unfolding entries drain_from
  drain fs spool disk net =
      drain_from fs spool (entries fs spool disk) (record { disk = disk; net = net; delivered = 0 })
