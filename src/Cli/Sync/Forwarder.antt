-- ===== src/Cli/Sync/Forwarder.antt =====
-- `ServerForwarder` of crates/cli/src/sync.rs: the thread that sends the batches of a governor's runs.
-- A batch comes with the time, the UUID and the faults of the moment at which it would be stored.
pub mod Conservation
pub mod Backfill
use nanny.Prelude.{
  ℕ, String, Bool, true, false, Option, none, some, List, [], ◌∷◌, ltb, if◌then◌else◌, to_decimal,
  ◌<>◌, join,
}
use nanny.Cli.Sync.{Environment, from_api_key}
use nanny.Cli.Sync.Disk.{Disk, Faults, say}
use nanny.Cli.Sync.Delivery.{Delivery, sent, retryable, permanent, Net, send_batch}
use nanny.Cli.Sync.Spool.{
  Spool, new_spool, logging_to, other_environment_notice, dropped_notice, refused_live, store,
}
use nanny.Cli.Sync.Spool.Drain.{SpoolDrain, drain}

pub record Message : Type 0 where
  pub run_id : String
  pub lines : List String
  pub faults : Faults
  pub millis : ℕ
  pub uuid : String

pub record Forwarding (C : Type 0) : Type 0 where
  pub disk : Disk
  pub net : Net C
  pub warned : Bool

abbrev pub session_of : String → String → String
session_of server_secret run_id = server_secret <> ":" <> run_id

abbrev say_once : Bool → String → Disk → Disk
say_once warned line disk = if warned then disk else say line disk

-- `if !warned { eprintln!(…); warned = true; }`
abbrev pub warn : {C : Type 0} → String → Forwarding C → Forwarding C
warn line f = record f { disk = say_once f.warned line f.disk; warned = true }

abbrev pub unreachable_notice : String
unreachable_notice =
    "nanny: sync: cloud unreachable; holding fleet events locally and retrying later (enforcement is unaffected)"

-- What the outcome of a batch does.
abbrev pub hold_or_drop :
    {C : Type 0} → Spool → Message → String → String → Forwarding C → Delivery → Forwarding C
hold_or_drop spool m session body f sent = f
hold_or_drop spool m session body f retryable =
    warn unreachable_notice
      (record f { disk = store m.faults spool m.millis m.uuid session body f.disk })
hold_or_drop spool m session body f (permanent status) =
    warn (dropped_notice (refused_live status) spool.log_path) f

abbrev say_notice : Option String → Disk → Disk
say_notice none disk = disk
say_notice (some line) disk = say line disk

-- `warn_about_the_other_environment`
unfoldable pub warn_about_the_other_environment : Faults → Environment → Disk → Disk
unfolding other_environment_notice
warn_about_the_other_environment fs environment disk =
    say_notice (other_environment_notice fs environment disk) disk

abbrev recovered_notice : ℕ → Disk → Disk
recovered_notice n disk =
    if ltb 0 n
    then say ("nanny: sync: delivered " <> to_decimal n <> " batch(es) held from an earlier run")
        disk
    else disk

-- `if lines.is_empty() { continue; }`
abbrev pub unless_empty : {C : Type 0} → List String → Forwarding C → Forwarding C → Forwarding C
unless_empty [] f after = f
unless_empty (l ∷ ls) f after = after

module _ {C : Type 0} (post : C → String → String → C × Option ℕ) (spool : Spool)
    (server_secret : String) where
  -- A batch with its session, sent.
  unfoldable pub send_message : Message → String → Forwarding C → Forwarding C
  unfolding send_batch store dropped_notice
  send_message m body f =
      let session = session_of server_secret m.run_id in
      let (net', outcome) = send_batch post session body f.net in
      hold_or_drop spool m session body (record f { net = net' }) outcome

  -- One turn of the loop over `rx`.
  unfoldable pub forward_one : Message → Forwarding C → Forwarding C
  unfolding send_message
  forward_one m f = unless_empty m.lines f (send_message m (join "\n" m.lines) f)

  -- The loop, until the channel is closed.
  unfoldable pub forward_all : List Message → Forwarding C → Forwarding C
  unfolding forward_one
  forward_all [] f = f
  forward_all (m ∷ ms) f = forward_all ms (forward_one m f)

-- `ServerForwarder::spawn`: the notice, and, if the HTTP client can be built, the drain and the loop.
unfoldable pub spawn :
    {C : Type 0}
    → (C → String → String → C × Option ℕ)
    → Bool
    → Faults
    → String
    → String
    → Option String
    → List Message
    → Disk
    → Net C
    → Forwarding C
unfolding warn_about_the_other_environment drain forward_all
spawn post built fs api_key server_secret log_path messages disk net =
    let spool = logging_to (new_spool api_key) log_path in
    let noticed = warn_about_the_other_environment fs (from_api_key api_key) disk in
    let d = drain post fs spool noticed net in
    let forwarded =
      forward_all post spool server_secret messages
        (record { disk = recovered_notice d.delivered d.disk; net = d.net; warned = false }) in
    if built then forwarded else record { disk = noticed; net = net; warned = false }
