-- ===== src/Cli/Sync/Forwarder/Conservation.antt =====
-- What the loop of `ServerForwarder` of crates/cli/src/sync.rs does with every batch that comes.
use mathlib.Core.List.{append_assoc, append-nil}
use nanny.Prelude.{
  ℕ, String, ◌≤◌, ◌≡◌, refl, sym, ap, ◌∙◌, Bool, true, false, ◌||◌, Option, List, [], ◌∷◌, ◌++◌,
  map, arith, length, select, any, All, join, ◌<>◌, if_rule,
}
use nanny.Cli.Sync.{Environment, other}
use nanny.Cli.Sync.Disk.{Disk, files_of}
use nanny.Cli.Sync.Disk.Laws.{files_of-say}
use nanny.Cli.Sync.Delivery.{Delivery, sent, retryable, permanent, Post, Net}
use nanny.Cli.Sync.Delivery.Attempts.{posted, decided, StopsWhenDecided, IsRun, send_batch-IsRun}
use nanny.Cli.Sync.Spool.{Spool, store}
use nanny.Cli.Sync.Spool.Isolation.{other-store}
use nanny.Cli.Sync.Forwarder.{
  Message, Forwarding, session_of, warn, unreachable_notice, hold_or_drop, send_message,
  forward_one, forward_all, unless_empty,
}

-- A batch that was sent, and the answers to its posts.
abbrev pub Try : Type 0
Try = Message × List (Option ℕ)

abbrev is_nonempty : List String → Bool
is_nonempty [] = false
is_nonempty (l ∷ ls) = true

abbrev pub has_lines : Message → Bool
has_lines m = is_nonempty m.lines

abbrev pub posts_of : String → Try → List Post
posts_of secret (m, answers) = map (posted (secret <> ":" <> m.run_id) (join "\n" m.lines)) answers

abbrev pub posts_of_all : String → List Try → List Post
posts_of_all secret [] = []
posts_of_all secret (t ∷ ts) = posts_of secret t ++ posts_of_all secret ts

abbrev pub is_unsent : Delivery → Bool
is_unsent sent = false
is_unsent _ = true

abbrev pub was_unsent : Try → Bool
was_unsent (m, answers) = is_unsent (decided answers)

abbrev pub IsFair : Try → Type 0
IsFair (m, answers) =
    StopsWhenDecided answers
    × (length answers ≤ 4)
    × (decided answers ≡ retryable → length answers ≡ 4)

-- The outbox after a batch: the batch is stored, if no answer decided, or nothing changes.
abbrev pub IsHeld : Spool → String → Try → Disk → Disk → Type 0
IsHeld spool secret (m, answers) disk disk' = elim (decided answers) [
  | retryable ↦
      files_of spool.environment disk'
      ≡ files_of spool.environment (
          store m.faults spool m.millis m.uuid (secret <> ":" <> m.run_id) (join "\n" m.lines) disk)
  | _ ↦ files_of spool.environment disk' ≡ files_of spool.environment disk
]

-- The outbox after some batches, one after the other.
abbrev pub AreHeld : Spool → String → List Try → Disk → Disk → Type 0
AreHeld spool secret [] disk disk' =
    files_of spool.environment disk' ≡ files_of spool.environment disk
AreHeld spool secret (t ∷ ts) disk disk' =
    (between : Disk) × IsHeld spool secret t disk between × AreHeld spool secret ts between disk'

module _ {C : Type 0} where
  pub record IsForwarded (spool : Spool) (secret : String) (ms : List Message) (f f' : Forwarding C)
      (tries : List Try) : Type 0 where
    pub all_tried : map (λ t. t.0) tries ≡ select has_lines ms
    pub posts_are : f'.net.posts ≡ f.net.posts ++ posts_of_all secret tries
    pub fair : All IsFair tries
    pub warned_if : f'.warned ≡ (f.warned || any was_unsent tries)
    pub held : AreHeld spool secret tries f.disk f'.disk
    pub beside :
        files_of (other spool.environment) f'.disk ≡ files_of (other spool.environment) f.disk

pub files_of-warn :
    {C : Type 0} (env : Environment) (line : String) (f : Forwarding C)
    → files_of env (warn line f).disk ≡ files_of env f.disk
files_of-warn env line f =
    if_rule (λ d. files_of env d ≡ files_of env f.disk) f.warned _ _ refl
      (files_of-say env line f.disk)

-- One batch.
record IsSent {C : Type 0} (spool : Spool) (secret : String) (m : Message) (f f' : Forwarding C)
    (answers : List (Option ℕ)) : Type 0 where
  posts_are : f'.net.posts ≡ f.net.posts ++ posts_of secret (m, answers)
  fair : IsFair (m, answers)
  warned_if : f'.warned ≡ (f.warned || was_unsent (m, answers))
  held : IsHeld spool secret (m, answers) f.disk f'.disk
  beside : files_of (other spool.environment) f'.disk ≡ files_of (other spool.environment) f.disk

module _ {C : Type 0} (post : C → String → String → C × Option ℕ) (spool : Spool)
    (secret : String) where
  held_or_dropped :
      (m : Message) (f : Forwarding C) (net' : Net C) (outcome : Delivery)
      (answers : List (Option ℕ))
      → let session = session_of secret m.run_id in
        let body = join "\n" m.lines in
        IsRun session body 4 250 f.net net' outcome answers
        → IsSent spool secret m f
            (hold_or_drop spool m session body (record f { net = net' }) outcome)
            answers
  held_or_dropped m f net' sent answers run = record {
    posts_are = run.posts_are;
    fair = (run.stops, run.at_most, λ k. run.all_tried (run.decision ∙ k));
    warned_if = rw (← run.decision) (ground arith);
    held = rw (← run.decision, IsHeld) refl;
    beside = refl;
  }
  held_or_dropped m f net' retryable answers run = record {
    posts_are = run.posts_are;
    fair = (run.stops, run.at_most, λ k. run.all_tried (run.decision ∙ k));
    warned_if = rw (← run.decision) (ground arith);
    held =
        rw (← run.decision, IsHeld)
          (files_of-warn spool.environment unreachable_notice
            (record f { net = net'; disk = store m.faults spool m.millis m.uuid _ _ f.disk }));
    beside =
        files_of-warn (other spool.environment) unreachable_notice
          (record f { net = net'; disk = store m.faults spool m.millis m.uuid _ _ f.disk })
        ∙ other-store m.faults spool m.millis m.uuid _ _ f.disk;
  }
  held_or_dropped m f net' (permanent status) answers run = record {
    posts_are = run.posts_are;
    fair = (run.stops, run.at_most, λ k. run.all_tried (run.decision ∙ k));
    warned_if = rw (← run.decision) (ground arith);
    held =
        rw (← run.decision, IsHeld) (files_of-warn spool.environment _ (record f { net = net' }));
    beside = files_of-warn (other spool.environment) _ (record f { net = net' });
  }

  prepend :
      (m : Message) (ms : List Message) (f f1 f' : Forwarding C) (answers : List (Option ℕ))
      (tries : List Try)
      → has_lines m ≡ true
      → IsSent spool secret m f f1 answers
      → IsForwarded spool secret ms f1 f' tries
      → IsForwarded spool secret (m ∷ ms) f f' ((m, answers) ∷ tries)
  prepend m ms f f1 f' answers tries e s h = record {
    all_tried = rw e (ap (λ r. m ∷ r) h.all_tried);
    posts_are =
        h.posts_are
        ∙ ap (λ ps. ps ++ posts_of_all secret tries) s.posts_are
        ∙ append_assoc f.net.posts (posts_of secret (m, answers)) (posts_of_all secret tries);
    fair = (s.fair, h.fair);
    warned_if = ground (arith, h.warned_if, s.warned_if);
    held = (f1.disk, s.held, h.held);
    beside = h.beside ∙ s.beside;
  }

  Outcome : List Message → Forwarding C → Forwarding C → Type 0
  Outcome ms f f' = (tries : List Try) × IsForwarded spool secret ms f f' tries

  onward :
      (m : Message) (lines : List String) (ms : List Message) (f : Forwarding C)
      → is_nonempty lines ≡ has_lines m
      → ((f1 : Forwarding C) → Outcome ms f1 (forward_all post spool secret ms f1))
      → Outcome (m ∷ ms) f (
          forward_all post spool secret ms
            (unless_empty lines f (send_message post spool secret m (join "\n" m.lines) f)))
  unfolding Outcome
  onward m [] ms f e rest =
      let (tries, h) = rest f in
      (
        tries,
        record {
          all_tried = h.all_tried ∙ ground (arith, e);
          posts_are = h.posts_are;
          fair = h.fair;
          warned_if = h.warned_if;
          held = h.held;
          beside = h.beside;
        },
      )
  onward m (l ∷ ls) ms f e rest =
      let (answers, run) =
        send_batch-IsRun post (session_of secret m.run_id) (join "\n" m.lines) f.net in
      let f1 = send_message post spool secret m (join "\n" m.lines) f in
      let s : IsSent spool secret m f f1 answers =
        unfold send_message in held_or_dropped m f _ _ answers run in
      let (tries, h) = rest f1 in
      ((m, answers) ∷ tries, prepend m ms f f1 _ answers tries (sym e) s h)

  forward_all-Outcome :
      (ms : List Message) (f : Forwarding C) → Outcome ms f (forward_all post spool secret ms f)
  unfolding forward_all forward_one
  forward_all-Outcome [] f =
      unfold Outcome in
      (
        [],
        record {
          all_tried = refl;
          posts_are = sym (append-nil f.net.posts);
          fair = tt;
          warned_if = ground arith;
          held = refl;
          beside = refl;
        },
      )
  forward_all-Outcome (m ∷ ms) f = onward m m.lines ms f refl (λ f1. forward_all-Outcome ms f1)

  -- Until the channel is closed, the forwarder posts every batch that has lines, in the order in which
  -- they come, each under the server's secret and its run's id: at most four times, until an answer
  -- decides, and four times if none does. It stores exactly the batches that no answer decided, each
  -- under its session, in its environment's outbox, has warned exactly if a batch was not accepted,
  -- and does not touch the other environment's outbox.
  pub forward_all-IsForwarded :
      (ms : List Message) (f : Forwarding C)
      → (tries : List Try) × IsForwarded spool secret ms f
          (forward_all post spool secret ms f)
          tries
  unfolding Outcome
  forward_all-IsForwarded ms f = forward_all-Outcome ms f
