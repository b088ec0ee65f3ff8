-- ===== src/Cli/Sync/Spool/Draining.antt =====
-- What becomes of the batches of an outbox that is drained (`drain` of crates/cli/src/sync.rs).
use mathlib.Core.List.{append_assoc, append-nil}
use mathlib.Core.Path.{subst}
use nanny.Cli.Sync.Spool.Listing.{IsListing, entries-IsListing}
use nanny.Prelude.{
  ℕ, String, ◌+◌, ◌≡◌, refl, sym, ap, ◌∙◌, true, Option, List, [], ◌∷◌, ◌++◌, map, arith,
  split_once, inl, inr, Option-cases,
}
use nanny.Cli.Sync.{other}
use nanny.Cli.Sync.Disk.{Disk, Faults, files_of, say, without_file, remove_file, read_to_string}
use nanny.Cli.Sync.Disk.Laws.{files_of-remove_file, files_of-say, other-remove_file}
use nanny.Cli.Sync.Delivery.{Delivery, sent, retryable, permanent, Net}
use nanny.Cli.Sync.Delivery.Attempts.{IsRun, send_batch-IsRun}
use nanny.Cli.Sync.Spool.{Spool, entries, dropped_notice, refused_stored}
use nanny.Cli.Sync.Spool.Drain.{SpoolDrain, settle, stop_or, drain_from, drain}
use nanny.Cli.Sync.Spool.Fates.{
  Fate, unreadable, malformed, tried, left_by, left_by_all, delivered_by, posts_of, posts_of_all,
  StopsAtHeld, IsFair, IsFateOf, AreFatesOf, IsDrained,
}

module _ {C : Type 0} (fs : Faults) (spool : Spool)
    (removes : (n : String) → fs.removes n ≡ true) where
  Outcome : List (String × ℕ) → SpoolDrain C → SpoolDrain C → Type 0
  Outcome held d d' =
      (fates : List (String × Fate)) × (untried : List String) × IsDrained spool.environment held d
        d' fates untried

  -- One batch, and the loop over the rest.
  prepend :
      (name : String) (size : ℕ) (held : List (String × ℕ)) (d d1 d' : SpoolDrain C) (fate : Fate)
      → ((fates : List (String × Fate)) (untried : List String)
          → StopsAtHeld fates untried
          → StopsAtHeld ((name, fate) ∷ fates) untried)
      → IsFateOf (read_to_string spool.environment name d.disk) fate
      → IsFair (name, fate)
      → d1.net.posts ≡ d.net.posts ++ posts_of fate
      → files_of spool.environment d1.disk ≡ left_by name fate (files_of spool.environment d.disk)
      → files_of (other spool.environment) d1.disk ≡ files_of (other spool.environment) d.disk
      → d1.delivered ≡ d.delivered + delivered_by fate
      → Outcome held d1 d'
      → Outcome ((name, size) ∷ held) d d'
  unfolding Outcome
  prepend name size held d d1 d' fate go says fair posts left beside counted (fates, untried, h) = (
    (name, fate) ∷ fates,
    untried,
    record {
      in_order = ap (λ ns. name ∷ ns) h.in_order;
      stops = go fates untried h.stops;
      of_files = (says, subst (AreFatesOf fates) left h.of_files);
      fair = (fair, h.fair);
      posts_are =
          h.posts_are
          ∙ ap (λ ps. ps ++ posts_of_all fates) posts
          ∙ append_assoc d.net.posts (posts_of fate) (posts_of_all fates);
      left = h.left ∙ ap (left_by_all fates) left;
      beside = h.beside ∙ beside;
      counted = omega (arith, h.counted, counted);
    },
  )

module _ {C : Type 0} (post : C → String → String → C × Option ℕ) (fs : Faults) (spool : Spool)
    (removes : (n : String) → fs.removes n ≡ true) where
  -- A batch that was posted, by the outcome.
  after_post :
      (name : String) (size : ℕ) (held : List (String × ℕ)) (d : SpoolDrain C)
      (session body : String) (net' : Net C) (outcome : Delivery) (answers : List (Option ℕ))
      → IsFateOf (read_to_string spool.environment name d.disk) (tried session body answers)
      → IsRun session body 4 250 d.net net' outcome answers
      → ((d1 : SpoolDrain C) → Outcome fs spool removes held d1 (drain_from post fs spool held d1))
      → Outcome fs spool removes ((name, size) ∷ held) d (
          stop_or outcome
            (settle fs spool name d net' outcome)
            (drain_from post fs spool held (settle fs spool name d net' outcome)))
  after_post name size held d session body net' sent answers says run rest =
      prepend fs spool removes name size held d (settle fs spool name d net' sent) _
        (tried session body answers) (λ fates untried s. rw (← run.decision, StopsAtHeld) s) says
        (run.stops, run.at_most, λ k. run.all_tried (run.decision ∙ k)) run.posts_are
        (rw (← run.decision) (files_of-remove_file fs spool.environment name d.disk (removes name)))
        (other-remove_file fs spool.environment name d.disk) (rw (← run.decision) (omega arith))
        (rest (settle fs spool name d net' sent))
  after_post name size held d session body net' (permanent status) answers says run rest =
      let line = dropped_notice (refused_stored status) spool.log_path in
      prepend fs spool removes name size held d (settle fs spool name d net' (permanent status)) _
        (tried session body answers) (λ fates untried s. rw (← run.decision, StopsAtHeld) s) says
        (run.stops, run.at_most, λ k. run.all_tried (run.decision ∙ k)) run.posts_are
        (rw (← run.decision) (
          files_of-remove_file fs spool.environment name (say line d.disk) (removes name)
          ∙ ap (without_file name) (files_of-say spool.environment line d.disk)))
        (other-remove_file fs spool.environment name (say line d.disk)
          ∙ files_of-say (other spool.environment) line d.disk)
        (rw (← run.decision) (omega arith)) (rest (settle fs spool name d net' (permanent status)))
  after_post name size held d session body net' retryable answers says run rest =
      unfold Outcome in
      (
        (name, tried session body answers) ∷ [],
        map (λ e. e.0) held,
        record {
          in_order = refl;
          stops = rw (← run.decision, StopsAtHeld) refl;
          of_files = (says, tt);
          fair = ((run.stops, run.at_most, λ k. run.all_tried (run.decision ∙ k)), tt);
          posts_are = run.posts_are ∙ ap (λ ps. d.net.posts ++ ps) (sym (append-nil _));
          left = rw (← run.decision) refl;
          beside = refl;
          counted = rw (← run.decision) (omega arith);
        },
      )

  drain_from-Outcome :
      (held : List (String × ℕ)) (d : SpoolDrain C)
      → Outcome fs spool removes held d (drain_from post fs spool held d)
  unfolding drain_from
  drain_from-Outcome [] d =
      unfold Outcome in
      (
        [],
        [],
        record {
          in_order = refl;
          stops = refl;
          of_files = tt;
          fair = tt;
          posts_are = sym (append-nil d.net.posts);
          left = refl;
          beside = refl;
          counted = omega arith;
        },
      )
  drain_from-Outcome ((name, size) ∷ held) d =
      elim (Option-cases (read_to_string spool.environment name d.disk)) [
        | inl e ↦
            rw (e, drain_from)
              (prepend fs spool removes name size held d d _ unreadable (λ fates untried s. s) e tt
                (sym (append-nil d.net.posts)) refl refl (omega arith) (drain_from-Outcome held d))
        | inr (contents, e) ↦
            rw (e, drain_from)
              (elim (Option-cases (split_once 10 contents)) [
                | inl m ↦
                    let d1 = record d { disk = remove_file fs spool.environment name d.disk } in
                    rw m (
                      prepend fs spool removes name size held d d1 _ malformed
                        (λ fates untried s. s) (contents, e, m) tt (sym (append-nil d.net.posts))
                        (files_of-remove_file fs spool.environment name d.disk (removes name))
                        (other-remove_file fs spool.environment name d.disk) (omega arith)
                        (drain_from-Outcome held d1))
                | inr ((session, body), m) ↦
                    let (answers, run) = send_batch-IsRun post session body d.net in
                    rw m (
                      after_post name size held d session body _ _ answers (contents, e, m) run
                        (λ d1. drain_from-Outcome held d1))
              ])
      ]

  -- If files can be removed, a drain goes through the batches of its environment in the order of their
  -- names: all the files with the extension `ndjson` and a size, or none if the directory cannot be
  -- listed. It posts each that can be read under the session that is its first line, with the rest as
  -- the body, at most four times and until an answer decides, and ends after one that four answers did
  -- not decide. It removes exactly those that were delivered, refused for good, or without a session
  -- line, and counts those that were delivered; the other environment's outbox is not touched.
  pub drain-IsDrained :
      (disk : Disk) (net : Net C)
      → IsListing fs.lists (files_of spool.environment disk) (entries fs spool disk)
        × ((fates : List (String × Fate)) × (untried : List String) × IsDrained spool.environment
              (entries fs spool disk)
              (record { disk = disk; net = net; delivered = 0 })
              (drain post fs spool disk net)
              fates
              untried)
  unfolding drain Outcome
  drain-IsDrained disk net = (
    entries-IsListing fs spool disk,
    drain_from-Outcome (entries fs spool disk) (record { disk = disk; net = net; delivered = 0 }),
  )
