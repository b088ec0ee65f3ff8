-- ===== src/Cli/Sync/Delivery/Attempts.antt =====
-- The attempts that `send_batch` of crates/cli/src/sync.rs makes.
use mathlib.Core.List.{append_assoc, append-nil}
use nanny.Prelude.{
  ℕ, zero, suc, String, ◌+◌, ◌*◌, ◌≤◌, ◌≡◌, ◌≢◌, refl, sym, ap, ◌∙◌, Option, List, [], ◌∷◌, ◌++◌,
  map, push, arith, length,
}
use nanny.Cli.Sync.Delivery.{
  Delivery, sent, retryable, permanent, Post, verdict, Net, post_once, by_verdict, sleep_before,
  send_from, send_batch, send_attempts, backoff_base,
}

abbrev pub posted : String → String → Option ℕ → Post
posted session body answer = record { session = session; body = body; answer = answer }

-- The first answer that decides, or none.
abbrev pub decided : List (Option ℕ) → Delivery
decided [] = retryable
decided (a ∷ rest) = elim (verdict a) [
  | sent ↦ sent
  | permanent status ↦ permanent status
  | retryable ↦ decided rest
]

-- Nothing follows an answer that decides.
abbrev pub StopsWhenDecided : List (Option ℕ) → Type 0
StopsWhenDecided [] = Unit
StopsWhenDecided (a ∷ rest) = (verdict a ≢ retryable → rest ≡ []) × StopsWhenDecided rest

-- What the sleeps of `n` attempts come to at most.
abbrev pub longest_sleep : ℕ → ℕ → ℕ
longest_sleep zero backoff = 0
longest_sleep (suc zero) backoff = 0
longest_sleep (suc (suc n)) backoff = backoff + longest_sleep (suc n) (backoff * 2)

module _ {C : Type 0} (session body : String) where
  -- The run of the loop, from the answers that it saw.
  pub record IsRun (n backoff : ℕ) (net net' : Net C) (d : Delivery) (answers : List (Option ℕ))
      : Type 0 where
    pub posts_are : net'.posts ≡ net.posts ++ map (posted session body) answers
    pub decision : d ≡ decided answers
    pub stops : StopsWhenDecided answers
    pub at_most : length answers ≤ n
    pub all_tried : d ≡ retryable → length answers ≡ n
    pub slept_for : net'.slept ≤ net.slept + longest_sleep n backoff

module _ {C : Type 0} (post : C → String → String → C × Option ℕ) (session body : String) where
  Outcome : ℕ → ℕ → Net C → Net C × Delivery → Type 0
  Outcome n backoff net r =
      (answers : List (Option ℕ)) × IsRun session body n backoff net r.0 r.1 answers

  -- One answer that decides.
  one_answer :
      (n backoff : ℕ) (net : Net C) (d : Delivery)
      → verdict (post_once post session body net).1 ≡ d
      → d ≢ retryable
      → d ≡ decided ((post_once post session body net).1 ∷ [])
      → Outcome (suc n) backoff net ((post_once post session body net).0, d)
  unfolding Outcome post_once
  one_answer n backoff net d e decides same = (
    (post_once post session body net).1 ∷ [],
    record {
      posts_are = refl;
      decision = same;
      stops = (λ _. refl, tt);
      at_most = omega arith;
      all_tried = λ k. absurd (decides k);
      slept_for = omega arith;
    },
  )

  sleep_before-slept :
      (n backoff slept : ℕ) (net net' : Net C)
      → slept ≤ (sleep_before post n backoff net').slept + longest_sleep n (backoff * 2)
      → net'.slept ≡ net.slept
      → slept ≤ net.slept + longest_sleep (suc n) backoff
  sleep_before-slept zero backoff slept net net' h e = omega arith
  sleep_before-slept (suc n) backoff slept net net' h e = omega arith

  sleep_before-posts :
      (n backoff : ℕ) (net : Net C) → (sleep_before post n backoff net).posts ≡ net.posts
  sleep_before-posts zero backoff net = refl
  sleep_before-posts (suc n) backoff net = refl

  -- An answer that does not decide, and what follows it.
  more_answers :
      (n backoff : ℕ) (net : Net C) (r : Net C × Delivery)
      → verdict (post_once post session body net).1 ≡ retryable
      → Outcome n (backoff * 2) (sleep_before post n backoff (post_once post session body net).0) r
      → Outcome (suc n) backoff net r
  unfolding Outcome
  more_answers n backoff net r e (answers, h) =
      let answer = (post_once post session body net).1 in
      let net' = (post_once post session body net).0 in
      let before : net'.posts ≡ push net.posts (posted session body answer) =
        unfold post_once in refl in
      (
        answer ∷ answers,
        record {
          posts_are =
              h.posts_are
              ∙ ap (λ ps. ps ++ map (posted session body) answers)
                  (sleep_before-posts n backoff net' ∙ before)
              ∙ append_assoc net.posts (posted session body answer ∷ [])
                  (map (posted session body) answers);
          decision = rw (e, decided) h.decision;
          stops = ((λ k. absurd (k e)), h.stops);
          at_most = omega (arith, h.at_most);
          all_tried = λ k. omega (arith, h.all_tried k);
          slept_for =
              sleep_before-slept n backoff r.0.slept net net' h.slept_for
                (unfold post_once in refl);
        },
      )

  by_verdict-Outcome :
      (n backoff : ℕ) (net : Net C) (rest : Net C × Delivery) (v : Delivery)
      → verdict (post_once post session body net).1 ≡ v
      → Outcome n
          (backoff * 2)
          (sleep_before post n backoff (post_once post session body net).0)
          rest
      → Outcome (suc n) backoff net (by_verdict post (post_once post session body net).0 rest v)
  by_verdict-Outcome n backoff net rest sent e h =
      one_answer n backoff net sent e (λ k. cc) (rw (e, decided))
  by_verdict-Outcome n backoff net rest (permanent status) e h =
      one_answer n backoff net (permanent status) e (λ k. cc) (rw (e, decided))
  by_verdict-Outcome n backoff net rest retryable e h = more_answers n backoff net rest e h

  send_from-Outcome :
      (n backoff : ℕ) (net : Net C)
      → Outcome n backoff net (send_from post n backoff session body net)
  unfolding send_from
  send_from-Outcome zero backoff net =
      unfold Outcome in
      (
        [],
        record {
          posts_are = sym (append-nil net.posts);
          decision = refl;
          stops = tt;
          at_most = omega arith;
          all_tried = λ _. refl;
          slept_for = omega arith;
        },
      )
  send_from-Outcome (suc n) backoff net =
      by_verdict-Outcome n backoff net _ (verdict (post_once post session body net).1) refl (
        send_from-Outcome n (backoff * 2)
          (sleep_before post n backoff (post_once post session body net).0))

  -- A batch is posted at most four times, each time the same, until an answer decides; the outcome is
  -- the first that decides, or to try again later if four did not; nothing is posted after a decision,
  -- and the sleeps between come to 1750 ms at most.
  pub send_batch-IsRun :
      (net : Net C)
      → (answers : List (Option ℕ)) × IsRun session body 4 250 net
          (send_batch post session body net).0
          (send_batch post session body net).1
          answers
  unfolding send_batch Outcome
  send_batch-IsRun net = send_from-Outcome send_attempts backoff_base net
