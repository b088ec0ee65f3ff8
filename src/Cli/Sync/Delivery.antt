-- ===== src/Cli/Sync/Delivery.antt =====
-- crates/cli/src/sync.rs: the delivery of one batch. The cloud, behind the HTTP client, is an unknown
-- state with an answer to each POST; the model keeps the posts that were made, and the time slept.
pub mod Attempts
use nanny.Prelude.{
  ℕ, zero, suc, String, ◌+◌, ◌*◌, Bool, true, false, ◌&&◌, ◌||◌, Option, none, some, List, push,
  ltb, leb, ◌==◌, nat_eq, if◌then◌else◌,
}

abbrev pub send_attempts : ℕ
send_attempts = 4

-- In milliseconds.
abbrev pub backoff_base : ℕ
backoff_base = 250

pub data Delivery : Type 0 where
  sent : Delivery
  retryable : Delivery
  permanent : (status : ℕ) → Delivery

-- What is posted, and the status of the answer: `none` is a transport error.
pub record Post : Type 0 where
  pub session : String
  pub body : String
  pub answer : Option ℕ

-- `reqwest::StatusCode::is_success`, `is_server_error`
abbrev pub is_success : ℕ → Bool
is_success status = leb 200 status && ltb status 300

abbrev pub is_server_error : ℕ → Bool
is_server_error status = leb 500 status && ltb status 600

-- What one answer says.
unfoldable pub verdict : Option ℕ → Delivery
verdict none = retryable
verdict (some status) =
    if is_success status
    then sent
    else if (status == 429) || is_server_error status
    then retryable
    else permanent status

pub record Net (C : Type 0) : Type 0 where
  pub cloud : C
  pub posts : List Post
  pub slept : ℕ

module _ {C : Type 0} (post : C → String → String → C × Option ℕ) where
  -- One POST.
  unfoldable pub post_once : String → String → Net C → Net C × Option ℕ
  post_once session body net =
      let (cloud, answer) = post net.cloud session body in
      (
        record net {
          cloud = cloud;
          posts = push net.posts (record { session = session; body = body; answer = answer });
        },
        answer,
      )

  -- `if attempt < SEND_ATTEMPTS { sleep(backoff) }`
  abbrev pub sleep_before : ℕ → ℕ → Net C → Net C
  sleep_before zero backoff net = net
  sleep_before (suc n) backoff net = record net { slept = net.slept + backoff }

  -- What an answer leads to: a return, or the rest of the loop.
  abbrev pub by_verdict : Net C → Net C × Delivery → Delivery → Net C × Delivery
  by_verdict net rest sent = (net, sent)
  by_verdict net rest (permanent status) = (net, permanent status)
  by_verdict net rest retryable = rest

  -- The loop, with the attempts that are left.
  unfoldable pub send_from : ℕ → ℕ → String → String → Net C → Net C × Delivery
  unfolding post_once verdict
  send_from zero backoff session body net = (net, retryable)
  send_from (suc n) backoff session body net =
      let (net', answer) = post_once session body net in
      let rest = send_from n (backoff * 2) session body (sleep_before n backoff net') in
      by_verdict net' rest (verdict answer)

  -- `send_batch`
  unfoldable pub send_batch : String → String → Net C → Net C × Delivery
  unfolding send_from
  send_batch session body net = send_from send_attempts backoff_base session body net
