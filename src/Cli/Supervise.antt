-- ===== src/Cli/Supervise.antt =====
-- crates/cli/src/commands/server.rs: how `run_governor_with_app` watches its app, and what it makes of its
-- end. The threads, the signals and the waiting are left out.
use nanny.Prelude.{
  ℕ, String, ◌≡◌, ◌↔◌, ◌⊎◌, inl, inr, refl, ap, ◌∙◌, Bool, true, false, Option, none, some, List,
  [], ◌∷◌, ◌++◌, arith, if◌then◌else◌, eq_iff, string_eq,
}

-- `ExitStatus`: whether it is a success, and the code, if the app was not ended by a signal. The
-- default is the one of success.
pub record ExitStatus : Type 0 where
  pub success : Bool
  pub code : Option ℕ

abbrev pub default_status : ExitStatus
default_status = record { success = true; code = some 0 }

-- One round: `try_wait`, and, if the app still runs, whether the governor's thread has ended.
pub data Round : Type 0 where
  failed_to_poll : Round
  exited : ExitStatus → Round
  running : (governor_finished : Bool) → Round

-- What the loop comes to, with whether it killed the app.
pub data Watched : Type 0 where
  watching poll_error : Watched
  ended : (status : ExitStatus) → (killed : Bool) → Watched

abbrev pub decided : Round → Watched
decided failed_to_poll = poll_error
decided (exited status) = ended status false
decided (running true) = ended default_status true
decided (running false) = watching

abbrev settle : Watched → Watched → Watched
settle watching rest = rest
settle poll_error rest = poll_error
settle (ended status killed) rest = ended status killed

-- The loop.
unfoldable pub watch : List Round → Watched
watch [] = watching
watch (round ∷ rounds) = settle (decided round) (watch rounds)

-- The reason that the drain thread writes into every run that is still live.
abbrev pub reason_for : ExitStatus → String
reason_for status = if status.success then "AgentCompleted" else "ProcessCrashed"

abbrev pub code_or_one : Option ℕ → ℕ
code_or_one none = 1
code_or_one (some code) = code

-- The code with which nanny exits.
abbrev pub exit_code : ExitStatus → ℕ
exit_code status = if status.success then 0 else code_or_one status.code

-- The reason that is recorded and the code of the process, once the loop has ended.
unfoldable pub closing : Watched → Option (String × ℕ)
closing watching = none
closing poll_error = none
closing (ended status killed) = some (reason_for status, exit_code status)

abbrev pub IsQuiet : List Round → Type 0
IsQuiet [] = Unit
IsQuiet (round ∷ rounds) = (round ≡ running false) × IsQuiet rounds

-- The app ended with success, or the governor ended and the app was killed for it.
abbrev pub IsClean : Round → Type 0
IsClean last =
    (last ≡ running true)
    ⊎ ((status : ExitStatus) × (last ≡ exited status) × (status.success ≡ true))

watch-IsQuiet :
    (before rounds : List Round) → IsQuiet before → watch (before ++ rounds) ≡ watch rounds
unfolding watch
watch-IsQuiet [] rounds h = refl
watch-IsQuiet (round ∷ before) rounds (q, h) = rw q (watch-IsQuiet before rounds h)

clean-closing :
    (last : Round) (after : List Round)
    → IsClean last
    → closing (watch (last ∷ after)) ≡ some ("AgentCompleted", 0)
unfolding watch closing
clean-closing last after (inl e) = rw e refl
clean-closing last after (inr (status, e, s)) = rw e (ground (arith, s))

abbrev pub EndsClean : List Round → Type 0
EndsClean rounds =
    (before : List Round) × (after : List Round) × (last : Round) × (rounds
      ≡ before ++ last ∷ after)
    × IsQuiet before
    × IsClean last

closing-EndsClean :
    (rounds : List Round) → closing (watch rounds) ≡ some ("AgentCompleted", 0) → EndsClean rounds
unfolding watch closing
closing-EndsClean [] h = cc
closing-EndsClean (failed_to_poll ∷ rounds) h = cc
closing-EndsClean (exited status ∷ rounds) h = (
  [],
  rounds,
  exited status,
  refl,
  tt,
  inr (status, refl, ground (arith, h, eq_iff "ProcessCrashed" "AgentCompleted")),
)
closing-EndsClean (running true ∷ rounds) h = ([], rounds, running true, refl, tt, inl refl)
closing-EndsClean (running false ∷ rounds) h =
    let (before, after, last, e, q, c) = closing-EndsClean rounds h in
    (running false ∷ before, after, last, ap (λ l. running false ∷ l) e, (refl, q), c)

-- Once the loop of `run_governor_with_app` has ended, the reason that it leaves for the runs that are still
-- live is `AgentCompleted`, and nanny's exit code is 0, exactly if, after rounds in which the app and
-- the governor were both running, the app had ended with success or the governor had ended, for which
-- the app is killed.
pub closing-EndsClean_iff :
    (rounds : List Round) → (closing (watch rounds) ≡ some ("AgentCompleted", 0)) ↔ EndsClean rounds
closing-EndsClean_iff rounds = (
  closing-EndsClean rounds,
  λ (before, after, last, e, q, c).
      ap (λ l. closing (watch l)) e
      ∙ ap closing (watch-IsQuiet before (last ∷ after) q)
      ∙ clean-closing last after c,
)
