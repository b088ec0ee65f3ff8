-- ===== src/Cli/Sync/Spool/Fates.antt =====
-- The fates of the batches of an outbox of crates/cli/src/sync.rs that is drained.
use nanny.Prelude.{
  split_once, ℕ, String, ◌+◌, ◌≤◌, ◌≡◌, Option, none, some, List, [], ◌∷◌, ◌++◌, map, length, All,
}
use nanny.Cli.Sync.{Environment, other}
use nanny.Cli.Sync.Disk.{SpoolFile, files_of, without_file, find_file, read_contents}
use nanny.Cli.Sync.Delivery.{Delivery, sent, retryable, Post}
use nanny.Cli.Sync.Delivery.Attempts.{posted, decided, StopsWhenDecided}
use nanny.Cli.Sync.Spool.Drain.{SpoolDrain}

-- What became of one batch: it could not be read, it had no session line, or it was posted, and answered.
pub data Fate : Type 0 where
  unreadable : Fate
  malformed : Fate
  tried : (session body : String) → (answers : List (Option ℕ)) → Fate

abbrev after_verdict : String → List SpoolFile → Delivery → List SpoolFile
after_verdict name files retryable = files
after_verdict name files _ = without_file name files

-- What a fate leaves in the directory.
abbrev pub left_by : String → Fate → List SpoolFile → List SpoolFile
left_by name unreadable files = files
left_by name malformed files = without_file name files
left_by name (tried session body answers) files = after_verdict name files (decided answers)

abbrev pub left_by_all : List (String × Fate) → List SpoolFile → List SpoolFile
left_by_all [] files = files
left_by_all ((name, fate) ∷ fates) files = left_by_all fates (left_by name fate files)

abbrev one_if_sent : Delivery → ℕ
one_if_sent sent = 1
one_if_sent _ = 0

abbrev pub delivered_by : Fate → ℕ
delivered_by (tried session body answers) = one_if_sent (decided answers)
delivered_by _ = 0

abbrev pub delivered_by_all : List (String × Fate) → ℕ
delivered_by_all [] = 0
delivered_by_all ((name, fate) ∷ fates) = delivered_by fate + delivered_by_all fates

abbrev pub posts_of : Fate → List Post
posts_of (tried session body answers) = map (posted session body) answers
posts_of _ = []

abbrev pub posts_of_all : List (String × Fate) → List Post
posts_of_all [] = []
posts_of_all ((name, fate) ∷ fates) = posts_of fate ++ posts_of_all fates

-- A batch that cannot be sent yet is the last that is tried; without one, all are.
abbrev pub StopsAtHeld : List (String × Fate) → List String → Type 0
StopsAtHeld [] untried = untried ≡ []
StopsAtHeld ((name, tried session body answers) ∷ fates) untried = elim (decided answers) [
  | retryable ↦ fates ≡ []
  | _ ↦ StopsAtHeld fates untried
]
StopsAtHeld ((name, _) ∷ fates) untried = StopsAtHeld fates untried

-- At most four posts of a batch, none after one that decides, and all four if none decides.
abbrev pub IsFair : String × Fate → Type 0
IsFair (name, tried session body answers) =
    StopsWhenDecided answers
    × (length answers ≤ 4)
    × (decided answers ≡ retryable → length answers ≡ 4)
IsFair (name, _) = Unit

-- What the text of a file says of its fate: the session is its first line, the body is what follows.
abbrev pub IsFateOf : Option String → Fate → Type 0
IsFateOf contents unreadable = contents ≡ none
IsFateOf contents malformed = (text : String) × (contents ≡ some text) × (split_once 10 text ≡ none)
IsFateOf contents (tried session body answers) =
    (text : String) × (contents ≡ some text) × (split_once 10 text ≡ some (session, body))

-- Each batch has the fate of the file of its name, as the fates before it leave the directory.
abbrev pub AreFatesOf : List (String × Fate) → List SpoolFile → Type 0
AreFatesOf [] files = Unit
AreFatesOf ((name, fate) ∷ fates) files =
    IsFateOf (read_contents (find_file name files)) fate
    × AreFatesOf fates (left_by name fate files)

module _ {C : Type 0} where
  pub record IsDrained (env : Environment) (held : List (String × ℕ)) (d d' : SpoolDrain C)
      (fates : List (String × Fate)) (untried : List String) : Type 0 where
    pub in_order : map (λ e. e.0) held ≡ map (λ e. e.0) fates ++ untried
    pub stops : StopsAtHeld fates untried
    pub of_files : AreFatesOf fates (files_of env d.disk)
    pub fair : All IsFair fates
    pub posts_are : d'.net.posts ≡ d.net.posts ++ posts_of_all fates
    pub left : files_of env d'.disk ≡ left_by_all fates (files_of env d.disk)
    pub beside : files_of (other env) d'.disk ≡ files_of (other env) d.disk
    pub counted : d'.delivered ≡ d.delivered + delivered_by_all fates
