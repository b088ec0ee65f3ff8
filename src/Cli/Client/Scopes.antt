-- ===== src/Cli/Client/Scopes.antt =====
-- crates/cli/src/lib.rs: which run a governed call belongs to, and the scopes that say so.
use nanny.Prelude.{
  String, ◌≡◌, refl, ap, false, Option, none, some, List, [], ◌∷◌, ◌++◌, is_empty, if◌then◌else◌,
}

-- `filter(|s| !s.is_empty())`
abbrev nonempty_only : Option String → Option String
nonempty_only none = none
nonempty_only (some s) = if is_empty s then none else some s

abbrev or_next : Option String → Option String → Option String
or_next none y = y
or_next (some x) y = some x

-- `run_id`, from the scopes of the task and of the thread and the environment variable.
unfoldable pub run_id : Option String → Option String → Option String → Option String
run_id task thread env =
    or_next (nonempty_only task) (or_next (nonempty_only thread) (nonempty_only env))

-- The guard.
pub record RunScope : Type 0 where
  pub id : String
  pub previous : Option String

abbrev given_or : Option String → String → String
given_or none new_run_id = new_run_id
given_or (some id) new_run_id = id

-- `run_scope`, on the thread's scope, with the id that would be minted.
unfoldable pub run_scope : Option String → String → Option String → Option String × RunScope
run_scope given new_run_id thread =
    let id = given_or given new_run_id in (some id, record { id = id; previous = thread })

-- `RunScope::drop`
unfoldable pub drop_scope : RunScope → Option String → Option String
drop_scope scope thread = scope.previous

-- The code of one thread: governed calls, and blocks that hold a guard.
pub data Code : Type 0 where
  finished : Code
  governed : Code → Code
  scoped : (given : Option String) (new_run_id : String) (inner after : Code) → Code

-- What the thread's scope is in the end, and the run of each call.
unfoldable pub execute :
    Option String → Option String → Code → Option String → Option String × List (Option String)
unfolding run_scope drop_scope run_id
execute task env finished thread = (thread, [])
execute task env (governed after) thread =
    let (thread', runs) = execute task env after thread in (thread', run_id task thread env ∷ runs)
execute task env (scoped given new_run_id inner after) thread =
    let (entered, scope) = run_scope given new_run_id thread in
    let (left, inside) = execute task env inner entered in
    let (thread', runs) = execute task env after (drop_scope scope left) in
    (thread', inside ++ runs)

-- The runs by the text of the code, given the run of the text around it: a call in a block belongs to the
-- block's id, the one that is given or the one that is minted, whatever stands around the block.
abbrev pub lexical : Option String → Code → List (Option String)
lexical around finished = []
lexical around (governed after) = around ∷ lexical around after
lexical around (scoped none new_run_id inner after) =
    lexical (some new_run_id) inner ++ lexical around after
lexical around (scoped (some id) new_run_id inner after) =
    lexical (some id) inner ++ lexical around after

-- The ids of the blocks are not empty.
abbrev pub HasIds : Code → Type 0
HasIds finished = Unit
HasIds (governed after) = HasIds after
HasIds (scoped none new_run_id inner after) =
    (is_empty new_run_id ≡ false) × HasIds inner × HasIds after
HasIds (scoped (some id) new_run_id inner after) =
    (is_empty id ≡ false) × HasIds inner × HasIds after

-- One run for each call.
abbrev pub all_of : String → Code → List (Option String)
all_of t finished = []
all_of t (governed after) = some t ∷ all_of t after
all_of t (scoped given new_run_id inner after) = all_of t inner ++ all_of t after

execute-all_of :
    (task : String) (env : Option String) (code : Code) (thread : Option String)
    → is_empty task ≡ false
    → execute (some task) env code thread ≡ (thread, all_of task code)
unfolding execute run_scope drop_scope run_id
execute-all_of task env finished thread h = refl
execute-all_of task env (governed after) thread h =
    rw (h, execute-all_of task env after thread h) refl
execute-all_of task env (scoped given new_run_id inner after) thread h =
    rw
      (
        execute-all_of task env inner (some (given_or given new_run_id)) h,
        execute-all_of task env after thread h,
      )
      refl

module _ (env : Option String) where
  execute-around :
      (code : Code) (thread around : Option String)
      → run_id none thread env ≡ around
      → HasIds code
      → execute none env code thread ≡ (thread, lexical around code)
  unfolding execute run_scope drop_scope
  execute-around finished thread around e h = refl
  execute-around (governed after) thread around e h =
      rw (execute-around after thread around e h) (ap (λ r. (thread, r ∷ lexical around after)) e)
  execute-around (scoped none new_run_id inner after) thread around e (filled, h, k) =
      rw
        (
          execute-around inner (some new_run_id) (some new_run_id) (rw (run_id, filled) refl) h,
          execute-around after thread around e k,
        )
        refl
  execute-around (scoped (some id) new_run_id inner after) thread around e (filled, h, k) =
      rw
        (
          execute-around inner (some id) (some id) (rw (run_id, filled) refl) h,
          execute-around after thread around e k,
        )
        refl

-- However scopes with ids that are not empty are nested and follow one another in a thread that has none
-- at first: without a task's scope, each governed call belongs to the run of the innermost block that
-- it stands in, or, outside every block, to the run of the variable, if that is set and not empty; in
-- the scope of a task, each belongs to the task's run. The thread's scope is none again in the end.
pub execute-lexical :
    (env task : String) (code : Code)
    → is_empty env ≡ false
    → is_empty task ≡ false
    → HasIds code
    → (execute none none code none ≡ (none, lexical none code))
      × (execute none (some env) code none ≡ (none, lexical (some env) code))
      × (execute none (some "") code none ≡ (none, lexical none code))
      × (execute (some task) (some env) code none ≡ (none, all_of task code))
unfolding run_id
execute-lexical env task code h k ids = (
  execute-around none code none none refl ids,
  execute-around (some env) code none (some env) (rw h refl) ids,
  execute-around (some "") code none none refl ids,
  execute-all_of task (some env) code none k,
)
