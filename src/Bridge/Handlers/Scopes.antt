-- ===== src/Bridge/Handlers/Scopes.antt =====
-- Nested agent scopes: `handle_agent_enter` and `handle_agent_exit` of crates/bridge/src/lib.rs.
use mathlib.Core.List.{append_assoc, append-nil}
use nanny.Prelude.{ℕ, String, ◌≡◌, refl, sym, ap, ◌∙◌, some, List, [], ◌∷◌, ◌++◌, map, push}
use nanny.Core.Events.{ExecutionEvent, LoggedEvent, agent_scope_entered, agent_scope_exited}
use nanny.Bridge.State.{BridgeState, append_event}
use nanny.Bridge.Wire.{Body, Serde}
use nanny.Bridge.ToolCall.{on_parsed}
use nanny.Bridge.Handlers.{handle_agent_enter, handle_agent_exit, pop_or_default}

-- Scopes that a client enters and leaves one after another: each with the body that it posts, its
-- name, and the scopes inside it.
pub data Scopes : Type 0 where
  no_more : Scopes
  scope : (body : Body) (name : String) (inner rest : Scopes) → Scopes

-- Each body reads as the scope's name.
abbrev pub IsReadable : Serde → Scopes → Type 0
IsReadable serde no_more = Unit
IsReadable serde (scope body name inner rest) =
    (serde.agent_enter_request body ≡ some (record { name = name }))
    × IsReadable serde inner
    × IsReadable serde rest

-- The posts, in the order in which they are made.
unfoldable pub visit : Serde → ℕ → Scopes → BridgeState → BridgeState
visit serde ts no_more s = s
visit serde ts (scope body name inner rest) s =
    let entered = (handle_agent_enter serde ts body s).0 in
    visit serde ts rest (handle_agent_exit ts (visit serde ts inner entered)).0

-- The events that are due.
abbrev pub brackets : ℕ → Scopes → List ExecutionEvent
brackets ts no_more = []
brackets ts (scope body name inner rest) =
    agent_scope_entered ts name ∷ brackets ts inner ++ agent_scope_exited ts name ∷ brackets ts rest

abbrev pub events_of : BridgeState → List ExecutionEvent
events_of s = map (λ (l : LoggedEvent). l.event) s.events

pop_or_default-push : (xs : List String) (x : String) → pop_or_default (push xs x) ≡ (xs, x)
pop_or_default-push [] x = refl
pop_or_default-push (y ∷ []) x = refl
pop_or_default-push (y ∷ z ∷ xs) x = rw (pop_or_default-push (z ∷ xs) x)

map-push :
    (ls : List LoggedEvent) (l : LoggedEvent)
    → map (λ (l : LoggedEvent). l.event) (push ls l)
      ≡ push (map (λ (l : LoggedEvent). l.event) ls) l.event
map-push [] l = refl
map-push (k ∷ ls) l = ap (λ es. k.event ∷ es) (map-push ls l)

-- What a stretch of posts does: it leaves the stack, and appends these events.
record Appends (s s' : BridgeState) (stack : List String) (es : List ExecutionEvent) : Type 0 where
  stack_is : s'.agent_name_stack ≡ stack
  events_are : events_of s' ≡ events_of s ++ es

enter-Appends :
    (serde : Serde) (ts : ℕ) (body : Body) (name : String) (s : BridgeState)
    → serde.agent_enter_request body ≡ some (record { name = name })
    → Appends s
        (handle_agent_enter serde ts body s).0
        (push s.agent_name_stack name)
        (agent_scope_entered ts name ∷ [])
unfolding handle_agent_enter append_event
enter-Appends serde ts body name s h =
    rw (h, on_parsed) (record { stack_is = refl; events_are = map-push s.events _ })

exit-Appends :
    (ts : ℕ) (s : BridgeState) (stack : List String) (name : String)
    → s.agent_name_stack ≡ push stack name
    → Appends s (handle_agent_exit ts s).0 stack (agent_scope_exited ts name ∷ [])
unfolding handle_agent_exit append_event
exit-Appends ts s stack name h =
    rw (h, pop_or_default-push stack name)
      (record { stack_is = refl; events_are = map-push s.events _ })

glue :
    (es is rs : List ExecutionEvent) (x y : ExecutionEvent)
    → (((es ++ (x ∷ [])) ++ is) ++ (y ∷ [])) ++ rs ≡ es ++ (x ∷ (is ++ (y ∷ rs)))
glue es is rs x y =
    append_assoc ((es ++ x ∷ []) ++ is) (y ∷ []) rs
    ∙ append_assoc (es ++ x ∷ []) is (y ∷ rs)
    ∙ append_assoc es (x ∷ []) (is ++ y ∷ rs)

-- Agent scopes that a client enters and leaves in their nesting, to any depth, leave the run's stack of
-- names as it was, and log a bracket for each scope: its entry, the scopes inside it, and its exit
-- under the same name.
pub visit-brackets :
    (serde : Serde) (ts : ℕ) (scopes : Scopes) (s : BridgeState)
    → IsReadable serde scopes
    → ((visit serde ts scopes s).agent_name_stack ≡ s.agent_name_stack)
      × (events_of (visit serde ts scopes s) ≡ events_of s ++ brackets ts scopes)
unfolding visit
visit-brackets serde ts no_more s h = (refl, sym (append-nil _))
visit-brackets serde ts (scope body name inner rest) s (parsed, hi, hr) =
    let entered = (handle_agent_enter serde ts body s).0 in
    let inside = visit serde ts inner entered in
    let left = (handle_agent_exit ts inside).0 in
    let e = enter-Appends serde ts body name s parsed in
    let (stack_in, events_in) = visit-brackets serde ts inner entered hi in
    let x = exit-Appends ts inside s.agent_name_stack name (stack_in ∙ e.stack_is) in
    let (stack_out, events_out) = visit-brackets serde ts rest left hr in
    (
      stack_out ∙ x.stack_is,
      rw (events_out, x.events_are, events_in, e.events_are) (glue _ _ _ _ _),
    )
