-- ===== src/Network/Router/Interleaved.antt =====
-- Concurrent calls of `handle_tool_call` of crates/bridge/src/lib.rs: the lock is released between the
-- decision and the record of the outcome, so that other calls may take it in between.
pub mod Caps
use nanny.Prelude.{
  ℕ, zero, suc, String, ◌+◌, ◌-◌, ◌%◌, ◌≡◌, refl, ◌≤◌, ◌<◌, Bool, true, false, Option, none, some,
  List, [], ◌∷◌, push, arith, length, count, count-append, string_eq, u32_mod, eq_iff, Result, ok,
  err, if◌then◌else◌, ◌==◌, inl, inr, Bool-cases,
}
use nanny.Prelude.Dict.{Dict, get}
use nanny.Core.Agent.{StopReason}
use nanny.Core.Policy.{PolicyDecision, allow, deny}
use nanny.Core.Tool.{ToolOutput, ToolCallError, not_found, execution}
use nanny.Runtime.Enforcement.{rule_name_for}
use nanny.Runtime.Registry.{ToolRegistry, call}
use nanny.Bridge.State.{BridgeState, Clock, append_event, mark_stopped}
use nanny.Bridge.Wire.{Serde, ToolCallRequest, Body}
use nanny.Bridge.Template.{RunTemplate, build_state}
use nanny.Bridge.ToolCall.{
  decide, deny_call, finish_call, record_call, bump, act_on, handle_tool_call, with_engine_rule,
  on_parsed,
}
use nanny.Network.Router.Accounting.{calls, call-counted, decide-allow}

-- A call between its decision and the record of its outcome.
pub record Pending : Type 0 where
  pub request : ToolCallRequest
  pub engine_rule : Option String
  pub decision : PolicyDecision

pub record Flight : Type 0 where
  pub state : BridgeState
  pub pending : List Pending

-- What runs under the lock at once: the decision of a call, or the record of the call that stands at
-- a place of the pending ones.
pub data Section : Type 0 where
  decides : Clock → ToolCallRequest → Section
  records : (place ts : ℕ) → Section

-- The call at a place.
abbrev pub pending_at : ℕ → List Pending → Option Pending
pending_at n [] = none
pending_at zero (p ∷ ps) = some p
pending_at (suc n) (p ∷ ps) = pending_at n ps

-- The others.
abbrev pub without : ℕ → List Pending → List Pending
without n [] = []
without zero (p ∷ ps) = ps
without (suc n) (p ∷ ps) = p ∷ without n ps

module _ (serde : Serde) (registry : ToolRegistry) where
  abbrev pub record_at : ℕ → Option Pending → List Pending → BridgeState → Flight
  record_at ts none others s = record { state = s; pending = others }
  record_at ts (some p) others s = record {
    state = (act_on serde registry ts p.request p.engine_rule p.decision s).0;
    pending = others;
  }

  unfoldable pub section : Flight → Section → Flight
  section f (decides clock req) = record {
    state = f.state;
    pending =
        record {
          request = req;
          engine_rule = rule_name_for f.state.rule_evaluator req.tool;
          decision = decide clock f.state req.tool;
        }
        ∷ f.pending;
  }
  section f (records n ts) = record_at ts (pending_at n f.pending) (without n f.pending) f.state

  unfoldable pub sections : Flight → List Section → Flight
  unfolding section
  sections f [] = f
  sections f (x ∷ xs) = sections (section f x) xs

  -- Never more than `most` calls are pending at once.
  abbrev pub IsWithin : ℕ → Flight → List Section → Type 0
  IsWithin most f [] = length f.pending ≤ most
  IsWithin most f (x ∷ xs) = (length f.pending ≤ most) × IsWithin most (section f x) xs

  -- A call whose decision is recorded before anything else takes the lock is `handle_tool_call`.
  pub sections-handle_tool_call :
      (clock : Clock) (ts : ℕ) (body : Body) (s : BridgeState) (req : ToolCallRequest)
      → serde.tool_call_request body ≡ some req
      → (sections
          (record { state = s; pending = [] })
          (decides clock req ∷ records 0 ts ∷ [])).state
        ≡ (handle_tool_call serde registry clock ts body s).0
  unfolding sections handle_tool_call
  sections-handle_tool_call clock ts body s req parsed = rw (parsed, on_parsed)
