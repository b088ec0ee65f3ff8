-- ===== src/Network/Router/Interleaved/Caps.antt =====
-- The caps on calls of crates/bridge/src/lib.rs under concurrent calls of `handle_tool_call`.
use nanny.Prelude.{
  ℕ, zero, suc, String, ◌+◌, ◌-◌, ◌%◌, ◌≡◌, refl, ◌≤◌, ◌<◌, false, Option, none, some, List, [],
  ◌∷◌, arith, length, count, count-append, string_eq, u32_mod, eq_iff, Result, ok, err,
  if◌then◌else◌, ◌==◌, inl, inr, Bool-cases,
}
use nanny.Prelude.Dict.{Dict, get}
use nanny.Core.Policy.{PolicyDecision, allow, deny}
use nanny.Core.Tool.{ToolOutput, ToolCallError, not_found, execution}
use nanny.Runtime.Registry.{ToolRegistry, call}
use nanny.Bridge.State.{BridgeState, Clock, append_event, mark_stopped}
use nanny.Bridge.Wire.{Serde, ToolCallRequest}
use nanny.Bridge.Template.{RunTemplate, build_state}
use nanny.Bridge.ToolCall.{decide, deny_call, finish_call, record_call, act_on, with_engine_rule}
use nanny.Network.Router.Accounting.{calls, call-counted, decide-allow}
use nanny.Network.Router.Interleaved.{
  Pending, Flight, Section, decides, records, pending_at, without, record_at, section, sections,
  IsWithin,
}

-- The allowed calls of a tool among the pending ones.
abbrev weight : String → PolicyDecision → String → ℕ
weight tool (deny reason) requested = 0
weight tool allow requested = if tool == requested then 1 else 0

abbrev admitted : String → List Pending → ℕ
admitted tool [] = 0
admitted tool (p ∷ ps) = weight tool p.decision p.request.tool + admitted tool ps

weight-bound :
    (tool : String) (d : PolicyDecision) (requested : String) → weight tool d requested ≤ 1
weight-bound tool (deny reason) requested = omega arith
weight-bound tool allow requested = ground arith

admitted-length : (tool : String) (ps : List Pending) → admitted tool ps ≤ length ps
admitted-length tool [] = omega arith
admitted-length tool (p ∷ ps) =
    omega (arith, admitted-length tool ps, weight-bound tool p.decision p.request.tool)

abbrev weight_at : String → Option Pending → ℕ
weight_at tool none = 0
weight_at tool (some p) = weight tool p.decision p.request.tool

admitted-without :
    (tool : String) (n : ℕ) (ps : List Pending)
    → admitted tool ps ≡ weight_at tool (pending_at n ps) + admitted tool (without n ps)
admitted-without tool n [] = refl
admitted-without tool zero (p ∷ ps) = refl
admitted-without tool (suc n) (p ∷ ps) = omega (arith, admitted-without tool n ps)

abbrev IsCounted : BridgeState → Type 0
IsCounted s =
    (tool : String) → calls s.tool_call_counts tool ≡ count tool s.tool_call_history % u32_mod

-- What a record does to the counts: it adds the call, if it was allowed, at most.
record Recorded (d : PolicyDecision) (tool : String) (s s' : BridgeState) : Type 0 where
  evaluator : s'.rule_evaluator ≡ s.rule_evaluator
  counted : IsCounted s → IsCounted s'
  added :
      (j : String) → count j s'.tool_call_history ≤ count j s.tool_call_history + weight j d tool

module _ (serde : Serde) (registry : ToolRegistry) (ts : ℕ) (req : ToolCallRequest) where
  record_call-Recorded :
      (cleared_by : List String) (s : BridgeState)
      → Recorded allow req.tool s (record_call ts req.tool cleared_by s)
  unfolding record_call append_event
  record_call-Recorded cleared_by s = record {
    evaluator = refl;
    counted = λ h j. call-counted s req.tool j (h j);
    added = λ j. ground (arith, count-append j s.tool_call_history (req.tool ∷ []));
  }

  finish_call-Recorded :
      (cleared_by : List String) (result : Result ToolCallError ToolOutput) (s : BridgeState)
      → Recorded allow req.tool s (finish_call serde ts req cleared_by result s).0
  unfolding finish_call
  finish_call-Recorded cleared_by (err (not_found name)) s = record_call-Recorded cleared_by s
  finish_call-Recorded cleared_by (ok output) s = record_call-Recorded cleared_by s
  finish_call-Recorded cleared_by (err (execution name source)) s =
      unfold append_event in record { evaluator = refl; counted = λ h. h; added = λ j. omega arith }

  act_on-Recorded :
      (rule : Option String) (d : PolicyDecision) (s : BridgeState)
      → Recorded d req.tool s (act_on serde registry ts req rule d s).0
  unfolding act_on
  act_on-Recorded rule allow s =
      finish_call-Recorded (with_engine_rule req.cleared_by rule) (call registry req.tool req.args)
        s
  act_on-Recorded rule (deny reason) s =
      unfold deny_call append_event mark_stopped in
      record { evaluator = refl; counted = λ h. h; added = λ j. omega arith }

-- The calls recorded and those allowed but not recorded, together, against the caps.
record IsBounded (caps : Dict ℕ) (most : ℕ) (f : Flight) : Type 0 where
  evaluator : f.state.rule_evaluator.max_calls ≡ caps
  counted : IsCounted f.state
  capped :
      (tool : String) (max : ℕ)
      → get tool caps ≡ some max
      → count tool f.state.tool_call_history + admitted tool f.pending ≤ max + (most - 1)

-- The caps leave room below the range of a `u32`.
abbrev pub HaveRoom : Dict ℕ → ℕ → Type 0
HaveRoom caps most = (tool : String) (max : ℕ) → get tool caps ≡ some max → max + most < u32_mod

module _ (serde : Serde) (registry : ToolRegistry) (caps : Dict ℕ) (most : ℕ)
    (room : HaveRoom caps most) where
  decided :
      (s : BridgeState) (ps : List Pending) (d : PolicyDecision) (req : ToolCallRequest)
      (tool : String) (max : ℕ)
      → IsBounded caps most (record { state = s; pending = ps })
      → (d ≡ allow → calls s.tool_call_counts req.tool < max)
      → suc (length ps) ≤ most
      → get tool caps ≡ some max
      → tool ≡ req.tool
      → count tool s.tool_call_history + (weight tool d req.tool + admitted tool ps)
        ≤ max + (most - 1)
  decided s ps (deny reason) req tool max h under l c e = omega (arith, h.capped tool max c)
  decided s ps allow req tool max h under l c e = ground (
    arith,
    under refl,
    h.counted tool,
    h.capped tool max c,
    room tool max c,
    admitted-length tool ps,
    e,
  )

  decides-IsBounded :
      (f : Flight) (clock : Clock) (req : ToolCallRequest)
      → IsBounded caps most f
      → suc (length f.pending) ≤ most
      → IsBounded caps most (section serde registry f (decides clock req))
  unfolding section
  decides-IsBounded f clock req h l = record {
    evaluator = h.evaluator;
    counted = h.counted;
    capped = λ tool max c. elim (Bool-cases (tool == req.tool)) [
      | inl same ↦
          decided f.state f.pending (decide clock f.state req.tool) req tool max h
            (λ d.
              (decide-allow clock f.state req.tool d).1 max
                (ground (arith, c, h.evaluator, same, eq_iff tool req.tool)))
            l c ((eq_iff tool req.tool).0 same)
      | inr differ ↦ other tool max c differ (decide clock f.state req.tool)
    ];
  }
    where
      other :
          (tool : String) (max : ℕ)
          → get tool caps ≡ some max
          → (tool == req.tool) ≡ false
          → (d : PolicyDecision)
          → count tool f.state.tool_call_history
              + (weight tool d req.tool + admitted tool f.pending)
            ≤ max + (most - 1)
      other tool max c differ (deny reason) = omega (arith, h.capped tool max c)
      other tool max c differ allow = ground (arith, h.capped tool max c, differ)

  record_at-IsBounded :
      (ts : ℕ) (o : Option Pending) (f : Flight) (others : List Pending)
      → IsBounded caps most f
      → ((tool : String) → admitted tool f.pending ≡ weight_at tool o + admitted tool others)
      → IsBounded caps most (record_at serde registry ts o others f.state)
  record_at-IsBounded ts none f others h split = record {
    evaluator = h.evaluator;
    counted = h.counted;
    capped = λ tool max c. omega (arith, h.capped tool max c, split tool);
  }
  record_at-IsBounded ts (some p) f others h split =
      let r = act_on-Recorded serde registry ts p.request p.engine_rule p.decision f.state in
      record {
        evaluator = cc (r.evaluator, h.evaluator);
        counted = r.counted h.counted;
        capped = λ tool max c. omega (arith, h.capped tool max c, split tool, r.added tool);
      }

  sections-IsBounded :
      (xs : List Section) (f : Flight)
      → IsBounded caps most f
      → IsWithin serde registry most f xs
      → IsBounded caps most (sections serde registry f xs)
  unfolding sections section
  sections-IsBounded [] f h w = h
  sections-IsBounded (decides clock req ∷ xs) f h (l, w) =
      sections-IsBounded xs (section serde registry f (decides clock req))
        (decides-IsBounded f clock req h (room_for xs w)) w
    where
      room_for :
          (ys : List Section)
          → IsWithin serde registry most (section serde registry f (decides clock req)) ys
          → suc (length f.pending) ≤ most
      room_for [] k = k
      room_for (y ∷ ys) k = k.0
  sections-IsBounded (records n ts ∷ xs) f h (l, w) =
      sections-IsBounded xs (section serde registry f (records n ts))
        (record_at-IsBounded ts (pending_at n f.pending) f (without n f.pending) h
          (λ tool. admitted-without tool n f.pending))
        w

  -- However the concurrent calls of a new run interleave, if never more than `most` of them are
  -- pending at once, a tool with a cap is recorded at most `most - 1` times more often than its cap:
  -- never more often than its cap, if calls are made one at a time.
  pub sections-capped :
      (t : RunTemplate) (clock : Clock) (run : String) (xs : List Section) (tool : String) (max : ℕ)
      → t.per_tool_max_calls ≡ caps
      → IsWithin serde registry most (record { state = build_state t clock run; pending = [] }) xs
      → get tool caps ≡ some max
      → count tool
          (sections serde registry
            (record { state = build_state t clock run; pending = [] })
            xs).state.tool_call_history
        ≤ max + (most - 1)
  sections-capped t clock run xs tool max c w e =
      let h =
        sections-IsBounded xs (record { state = build_state t clock run; pending = [] })
          (unfold build_state get in
            record { evaluator = c; counted = λ j. refl; capped = λ j m k. omega arith })
          w in
      omega (arith, h.capped tool max e)
