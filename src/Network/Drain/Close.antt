-- ===== src/Network/Drain/Close.antt =====
-- The last pass of the drain thread of crates/bridge/src/network.rs, which closes every run.
use mathlib.Core.List.{append_assoc, append-nil}
use nanny.Prelude.{
  String, ◌≡◌, refl, sym, ◌∙◌, ap, Bool, true, false, some, List, [], ◌∷◌, ◌++◌, push, arith,
  contains, string_eq, eq_iff, All,
}
use nanny.Prelude.Dict.{Dict, get, insert, keys, HasDistinctKeys}
use nanny.Core.Events.{LoggedEvent, execution_stopped}
use nanny.Bridge.State.{BridgeState, Clock, elapsed_ms, append_event}
use nanny.Bridge.Handlers.{take_run_events}
use nanny.Network.Drain.{
  closing_reason, close_run, close_all, Drained, deliver, drain_run, sweep, pass,
}

-- A run in the middle of a map.
get-middle :
    (pre rest : Dict BridgeState) (id : String) (s : BridgeState)
    → contains (keys pre) id ≡ false
    → get id (pre ++ ((id, s) ∷ rest)) ≡ some s
unfolding get
get-middle [] rest id s h = ground (arith, eq_iff id id)
get-middle ((k, r) ∷ pre) rest id s h = ground (arith, get-middle pre rest id s)

insert-middle :
    (pre rest : Dict BridgeState) (id : String) (s s' : BridgeState)
    → contains (keys pre) id ≡ false
    → insert id s' (pre ++ ((id, s) ∷ rest)) ≡ pre ++ ((id, s') ∷ rest)
unfolding insert
insert-middle [] rest id s s' h = ground (arith, eq_iff id id)
insert-middle ((k, r) ∷ pre) rest id s s' h = ground (arith, insert-middle pre rest id s s')

abbrev emptied : BridgeState → BridgeState
emptied s = record s { events = [] }

-- A line, if there is one at all.
abbrev HasLines : BridgeState → Type 0
HasLines s = (es : List LoggedEvent) × (l : LoggedEvent) × (s.events ≡ push es l)

-- The runs of a map, emptied, and what they held.
abbrev pub all_emptied : Dict BridgeState → Dict BridgeState
all_emptied [] = []
all_emptied ((id, s) ∷ runs) = (id, emptied s) ∷ all_emptied runs

abbrev pub buffers : Dict BridgeState → List (String × List LoggedEvent)
buffers [] = []
buffers ((id, s) ∷ runs) = (id, s.events) ∷ buffers runs

abbrev AllHaveLines : Dict BridgeState → Type 0
AllHaveLines [] = Unit
AllHaveLines ((id, s) ∷ runs) = HasLines s × AllHaveLines runs

-- No key of the one map is in the other.
abbrev AreApart : Dict BridgeState → Dict BridgeState → Type 0
AreApart pre [] = Unit
AreApart pre ((id, s) ∷ rest) = (contains (keys pre) id ≡ false) × AreApart pre rest

AreApart-push :
    (pre rest : Dict BridgeState) (id : String) (s : BridgeState)
    → AreApart pre rest
    → contains (keys rest) id ≡ false
    → AreApart (push pre (id, s)) rest
AreApart-push pre [] id s h k = tt
AreApart-push pre ((j, r) ∷ rest) id s (a, h) k =
    (grow pre a, AreApart-push pre rest id s h (ground arith))
  where
    grow :
        (pre : Dict BridgeState)
        → contains (keys pre) j ≡ false
        → contains (keys (push pre (id, s))) j ≡ false
    grow [] b = ground (arith, eq_iff id j, eq_iff j id)
    grow ((i, q) ∷ pre) b = ground (arith, grow pre)

all_emptied-All : (runs : Dict BridgeState) → All (λ r. r.1.events ≡ []) (all_emptied runs)
all_emptied-All [] = tt
all_emptied-All ((id, s) ∷ runs) = (refl, all_emptied-All runs)

module _ (local_log : Bool) (send : String → List LoggedEvent → Bool)
    (accepts : (id : String) (lines : List LoggedEvent) → send id lines ≡ true) where
  -- What one round leaves.
  record Handed (d d' : Drained) (runs : Dict BridgeState) (id : String) (lines : List LoggedEvent)
      : Type 0 where
    runs_are : d'.runs ≡ runs
    sent_are : d'.sent ≡ push d.sent (id, lines)
    not_gone : d'.gone ≡ d.gone

  deliver-Handed :
      (id : String) (s : BridgeState) (es : List LoggedEvent) (l : LoggedEvent) (d : Drained)
      → Handed d
          (deliver local_log (some send) id s (push es l) d)
          (insert id s d.runs)
          id
          (push es l)
  deliver-Handed id s [] l d =
      rw (accepts id (l ∷ [])) (record { runs_are = refl; sent_are = refl; not_gone = refl })
  deliver-Handed id s (e ∷ es) l d =
      rw (accepts id (e ∷ push es l)) (record { runs_are = refl; sent_are = refl; not_gone = refl })

  drain_run-deliver :
      (d : Drained) (id : String) (s : BridgeState) (lines : List LoggedEvent)
      → get id d.runs ≡ some s
      → s.events ≡ lines
      → drain_run local_log (some send) id d ≡ deliver local_log (some send) id (emptied s) lines d
  unfolding drain_run take_run_events
  drain_run-deliver d id s lines here same = rw (here, same, drain_run, take_run_events)

  drain_run-Handed :
      (d : Drained) (pre rest : Dict BridgeState) (id : String) (s : BridgeState)
      → d.runs ≡ pre ++ ((id, s) ∷ rest)
      → contains (keys pre) id ≡ false
      → HasLines s
      → Handed d
          (drain_run local_log (some send) id d)
          (pre ++ ((id, emptied s) ∷ rest))
          id
          s.events
  drain_run-Handed d pre rest id s runs fresh (es, l, lines) =
      let h = deliver-Handed id (emptied s) es l d in
      let same =
        drain_run-deliver d id s (push es l) (ap (get id) runs ∙ get-middle pre rest id s fresh)
          lines in
      record {
        runs_are =
            ap (λ d'. d'.runs) same
            ∙ h.runs_are
            ∙ ap (insert id (emptied s)) runs
            ∙ insert-middle pre rest id s (emptied s) fresh;
        sent_are =
            ap (λ d'. d'.sent) same ∙ h.sent_are ∙ ap (λ ls. push d.sent (id, ls)) (sym lines);
        not_gone = ap (λ d'. d'.gone) same ∙ h.not_gone;
      }

  sweep-buffers :
      (rest pre : Dict BridgeState) (d : Drained)
      → d.runs ≡ pre ++ rest
      → d.gone ≡ false
      → HasDistinctKeys rest
      → AreApart pre rest
      → AllHaveLines rest
      → ((sweep local_log (some send) (keys rest) d).sent ≡ d.sent ++ buffers rest)
        × ((sweep local_log (some send) (keys rest) d).runs ≡ pre ++ all_emptied rest)
  unfolding sweep
  sweep-buffers [] pre d runs g u a l = (sym (append-nil d.sent), runs)
  sweep-buffers ((id, s) ∷ rest) pre d runs g (fresh, u) (b, a) (l, ls) =
      let h = drain_run-Handed d pre rest id s runs b l in
      let d' = drain_run local_log (some send) id d in
      let (sent, runs') =
        sweep-buffers rest (push pre (id, emptied s)) d'
          (h.runs_are ∙ sym (append_assoc pre ((id, emptied s) ∷ []) rest)) (h.not_gone ∙ g) u
          (AreApart-push pre rest id (emptied s) a fresh) ls in
      let on = h.not_gone ∙ g in
      rw on (
        sent
            ∙ ap (λ q. q ++ buffers rest) h.sent_are
            ∙ append_assoc d.sent ((id, s.events) ∷ []) (buffers rest),
        runs' ∙ append_assoc pre ((id, emptied s) ∷ []) (all_emptied rest),
      )

-- What each run is due: what it has buffered, and as its last line its stop, with the run's own reason
-- if it has one and the caller's if not.
abbrev pub last_batches : Clock → String → Dict BridgeState → List (String × List LoggedEvent)
last_batches clock reason [] = []
last_batches clock reason ((id, s) ∷ runs) =
    (
      id,
      push s.events (record {
        run_id = s.run_id;
        seq = s.next_seq;
        event =
            execution_stopped clock.now_ms (closing_reason reason s.execution) s.tokens_spent
              (elapsed_ms clock s);
      }),
    )
    ∷ last_batches clock reason runs

module _ (local_log : Bool) (send : String → List LoggedEvent → Bool)
    (accepts : (id : String) (lines : List LoggedEvent) → send id lines ≡ true) (clock : Clock)
    (reason : String) where
  keys-close_all : (runs : Dict BridgeState) → keys (close_all clock reason runs) ≡ keys runs
  unfolding close_all
  keys-close_all [] = refl
  keys-close_all ((id, s) ∷ runs) = ap (λ ks. id ∷ ks) (keys-close_all runs)

  close_all-HasDistinctKeys :
      (runs : Dict BridgeState)
      → HasDistinctKeys runs
      → HasDistinctKeys (close_all clock reason runs)
  unfolding close_all
  close_all-HasDistinctKeys [] u = tt
  close_all-HasDistinctKeys ((id, s) ∷ runs) (fresh, u) =
      (ap (λ ks. contains ks id) (keys-close_all runs) ∙ fresh, close_all-HasDistinctKeys runs u)

  close_all-AllHaveLines : (runs : Dict BridgeState) → AllHaveLines (close_all clock reason runs)
  unfolding close_all close_run append_event
  close_all-AllHaveLines [] = tt
  close_all-AllHaveLines ((id, s) ∷ runs) = ((s.events, _, refl), close_all-AllHaveLines runs)

  AreApart-nil : (runs : Dict BridgeState) → AreApart [] runs
  AreApart-nil [] = tt
  AreApart-nil ((id, s) ∷ runs) = (refl, AreApart-nil runs)

  buffers-close_all :
      (runs : Dict BridgeState)
      → buffers (close_all clock reason runs) ≡ last_batches clock reason runs
  unfolding close_all close_run append_event
  buffers-close_all [] = refl
  buffers-close_all ((id, s) ∷ runs) =
      ap (λ bs. (id, (close_run clock reason s).events) ∷ bs) (buffers-close_all runs)

  -- The last pass, when the caller has set a reason and the sink takes every batch: each run of the map
  -- is handed over once, with all its buffered lines and its stop as the last of them, and no run has
  -- a line left.
  pub pass-last_batches :
      (d : Drained)
      → HasDistinctKeys d.runs
      → d.gone ≡ false
      → ((pass local_log (some send) clock true (some reason) d).sent
          ≡ d.sent ++ last_batches clock reason d.runs)
        × All (λ r. r.1.events ≡ []) (pass local_log (some send) clock true (some reason) d).runs
  unfolding pass
  pass-last_batches d u g =
      let closed = close_all clock reason d.runs in
      let (sent, runs) =
        sweep-buffers local_log send accepts closed [] (record d { runs = closed }) refl g
          (close_all-HasDistinctKeys d.runs u) (AreApart-nil closed)
          (close_all-AllHaveLines d.runs) in
      (sent ∙ ap (λ bs. d.sent ++ bs) (buffers-close_all d.runs), rw runs (all_emptied-All closed))
