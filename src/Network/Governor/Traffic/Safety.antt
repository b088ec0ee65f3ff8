-- ===== src/Network/Governor/Traffic/Safety.antt =====
-- What every run of a governor of crates/bridge/src/network.rs satisfies, whatever its traffic.
use nanny.Prelude.{ℕ, String, ◌≡◌, refl, Bool, Option, none, some, List, [], string_eq, if_rule}
use nanny.Prelude.Dict.{Dict, get}
use nanny.Core.Events.{LoggedEvent}
use nanny.Bridge.State.{BridgeState, Clock}
use nanny.Bridge.Template.{RunTemplate, build_placeholder_state, init_run_template}
use nanny.Bridge.Attribution.{record_governor}
use nanny.Bridge.Wire.{Serde}
use nanny.Network.Router.{Route, default_run_id}
use nanny.Network.Router.Accounting.{
  IsAccounted, AreU32, IsAccounted-stable, IsAccounted-new, IsAccounted-cleared, same,
}
use nanny.Network.Governor.{Routing}
use nanny.Network.Governor.Boot.{Boot, initial_state, default_state}
use nanny.Network.Governor.Traffic.{Event, traffic}
use nanny.Network.Governor.Traffic.Keeps.{Runs-insert, traffic-keeps}

module _ (allowed : List String) (caps : Dict ℕ) (bounded : AreU32 caps) where
  default_state-IsAccounted :
      (t : RunTemplate) (clock : Clock) (primary : Option String)
      → t.allowed_tools ≡ allowed
      → t.per_tool_max_calls ≡ caps
      → IsAccounted allowed caps (default_state t clock primary)
  default_state-IsAccounted t clock (some id) a c =
      IsAccounted-new allowed caps bounded t clock id a c
  default_state-IsAccounted t clock none a c =
      unfold build_placeholder_state in
      same allowed caps bounded _ _
        (IsAccounted-new allowed caps bounded t clock default_run_id a c) refl refl refl refl

  record_governor-IsAccounted :
      (ts : ℕ) (s : BridgeState) (name address version : String)
      → IsAccounted allowed caps s
      → IsAccounted allowed caps (record_governor ts s name address version)
  unfolding record_governor
  record_governor-IsAccounted ts s name address version h =
      if_rule (IsAccounted allowed caps) _ _ _ h (
        (IsAccounted-stable allowed caps bounded).append _ _
          (same allowed caps bounded s _ h refl refl refl refl))

-- Of a governor whose caps are `u32` values, from the state in which it starts, with the run of its own
-- app or the default one: every run, the first and those that requests make, keeps to the allowlist
-- and the caps of the components and counts its calls right, after any requests of clients and passes
-- of the drain thread, in any order, each served whole.
pub traffic-IsAccounted :
    (serde : Serde) (axum : List Route → String → String → Routing) (local_log : Bool)
    (sink : Option (String → List LoggedEvent → Bool)) (boot : Boot) (es : List Event) (id : String)
    (s : BridgeState)
    → AreU32 boot.components.per_tool_max_calls
    → get id (traffic serde axum local_log sink (initial_state boot) es).runs ≡ some s
    → IsAccounted boot.components.allowed_tools boot.components.per_tool_max_calls s
unfolding initial_state init_run_template
traffic-IsAccounted serde axum local_log sink boot es id s bounded e =
    let allowed = boot.components.allowed_tools in
    let caps = boot.components.per_tool_max_calls in
    let a = initial_state boot in
    traffic-keeps (IsAccounted allowed caps) (IsAccounted-stable allowed caps bounded)
      (IsAccounted-cleared allowed caps bounded) a.template
      (λ clock run. IsAccounted-new allowed caps bounded a.template clock run refl refl) serde axum
      local_log sink es a refl
      (Runs-insert (IsAccounted allowed caps) [] _ _ (λ j s' k. unfold get in cc)
        (record_governor-IsAccounted allowed caps bounded _ _ _ _ _ (
          default_state-IsAccounted allowed caps bounded a.template boot.clock boot.primary_run_id
            refl refl)))
      id s e
