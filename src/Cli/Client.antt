-- ===== src/Cli/Client.antt =====
-- crates/cli/src/lib.rs: what a governed process asks its bridge, and what it does with the answers. The
-- transport is a parameter, over an unknown state; so is the reader of JSON.
pub mod FirstContact
pub mod Verdicts
pub mod Scopes
pub mod Reports
pub mod Wire
use Prim.Native.String.{len, slice}
use text.Mathlib.Text.{find?, starts_with}
use nanny.Prelude.{
  contains_text, ℕ, String, ◌+◌, Bool, true, false, not, ◌&&◌, Option, none, some, List, [], ◌∷◌,
  map, ◌<>◌, is_empty, trim_start, ◌==◌, nat_eq, string_eq, if◌then◌else◌,
}
use nanny.Prelude.Dict.{Dict}
use nanny.Core.Policy.{PolicyContext}

pub record BridgeResponse : Type 0 where
  pub status : ℕ
  pub body : String

pub record Rule : Type 0 where
  pub name : String
  pub func : PolicyContext → Bool

pub record BridgeStatus : Type 0 where
  pub tokens_spent : ℕ
  pub tool_call_counts : Dict ℕ
  pub tool_call_history : List String
  pub tool_labels : Dict (List String)

-- `unwrap_or`
abbrev pub or_given : {A : Type 0} → Option A → A → A
or_given none d = d
or_given (some x) d = x

-- What the JSON of `/status` has of the four fields.
pub record StatusValue : Type 0 where
  pub tokens_spent : Option ℕ
  pub tool_call_counts : Option (Dict ℕ)
  pub tool_call_history : Option (List String)
  pub tool_labels : Option (Dict (List String))

abbrev pub no_status : BridgeStatus
no_status = record {
  tokens_spent = 0;
  tool_call_counts = [];
  tool_call_history = [];
  tool_labels = [];
}

abbrev pub with_defaults : Option StatusValue → Option BridgeStatus
with_defaults none = none
with_defaults (some v) = some (record {
  tokens_spent = or_given v.tokens_spent 0;
  tool_call_counts = or_given v.tool_call_counts [];
  tool_call_history = or_given v.tool_call_history [];
  tool_labels = or_given v.tool_labels [];
})

-- `fetch_bridge_status`, from the answer to `GET /status`
unfoldable pub status_of :
    (String → Option StatusValue) → Option BridgeResponse → Option BridgeStatus
status_of from_str none = none
status_of from_str (some r) = if r.status == 200 then with_defaults (from_str r.body) else none

-- The loop over the rules: the first that denies.
unfoldable pub first_denying : List Rule → PolicyContext → Option String
first_denying [] ctx = none
first_denying (rule ∷ rules) ctx =
    let rest = first_denying rules ctx in if rule.func ctx then rest else some rule.name

-- How the evaluation of the rules ends: the process exits, or it has an answer.
pub data LocalVerdict : Type 0 where
  exited : LocalVerdict
  evaluated : Option String → LocalVerdict

pub data ToolVerdict : Type 0 where
  run : ToolVerdict
  stop : (reason : String) → ToolVerdict

abbrev after_quote : String → Option String
after_quote s = if starts_with s "\"" then some (slice s 1 (len s)) else none

abbrev up_to_quote : String → Option ℕ → Option String
up_to_quote inner none = none
up_to_quote inner (some end) = some (slice inner 0 end)

abbrev quoted : Option String → Option String
quoted none = none
quoted (some inner) = up_to_quote inner (find? inner "\"")

abbrev value_at : String → String → Option ℕ → Option String
value_at json needle none = none
value_at json needle (some i) =
    quoted (after_quote (trim_start (slice json (i + len needle) (len json))))

-- `extract_str`
unfoldable pub extract_str : String → String → Option String
extract_str json key = let needle = "\"" <> key <> "\":" in value_at json needle (find? json needle)

abbrev pub first_of : {A : Type 0} → Option A → Option A → Option A
first_of none y = y
first_of (some x) y = some x

abbrev pub prefixed : String → Option String → Option String
prefixed front none = none
prefixed front (some s) = some (front <> s)

-- The reason of a denial, from the fields that the body names.
unfoldable pub denial_reason : String → String
unfolding extract_str
denial_reason body =
    or_given
      (first_of (prefixed "RuleDenied: " (extract_str body "rule_name")) (
        first_of (prefixed "ToolDenied: " (extract_str body "tool_name"))
          (extract_str body "reason")))
      "ToolDenied"

-- The arms of `call_tool`.
unfoldable pub verdict_of : Bool → Option BridgeResponse → ToolVerdict
unfolding denial_reason
verdict_of is_active none = if is_active then stop "BridgeUnavailable" else run
verdict_of is_active (some r) =
    if r.status == 200
    then (if contains_text r.body "\"allowed\"" then run else stop (denial_reason r.body))
    else if r.status == 410
    then stop (or_given (extract_str r.body "reason") "ExecutionStopped")
    else if is_active
    then stop "BridgeUnavailable"
    else run

-- The context of the rules.
abbrev pub local_context : String → Dict String → ℕ → ℕ → BridgeStatus → PolicyContext
local_context tool_name args elapsed_ms now_ms status = record {
  elapsed_ms = elapsed_ms;
  now_ms = now_ms;
  requested_tool = some tool_name;
  tokens_spent = status.tokens_spent;
  tool_call_counts = status.tool_call_counts;
  tool_call_history = status.tool_call_history;
  tool_labels = status.tool_labels;
  last_tool_args = args;
}

-- `GET` and `POST`, with the state behind them.
pub record Transport (W : Type 0) : Type 0 where
  pub http_get : String → W → W × Option BridgeResponse
  pub http_post : String → String → W → W × Option BridgeResponse

module _ {W : Type 0} (transport : Transport W) (is_active : Bool) where
  -- `call_tool`
  unfoldable pub call_tool : String → W → W × ToolVerdict
  unfolding verdict_of
  call_tool tool_name w =
      let (w', answer) =
        transport.http_post "/tool/call" ("{\"tool\":\"" <> tool_name <> "\"}") w in
      (w', verdict_of is_active answer)

  -- `report_stop`; `json_string` writes a text as JSON.
  unfoldable pub report_stop : (String → String) → String → W → W
  report_stop json_string reason w =
      (transport.http_post "/stop" ("{\"reason\":" <> json_string reason <> "}") w).0

  -- `declare_rules`; `names_body` writes the request.
  unfoldable pub declare_rules : (List String → String) → List Rule → W → W
  declare_rules names_body [] w = w
  declare_rules names_body (rule ∷ rules) w =
      let posted =
        (transport.http_post "/rules" (names_body (map (λ r. r.name) (rule ∷ rules))) w).0 in
      if is_active then posted else w

  -- `declare_rules_once`, with the flag of the `Once`.
  unfoldable pub declare_rules_once : (List String → String) → List Rule → Bool × W → Bool × W
  unfolding declare_rules
  declare_rules_once names_body rules (declared, w) =
      let once = declare_rules names_body rules w in if declared then (true, w) else (true, once)

  -- What follows the status, or its absence.
  abbrev pub evaluate_with :
      (String → String)
      → List Rule
      → (BridgeStatus → PolicyContext)
      → W
      → Option BridgeStatus
      → W × LocalVerdict
  evaluate_with json_string rules ctx w (some status) =
      (w, evaluated (first_denying rules (ctx status)))
  evaluate_with json_string rules ctx w none =
      let stopped = report_stop json_string "BridgeUnavailable" w in
      if is_active then (stopped, exited) else (w, evaluated (first_denying rules (ctx no_status)))

  -- `evaluate_local_rules`, over the rules of the registry, at a time since the start and a time of day.
  unfoldable pub evaluate_local_rules :
      (String → Option StatusValue)
      → (String → String)
      → (List String → String)
      → List Rule
      → String
      → Dict String
      → ℕ
      → ℕ
      → Bool × W
      → (Bool × W) × LocalVerdict
  unfolding status_of report_stop declare_rules_once first_denying
  evaluate_local_rules from_str json_string names_body rules tool_name args elapsed_ms now_ms s =
      let (declared, w) = declare_rules_once names_body rules s in
      let (w', answer) = transport.http_get "/status" w in
      let (w'', verdict) =
        evaluate_with json_string rules (local_context tool_name args elapsed_ms now_ms) w'
          (status_of from_str answer) in
      ((declared, w''), verdict)
