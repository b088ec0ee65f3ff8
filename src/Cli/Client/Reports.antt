-- ===== src/Cli/Client/Reports.antt =====
-- crates/cli/src/lib.rs: the tools that the bridge runs, and the reports whose answer is not looked at.
-- serde_json reads and writes the bodies, and is a parameter.
use nanny.Prelude.{
  ℕ, String, ◌+◌, ◌%◌, u64_mod, Bool, false, not, ◌||◌, Option, none, some, List, [], Result, ok,
  err, ◌<>◌, is_empty, trim, ◌==◌, nat_eq, string_eq, option_eq, if◌then◌else◌,
}
use nanny.Prelude.Dict.{insert}
use nanny.Cli.Client.{
  BridgeResponse, Rule, LocalVerdict, exited, evaluated, StatusValue, Transport, first_of, prefixed,
  or_given, report_stop, evaluate_local_rules,
}

-- A body, as far as the program makes one: texts, numbers and objects.
pub data Json : Type 0 where
  text : String → Json
  number : ℕ → Json
  no_fields : Json
  field : (key : String) → (value others : Json) → Json

-- The fields of an answer that are texts.
pub record Answer : Type 0 where
  pub status : Option String
  pub result : Option String
  pub rule_name : Option String
  pub tool_name : Option String
  pub reason : Option String
  pub message : Option String

abbrev refusal : Answer → String
refusal v =
    or_given
      (first_of (prefixed "RuleDenied: " v.rule_name)
        (first_of (prefixed "ToolDenied: " v.tool_name) v.reason))
      "Denied"

abbrev on_answer : Result String Answer → Result String String
on_answer (err e) = err e
on_answer (ok v) = if v.status == some "allowed" then ok (or_given v.result "") else err (refusal v)

abbrev reason_in : Result String Answer → Option String
reason_in (err e) = none
reason_in (ok v) = v.reason

abbrev message_in : Result String Answer → Option String
message_in (err e) = none
message_in (ok v) = v.message

-- The arms of `call_bridge_tool`.
unfoldable pub bridge_result :
    (String → Result String Answer) → Option BridgeResponse → Result String String
bridge_result from_str none = err "bridge unavailable"
bridge_result from_str (some r) =
    if r.status == 200
    then on_answer (from_str r.body)
    else if r.status == 410
    then err (or_given (reason_in (from_str r.body)) "ExecutionStopped")
    else if r.status == 500
    then err ("ToolFailed: " <> or_given (message_in (from_str r.body)) "tool execution failed")
    else err "bridge unavailable"

pub record Harness : Type 0 where
  pub name : String
  pub version : Option String

pub record Usage : Type 0 where
  pub input : ℕ
  pub output : ℕ
  pub model : Option String
  pub provider : Option String
  pub cache_read : Option ℕ
  pub cache_write : Option ℕ
  pub harness : Option Harness

abbrev text_field : String → Option String → Json → Json
text_field key none rest = rest
text_field key (some s) rest = field key (text s) rest

abbrev number_field : String → Option ℕ → Json → Json
number_field key none rest = rest
number_field key (some n) rest = field key (number n) rest

abbrev harness_body : Harness → Json
harness_body h = field "name" (text h.name) (text_field "version" h.version no_fields)

abbrev harness_field : Option Harness → Json
harness_field none = no_fields
harness_field (some h) = field "harness" (harness_body h) no_fields

-- The body of a report of usage, in the order in which its fields are set.
unfoldable pub usage_body : Usage → Json
usage_body u = field "input" (number u.input) (
    field "output" (number u.output) (
      text_field "model" u.model (
        text_field "provider" u.provider (
          number_field "cache_read" u.cache_read
            (number_field "cache_write" u.cache_write (harness_field u.harness))))))

-- How a governed call of the SDK's own tool ends.
pub data Fetched : Type 0 where
  stopped_process : Fetched
  fetched : Result String String → Fetched

module _ {W : Type 0} (transport : Transport W) (is_active : Bool) (to_string : Json → String) where
  abbrev post_json : String → Json → W → W
  post_json path body w = (transport.http_post path (to_string body) w).0

  -- `call_bridge_tool`
  unfoldable pub call_bridge_tool :
      (String → Result String Answer) → String → String → W → W × Result String String
  unfolding bridge_result
  call_bridge_tool from_str tool_name args_json w =
      let body = "{\"tool\":\"" <> tool_name <> "\",\"args\":" <> args_json <> "}" in
      let (w', answer) = transport.http_post "/tool/call" body w in
      (w', bridge_result from_str answer)

  -- `report_stop_rule`
  unfoldable pub report_stop_rule : String → String → W → W
  report_stop_rule tool rule_name w =
      post_json "/stop"
        (field "reason" (text "RuleDenied")
          (field "tool" (text tool) (field "rule_name" (text rule_name) no_fields)))
        w

  -- `report_usage`; the sum is one of `u64`.
  unfoldable pub report_usage : Usage → W → W
  unfolding usage_body
  report_usage u w =
      let posted = post_json "/llm/usage" (usage_body u) w in
      if not is_active || ((u.input + u.output) % u64_mod == 0) then w else posted

  -- `set_harness`
  unfoldable pub set_harness : Harness → W → W
  set_harness h w =
      let posted = post_json "/harness" (harness_body h) w in
      if not is_active || is_empty (trim h.name) then w else posted

  -- `set_app`
  unfoldable pub set_app : String → String → W → W
  set_app app_id name w =
      let posted =
        post_json "/app" (field "app_id" (text app_id) (field "name" (text name) no_fields)) w in
      if not is_active || is_empty (trim app_id) then w else posted

  abbrev panics : Option BridgeResponse → Bool
  panics none = false
  panics (some r) = r.status == 404

  -- `agent_enter`; the Boolean says that it panics.
  unfoldable pub agent_enter : String → W → W × Bool
  agent_enter name w =
      let (w', answer) =
        transport.http_post "/agent/enter" (to_string (field "name" (text name) no_fields)) w in
      (w', panics answer)

  -- `agent_exit`
  unfoldable pub agent_exit : W → W
  agent_exit w = (transport.http_post "/agent/exit" "{}" w).0

  abbrev after_rules :
      (String → Result String Answer)
      → (String → String)
      → String
      → Bool × W
      → LocalVerdict
      → (Bool × W) × Fetched
  after_rules from_str json_string url (declared, w) exited = ((declared, w), stopped_process)
  after_rules from_str json_string url (declared, w) (evaluated (some rule_name)) =
      ((declared, report_stop transport is_active json_string "RuleDenied" w), stopped_process)
  after_rules from_str json_string url (declared, w) (evaluated none) =
      let (w', result) =
        call_bridge_tool from_str "http_get" (to_string (field "url" (text url) no_fields)) w in
      ((declared, w'), fetched result)

  -- `http_get`, the wrapper of the bridge's tool.
  unfoldable pub http_get_of_sdk :
      (String → Option StatusValue)
      → (String → Result String Answer)
      → (String → String)
      → (List String → String)
      → List Rule
      → ℕ
      → ℕ
      → String
      → Bool × W
      → (Bool × W) × Fetched
  unfolding evaluate_local_rules call_bridge_tool
  http_get_of_sdk status_from_str from_str json_string names_body rules elapsed_ms now_ms url s =
      let (s', verdict) =
        evaluate_local_rules transport is_active status_from_str json_string names_body rules
          "http_get" (insert "url" url []) elapsed_ms now_ms s in
      after_rules from_str json_string url s' verdict
