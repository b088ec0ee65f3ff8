-- ===== src/Bridge/Handlers.antt =====
-- crates/bridge/src/lib.rs: the other handlers.
pub mod Scopes
use nanny.Prelude.{
  ℕ, String, ◌+◌, ◌%◌, Option, none, some, List, [], ◌∷◌, map, push, trim, is_empty, if◌then◌else◌,
  ◌==◌, string_eq, nat_eq, ◌<>◌, to_decimal, u64_mod,
}
use nanny.Prelude.Dict.{Dict}
use nanny.Core.Agent.{StopReason}
use nanny.Core.Policy.{PolicyContext, PolicyDecision, allow, deny}
use nanny.Core.Events.{
  LoggedEvent, rule_denied, llm_usage_recorded, agent_scope_entered, agent_scope_exited,
}
use nanny.Runtime.Enforcement.{evaluate_rules}
use nanny.Bridge.State.{
  BridgeState, ExecutionState, running, stopped, Clock, elapsed_ms, append_event, mark_stopped,
}
use nanny.Bridge.Wire.{
  Body, Serde, RuleEvalRequest, default_rule_eval, HarnessLabel, LlmUsageRequest, from_input, Value,
  null, str, array, object, Items, done, item, Members, empty, member, BridgeResp, json_resp,
  ndjson_resp, stop_reason_name,
}
use nanny.Bridge.Attribution.{record_harness, record_app, record_rules}
use nanny.Bridge.ToolCall.{on_parsed}

abbrev pub ok_resp : BridgeResp
ok_resp = json_resp 200 "{\"status\":\"ok\"}"

abbrev health_text : ExecutionState → String
health_text running = "{\"state\":\"running\"}"
health_text (stopped reason) = "{\"state\":\"stopped\"}"

-- `handle_health`
unfoldable pub handle_health : BridgeState → BridgeResp
handle_health s = json_resp 200 (health_text s.execution)

abbrev or_text : Option String → String → String
or_text none d = d
or_text (some t) d = t

abbrev state_text : ExecutionState → String
state_text running = "{\"state\":\"running\","
state_text (stopped reason) = "{\"state\":\"stopped\",\"reason\":\"" <> reason <> "\","

-- `handle_status`
unfoldable pub handle_status : Serde → Clock → BridgeState → BridgeResp
unfolding elapsed_ms
handle_status serde clock s = json_resp 200 (
    state_text s.execution
    <> "\"tokens_spent\":"
    <> to_decimal s.tokens_spent
    <> ",\"elapsed_ms\":"
    <> to_decimal (elapsed_ms clock s)
    <> ",\"now_ms\":"
    <> to_decimal clock.now_ms
    <> ",\"tool_call_counts\":"
    <> or_text (serde.counts_text s.tool_call_counts) "{}"
    <> ",\"tool_call_history\":"
    <> or_text (serde.history_text s.tool_call_history) "[]"
    <> ",\"tool_labels\":"
    <> or_text (serde.labels_text s.tool_labels) "{}"
    <> "}")

-- `join("\n")`
abbrev pub join_lines : List String → String
join_lines [] = ""
join_lines (l ∷ []) = l
join_lines (l ∷ m ∷ ls) = l <> "\n" <> join_lines (m ∷ ls)

-- `handle_events`
unfoldable pub handle_events : Serde → BridgeState → BridgeResp
handle_events serde s = ndjson_resp (join_lines (map serde.line s.events))

-- `take_run_events`, and `drain_events` of `Bridge`.
unfoldable pub take_run_events : BridgeState → BridgeState × List LoggedEvent
take_run_events s = (record s { events = [] }, s.events)

abbrev or_num : Option ℕ → ℕ → ℕ
or_num none d = d
or_num (some n) d = n

abbrev or_counts : Dict ℕ → Dict ℕ → Dict ℕ
or_counts [] d = d
or_counts (c ∷ cs) d = c ∷ cs

abbrev or_history : List String → List String → List String
or_history [] d = d
or_history (h ∷ hs) d = h ∷ hs

abbrev or_default : Option RuleEvalRequest → RuleEvalRequest
or_default none = default_rule_eval
or_default (some req) = req

-- The context of `handle_rule_evaluate`: what the request leaves out is the run's own.
unfoldable pub rule_context : Clock → RuleEvalRequest → BridgeState → PolicyContext
unfolding elapsed_ms
rule_context clock req s = record {
  elapsed_ms = or_num req.elapsed (elapsed_ms clock s);
  now_ms = clock.now_ms;
  requested_tool = req.tool;
  tokens_spent = or_num req.tokens_spent s.tokens_spent;
  tool_call_counts = or_counts req.tool_call_counts s.tool_call_counts;
  tool_call_history = or_history req.tool_call_history s.tool_call_history;
  tool_labels = s.tool_labels;
  last_tool_args = [];
}

abbrev denied_text : String → String → String
denied_text key text = "{\"status\":\"denied\",\"" <> key <> "\":\"" <> text <> "\"}"

abbrev pub decision_text : PolicyDecision → String
decision_text allow = "{\"status\":\"allowed\"}"
decision_text (deny (StopReason.rule_denied rule_name)) = denied_text "rule_name" rule_name
decision_text (deny (StopReason.tool_denied tool_name)) =
    denied_text "reason" (stop_reason_name (StopReason.tool_denied tool_name))
decision_text (deny StopReason.manual_stop) =
    denied_text "reason" (stop_reason_name StopReason.manual_stop)
decision_text (deny StopReason.agent_completed) =
    denied_text "reason" (stop_reason_name StopReason.agent_completed)

-- `handle_rule_evaluate`; it changes nothing.
unfoldable pub handle_rule_evaluate : Serde → Clock → Body → BridgeState → BridgeResp
unfolding rule_context
handle_rule_evaluate serde clock body s =
    let req = or_default (serde.rule_eval_request body) in
    json_resp 200 (decision_text (evaluate_rules s.rule_evaluator (rule_context clock req s)))

-- `handle_agent_enter`
unfoldable pub handle_agent_enter : Serde → ℕ → Body → BridgeState → BridgeState × BridgeResp
handle_agent_enter serde ts body s = on_parsed (serde.agent_enter_request body) s λ req. (
  append_event (record s { agent_name_stack = push s.agent_name_stack req.name })
      (agent_scope_entered ts req.name),
  ok_resp,
)

-- `Vec::pop`: what is left, and the last element, with `unwrap_or_default`.
abbrev pub pop_or_default : List String → List String × String
pop_or_default [] = ([], "")
pop_or_default (x ∷ []) = ([], x)
pop_or_default (x ∷ y ∷ ys) = let (rest, last) = pop_or_default (y ∷ ys) in (x ∷ rest, last)

-- `handle_agent_exit`
unfoldable pub handle_agent_exit : ℕ → BridgeState → BridgeState × BridgeResp
handle_agent_exit ts s =
    let (rest, name) = pop_or_default s.agent_name_stack in
    (append_event (record s { agent_name_stack = rest }) (agent_scope_exited ts name), ok_resp)

abbrev pub with_harness : ℕ → Option HarnessLabel → BridgeState → BridgeState
with_harness ts none s = s
with_harness ts (some h) s = record_harness ts s h.name h.version

-- What `handle_llm_usage` does with a request; `input + output` wraps as in a release build.
unfoldable pub record_usage : ℕ → LlmUsageRequest → BridgeState → BridgeState
record_usage ts req s =
    let s' = with_harness ts req.harness s in
    let total = (req.input + req.output) % u64_mod in
    if total == 0
    then s'
    else append_event (record s' { tokens_spent = (s'.tokens_spent + total) % u64_mod })
        (llm_usage_recorded ts req.input req.output req.model req.provider req.cache_read
          req.cache_write)

-- `handle_llm_usage`
unfoldable pub handle_llm_usage : Serde → ℕ → Body → BridgeState → BridgeState × BridgeResp
handle_llm_usage serde ts body s =
    on_parsed (serde.llm_usage_request body) s λ req. (record_usage ts req s, ok_resp)

-- `handle_harness`
unfoldable pub handle_harness : Serde → ℕ → Body → BridgeState → BridgeState × BridgeResp
handle_harness serde ts body s = on_parsed (serde.harness_request body) s λ req.
    if is_empty (trim req.name)
    then (s, json_resp 400 "{\"error\":\"harness name required\"}")
    else (record_harness ts s req.name req.version, ok_resp)

-- `handle_rules`
unfoldable pub handle_rules : Serde → ℕ → Body → BridgeState → BridgeState × BridgeResp
handle_rules serde ts body s =
    on_parsed (serde.rules_request body) s
      λ rules. (record_rules ts s (map from_input rules), ok_resp)

-- `handle_app`
unfoldable pub handle_app : Serde → ℕ → Body → BridgeState → BridgeState × BridgeResp
handle_app serde ts body s = on_parsed (serde.app_request body) s λ req.
    if is_empty (trim req.app_id)
    then (s, json_resp 400 "{\"error\":\"app_id required\"}")
    else (record_app ts s req.app_id req.name, ok_resp)

abbrev find_member : String → Members → Value
find_member k empty = null
find_member k (member j v rest) = if j == k then v else find_member k rest

-- `parsed[key]`
abbrev pub index : String → Value → Value
index key (object members) = find_member key members
index key _ = null

-- `as_str().unwrap_or_default()`
abbrev pub text_of : Value → String
text_of (str s) = s
text_of _ = ""

-- `filter_map(|v| v.as_str())` over an array; anything else is no list at all.
abbrev texts_in : Items → List String
texts_in done = []
texts_in (item (str s) rest) = s ∷ texts_in rest
texts_in (item _ rest) = texts_in rest

abbrev pub texts_of : Value → List String
texts_of (array items) = texts_in items
texts_of _ = []

abbrev or_null : Option Value → Value
or_null none = null
or_null (some v) = v

-- The closed set of stop reasons.
unfoldable pub known_reason : String → String
known_reason raw =
    if raw == "RuleDenied"
    then raw
    else if raw == "ToolDenied"
    then raw
    else if raw == "AgentCompleted"
    then raw
    else if raw == "ManualStop"
    then raw
    else if raw == "ToolFailed"
    then raw
    else "ProcessCrashed"

-- The `RuleDenied` event that a client reports with its stop.
unfoldable pub report_denial : ℕ → Value → String → BridgeState → BridgeState
report_denial ts parsed reason s =
    let tool = text_of (index "tool" parsed) in
    let rule_name = text_of (index "rule_name" parsed) in
    if reason == "RuleDenied"
    then if is_empty tool
      then s
      else if is_empty rule_name
      then s
      else append_event s (rule_denied ts tool rule_name (texts_of (index "cleared_by" parsed)))
    else s

-- `handle_stop`
unfoldable pub handle_stop : Serde → ℕ → Body → BridgeState → BridgeState × BridgeResp
handle_stop serde ts body s =
    let parsed = or_null (serde.value body) in
    let reason = known_reason (text_of (index "reason" parsed)) in
    (mark_stopped (report_denial ts parsed reason s) reason, ok_resp)
