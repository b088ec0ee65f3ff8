-- ===== src/Bridge/Wire.antt =====
-- crates/bridge/src/lib.rs: what travels between a client and the handlers. The bytes are read and
-- written by `serde_json`, which is a parameter: `Serde` names the calls that the handlers make.
use nanny.Prelude.{ℕ, String, Option, none, some, List, []}
use nanny.Prelude.Dict.{Dict}
use nanny.Core.Agent.{StopReason}
use nanny.Core.Events.{RuleDecl, LoggedEvent, rule_local}
use nanny.Core.Tool.{ToolArgs}

abbrev pub Body : Type 0
Body = List ℕ

pub record ToolCallRequest : Type 0 where
  pub tool : String
  pub args : ToolArgs
  pub cleared_by : List String

pub record RuleEvalRequest : Type 0 where
  pub elapsed : Option ℕ
  pub tool : Option String
  pub tool_call_counts : Dict ℕ
  pub tool_call_history : List String
  pub tokens_spent : Option ℕ

-- `RuleEvalRequest::default()`
abbrev pub default_rule_eval : RuleEvalRequest
default_rule_eval = record {
  elapsed = none;
  tool = none;
  tool_call_counts = [];
  tool_call_history = [];
  tokens_spent = none;
}

pub record AgentEnterRequest : Type 0 where
  pub name : String

pub record HarnessLabel : Type 0 where
  pub name : String
  pub version : Option String

pub record LlmUsageRequest : Type 0 where
  pub input : ℕ
  pub output : ℕ
  pub model : Option String
  pub provider : Option String
  pub cache_read : Option ℕ
  pub cache_write : Option ℕ
  pub harness : Option HarnessLabel

pub data RuleInput : Type 0 where
  bare : (name : String) → RuleInput
  decl : (name : String) (version pack : Option String) → RuleInput

-- `impl From<RuleInput> for RuleDecl`
unfoldable pub from_input : RuleInput → RuleDecl
from_input (bare name) = rule_local name
from_input (decl name version pack) = record { name = name; version = version; pack = pack }

pub record AppRequest : Type 0 where
  pub app_id : String
  pub name : String

-- `serde_json::Value`, as far as `handle_stop` looks into it.
mutual
  pub data Value : Type 0 where
    null : Value
    other : Value
    str : String → Value
    array : Items → Value
    object : Members → Value

  pub data Items : Type 0 where
    done : Items
    item : Value → Items → Items

  pub data Members : Type 0 where
    empty : Members
    member : String → Value → Members → Members

pub data ToolCallResponse : Type 0 where
  allowed : (result : String) → ToolCallResponse
  denied : (reason : String) (tool_name rule_name : Option String) → ToolCallResponse

pub data ContentType : Type 0 where
  json ndjson : ContentType

pub record BridgeResp : Type 0 where
  pub status : ℕ
  pub body : String
  pub content_type : ContentType

-- `BridgeResp::json`
abbrev pub json_resp : ℕ → String → BridgeResp
json_resp status body = record { status = status; body = body; content_type = json }

-- `BridgeResp::ndjson`
abbrev pub ndjson_resp : String → BridgeResp
ndjson_resp body = record { status = 200; body = body; content_type = ndjson }

-- The calls of `serde_json`: `from_slice` at each request type, `to_string` at each value written.
pub record Serde : Type 0 where
  pub tool_call_request : Body → Option ToolCallRequest
  pub rule_eval_request : Body → Option RuleEvalRequest
  pub agent_enter_request : Body → Option AgentEnterRequest
  pub llm_usage_request : Body → Option LlmUsageRequest
  pub harness_request : Body → Option HarnessLabel
  pub rules_request : Body → Option (List RuleInput)
  pub app_request : Body → Option AppRequest
  pub value : Body → Option Value
  pub line : LoggedEvent → String
  pub response_text : ToolCallResponse → String
  pub counts_text : Dict ℕ → Option String
  pub history_text : List String → Option String
  pub labels_text : Dict (List String) → Option String

-- `stop_reason_name`
unfoldable pub stop_reason_name : StopReason → String
stop_reason_name (StopReason.tool_denied tool_name) = "ToolDenied"
stop_reason_name (StopReason.rule_denied rule_name) = "RuleDenied"
stop_reason_name StopReason.manual_stop = "ManualStop"
stop_reason_name StopReason.agent_completed = "AgentCompleted"

-- `denial_from`
unfoldable pub denial_from : StopReason → ToolCallResponse
unfolding stop_reason_name
denial_from (StopReason.tool_denied tool_name) = denied "ToolDenied" (some tool_name) none
denial_from (StopReason.rule_denied rule_name) = denied "RuleDenied" none (some rule_name)
denial_from StopReason.manual_stop = denied (stop_reason_name StopReason.manual_stop) none none
denial_from StopReason.agent_completed =
    denied (stop_reason_name StopReason.agent_completed) none none
