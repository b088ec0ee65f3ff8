-- ===== src/Bridge/Template.antt =====
-- crates/bridge/src/lib.rs: how a run's state is made, by `Bridge::start`, and by the governor's
-- `RunTemplate` for each new run.
use nanny.Prelude.{ℕ, String, Option, none, some, List, [], ◌∷◌, length}
use nanny.Prelude.Dict.{Dict, to_btree}
use nanny.Core.Events.{RuleDecl, LoggedEvent, execution_started}
use nanny.Runtime.Registry.{ToolRegistry}
use nanny.Bridge.State.{BridgeState, running, Clock}

pub record BridgeComponents : Type 0 where
  pub registry : ToolRegistry
  pub allowed_tools : List String
  pub per_tool_max_calls : Dict ℕ
  pub tool_labels : Dict (List String)
  pub config_hash : String
  pub runtime_version : String
  pub start_command : Option String

pub record RunTemplate : Type 0 where
  pub session_token : String
  pub allowed_tools : List String
  pub per_tool_max_calls : Dict ℕ
  pub tool_labels : Dict (List String)
  pub config_hash : String
  pub runtime_version : String
  pub start_command : Option String

-- `init_run_template`
unfoldable pub init_run_template : BridgeComponents → String → RunTemplate × ToolRegistry
init_run_template c token = (
  record {
    session_token = token;
    allowed_tools = c.allowed_tools;
    per_tool_max_calls = c.per_tool_max_calls;
    tool_labels = c.tool_labels;
    config_hash = c.config_hash;
    runtime_version = c.runtime_version;
    start_command = c.start_command;
  },
  c.registry,
)

abbrev or_empty : Option String → String
or_empty none = ""
or_empty (some command) = command

-- The seeded `ExecutionStarted`.
abbrev pub started_event : RunTemplate → Clock → String → LoggedEvent
started_event t clock run_id = record {
  run_id = run_id;
  seq = 0;
  event =
      execution_started clock.now_ms (or_empty t.start_command) t.allowed_tools
        (to_btree t.tool_labels) t.config_hash t.runtime_version;
}

-- `RunTemplate::build_state`
unfoldable pub build_state : RunTemplate → Clock → String → BridgeState
build_state t clock run_id = record {
  session_token = t.session_token;
  execution = running;
  run_id = run_id;
  next_seq = 1;
  tool_permission_policy = record { allowed_tools = t.allowed_tools };
  rule_evaluator = record { max_calls = t.per_tool_max_calls };
  agent_name_stack = [];
  allowed_tools = t.allowed_tools;
  tool_labels = t.tool_labels;
  tokens_spent = 0;
  tool_call_counts = [];
  tool_call_history = [];
  start_time = clock.instant;
  events = started_event t clock run_id ∷ [];
  last_harness = none;
  last_rules = none;
  last_app = none;
  last_governor = none;
}

-- `RunTemplate::build_placeholder_state`
unfoldable pub build_placeholder_state : RunTemplate → Clock → String → BridgeState
unfolding build_state
build_placeholder_state t clock run_id = record (build_state t clock run_id) {
  events = [];
  next_seq = 0;
}

-- The state that `Bridge::start` shares, with the token that it minted.
unfoldable pub start_state : BridgeComponents → Clock → String → String → BridgeState
start_state c clock token run_id = record {
  session_token = token;
  execution = running;
  run_id = run_id;
  next_seq = 0;
  tool_permission_policy = record { allowed_tools = c.allowed_tools };
  rule_evaluator = record { max_calls = c.per_tool_max_calls };
  agent_name_stack = [];
  allowed_tools = c.allowed_tools;
  tool_labels = c.tool_labels;
  tokens_spent = 0;
  tool_call_counts = [];
  tool_call_history = [];
  start_time = clock.instant;
  events = [];
  last_harness = none;
  last_rules = none;
  last_app = none;
  last_governor = none;
}

pub record BridgeMetrics : Type 0 where
  pub tokens_spent : ℕ
  pub tool_call_count : ℕ
  pub allowed_tool_count : ℕ
  pub declared_rule_count : ℕ

abbrev rule_count : Option (List RuleDecl) → ℕ
rule_count none = 0
rule_count (some rules) = length rules

-- `Bridge::metrics`
unfoldable pub metrics : BridgeState → BridgeMetrics
metrics s = record {
  tokens_spent = s.tokens_spent;
  tool_call_count = length s.tool_call_history;
  allowed_tool_count = length s.allowed_tools;
  declared_rule_count = rule_count s.last_rules;
}
