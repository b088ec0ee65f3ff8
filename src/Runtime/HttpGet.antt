-- ===== src/Runtime/HttpGet.antt =====
-- crates/runtime/src/tools/http_get.rs: the built-in tool. The HTTP agent and the reading of UTF-8 are
-- parameters; times are in milliseconds.
use text.Mathlib.Text.{starts_with}
use nanny.Prelude.{
  ℕ, String, ◌-◌, ◌*◌, Bool, ◌||◌, Option, none, some, List, [], ◌∷◌, Result, ok, err, ◌<>◌, ltb,
  length, to_decimal, ◌==◌, nat_eq, if◌then◌else◌,
}
use nanny.Prelude.Dict.{get}
use nanny.Core.Tool.{
  Tool, ToolArgs, ToolOutput, ToolError, invalid_argument, execution_failed, timeout,
}
use nanny.Runtime.Registry.{ToolRegistry, new_registry, register}

abbrev pub max_body_bytes : ℕ
max_body_bytes = 1024 * 1024

abbrev pub default_timeout_ms : ℕ
default_timeout_ms = 5000

-- What a call of the agent can come to, besides a response.
pub data CallError : Type 0 where
  status_code : (code : ℕ) → CallError
  timed_out : CallError
  other_error : String → CallError

-- The body as it is read: its bytes, and an error that comes after them, if one does.
pub record Reply : Type 0 where
  pub bytes : List ℕ
  pub breaks : Option String

-- `Read::take`
abbrev pub take_bytes : ℕ → List ℕ → List ℕ
take_bytes n [] = []
take_bytes n (b ∷ bs) = let rest = take_bytes (n - 1) bs in if n == 0 then [] else b ∷ rest

-- The `map_err` of the call.
abbrev of_call : ℕ → CallError → ToolError
of_call timeout_ms (status_code code) = execution_failed ("HTTP " <> to_decimal code)
of_call timeout_ms timed_out = timeout timeout_ms
of_call timeout_ms (other_error e) = execution_failed e

abbrev is_web : String → Bool
is_web url = starts_with url "http://" || starts_with url "https://"

abbrev as_output : Result String String → Result ToolError ToolOutput
as_output (ok body) = ok (record { content = body })
as_output (err e) = err (execution_failed e)

-- `agent` makes a request with a timeout; `from_utf8` reads a text.
module _ (agent : ℕ → String → Result CallError Reply)
    (from_utf8 : List ℕ → Result String String) where
  abbrev decoded : Reply → Result ToolError ToolOutput
  decoded reply = as_output (from_utf8 (take_bytes max_body_bytes reply.bytes))

  -- The read of the body, up to the cap: an error beyond it is not met.
  abbrev read_body : Reply → Option String → Result ToolError ToolOutput
  read_body reply none = decoded reply
  read_body reply (some e) =
      if ltb (length reply.bytes) max_body_bytes then err (execution_failed e) else decoded reply

  abbrev on_reply : ℕ → Result CallError Reply → Result ToolError ToolOutput
  on_reply timeout_ms (err e) = err (of_call timeout_ms e)
  on_reply timeout_ms (ok reply) = read_body reply reply.breaks

  abbrev with_url : ℕ → Option String → Result ToolError ToolOutput
  with_url timeout_ms none = err (invalid_argument "url" "required argument missing")
  with_url timeout_ms (some url) =
      if is_web url
      then on_reply timeout_ms (agent timeout_ms url)
      else err (invalid_argument "url" ("must start with http:// or https://, got: " <> url))

  -- `HttpGet::execute`
  unfoldable pub execute_http_get : ℕ → ToolArgs → Result ToolError ToolOutput
  execute_http_get timeout_ms args = with_url timeout_ms (get "url" args)

  -- `HttpGet::with_timeout`
  unfoldable pub http_get_within : ℕ → Tool
  http_get_within timeout_ms = record { name = "http_get"; execute = execute_http_get timeout_ms }

  -- `default_registry`
  unfoldable pub default_registry : ToolRegistry
  unfolding http_get_within
  default_registry = register new_registry (http_get_within default_timeout_ms)
