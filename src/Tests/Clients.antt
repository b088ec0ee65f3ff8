-- ===== src/Tests/Clients.antt =====
-- A configuration, and a process that is governed under it, at concrete values.
use mathlib.Core.List.{Mem}
use nanny.Prelude.{
  ℕ, suc, String, ◌+◌, ◌≤◌, ◌<◌, ◌≡◌, ◌≢◌, ◌↔◌, refl, Bool, true, false, Option, none, some, List,
  [], ◌∷◌, map, arith, ok, ltb, leb, if◌then◌else◌, All, chars_count, has_char, trim_start,
  trim_end, is_whitespace,
}
use nanny.Prelude.Dict.{get}
use nanny.Core.Policy.{PolicyContext}
use nanny.Bridge.State.{running}
use nanny.Bridge.ToolCall.{handle_tool_call}
use nanny.Config.Settings.{ToolConfig, NannyConfig}
use nanny.Config.Settings.Pins.{IsField}
use nanny.Config.Tokens.{AreTokens, resolve_session_token, resolve_session_token_iff}
use nanny.Cli.Components.Governed.{configured, cap, configured-running_iff}
use nanny.Cli.Client.{
  BridgeResponse, Rule, StatusValue, status_of, Transport, evaluate_local_rules, evaluated,
  first_denying,
}
use nanny.Cli.Client.Verdicts.{IsVerdict, evaluate_local_rules-IsVerdict}
use nanny.Cli.Client.Scopes.{
  Code, finished, governed, scoped, execute, lexical, all_of, execute-lexical,
}
use nanny.Cli.Client.FirstContact.{Contact, ended, first_contact_timeout, with_first_contact_retry}
use nanny.Cli.Client.FirstContact.Termination.{IsClock, HasEnded, with_first_contact_retry-HasEnded}
use Prim.Native.String.{len}
use nanny.Config.Pack.{PackManifest}
use nanny.Cli.Rules.{Listing, no_entries, entry, file, folder, verify}
use nanny.Cli.Rules.Digest.{inside, swapped, further, verify-reread}
use nanny.Prelude.{text_lines, Result, trim, rsplit_once}
use nanny.Cli.Packs.{resolve_declared_packs, resolve_declared_packs-print_pin}
use nanny.Tests.{serde, registry, clock, call_request}

abbrev capped : ToolConfig
capped = record {
  max_calls = some 2;
  reads_untrusted = true;
  external_effect = false;
  destructive = false;
  moves_money = false;
  reads_sensitive = false;
}

abbrev config : NannyConfig
config = record {
  start = none;
  tools = record { allowed = "http_get" ∷ []; per_tool = ("http_get", capped) ∷ [] };
  rules = record { extends = [] };
}

abbrev hash : NannyConfig → String
hash c = "hash"

configured-running_iff_example :
    ((handle_tool_call serde registry clock 110
        (1 ∷ [])
        (configured registry hash "1" config "t" clock "run-1")).0.execution
      ≡ running)
    ↔ (Mem {A = String} "http_get" ("http_get" ∷ [])
        × ((max : ℕ) → cap (get "http_get" (("http_get", capped) ∷ [])) ≡ some max → 0 < max))
configured-running_iff_example =
    configured-running_iff registry hash "1" config "t" clock "run-1" serde 110 (1 ∷ [])
      call_request (refl, tt) refl

abbrev long_token : String
long_token = "0123456789abcdef0123456789abcdef"

resolve_session_token_iff_example :
    (resolve_session_token (some long_token) ≡ ok (some (long_token ∷ []))) ↔ (
      (raw : String) × (some long_token ≡ some raw)
      × AreTokens (text_lines raw) (long_token ∷ [])
      × (long_token ∷ [] ≢ [])
      × All (λ token. 32 ≤ chars_count token) (long_token ∷ []))
resolve_session_token_iff_example = resolve_session_token_iff (some long_token) (long_token ∷ [])

pack-IsField : IsField "nanny:owasp"
unfolding trim_start trim_end is_whitespace
pack-IsField = record { start = refl; finish = refl; filled = refl }

version-IsField : IsField "2.1.0"
unfolding trim_start trim_end is_whitespace
version-IsField = record { start = refl; finish = refl; filled = refl }

no_at : has_char 64 "2.1.0" ≡ false
unfolding has_char
no_at = refl

-- A bridge that answers every request with status 200.
abbrev transport : Transport ℕ
transport = record {
  http_get = λ path w. (suc w, some (record { status = 200; body = "status" }));
  http_post = λ path body w. (suc w, some (record { status = 200; body = "\"allowed\"" }));
}

abbrev parse_status : String → Option StatusValue
parse_status body = some (record {
  tokens_spent = some 5;
  tool_call_counts = none;
  tool_call_history = none;
  tool_labels = none;
})

abbrev under : ℕ → PolicyContext → Bool
under n ctx = ltb ctx.tokens_spent n

abbrev two_rules : List Rule
two_rules =
    record { name = "wide"; func = under 10 } ∷ record { name = "narrow"; func = under 3 } ∷ []

abbrev in_quotes : String → String
in_quotes s = s

abbrev names : List String → String
names ns = "{}"

-- A bridge that cannot read its own status.
abbrev broken : Transport ℕ
broken = record transport {
  http_get = λ path w. (suc w, some (record { status = 503; body = "status" }));
}

with_five_spent :
    (evaluate_local_rules transport true parse_status in_quotes names two_rules "http_get" [] 1 2
      (false, 0)).1
    ≡ evaluated (some "narrow")
unfolding evaluate_local_rules status_of first_denying
with_five_spent = refl

evaluate_local_rules-IsVerdict_example :
    IsVerdict parse_status true
      (some (record { status = 503; body = "status" }))
      two_rules
      (λ status. record {
        elapsed_ms = 1;
        now_ms = 2;
        requested_tool = some "http_get";
        tokens_spent = status.tokens_spent;
        tool_call_counts = status.tool_call_counts;
        tool_call_history = status.tool_call_history;
        tool_labels = status.tool_labels;
        last_tool_args = [];
      })
      (evaluate_local_rules broken true parse_status in_quotes names two_rules "http_get" [] 1 2
        (false, 0)).1
evaluate_local_rules-IsVerdict_example =
    evaluate_local_rules-IsVerdict broken true parse_status in_quotes names two_rules "http_get" []
      1 2 (false, 0)

abbrev nested : Code
nested = governed (
    scoped (some "a") "x" (scoped none "run_b" (governed finished) (governed finished))
      (governed finished))

execute-lexical_example :
    (execute none none nested none ≡ (none, lexical none nested))
    × (execute none (some "run_env") nested none ≡ (none, lexical (some "run_env") nested))
    × (execute none (some "") nested none ≡ (none, lexical none nested))
    × (execute (some "task") (some "run_env") nested none ≡ (none, all_of "task" nested))
execute-lexical_example =
    execute-lexical "run_env" "task" nested refl refl (refl, (refl, tt, tt), tt)

-- A world that is its clock, where the bridge answers after two seconds.
abbrev answers_late : ℕ → ℕ × Option BridgeResponse
answers_late t = (t, if leb 2000 t then some (record { status = 200; body = "" }) else none)

abbrev now : ℕ → ℕ
now t = t

abbrev sleep : ℕ → ℕ → ℕ
sleep ms t = t + ms

ticking : IsClock answers_late now sleep
ticking = record { onward = λ w. omega arith; sleeps = λ ms w. omega arith }

abbrev cold : Contact ℕ
cold = record { world = 0; reached = false; tries_made = 0 }

with_first_contact_retry-HasEnded_example :
    (r : Contact ℕ × Option BridgeResponse) × (with_first_contact_retry answers_late now sleep 12
        cold
      ≡ ended r)
    × HasEnded answers_late now sleep 12 first_contact_timeout cold r
with_first_contact_retry-HasEnded_example =
    with_first_contact_retry-HasEnded answers_late now sleep ticking cold

abbrev readable : String → Option (List ℕ)
readable path = some (1 ∷ [])

abbrev sum_of : List ℕ → String
sum_of bytes = "digest"

abbrev bytes_of_text : String → List ℕ
bytes_of_text s = len s ∷ []

abbrev pack : PackManifest
pack = record {
  name = "nanny:owasp";
  version = "2.1.0";
  description = "";
  rules = [];
  python = none;
  rust = none;
  signature = some "digest";
}

abbrev listing : Listing
listing =
    entry (file "pack.toml")
      (entry (folder "src" (entry (file "b.py") (entry (file "a.py") no_entries))) no_entries)

abbrev reread : Listing
reread =
    entry (folder "src" (entry (file "a.py") (entry (file "b.py") no_entries)))
      (entry (file "pack.toml") no_entries)

verify-reread_example :
    verify sum_of bytes_of_text readable listing pack
    ≡ verify sum_of bytes_of_text readable reread pack
verify-reread_example =
    verify-reread sum_of bytes_of_text readable pack listing reread
      (further swapped (inside swapped))

abbrev with_pack : NannyConfig
with_pack = record config { rules = record { extends = "nanny:owasp@2.1.0" ∷ [] } }

abbrev toml_there : String → Option String
toml_there path = some "toml"

abbrev toml_reads : String → Result String PackManifest
toml_reads contents = ok pack

pack_loads : resolve_declared_packs toml_there toml_reads with_pack "/app" ≡ ok (pack ∷ [])
unfolding resolve_declared_packs trim trim_start trim_end is_whitespace rsplit_once
pack_loads = refl

resolve_declared_packs-print_pin_example :
    map {B = String × String} (λ (m : PackManifest). (m.name, m.version)) (pack ∷ [])
    ≡ ("nanny:owasp", "2.1.0") ∷ []
resolve_declared_packs-print_pin_example =
    resolve_declared_packs-print_pin toml_there toml_reads with_pack "/app"
      (("nanny:owasp", "2.1.0") ∷ []) (pack ∷ []) refl ((pack-IsField, version-IsField, no_at), tt)
      pack_loads
