-- ===== src/Lib.antt =====
-- Nanny: the execution boundary of an autonomous agent.
--
-- A governor serves the runs of one application. Every tool call of an agent is put to it, and it
-- allows or denies the call, by the allowlist first and the caps on calls after that. A denial stops
-- the run, and a stopped run is refused further action. Everything that happens is appended to the
-- log of the run, whose lines are numbered, and a thread drains the logs to a file or a sink.
--
-- Core      crates/core/src: the policy interface and labels (Core.Policy), the reasons of a stop
--           (Core.Agent), the events and their envelope (Core.Events), the tool interface (Core.Tool).
-- Runtime   crates/runtime/src: ToolPermissionPolicy, RuleEvaluator and ChainPolicy
--           (Runtime.Enforcement), ToolRegistry (Runtime.Registry), the tool http_get
--           (Runtime.HttpGet).
-- Bridge    crates/bridge/src/lib.rs: BridgeState with append_event and mark_stopped (Bridge.State),
--           the request and response types (Bridge.Wire), the record_* functions
--           (Bridge.Attribution), handle_tool_call (Bridge.ToolCall), the other handlers
--           (Bridge.Handlers), and how a run's state is made (Bridge.Template). Bridge.Stable reduces
--           what all handlers keep to the few ways in which they write the state.
-- Network   crates/bridge/src/network.rs: RateLimiter (Network.RateLimiter), session_token_ok
--           (Network.Auth), the routes of one run (Network.Router), GovernorService::call and the
--           map of runs (Network.Governor), the state in which start_blocking_synced
--           serves its first request (Network.Governor.Boot), the drain thread
--           (Network.Drain), and bind_with_fallforward (Network.Bind).
-- Config    crates/config/src/pack.rs: rule packs on disk (Config.Pack). crates/config/src/lib.rs: the
--           schema of nanny.toml with the pins, labels and loading (Config.Settings) and the session
--           tokens (Config.Tokens).
-- Cli       crates/cli/src/sync.rs and cloud.rs: whether a run syncs (Cli.Sync), send_batch
--           (Cli.Sync.Delivery), the outbox Spool (Cli.Sync.Spool, with drain in its child Drain)
--           over the files of Cli.Sync.Disk, and ServerForwarder (Cli.Sync.Forwarder).
--           crates/cli/src/runtime.rs:
--           build_bridge_components (Cli.Components). crates/cli/src/lib.rs, the client inside a
--           governed process: rules, verdicts (Cli.Client), with_first_contact_retry
--           (Cli.Client.FirstContact), run scopes (Cli.Client.Scopes), the bridge's tools and the
--           reports (Cli.Client.Reports), the requests over plain HTTP and TLS (Cli.Client.Wire).
--           crates/cli/src/commands/rules_verify.rs: the digest of a rule pack (Cli.Rules).
--           crates/cli/src/identity.rs: .nanny/app.json (Cli.Identity).
--           crates/cli/src/main.rs: resolve_declared_packs (Cli.Packs).
--           crates/cli/src/commands/certs.rs: the names of a certificate (Cli.Certs), the files of a
--           bundle (Cli.Certs.Bundle), generate and rotate (Cli.Certs.Issue), import
--           (Cli.Certs.Import), remove and show (Cli.Certs.Manage).
--           crates/cli/src/commands/server.rs: cmd_server_start (Cli.Start), and how
--           run_governor_with_app watches its app (Cli.Supervise). The files by which a governor is
--           found, with start_blocking_synced of network.rs, which writes them, and
--           detect_joined_server of main.rs, which reads them (Cli.Discovery). Cli.Folder is what
--           these commands use of std::fs in one directory.
-- Prelude   the shared names, and what the source takes from Rust's standard library: maps as
--           association lists, trim, sort, dedup and the derived orders. Tests holds the witnesses.
--
-- A function of the source that changes a state behind a lock is a function from a state to a state,
-- with the lines it logs in the state. The functions keep the source's names. A log line is kept as
-- the value that it serialises. The clocks are readings, which each step is given; a request's ts is
-- the time at which its event is recorded. The u64 sums and the u32 counts wrap, as in a release
-- build. Routing (axum), JSON (serde_json, the record Serde), TOML, the file system and the kernel's
-- answers to bind are parameters, with no assumption about them but those that a result states.
--
-- bind_from runs on the number of attempts that the source gives it, 64, and send_from on its four.
-- retry_from has no bound in the source but the clock; it runs on fuel, of which 12 is enough where a
-- sleep takes at least its time. All other loops are structural.
--
-- A command that changes files and may fail is an action (Prelude.Exec): a function from a folder to the
-- folder that it leaves and its result, so that what was done before a failure stays done. Ensures
-- states what holds when it returns and what when it fails. Each operation on a file may fail, as the
-- record Access says; what others do to the folder while a command runs is not modelled.
--
-- wait_for_governor makes its 200 rounds. The files of the outbox are a list of names with contents (Disk), and each operation on them may
-- fail as its Faults say. The cloud, and the bridge as its client sees it, are an unknown state with
-- an answer to each request.
--
-- A handler runs as one step, except that handle_tool_call releases the lock between its decision,
-- the run of the tool and the record of the outcome. Bridge.ToolCall models it where nothing else
-- takes the lock between them, and Network.Router.Interleaved models the sections of many calls of
-- one run in any order. Network.Router.Trace is the life of one run, Network.Governor.Traffic that of
-- a governor with all its runs.
--
-- Not modelled: TLS and its reload, signals, threads and processes, what is printed (the rest of
-- start_blocking_synced and of the commands of crates/cli, with nanny init, stop, status, health and
-- the editing of nanny.toml), the HTTP libraries, the macros (crates/macros), which generate code that
-- a model would have to interpret, and the SDK packages.
pub mod Prelude
pub mod Core
pub mod Runtime
pub mod Bridge
pub mod Network
pub mod Cli
pub mod Config
pub mod Tests
