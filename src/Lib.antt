-- ===== src/Lib.antt =====
-- A verification library of the desktop client: the Go package internal/core.
--
-- The app runs a core process with a local proxy, may point the proxy settings of the system at it,
-- and may bring up a tunnel through a privileged helper. What it did to the system is in a journal
-- on disk, which a guard process or the next launch replays if the app dies. The user edits nodes
-- and settings, which are normalised, saved, and applied live or by a restart.
--
-- - Prelude: shared names, Boolean tests, lists and Go's `int` over the native numbers, and what the
--   code uses of the packages strings, strconv and encoding/hex. Failure: Go's `error`.
-- - Session and its children: internal/core/lifecycle.go, the state of `Backend` under `opMu` and the
--   operations `StartProxy`, `StopProxy`, `RestartProxy`, `applyTunLocked`, `reapplyTun`, `onTunEvent`,
--   `recoverTun`, `RepairNetwork`, `superviseKernel` and `teardownLocked` as functions on it; what the
--   system answers to one operation is the record `Env`. Each operation runs alone.
-- - Journal and its children: internal/core/journal.go and guard.go.
-- - SystemProxy: internal/core/system_proxy.go, the snapshot that the journal keeps.
-- - LogRing: the log of internal/core/backend.go, `appendLog` and `GetLogs`.
-- - Config and its children: internal/core/model.go, store.go (`normalizeConfigForOS`) and
--   routing_defaults.go.
-- - Plan and its children: the tunnel plan, `buildTunPlan` of lifecycle.go and `validateTunPlan` of
--   helper_proto.go.
-- - Nodes and its children: internal/core/backend_config_nodes.go and what ctl_sync.go adopts from
--   the controller; the sorts (Sort), with that of latency results in internal/core/detect.go.
-- - Kernel: internal/core/runtime_config.go, the files rendered for the core and for the tunnel, and
--   internal/core/kernel.go, the start of the core (Start); the names of its outbounds (Names).
-- - Process: internal/core/process.go, the lines of a process's output.
-- - Health: internal/core/healthcheck.go, the check of a connection through the proxy.
-- - Dns: internal/core/dns_proxy.go. Forwards: internal/core/portforward.go. Usage:
--   internal/core/stats.go and usage_history.go.
-- - Routes and its children: internal/core/routes.go, what the setup and the teardown of the routes run
--   on Linux (Command, Linux) and on macOS (Darwin), pf_darwin.go, the parsing of
--   darwin_primary_route_parse.go (Darwin/Primary), the quoting of command_runner.go (Shell), and on Windows
--   (Windows) the questions to PowerShell, the search for the tunnel's interface (Resolve), the text of
--   the script (Script) and what is recorded and run (Setup).
-- - Helper and its children: internal/core/helper_server.go, the privileged helper: `bringUp` (Rise), `up`
--   and `watchHev` (Up), `teardownLocked` and `recoverStale` (Steps), `serve` (Serve). Its `System` keeps
--   what outlives the process; the list `passed` holds every state of it, so that a claim about all of
--   them covers a helper that is killed in the middle of an operation.
-- - Client and its children: internal/core/tun.go, the app's end of the link to the helper: the calls
--   that wait and the end of a connection (Client), `pingLoop` (Heartbeat), the connections that
--   `Ensure` accepts, `launchError` and `cappedBuffer` (Launch).
-- - ShareLink: internal/core/shortlink.go, a node as a link.
-- - Examples and the modules named Tests: concrete data and runs.
--
-- Session uses Config for the configuration, Plan for what the tunnel is asked, and Journal for what a
-- crash must undo; Nodes saves through Config's normalisation;
-- Helper checks its plan by Plan.Validate and keeps Routes' record of what the setup changed; Kernel.Start
-- asks the controller as Nodes.Select does; Session.Recorded brings Session's operations and Journal's
-- recovery together; LogRing, Dns, Forwards, Usage, Client, ShareLink and Health
-- stand alone, on Config's records where they need them.
--
-- Numbers are native; a `uint64` counter wraps at 2^64, and Go's `int` is a signed number that the code
-- only compares and replaces. Loops over slices are recursion on lists. The guard's wait for its
-- parent runs on fuel, one unit for each look: any fuel above the number of looks at which the
-- parent lives is enough. Numbers below 2^64 are printed with at most 20 decimal digits or 13 of base
-- 36, which is the fuel of the printing. The search for a free name takes a round more than there are
-- names taken, and the loop of a line writer one more than it holds bytes. `GetLogs` takes a round for each slot of the ring.
-- The search for the tunnel's interface on Windows is on fuel as well: it has ten seconds, waits 350
-- milliseconds between its rounds and so ends within thirty.
--
-- What is a parameter: the module sudoku (`NormalizeASCIIMode`), golang.org/x/net/dns/dnsmessage,
-- JSON, base64, parsing of addresses and URLs, random bytes, the clock, files, processes, sockets, the controller
-- and the platform's settings. What is not modelled: what PowerShell does with a script, the rule feeder, the
-- start of the helper with administrator rights, the repair of the routes after a sleep on macOS
-- (`wakeLoop` of internal/core/helper_wake_darwin.go), process handling, HTTP calls, the other probes, platform code,
-- and the desktop shell.
-- The lower case of texts is that of ASCII letters and of the two other code points whose lower case
-- is ASCII, since the code compares what it lowers with ASCII words.
pub mod Prelude
pub mod Failure
pub mod SystemProxy
pub mod Journal
pub mod LogRing
pub mod Plan
pub mod Session
pub mod Config
pub mod Nodes
pub mod Dns
pub mod Forwards
pub mod Usage
pub mod Kernel
pub mod Examples
pub mod Routes
pub mod Helper
pub mod Client
pub mod ShareLink
pub mod Health
pub mod Process
