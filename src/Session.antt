-- ===== src/Session.antt =====
-- internal/core/lifecycle.go: the state of `Backend` that `opMu` and `mu` guard, and what the
-- lifecycle operations ask of everything outside: the state behind them is in `World`, and the
-- answers of one operation are in `Env`. Every operation runs under `opMu`, one at a time, and no
-- change of the configuration comes between its steps. The accumulators of stats.go and
-- the usage file are not part of this state.
pub mod Steps
pub mod Tunnel
pub mod Operations
pub mod Idle
pub mod Live
pub mod Up
pub mod Settled
pub mod Guarded
pub mod Recorded
mod Tests
use sudoku_desktop.Prelude.{ℕ, Bool, true, false, List, [], Option, none, some, String, leb}
use sudoku_desktop.Failure.{Failure, Result}
use sudoku_desktop.SystemProxy.{Snapshot}
use sudoku_desktop.Journal.{Journal, Io}
use sudoku_desktop.Config.{AppConfig}
use sudoku_desktop.Config.Normalize.{Platform, Draws}
use sudoku_desktop.Plan.{TunPlan}

-- `Phase`
pub data Phase : Type 0 where
  stopped starting running stopping : Phase

-- `TrafficState`
pub record TrafficState : Type 0 where
  pub total_tx : ℕ
  pub total_rx : ℕ
  pub estimated_direct_tx : ℕ
  pub estimated_direct_rx : ℕ
  pub estimated_proxy_tx : ℕ
  pub estimated_proxy_rx : ℕ
  pub direct_conns : ℕ
  pub proxy_conns : ℕ

-- The fields of `RuntimeState` that `Backend.state` keeps; the others are computed by `GetState`.
pub record RuntimeState : Type 0 where
  pub phase : Phase
  pub core_running : Bool
  pub tun_running : Bool
  pub tun_requested : Bool
  pub system_proxy_on : Bool
  pub started_at_unix : ℕ
  pub last_error : String
  pub traffic : TrafficState
  pub kernel_version : String
  pub memory_bytes : ℕ
  pub connection_count : ℕ
  pub needs_net_repair : Bool
  pub needs_admin : Bool
  pub admin_error : String

-- `StartRequest` and `adminRequest`
pub data AdminRequest : Type 0 where
  start : Bool → Option Failure → AdminRequest
  repair : AdminRequest

-- `kernel`: the process and what the controller said.
pub record Kernel : Type 0 where
  pub pid : ℕ
  pub version : String

-- The outcome of `startKernel`: no process came up; one came up, and was stopped again before the
-- error was returned; or the core is ready.
pub data Launch : Type 0 where
  not_spawned : Failure → Launch
  given_up : ℕ → Failure → Launch
  ready : Kernel → Launch

-- What stands outside the app: whether a proxy setting of the system may point at the app, the
-- core process that is alive, and whether a tunnel helper is connected (`tunClient.conn`).
pub record World : Type 0 where
  pub proxy_ours : Bool
  pub core : Option ℕ
  pub helper : Bool

-- One line of `addLog`.
pub record LogLine : Type 0 where
  pub level : String
  pub component : String
  pub message : String

pub record Backend : Type 0 where
  pub cfg : AppConfig
  pub state : RuntimeState
  pub kern : Option Kernel
  pub sess : Option Kernel
  pub custom : Option String
  pub sys_snap : Option Snapshot
  pub journal : Journal
  pub guard_started : Bool
  pub admin_pending : Option AdminRequest
  pub dirty : Bool
  pub log : List LogLine
  pub world : World

-- The answers that one operation gets. `cancelled` says whether the start was cancelled by the time
-- of each check of its context: at the entry (0), when the core is ready (1), at the end (2) and
-- after a failure (3).
pub record Env : Type 0 where
  pub now : ℕ
  pub io : Io
  pub platform : Platform
  pub draws : Draws
  pub save : Option Failure
  pub has_admin : Bool
  pub cancelled : ℕ → Bool
  pub ensure_binary : AppConfig → String × Option Failure
  pub check_ports : AppConfig → Option Failure
  pub start_guard : Option Failure
  pub custom_server : String → Result String
  pub start_kernel : AppConfig → String → Bool → Launch
  pub capture_proxy : Result Snapshot
  pub set_proxy : Snapshot → Option Failure
  pub restore_proxy : Snapshot → Option Failure
  pub tun_up : TunPlan → Option Failure
  pub tun_recover : Option Failure
  pub stop_kernel : Kernel → Option Failure
  pub tail : String
  pub stale : Bool
  pub rule_cache_dir : String

abbrev pub no_traffic : TrafficState
no_traffic = record {
  total_tx = 0;
  total_rx = 0;
  estimated_direct_tx = 0;
  estimated_direct_rx = 0;
  estimated_proxy_tx = 0;
  estimated_proxy_rx = 0;
  direct_conns = 0;
  proxy_conns = 0;
}
