-- ===== src/Helper.antt =====
-- internal/core/helper_server.go, helper_proto.go: the state of the privileged tunnel helper, and the
-- answers that one of its operations gets from the system. Operations that change the tunnel run
-- under `mu`, one at a time. `System` is what outlives the helper's process. Log lines, the loop that
-- repairs routes after a sleep on macOS and the refresh of the rule cache are left out.
pub mod Steps
pub mod Rise
pub mod Up
pub mod Covered
pub mod Risen
pub mod Journalled
pub mod Down
pub mod Serve
pub mod Answered
pub mod Idle
mod Tests
use sudoku_desktop.Prelude.{ℕ, Bool, List, Option, none, some, String}
use sudoku_desktop.Failure.{Failure, Result}
use sudoku_desktop.Config.{TunSettings}
use sudoku_desktop.Plan.{TunPlan}
use sudoku_desktop.Plan.Validate.{Net}
use sudoku_desktop.Routes.{RoutePlan, RouteContext}

-- `tunState`
pub record TunState : Type 0 where
  pub version : ℕ
  pub helper_pid : ℕ
  pub hev_pid : ℕ
  pub tun : TunSettings
  pub routes : Option RouteContext
  pub updated : ℕ
  pub interface : String

-- What `readTunState` finds: no file, one that cannot be read, or a journal.
pub data Stored : Type 0 where
  missing unreadable : Stored
  stored : TunState → Stored

-- What outlives the helper: its journal on disk, the tunnel process that is alive, and the record of
-- the setup whose changes of routes and DNS may be in place.
pub record System : Type 0 where
  pub journal : Stored
  pub hev : Option ℕ
  pub changed : Option RouteContext

-- `tunSession`; `hev_pid` is `s.hev.PID()`, `dns` and `feeder` tell whether these were started, and
-- `stopped` whether `stopCh` is closed.
pub record Session : Type 0 where
  pub plan : TunPlan
  pub tun : TunSettings
  pub hev_pid : ℕ
  pub routes : Option RouteContext
  pub dns : Bool
  pub feeder : Bool
  pub server_ip : List String
  pub iface : String
  pub stopped : Bool

-- `helperServer`, with the states that the system went through, the latest first.
pub record Helper : Type 0 where
  pub sess : Option Session
  pub system : System
  pub passed : List System

-- The answers that one operation gets. `save` tells of each write of the journal (0 when the tunnel
-- process runs, 1 before the routes are changed, 2 when they are set), `tear_down` of each attempt.
-- `prepare_routes` is `setupRoutes` down to the call of `prepared`, `run_routes` what follows.
pub record Env : Type 0 where
  pub goos : String
  pub pid : ℕ
  pub now : ℕ
  pub net : Net
  pub make_dirs : Option Failure
  pub install_hev : Option Failure
  pub resolve : List String → List String
  pub has_iptables : Bool
  pub split_dns : Option Failure
  pub write_hev_config : Option Failure
  pub start_hev : Result ℕ
  pub save : ℕ → Option Failure
  pub cancelled : Option Failure
  pub hev_exited : Bool
  pub hev_tail : String
  pub actual_interface : String
  pub prepare_routes : RoutePlan → Result RouteContext
  pub run_routes : RouteContext → Option Failure
  pub rollback : RouteContext → Option Failure
  pub proxy_ready : Option Failure
  pub proxy_path : Option Failure
  pub dns_check : Option Failure
  pub tear_down : ℕ → RouteContext → TunSettings → Option Failure
  pub stop_hev : Option Failure
  pub remove_journal : Option Failure
  pub process_alive : ℕ → Bool
  pub process_command : ℕ → String

-- `tunStatus`
pub record TunStatus : Type 0 where
  pub up : Bool
  pub interface : String
  pub split_dns : Bool
  pub hev_pid : ℕ
  pub stale_state : Bool
