-- ===== src/Nodes.antt =====
-- internal/core/backend_config_nodes.go: the node list and the settings, as the user edits them. What
-- an edit starts in the background (`go b.apply…Live`) or after a delay (`scheduleRestart`) is recorded
-- here and run elsewhere; log lines are left out.
pub mod Compare
pub mod Edit
pub mod Select
pub mod Sort
pub mod Valid
mod Same
pub mod Unchanged
pub mod Sorted
pub mod Lookup
mod Tests
use sudoku_desktop.Prelude.{ℕ, Bool, List, Option, none, some, String, ℤ}
use sudoku_desktop.Failure.{Failure}
use sudoku_desktop.Config.{AppConfig}
use sudoku_desktop.Config.Normalize.{Platform, Draw, Draws, normalize_config}
use sudoku_desktop.Session.{Phase}

-- model.go, `LatencyResult`
pub record LatencyResult : Type 0 where
  pub node_id : String
  pub node_name : String
  pub latency_ms : ℤ
  pub connect_ok : Bool
  pub checked_at_unix : ℕ
  pub error : String

-- What `SaveConfig` starts in the background.
pub data Live : Type 0 where
  tun : Bool → Live
  mode : String → String → Live
  node : Live

-- The fields of `Backend` that the edits read and change: `latency` by node, the pending restart with
-- its reason, what was started in the background, and the login item of the system. `file` is the
-- configuration that was last written.
pub record Book : Type 0 where
  pub cfg : AppConfig
  pub latency : List (String × LatencyResult)
  pub phase : Phase
  pub last_error : String
  pub restart : Option String
  pub live : List Live
  pub launch_item : Bool
  pub file : Option AppConfig
  pub dirty : Bool

-- The answers that one edit gets: whether the file can be written, whether the login item can be
-- changed, the draws of `newID` for a node without an identifier, and the clock.
pub record EditEnv : Type 0 where
  pub platform : Platform
  pub draws : Draws
  pub id_draw : Draw
  pub blank_draw : Draw
  pub unix : ℕ
  pub write : AppConfig → Option Failure
  pub set_launch : Bool → Option Failure

-- `Store.Save` on the configuration of the backend: it is normalised in place, and then written.
unfoldable pub save : EditEnv → AppConfig → Book → Book × Option Failure
save env cfg b =
    let cfg' = normalize_config env.platform env.draws cfg in
    elim (env.write cfg') [
      | none ↦ (record b { cfg = cfg'; file = some cfg' }, none)
      | some e ↦ (record b { cfg = cfg' }, some e)
    ]
