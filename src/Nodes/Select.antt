-- ===== src/Nodes/Select.antt =====
-- backend_config_nodes.go: `SetActiveNode` and `SetRoutingMode`; ctl_sync.go: what is adopted from the
-- controller. What the controller answers is in `ControlEnv`; log lines are left out.
use sudoku_desktop.Prelude.{
  Bool, true, false, not, ◌&&◌, [], ◌∷◌, Option, none, some, String, text_append, str_eq,
  if◌then◌else◌, length, ltb, trim_space, to_lower, any,
}
use sudoku_desktop.Failure.{Failure, new_error}
use sudoku_desktop.Config.{AppConfig, balance_node_id}
use sudoku_desktop.Config.Normalize.{has_node}
use sudoku_desktop.Plan.{normalize_mode}
use sudoku_desktop.Nodes.{Book, EditEnv, save}
use sudoku_desktop.Nodes.Edit.{is_running, schedule_restart, equal_fold}

-- Whether a core is up and a tunnel, the answers of the controller, and that of `reapplyTun`.
pub record ControlEnv : Type 0 where
  pub has_core : Bool
  pub select_node : AppConfig → String → Option Failure
  pub set_mode : String → Option Failure
  pub tun_running : Bool
  pub reapply_tun : Option Failure

-- `controllerMode`
unfoldable pub controller_mode : String → String
controller_mode mode =
    let m = to_lower (trim_space mode) in
    if str_eq m "global" then "global" else if str_eq m "direct" then "direct" else "rule"

-- `applyNodeLive`: a switch that fails is made by a restart.
unfoldable pub apply_node_live : ControlEnv → Book → Book × Option Failure
apply_node_live ctl b =
    if not ctl.has_core then (b, none) else elim (ctl.select_node b.cfg b.cfg.active_node_id) [
      | some e ↦ (schedule_restart "restarting to switch node" b, none)
      | none ↦ (b, none)
    ]

-- `SetActiveNode`
unfoldable pub set_active_node : EditEnv → ControlEnv → String → Book → Book × Option Failure
set_active_node env ctl id b =
    let (saved, r) = save env (record (b.cfg) { active_node_id = id }) b in
    let b' = record saved { dirty = true } in
    let switched : Book × Option Failure = elim r [
      | some e ↦ (b', some e)
      | none ↦ (if is_running b.phase then apply_node_live ctl b' else (b', none))
    ] in
    if str_eq id balance_node_id
    then (if ltb (length b.cfg.nodes) 2
        then (b, some (new_error "load balancing needs at least two nodes"))
        else switched)
    else if has_node id b.cfg.nodes
    then switched
    else (b, some (new_error (text_append "node not found: " id)))

-- `(normalizeMode(prev) == "pac") != (mode == "pac")`
abbrev pub changes_pac : String → String → Bool
changes_pac prev mode =
    if str_eq (normalize_mode prev) "pac" then not (str_eq mode "pac") else str_eq mode "pac"

-- `applyModeLive`
unfoldable pub apply_mode_live : ControlEnv → String → String → Book → Book × Option Failure
apply_mode_live ctl prev mode b =
    if not ctl.has_core then (b, none) else elim (ctl.set_mode (controller_mode mode)) [
      | some e ↦ (record b { last_error = e.text; dirty = true }, some e)
      | none ↦ (b, if changes_pac prev mode && ctl.tun_running then ctl.reapply_tun else none)
    ]

abbrev pub is_mode : String → Bool
is_mode mode = any (str_eq mode) ("global" ∷ "direct" ∷ "pac" ∷ [])

abbrev pub with_mode : String → AppConfig → AppConfig
with_mode mode cfg = record cfg { routing = record (cfg.routing) { proxy_mode = mode } }

-- `SetRoutingMode`; the mode is put back where the file cannot be written.
unfoldable pub set_routing_mode : EditEnv → ControlEnv → String → Book → Book × Option Failure
set_routing_mode env ctl raw b =
    let mode = to_lower (trim_space raw) in
    let prev = b.cfg.routing.proxy_mode in
    let (saved, r) = save env (with_mode mode b.cfg) b in
    let b' = record saved { dirty = true } in
    let switched : Book × Option Failure = elim r [
      | some e ↦ (record saved { cfg = with_mode prev saved.cfg }, some e)
      | none ↦ (if is_running b.phase then apply_mode_live ctl prev mode b' else (b', none))
    ] in
    if not (is_mode mode)
    then (b, some (new_error (text_append "invalid routing mode: " mode)))
    else if equal_fold prev mode
    then (b, none)
    else switched

-- `adoptExternalMode`; the second part says that `reapplyTun` is started.
unfoldable pub adopt_external_mode : EditEnv → ControlEnv → String → Book → Book × Bool
adopt_external_mode env ctl mode b =
    let prev = b.cfg.routing.proxy_mode in
    let saved = (save env (with_mode mode b.cfg) b).0 in
    if str_eq (normalize_mode prev) mode
    then (b, false)
    else (record saved { dirty = true }, changes_pac prev mode && ctl.tun_running)

-- `adoptExternalNode`
unfoldable pub adopt_external_node : EditEnv → String → Book → Book
adopt_external_node env id b =
    let saved = (save env (record (b.cfg) { active_node_id = id }) b).0 in
    if str_eq b.cfg.active_node_id id then b else record saved { dirty = true }

-- What `syncLoop` remembers of the controller's answers.
pub record Seen : Type 0 where
  pub last_mode : String
  pub last_node : String
  pub primed : Bool

-- `mode != "" && mode != lastMode`
abbrev pub is_news : String → String → Bool
is_news now last = not (str_eq now "") && not (str_eq now last)

-- One round of `syncLoop` with the answer of `pollController`, `none` where it has none.
unfoldable pub sync : EditEnv → ControlEnv → Option (String × String) → Seen × Book → Seen × Book
sync env ctl none (seen, b) = (seen, b)
sync env ctl (some (mode, node)) (seen, b) =
    let b1 = if is_news mode seen.last_mode then (adopt_external_mode env ctl mode b).0 else b in
    let b2 = if is_news node seen.last_node then adopt_external_node env node b1 else b1 in
    let seen' : Seen = record {
      last_mode = if is_news mode seen.last_mode then mode else seen.last_mode;
      last_node = if is_news node seen.last_node then node else seen.last_node;
      primed = true;
    } in
    if seen.primed
    then (seen', b2)
    else (record { last_mode = mode; last_node = node; primed = true }, b)
