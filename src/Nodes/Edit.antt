-- ===== src/Nodes/Edit.antt =====
-- backend_config_nodes.go: `SaveConfig`, `UpsertNode`, `DeleteNode` and the sorts.
use sudoku_desktop.Prelude.{
  Bool, true, false, not, ◌&&◌, ◌||◌, List, [], ◌∷◌, ◌++◌, Option, none, some, String, text_append,
  str_eq, if◌then◌else◌, length, ltb, to_lower, format_base36, keep,
}
use sudoku_desktop.Failure.{Failure, Result, ok, err}
use sudoku_desktop.Config.{NodeConfig, AppConfig, balance_node_id}
use sudoku_desktop.Config.Normalize.{
  new_id, is_blank, normalize_node, normalize_config, first_node_id, has_node,
}
use sudoku_desktop.Session.{Phase, stopped, starting, running, stopping}
use sudoku_desktop.Nodes.Compare.{node_eq, bool_eq, config_change_requires_restart}
use sudoku_desktop.Nodes.{LatencyResult, Live, Book, EditEnv, save}

abbrev pub is_stopped : Phase → Bool
is_stopped stopped = true
is_stopped starting = false
is_stopped running = false
is_stopped stopping = false

abbrev pub is_running : Phase → Bool
is_running running = true
is_running stopped = false
is_running starting = false
is_running stopping = false

-- `scheduleRestart`: the timer that is set replaces the one before.
abbrev pub schedule_restart : String → Book → Book
schedule_restart reason b = record b { restart = some reason }

-- `strings.EqualFold`
abbrev pub equal_fold : String → String → Bool
equal_fold a b = str_eq (to_lower a) (to_lower b)

-- The three background tasks of `SaveConfig`.
unfoldable pub live_changes : Phase → AppConfig → AppConfig → List Live
live_changes phase prev next =
    (if not (bool_eq prev.tun.enabled next.tun.enabled) && is_running phase
      then Live.tun next.tun.enabled ∷ []
      else [])
    ++ (if equal_fold prev.routing.proxy_mode next.routing.proxy_mode
        then []
        else Live.mode prev.routing.proxy_mode next.routing.proxy_mode ∷ [])
    ++ (if str_eq prev.active_node_id next.active_node_id then [] else Live.node ∷ [])

-- `SaveConfig` once the configuration is saved.
unfoldable pub after_save : AppConfig → Book → Book
after_save prev b =
    if is_stopped b.phase
    then b
    else if config_change_requires_restart prev b.cfg
    then schedule_restart "config changed; restarting to apply runtime settings" b
    else record b { live = b.live ++ live_changes b.phase prev b.cfg }

-- `SaveConfig`; the setting of the login item is undone when the file cannot be written.
unfoldable pub save_config : EditEnv → AppConfig → Book → Book × Option Failure
save_config env cfg b =
    let next = normalize_config env.platform env.draws cfg in
    let changed = not (bool_eq b.cfg.ui.launch_at_login next.ui.launch_at_login) in
    let launch : Option Failure =
      if changed then env.set_launch next.ui.launch_at_login else none in
    elim launch [
      | some e ↦ (record b { last_error = e.text; dirty = true }, some e)
      | none ↦
          let item = if changed then next.ui.launch_at_login else b.launch_item in
          let back : Bool = elim (env.set_launch b.cfg.ui.launch_at_login) [
            | none ↦ b.cfg.ui.launch_at_login
            | some _ ↦ item
          ] in
          let undone = if changed then back else b.launch_item in
          let (saved, r) = save env next (record b { launch_item = item }) in
          elim r [
            | some e ↦ (record b { launch_item = undone }, some e)
            | none ↦ (after_save b.cfg (record saved { dirty = true }), none)
          ]
    ]

-- The loop of `UpsertNode`: the first node with the identifier is replaced, or the node is appended; and
-- whether that changed anything.
unfoldable pub put_node : NodeConfig → List NodeConfig → List NodeConfig × Bool
put_node node [] = (node ∷ [], true)
put_node node (n ∷ ns) =
    let (rest, changed) = put_node node ns in
    if str_eq n.id node.id then (node ∷ ns, not (node_eq n node)) else (n ∷ rest, changed)

-- The node as `UpsertNode` stores it.
unfoldable pub named_node : EditEnv → NodeConfig → NodeConfig
named_node env node = normalize_node env.platform env.blank_draw (record node {
  id = if str_eq node.id "" then new_id "node_" env.id_draw else node.id;
  name = if is_blank node.name then text_append "Node " (format_base36 env.unix) else node.name;
})

-- `delete(b.latency, id)`
abbrev pub forget : String → List (String × LatencyResult) → List (String × LatencyResult)
forget id = keep (λ entry. not (str_eq entry.0 id))

-- `UpsertNode`
unfoldable pub upsert_node : EditEnv → NodeConfig → Book → Book × Result NodeConfig
upsert_node env node b =
    let node' = named_node env node in
    let (nodes, changed) = put_node node' b.cfg.nodes in
    let active = if str_eq b.cfg.active_node_id "" then node'.id else b.cfg.active_node_id in
    let (saved, r) = save env (record (b.cfg) { nodes = nodes; active_node_id = active }) b in
    elim r [
      | some e ↦ (saved, err e)
      | none ↦
          let b' = record saved { latency = forget node'.id b.latency; dirty = true } in
          (
            if changed && not (is_stopped b.phase)
                then schedule_restart "node list changed; restarting" b'
                else b',
            ok node',
          )
    ]

-- The first node with the identifier is removed.
unfoldable pub drop_node : String → List NodeConfig → List NodeConfig
drop_node id [] = []
drop_node id (n ∷ ns) = let rest = drop_node id ns in if str_eq n.id id then ns else n ∷ rest

-- The selection of `DeleteNode`.
unfoldable pub active_after : String → String → List NodeConfig → String
active_after id active nodes =
    if str_eq active id || (str_eq active balance_node_id && ltb (length nodes) 2)
    then first_node_id nodes
    else active

-- `DeleteNode`
unfoldable pub delete_node : EditEnv → String → Book → Book × Option Failure
delete_node env id b =
    let nodes = drop_node id b.cfg.nodes in
    let cfg = record (b.cfg) {
      nodes = nodes;
      active_node_id = active_after id b.cfg.active_node_id nodes;
    } in
    let (saved, r) = save env cfg (record b { latency = forget id b.latency }) in
    let b' = record saved { dirty = true } in
    let deleted : Book × Option Failure = elim r [
      | some e ↦ (b', some e)
      | none ↦
          (if is_stopped b.phase then b' else schedule_restart "node removed; restarting" b', none)
    ] in
    if has_node id b.cfg.nodes then deleted else (b, none)
