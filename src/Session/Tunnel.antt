-- ===== src/Session/Tunnel.antt =====
-- internal/core/lifecycle.go: the steps on the tunnel, and `teardownLocked`.
use sudoku_desktop.Prelude.{
  Bool, true, false, not, ◌&&◌, Option, none, some, String, text_append, if◌then◌else◌,
}
use sudoku_desktop.Config.{AppConfig}
use sudoku_desktop.Plan.{build_tun_plan}
use sudoku_desktop.Session.{stopped, stopping, RuntimeState, Backend, Env, no_traffic}
use sudoku_desktop.Session.Steps.{Action, update, add_log, set_core_child, restore_system_proxy}

-- `refreshNetRepair`: the flag follows the stale state that a dead helper left.
unfoldable pub refresh_net_repair : Env → Backend → Backend
refresh_net_repair env b =
    let stale = env.stale && not b.state.tun_running in
    if b.state.needs_net_repair
    then (if stale then b else update (λ s. record s { needs_net_repair = stale }) b)
    else (if stale then update (λ s. record s { needs_net_repair = stale }) b else b)

abbrev pub url_of : Option String → String
url_of none = ""
url_of (some url) = url

abbrev pub set_helper : Bool → Backend → Backend
set_helper on b = record b { world = record (b.world) { helper = on } }

-- `tunUpLocked`: a helper whose tunnel did not come up is dismissed.
unfoldable pub tun_up : Env → AppConfig → Action
tun_up env cfg b = elim (env.tun_up (build_tun_plan cfg (url_of b.custom) env.rule_cache_dir)) [
  | some e ↦ (
    refresh_net_repair env
        (set_helper false (add_log "error" "tun" (text_append "tunnel failed: " e.text) b)),
    some e,
  )
  | none ↦ (
    add_log "info" "tun" "tunnel is up"
        (update (λ s. record s { tun_running = true }) (set_helper true b)),
    none,
  )
]

-- `tunDownLocked`
unfoldable pub tun_down : Backend → Backend
tun_down b =
    let b' = update (λ s. record s { tun_running = false }) b in
    if b.world.helper then add_log "info" "tun" "tunnel is down" (set_helper false b') else b'

-- The end of the core: a process that could not be stopped may be alive.
unfoldable pub stop_kernel : Env → Backend → Backend
stop_kernel env b = elim b.kern [
  | none ↦ b
  | some k ↦
      let b' = record b { kern = none } in
      elim (env.stop_kernel k) [
        | none ↦ record b' { world = record (b.world) { core = none } }
        | some e ↦ add_log "warn" "core" (text_append "stop core: " e.text) b'
      ]
]

-- `b.kernelRef() != nil || b.GetState().TunRunning`
abbrev pub is_up : Backend → Bool
is_up b = elim b.kern [ none ↦ b.state.tun_running | some k ↦ true ]

abbrev pub stopped_state : RuntimeState → RuntimeState
stopped_state s = record s {
  phase = stopped;
  core_running = false;
  tun_running = false;
  tun_requested = false;
  system_proxy_on = false;
  started_at_unix = 0;
  connection_count = 0;
  traffic = no_traffic;
  memory_bytes = 0;
}

-- The last part of `teardownLocked`, once the core is gone.
unfoldable pub clean_up : Env → Backend → Backend
clean_up env b =
    refresh_net_repair env
      (update stopped_state (record (set_core_child env 0 b) { custom = none }))

-- The first part, down to the core.
unfoldable pub shut_down : Env → Backend → Backend
shut_down env b =
    let b' = if is_up b then update (λ s. record s { phase = stopping }) b else b in
    restore_system_proxy env (tun_down (record b' { sess = none }))

-- `teardownLocked`
unfoldable pub teardown : Env → Backend → Backend
teardown env b = clean_up env (stop_kernel env (shut_down env b))
