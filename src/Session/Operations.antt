-- ===== src/Session/Operations.antt =====
-- internal/core/lifecycle.go: the operations of the session, and admin_auth.go's resume of a parked
-- request.
use sudoku_desktop.Prelude.{
  ℕ, Bool, true, false, not, ◌&&◌, Option, none, some, String, text_append, str_eq, ◌==◌,
  if◌then◌else◌,
}
use sudoku_desktop.Failure.{Kind, Failure, err_start_cancelled, new_error, wrap}
use sudoku_desktop.Config.Normalize.{normalize_config}
use sudoku_desktop.Session.{
  Phase, stopped, starting, running, stopping, RuntimeState, AdminRequest, Kernel, Backend, Env,
}
use sudoku_desktop.Session.Steps.{
  Action, ◌>>◌, update, add_log, require_admin, require_nodes, ensure_core_binaries, check_ports,
  start_guard_once, start_custom, launch, apply_system_proxy,
}
use sudoku_desktop.Session.Tunnel.{refresh_net_repair, set_helper, tun_up, tun_down, teardown}

-- `if err := ctx.Err(); err != nil { return err }`
abbrev pub check_context : Env → ℕ → Action
check_context env stage b =
    (b, if env.cancelled stage then some (new_error "context canceled") else none)

-- The tunnel of a start, `if req.WithTun`.
unfoldable pub start_tunnel : Env → Bool → Action
start_tunnel env false b = (b, none)
start_tunnel env true b =
    let (b', r) = tun_up env b.cfg b in
    (b', elim r [ none ↦ none | some e ↦ some (wrap "TUN: " e) ])

unfoldable pub set_running : Action
set_running b = (update (λ s. record s { phase = running }) b, none)

abbrev pub finish_start : Env → Action
finish_start env = do check_context env 2; set_running

-- `applySystemProxyLocked` returns no error.
abbrev pub proxy_step : Env → Action
proxy_step env b = (apply_system_proxy env b, none)

-- `bringUpLocked` behind the check of the context that follows `startSession`
abbrev pub connect : Env → Bool → Action
connect env with_tun = do proxy_step env; start_tunnel env with_tun; finish_start env

-- `bringUpLocked` from `startKernel` on
unfoldable pub bring_up_core : Env → Bool → String → Action
bring_up_core env with_tun url = do
  launch env with_tun url
  check_context env 1
  connect env with_tun

-- `bringUpLocked` from `guardOnce` on
unfoldable pub start_from_guard : Env → Bool → Action
start_from_guard env with_tun b =
    let (b', url) = start_custom env (start_guard_once env b) in bring_up_core env with_tun url b'

-- `bringUpLocked`
unfoldable pub bring_up : Env → Bool → Action
bring_up env with_tun = do
  require_nodes
  ensure_core_binaries env
  check_ports env
  start_from_guard env with_tun

-- `errors.Is(err, ErrAdminRequired) || errors.Is(err, errAdminBadPassword)`
abbrev pub wants_password : Failure → Bool
wants_password e = elim e.kind [
  | Kind.admin_required ↦ true
  | Kind.admin_bad_password ↦ true
  | _ ↦ false
]

-- `setTunEnabled`
unfoldable pub set_tun_enabled : Env → Bool → Backend → Backend
set_tun_enabled env on b =
    let cfg = record (b.cfg) { tun = record (b.cfg.tun) { enabled = on } } in
    let saved = record b { cfg = normalize_config env.platform env.draws cfg; dirty = true } in
    let logged : Backend = elim env.save [
      | none ↦ saved
      | some e ↦ add_log "warn" "app" (text_append "save config: " e.text) saved
    ] in
    let same = if b.cfg.tun.enabled then on else not on in if same then b else logged

-- `applyTunLocked` with `want` true, once the password is at hand
unfoldable pub switch_tunnel_on : Env → Action
switch_tunnel_on env b =
    let b0 = update (λ s. record s { tun_requested = true; last_error = "" }) b in
    let (b1, r) = tun_up env b0.cfg b0 in
    elim r [
      | none ↦ (b1, none)
      | some e ↦
          let off : Backend = update (λ s. record s { tun_requested = false }) b1 in
          let parked = require_admin (AdminRequest.start true (some e)) (some e) off in
          let failed =
            update
              (λ s. record s { tun_requested = false; last_error = text_append "TUN: " e.text })
              b1 in
          let refused : Backend × Option Failure = (set_tun_enabled env false failed, some e) in
          if wants_password e then parked else refused
    ]

-- `applyTunLocked`
unfoldable pub apply_tun : Env → Bool → Action
apply_tun env false b = (tun_down (update (λ s. record s { tun_requested = false }) b), none)
apply_tun env true b =
    if not env.has_admin
    then require_admin (AdminRequest.start true none) none b
    else switch_tunnel_on env b

-- What `StartProxy` does with the error of `bringUpLocked`, after the teardown.
unfoldable pub start_failed : Env → Bool → Failure → Action
start_failed env with_tun e b =
    let over = λ (s : RuntimeState). record s { phase = stopped; tun_requested = false } in
    let told = λ (s : RuntimeState). record s {
      phase = stopped;
      tun_requested = false;
      last_error = e.text;
    } in
    if wants_password e
    then require_admin (AdminRequest.start with_tun (some e)) (some e) b
    else if env.cancelled 3
    then (update over b, some err_start_cancelled)
    else (add_log "error" "app" (text_append "start failed: " e.text) (update told b), some e)

abbrev pub same_bool : Bool → Bool → Bool
same_bool a b = if a then b else not b

abbrev pub start_state : Bool → RuntimeState → RuntimeState
start_state with_tun s = record s {
  phase = starting;
  last_error = "";
  tun_requested = with_tun;
  tun_running = false;
}

-- What `StartProxy` makes of the outcome of `bringUpLocked`.
unfoldable pub conclude_start : Env → Bool → Backend × Option Failure → Backend × Option Failure
conclude_start env with_tun (b, none) = (b, none)
conclude_start env with_tun (b, some e) = start_failed env with_tun e (teardown env b)

-- `StartProxy` where no core runs and the password is at hand or not needed
unfoldable pub start_core : Env → Bool → Action
start_core env with_tun b =
    conclude_start env with_tun (bring_up env with_tun (update (start_state with_tun) b))

-- `StartProxy`
unfoldable pub start_proxy : Env → Bool → Action
start_proxy env with_tun b =
    if env.cancelled 0 then (b, some err_start_cancelled) else elim b.kern [
      | some k ↦
          (if same_bool b.state.tun_requested with_tun then (b, none) else apply_tun env with_tun b)
      | none ↦
          (if with_tun && not env.has_admin
            then require_admin (AdminRequest.start with_tun none) none b
            else start_core env with_tun b)
    ]

-- `StopProxy`
unfoldable pub stop_proxy : Env → Action
stop_proxy env b = (teardown env b, none)

-- `RestartProxy`: each of the two has its own answers.
unfoldable pub restart_proxy : Env → Env → Bool → Action
restart_proxy env env' with_tun = do stop_proxy env; start_proxy env' with_tun

-- `failSessionLocked`
unfoldable pub fail_session : Env → String → Backend → Backend
fail_session env msg b =
    update (λ s. record s { last_error = msg })
      (teardown env (add_log "error" "app" (text_append "stopping: " msg) b))

-- `reapplyTun`
unfoldable pub reapply_tun : Env → Action
reapply_tun env b =
    let (b', r) = tun_up env b.cfg (tun_down b) in
    let done : Backend × Option Failure = elim r [
      | none ↦ (b', none)
      | some e ↦ (fail_session env (text_append "TUN: " e.text) b', some e)
    ] in
    if b.state.tun_running then done else (b, none)

-- `onTunEvent` for the events exit and degraded; the second part says that `recoverTun` is started.
unfoldable pub on_tun_lost : String → Backend → Backend × Bool
on_tun_lost line b =
    if b.state.tun_running
    then (update (λ s. record s { tun_running = false }) (add_log "error" "tun" line b), true)
    else (b, false)

abbrev pub is_running : Phase → Bool
is_running running = true
is_running stopped = false
is_running starting = false
is_running stopping = false

-- `recoverTun`
unfoldable pub recover_tun : Env → String → Backend → Backend
recover_tun env reason b =
    let (b', r) = tun_up env b.cfg (set_helper false b) in
    let next : Backend = elim r [
      | none ↦ add_log "info" "tun" "tunnel recovered" b'
      | some e ↦ fail_session env (text_append "TUN: " reason) b'
    ] in
    if is_running b.state.phase && b.state.tun_requested && not b.state.tun_running then next else b

-- `RepairNetwork`
unfoldable pub repair_network : Env → Action
repair_network env b = if b.state.tun_running then (b, none) else elim env.tun_recover [
  | none ↦ (refresh_net_repair env (add_log "info" "tun" "network repaired" b), none)
  | some e ↦ elim e.kind [
    | Kind.admin_required ↦ require_admin AdminRequest.repair none b
    | _ ↦ (add_log "error" "tun" (text_append "network repair failed: " e.text) b, some e)
  ]
]

abbrev pub same_kernel : Option Kernel → Kernel → Bool
same_kernel none k = false
same_kernel (some j) k = j.pid == k.pid

-- `superviseKernel`, once the core `k` has exited
unfoldable pub kernel_exited : Env → Kernel → Backend → Backend
kernel_exited env k b =
    let msg : String = "sudoku core exited unexpectedly" in
    let gone = record b { world = record (b.world) { core = none } } in
    let told : String =
      if str_eq env.tail "" then msg else text_append msg (text_append ": " env.tail) in
    if same_kernel b.kern k then fail_session env told gone else b
