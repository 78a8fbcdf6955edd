-- ===== src/Session/Settled.antt =====
-- lifecycle.go: every operation, each run alone under `opMu`, takes a settled session to a settled
-- session.
use sudoku_desktop.Prelude.{
  ◌≡◌, ◌≢◌, refl, ◌⊎◌, inl, inr, Bool, false, not, ◌&&◌, Bool-cases, Option, none, some, String,
  text_append, if◌then◌else◌, arith,
}
use sudoku_desktop.Failure.{Failure, err_start_cancelled}
use sudoku_desktop.Session.{Kernel, Backend, Env}
use sudoku_desktop.Session.Steps.{add_log, require_admin}
use sudoku_desktop.Session.Tunnel.{tun_up, tun_down, refresh_net_repair, teardown, set_helper}
use sudoku_desktop.Session.Operations.{
  apply_tun, start_proxy, stop_proxy, restart_proxy, fail_session, reapply_tun, on_tun_lost,
  recover_tun, repair_network, kernel_exited, same_bool, is_running, same_kernel,
}
use sudoku_desktop.Session.Idle.{IsIdle, teardown-IsIdle, start_proxy-IsIdle}
use sudoku_desktop.Session.Live.{start_proxy-IsLive}
use sudoku_desktop.Session.Up.{
  IsUp, SameCore, IsUp-SameCore, SameCore-tun_up, SameCore-tun_down, SameCore-trans,
  SameCore-apply_tun, SameCore-on_tun_lost, SameCore-repair,
}

-- No operation is under way.
abbrev pub IsSettled : Backend → Type 0
IsSettled b = IsIdle b ⊎ IsUp b

-- One operation, with the answers that it gets.
pub data Step : Backend → Backend → Type 0 where
  start : {b : Backend} (env : Env) (with_tun : Bool) → Step b (start_proxy env with_tun b).0
  stop : {b : Backend} (env : Env) → Step b (stop_proxy env b).0
  restart :
      {b : Backend} (env env' : Env) (with_tun : Bool)
      → Step b (restart_proxy env env' with_tun b).0
  switch_tunnel :
      {b : Backend} (env : Env) (want : Bool) → b.kern ≢ none → Step b (apply_tun env want b).0
  reapply : {b : Backend} (env : Env) → Step b (reapply_tun env b).0
  tunnel_lost : {b : Backend} (line : String) → Step b (on_tun_lost line b).0
  recover : {b : Backend} (env : Env) (reason : String) → Step b (recover_tun env reason b)
  repair : {b : Backend} (env : Env) → Step b (repair_network env b).0
  core_exited : {b : Backend} (env : Env) (k : Kernel) → Step b (kernel_exited env k b)

-- Any sequence of operations.
pub data Steps : Backend → Backend → Type 0 where
  done : {b : Backend} → Steps b b
  then_step : {a b c : Backend} → Steps a b → Step b c → Steps a c

IsIdle-repair : (env : Env) (b : Backend) → IsIdle b → IsIdle (repair_network env b).0
unfolding repair_network refresh_net_repair require_admin
IsIdle-repair env b idle = ground arith

fail_session-IsIdle : (env : Env) (msg : String) (b : Backend) → IsIdle (fail_session env msg b)
unfolding fail_session
fail_session-IsIdle env msg b =
    let idle = teardown-IsIdle env (add_log "error" "app" (_) b) in
    record {
      phase = idle.phase;
      kern = idle.kern;
      sess = idle.sess;
      custom = idle.custom;
      core_running = idle.core_running;
      tun_running = idle.tun_running;
      tun_requested = idle.tun_requested;
      system_proxy_on = idle.system_proxy_on;
      helper = idle.helper;
    }

-- What each operation does to an idle session.
fail_session-IsSettled :
    (env : Env) (msg : String) (b : Backend) → IsSettled (fail_session env msg b)
fail_session-IsSettled env msg b = inl (fail_session-IsIdle env msg b)

start_proxy-IsSettled_idle :
    (env : Env) (with_tun : Bool) (b : Backend)
    → IsIdle b
    → IsSettled (start_proxy env with_tun b).0
start_proxy-IsSettled_idle env with_tun b idle = choose ((start_proxy env with_tun b).1) refl
  where
    choose :
        (r : Option Failure)
        → (start_proxy env with_tun b).1 ≡ r
        → IsSettled (start_proxy env with_tun b).0
    choose none e =
        let live = start_proxy-IsLive env with_tun b idle e in
        inr (record { phase = live.phase; has_core = live.has_core })
    choose (some f) e = inl (start_proxy-IsIdle env with_tun b idle (λ h. cc (h, e)))

start_proxy_up :
    (env : Env) (with_tun : Bool) (b : Backend) (k : Kernel)
    → b.kern ≡ some k
    → start_proxy env with_tun b ≡ (
        if env.cancelled 0
        then (b, some err_start_cancelled)
        else if same_bool b.state.tun_requested with_tun
        then (b, none)
        else apply_tun env with_tun b)
unfolding start_proxy
start_proxy_up env with_tun b k e = simp e

start_proxy-IsUp :
    (env : Env) (with_tun : Bool) (b : Backend) → IsUp b → IsUp (start_proxy env with_tun b).0
start_proxy-IsUp env with_tun b up = choose b.kern refl
  where
    live :
        IsUp
          (if env.cancelled 0
            then (b, some err_start_cancelled)
            else if same_bool b.state.tun_requested with_tun
            then (b, none)
            else apply_tun env with_tun b).0
    live = elim (Bool-cases (env.cancelled 0)) [
      | inl early ↦ rw early up
      | inr on_time ↦ elim (Bool-cases (same_bool b.state.tun_requested with_tun)) [
        | inl same ↦ rw (on_time, same) up
        | inr other ↦ rw (on_time, other) (IsUp-SameCore (SameCore-apply_tun env with_tun b) up)
      ]
    ]

    choose : (k : Option Kernel) → b.kern ≡ k → IsUp (start_proxy env with_tun b).0
    choose none e = cc (up.has_core.kern, e)
    choose (some k) e = rw (start_proxy_up env with_tun b k e) live

start_proxy-IsSettled :
    (env : Env) (with_tun : Bool) (b : Backend)
    → IsSettled b
    → IsSettled (start_proxy env with_tun b).0
start_proxy-IsSettled env with_tun b (inl idle) = start_proxy-IsSettled_idle env with_tun b idle
start_proxy-IsSettled env with_tun b (inr up) = inr (start_proxy-IsUp env with_tun b up)

-- A tunnel that was to come up again: the session goes on, or is stopped.
tun_up-IsSettled :
    (env : Env) (b : Backend) (r : Backend × Option Failure) (msg : Failure → String)
    (line : Backend → Backend)
    → ((c : Backend) → SameCore c (line c))
    → SameCore b r.0
    → IsUp b
    → IsSettled (
        let out : Backend = elim r.1 [ none ↦ line r.0 | some e ↦ fail_session env (msg e) r.0 ] in
        out)
tun_up-IsSettled env b (b', none) msg line kept same up =
    inr (IsUp-SameCore (SameCore-trans same (kept b')) up)
tun_up-IsSettled env b (b', some e) msg line kept same up = fail_session-IsSettled env (msg e) b'

recover_tun-IsSettled :
    (env : Env) (reason : String) (b : Backend) → IsSettled b → IsSettled (recover_tun env reason b)
unfolding recover_tun
recover_tun-IsSettled env reason b (inl idle) =
    let stays : (is_running b.state.phase && b.state.tun_requested && not b.state.tun_running)
        ≡ false =
      rw idle.phase in
    rw stays (inl idle)
recover_tun-IsSettled env reason b (inr up) =
    elim (Bool-cases
      (is_running b.state.phase && b.state.tun_requested && not b.state.tun_running)) [
        | inr stays ↦ rw stays (inr up)
        | inl goes ↦ rw goes (
            tun_up-IsSettled env b (tun_up env b.cfg (set_helper false b))
              (λ _. text_append "TUN: " reason) (add_log "info" "tun" "tunnel recovered")
              (λ c. record {
                phase = refl;
                kern = refl;
                sess = refl;
                core = refl;
                core_running = refl;
              })
              (SameCore-trans
                (record {
                  phase = refl;
                  kern = refl;
                  sess = refl;
                  core = refl;
                  core_running = refl;
                })
                (SameCore-tun_up env b.cfg (set_helper false b)))
              up)
      ]

reapply_outcome :
    (env : Env) (b : Backend) (r : Backend × Option Failure)
    → SameCore b r.0
    → IsUp b
    → IsSettled
        (let out : Backend × Option Failure = elim r.1 [
          | none ↦ (r.0, none)
          | some e ↦ (fail_session env (text_append "TUN: " e.text) r.0, some e)
        ] in
          out).0
reapply_outcome env b (b', none) same up = inr (IsUp-SameCore same up)
reapply_outcome env b (b', some e) same up = fail_session-IsSettled env _ b'

reapply_tun-IsSettled : (env : Env) (b : Backend) → IsSettled b → IsSettled (reapply_tun env b).0
unfolding reapply_tun
reapply_tun-IsSettled env b (inl idle) = simp idle.tun_running (inl idle)
reapply_tun-IsSettled env b (inr up) = elim (Bool-cases b.state.tun_running) [
  | inr off ↦ simp off (inr up)
  | inl on ↦ simp on (
      reapply_outcome env b (tun_up env b.cfg (tun_down b))
        (SameCore-trans (SameCore-tun_down b) (SameCore-tun_up env b.cfg (tun_down b))) up)
]

kernel_exited-IsSettled :
    (env : Env) (k : Kernel) (b : Backend) → IsSettled b → IsSettled (kernel_exited env k b)
unfolding kernel_exited
kernel_exited-IsSettled env k b old = elim (Bool-cases (same_kernel b.kern k)) [
  | inl ours ↦ rw ours (fail_session-IsSettled env _ _)
  | inr other ↦ rw other old
]

on_tun_lost-IsSettled :
    (line : String) (b : Backend) → IsSettled b → IsSettled (on_tun_lost line b).0
unfolding on_tun_lost
on_tun_lost-IsSettled line b (inl idle) = simp idle.tun_running (inl idle)
on_tun_lost-IsSettled line b (inr up) = inr (IsUp-SameCore (SameCore-on_tun_lost line b) up)

switch-IsSettled :
    (env : Env) (want : Bool) (b : Backend)
    → b.kern ≢ none
    → IsSettled b
    → IsSettled (apply_tun env want b).0
switch-IsSettled env want b runs (inl idle) = absurd (runs idle.kern)
switch-IsSettled env want b runs (inr up) = inr (IsUp-SameCore (SameCore-apply_tun env want b) up)

repair-IsSettled : (env : Env) (b : Backend) → IsSettled b → IsSettled (repair_network env b).0
repair-IsSettled env b (inl idle) = inl (IsIdle-repair env b idle)
repair-IsSettled env b (inr up) = inr (IsUp-SameCore (SameCore-repair env b) up)

restart-IsSettled :
    (env env' : Env) (with_tun : Bool) (b : Backend)
    → IsSettled (restart_proxy env env' with_tun b).0
unfolding restart_proxy stop_proxy
restart-IsSettled env env' with_tun b =
    start_proxy-IsSettled_idle env' with_tun (teardown env b) (teardown-IsIdle env b)

Step-IsSettled : {a b : Backend} → Step a b → IsSettled a → IsSettled b
unfolding stop_proxy
Step-IsSettled (start env with_tun) old = start_proxy-IsSettled env with_tun _ old
Step-IsSettled (stop env) old = inl (teardown-IsIdle env _)
Step-IsSettled (restart env env' with_tun) old = restart-IsSettled env env' with_tun _
Step-IsSettled (switch_tunnel env want runs) old = switch-IsSettled env want _ runs old
Step-IsSettled (reapply env) old = reapply_tun-IsSettled env _ old
Step-IsSettled (tunnel_lost line) old = on_tun_lost-IsSettled line _ old
Step-IsSettled (recover env reason) old = recover_tun-IsSettled env reason _ old
Step-IsSettled (repair env) old = repair-IsSettled env _ old
Step-IsSettled (core_exited env k) old = kernel_exited-IsSettled env k _ old

-- Whatever sequence of operations runs on a settled session, and whatever fails in them, the session is
-- settled after each: either the phase is stopped, and what the app itself keeps names no core, no tunnel
-- and no workers (the process of a core that could not be stopped may still be alive), or the phase is
-- running, the core is up, and its workers belong to that core. No operation ends in a phase on the way.
pub Steps-IsSettled : {a b : Backend} → Steps a b → IsSettled a → IsSettled b
Steps-IsSettled done old = old
Steps-IsSettled (then_step before last) old = Step-IsSettled last (Steps-IsSettled before old)
