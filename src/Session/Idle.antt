-- ===== src/Session/Idle.antt =====
-- lifecycle.go: the stopped session. `teardownLocked` reaches it from anywhere, and so does every
-- start that returns an error.
use sudoku_desktop.Prelude.{
  ◌≡◌, ◌≢◌, refl, ◌∙◌, ◌⊎◌, inl, inr, Bool, true, false, not, ◌&&◌, Bool-cases, Option, none, some,
  if◌then◌else◌, arith,
}
use sudoku_desktop.Failure.{Failure, err_start_cancelled}
use sudoku_desktop.Session.{stopped, AdminRequest, Backend, Env}
use sudoku_desktop.Session.Steps.{require_admin, restore_system_proxy}
use sudoku_desktop.Session.Tunnel.{
  refresh_net_repair, tun_down, stop_kernel, clean_up, shut_down, teardown,
}
use sudoku_desktop.Session.Operations.{start_failed, conclude_start, start_core, start_proxy}

-- Nothing runs, and the state says so.
pub record IsIdle (b : Backend) : Type 0 where
  pub phase : b.state.phase ≡ stopped
  pub kern : b.kern ≡ none
  pub sess : b.sess ≡ none
  pub custom : b.custom ≡ none
  pub core_running : b.state.core_running ≡ false
  pub tun_running : b.state.tun_running ≡ false
  pub tun_requested : b.state.tun_requested ≡ false
  pub system_proxy_on : b.state.system_proxy_on ≡ false
  pub helper : b.world.helper ≡ false

sess-shut_down :
    (env : Env) (b : Backend)
    → ((shut_down env b).sess ≡ none) × ((shut_down env b).world.helper ≡ false)
unfolding shut_down restore_system_proxy tun_down
sess-shut_down env b = (ground arith, ground arith)

kern-stop_kernel :
    (env : Env) (b : Backend)
    → ((stop_kernel env b).kern ≡ none)
      × ((stop_kernel env b).sess ≡ b.sess)
      × ((stop_kernel env b).world.helper ≡ b.world.helper)
unfolding stop_kernel
kern-stop_kernel env b = (ground arith, ground arith, ground arith)

clean_up-IsIdle :
    (env : Env) (b : Backend)
    → b.kern ≡ none
    → b.sess ≡ none
    → b.world.helper ≡ false
    → IsIdle (clean_up env b)
unfolding clean_up refresh_net_repair
clean_up-IsIdle env b k s h = ground arith

-- From every state, and whatever fails on the way, the teardown ends in the stopped session.
pub teardown-IsIdle : (env : Env) (b : Backend) → IsIdle (teardown env b)
unfolding teardown
teardown-IsIdle env b =
    let down = sess-shut_down env b in
    let gone = kern-stop_kernel env (shut_down env b) in
    clean_up-IsIdle env (stop_kernel env (shut_down env b)) gone.0 (gone.1 ∙ down.0)
      (gone.2 ∙ down.1)

-- Parking a request for the password changes nothing of the session.
pub require_admin-IsIdle :
    (req : AdminRequest) (e : Option Failure) (b : Backend)
    → IsIdle b
    → IsIdle (require_admin req e b).0
unfolding require_admin
require_admin-IsIdle req e b idle = record {
  phase = idle.phase;
  kern = idle.kern;
  sess = idle.sess;
  custom = idle.custom;
  core_running = idle.core_running;
  tun_running = idle.tun_running;
  tun_requested = idle.tun_requested;
  system_proxy_on = idle.system_proxy_on;
  helper = idle.helper;
}

start_failed-IsIdle :
    (env : Env) (with_tun : Bool) (e : Failure) (b : Backend)
    → IsIdle b
    → IsIdle (start_failed env with_tun e b).0
unfolding start_failed require_admin
start_failed-IsIdle env with_tun e b idle = ground arith

conclude_start-IsIdle :
    (env : Env) (with_tun : Bool) (r : Backend × Option Failure)
    → (conclude_start env with_tun r).1 ≢ none
    → IsIdle (conclude_start env with_tun r).0
unfolding conclude_start
conclude_start-IsIdle env with_tun (b, none) failed = absurd (failed refl)
conclude_start-IsIdle env with_tun (b, some e) failed =
    start_failed-IsIdle env with_tun e (teardown env b) (teardown-IsIdle env b)

-- `StartProxy` in a stopped session, where the start is not cancelled before it begins.
pub start_proxy_stopped :
    (env : Env) (with_tun : Bool) (b : Backend)
    → b.kern ≡ none
    → env.cancelled 0 ≡ false
    → start_proxy env with_tun b ≡ (
        if with_tun && not env.has_admin
        then require_admin (AdminRequest.start with_tun none) none b
        else start_core env with_tun b)
unfolding start_proxy
start_proxy_stopped env with_tun b k on_time = ground arith

pub start_proxy_early :
    (env : Env) (with_tun : Bool) (b : Backend)
    → env.cancelled 0 ≡ true
    → start_proxy env with_tun b ≡ (b, some err_start_cancelled)
unfolding start_proxy
start_proxy_early env with_tun b early = rw early

-- A start of a stopped session that returns an error leaves a stopped session, whichever step failed:
-- the app holds no core, no workers, no tunnel helper and no custom rule server.
pub start_proxy-IsIdle :
    (env : Env) (with_tun : Bool) (b : Backend)
    → IsIdle b
    → (start_proxy env with_tun b).1 ≢ none
    → IsIdle (start_proxy env with_tun b).0
start_proxy-IsIdle env with_tun b idle failed = elim (Bool-cases (env.cancelled 0)) [
  | inl early ↦ rw (start_proxy_early env with_tun b early) idle
  | inr on_time ↦
      let same = start_proxy_stopped env with_tun b idle.kern on_time in
      rw same (choose (Bool-cases (with_tun && not env.has_admin)) (rw same at failed))
]
  where
    choose :
        (with_tun && not env.has_admin ≡ true) ⊎ (with_tun && not env.has_admin ≡ false)
        → (if with_tun && not env.has_admin
            then require_admin (AdminRequest.start with_tun none) none b
            else start_core env with_tun b).1
          ≢ none
        → IsIdle
            (if with_tun && not env.has_admin
              then require_admin (AdminRequest.start with_tun none) none b
              else start_core env with_tun b).0
    choose (inl ask) f = rw ask (require_admin-IsIdle _ none b idle)
    choose (inr go) f =
        rw go (unfold start_core in conclude_start-IsIdle env with_tun _ (rw go at f))
