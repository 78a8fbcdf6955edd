-- ===== src/Session/Live.antt =====
-- lifecycle.go: the running session that a successful start leaves.
use sudoku_desktop.Prelude.{
  ℕ, ◌≡◌, ◌≢◌, refl, ◌∙◌, ◌⊎◌, inl, inr, Bool, true, false, not, ◌&&◌, ◌||◌, Bool-cases, Option,
  none, some, String, if◌then◌else◌, arith,
}
use sudoku_desktop.Failure.{Failure}
use sudoku_desktop.Session.{running, AdminRequest, Kernel, Backend, Env}
use sudoku_desktop.Session.Steps.{
  ◌>>◌, >>-returns, update, require_admin, require_nodes, ensure_core_binaries, check_ports,
  start_guard_once, start_custom, launch, adopt_kernel, apply_system_proxy, journal_snapshot,
  set_system_proxy,
}
use sudoku_desktop.Session.Tunnel.{tun_up, teardown}
use sudoku_desktop.Session.Idle.{IsIdle, start_proxy_stopped, start_proxy_early}
use sudoku_desktop.Session.Operations.{
  check_context, start_tunnel, set_running, proxy_step, connect, finish_start, bring_up_core,
  start_from_guard, bring_up, start_failed, conclude_start, start_state, start_core, start_proxy,
}

abbrev pub is_some {ℓ} : {A : Type ℓ} → Option A → Bool
is_some none = false
is_some (some a) = true

abbrev pub pid_of : Option Kernel → Option ℕ
pid_of none = none
pid_of (some k) = some k.pid

-- A core is up, and its workers.
pub record HasCore (b : Backend) : Type 0 where
  pub kern : is_some b.kern ≡ true
  pub sess : b.sess ≡ b.kern
  pub core : b.world.core ≡ pid_of b.kern
  pub core_running : b.state.core_running ≡ true

-- The session runs, with the tunnel exactly if `with_tun`.
pub record IsLive (with_tun : Bool) (b : Backend) : Type 0 where
  pub phase : b.state.phase ≡ running
  pub has_core : HasCore b
  pub tun_requested : b.state.tun_requested ≡ with_tun
  pub tun_running : b.state.tun_running ≡ with_tun
  pub helper : with_tun ≡ true → b.world.helper ≡ true

or_false : (a : Bool) → (a || false) ≡ a
or_false true = refl
or_false false = refl

start_custom-keeps :
    (env : Env) (b : Backend)
    → ((start_custom env (start_guard_once env b)).0.state.tun_requested ≡ b.state.tun_requested)
      × ((start_custom env (start_guard_once env b)).0.state.tun_running ≡ b.state.tun_running)
unfolding start_custom start_guard_once
start_custom-keeps env b = (ground arith, ground arith)

launch-HasCore :
    (env : Env) (with_tun : Bool) (url : String) (b : Backend)
    → (launch env with_tun url b).1 ≡ none
    → HasCore (launch env with_tun url b).0
      × ((launch env with_tun url b).0.state.tun_requested ≡ b.state.tun_requested)
      × ((launch env with_tun url b).0.state.tun_running ≡ b.state.tun_running)
unfolding launch adopt_kernel
launch-HasCore env with_tun url b h = (ground arith, ground arith, ground arith)

apply_system_proxy-HasCore :
    (env : Env) (b : Backend)
    → HasCore b
    → HasCore (apply_system_proxy env b)
      × ((apply_system_proxy env b).state.tun_requested ≡ b.state.tun_requested)
      × ((apply_system_proxy env b).state.tun_running ≡ b.state.tun_running)
unfolding apply_system_proxy journal_snapshot set_system_proxy
apply_system_proxy-HasCore env b h = (ground arith, ground arith, ground arith)

start_tunnel-HasCore :
    (env : Env) (with_tun : Bool) (b : Backend)
    → HasCore b
    → (start_tunnel env with_tun b).1 ≡ none
    → HasCore (start_tunnel env with_tun b).0
      × ((start_tunnel env with_tun b).0.state.tun_requested ≡ b.state.tun_requested)
      × ((start_tunnel env with_tun b).0.state.tun_running ≡ (with_tun || b.state.tun_running))
      × (with_tun ≡ true → (start_tunnel env with_tun b).0.world.helper ≡ true)
unfolding start_tunnel tun_up
start_tunnel-HasCore env false b h e = (h, refl, refl, λ t. cc)
start_tunnel-HasCore env true b h e = (ground arith, ground arith, ground arith, ground arith)

bring_up_core-IsLive :
    (env : Env) (with_tun : Bool) (url : String) (b : Backend)
    → b.state.tun_requested ≡ with_tun
    → b.state.tun_running ≡ false
    → (bring_up_core env with_tun url b).1 ≡ none
    → IsLive with_tun (bring_up_core env with_tun url b).0
unfolding bring_up_core set_running
bring_up_core-IsLive env with_tun url b req off h =
    let b1 = (launch env with_tun url b).0 in
    let b2 = apply_system_proxy env b1 in
    let b3 = (start_tunnel env with_tun b2).0 in
    let P = IsLive with_tun in
    >>-returns P (launch env with_tun url) (check_context env 1 >> connect env with_tun) b h
      λ launched h1. >>-returns P (check_context env 1) (connect env with_tun) b1 h1 λ _ h2.
        >>-returns P (proxy_step env) (start_tunnel env with_tun >> finish_start env) b1 h2 λ _ h3.
          >>-returns P (start_tunnel env with_tun) (finish_start env) b2 h3 λ tunnelled h4.
            >>-returns P (check_context env 2) set_running b3 h4 λ _ h5.
              (let (core, req1, off1) = launch-HasCore env with_tun url b launched in
                let (core2, req2, off2) = apply_system_proxy-HasCore env b1 core in
                let (core3, req3, on3, helper) =
                  start_tunnel-HasCore env with_tun b2 core2 tunnelled in
                record {
                  phase = refl;
                  has_core = record {
                    kern = core3.kern;
                    sess = core3.sess;
                    core = core3.core;
                    core_running = core3.core_running;
                  };
                  tun_requested = req3 ∙ req2 ∙ req1 ∙ req;
                  tun_running = on3 ∙ rw (off2 ∙ off1 ∙ off) (or_false with_tun);
                  helper = helper;
                })

-- The steps before the core leave the tunnel's two flags alone.
bring_up-IsLive :
    (env : Env) (with_tun : Bool) (b : Backend)
    → b.state.tun_requested ≡ with_tun
    → b.state.tun_running ≡ false
    → (bring_up env with_tun b).1 ≡ none
    → IsLive with_tun (bring_up env with_tun b).0
unfolding bring_up require_nodes ensure_core_binaries check_ports start_from_guard
bring_up-IsLive env with_tun b req off h =
    let P = IsLive with_tun in
    let b1 = (ensure_core_binaries env b).0 in
    let go = start_from_guard env with_tun in
    >>-returns P require_nodes (ensure_core_binaries env >> (check_ports env >> go)) b h λ _ h1.
      >>-returns P (ensure_core_binaries env) (check_ports env >> go) b h1 λ _ h2.
        >>-returns P (check_ports env) go b1 h2 λ _ h3.
          (let kept = start_custom-keeps env b1 in
            bring_up_core-IsLive env with_tun _ _ (kept.0 ∙ req) (kept.1 ∙ off) h3)

require_admin-ne-none :
    (req : AdminRequest) (e : Option Failure) (b : Backend) → (require_admin req e b).1 ≢ none
unfolding require_admin
require_admin-ne-none req e b h = cc

start_failed-ne-none :
    (env : Env) (with_tun : Bool) (e : Failure) (b : Backend)
    → (start_failed env with_tun e b).1 ≢ none
unfolding start_failed require_admin
start_failed-ne-none env with_tun e b h = ground arith

conclude_start-IsLive :
    (env : Env) (with_tun : Bool) (r : Backend × Option Failure)
    → (r.1 ≡ none → IsLive with_tun r.0)
    → (conclude_start env with_tun r).1 ≡ none
    → IsLive with_tun (conclude_start env with_tun r).0
unfolding conclude_start
conclude_start-IsLive env with_tun (b, none) live h = live refl
conclude_start-IsLive env with_tun (b, some e) live h =
    absurd (start_failed-ne-none env with_tun e (teardown env b) h)

start_core-IsLive :
    (env : Env) (with_tun : Bool) (b : Backend)
    → (start_core env with_tun b).1 ≡ none
    → IsLive with_tun (start_core env with_tun b).0
unfolding start_core
start_core-IsLive env with_tun b h =
    conclude_start-IsLive env with_tun _
      (bring_up-IsLive env with_tun (update (start_state with_tun) b) refl refl) h

-- A start of a stopped session that returns without an error leaves the session running, with the core
-- and its workers up, and with the tunnel up exactly if it was asked for: the app never runs on
-- without the tunnel that the user wanted.
pub start_proxy-IsLive :
    (env : Env) (with_tun : Bool) (b : Backend)
    → IsIdle b
    → (start_proxy env with_tun b).1 ≡ none
    → IsLive with_tun (start_proxy env with_tun b).0
start_proxy-IsLive env with_tun b idle h = elim (Bool-cases (env.cancelled 0)) [
  | inl early ↦ cc (h, start_proxy_early env with_tun b early)
  | inr on_time ↦
      let same = start_proxy_stopped env with_tun b idle.kern on_time in
      rw same (choose (Bool-cases (with_tun && not env.has_admin)) (rw same at h))
]
  where
    asked : Backend × Option Failure
    asked = require_admin (AdminRequest.start with_tun none) none b

    choose :
        (with_tun && not env.has_admin ≡ true) ⊎ (with_tun && not env.has_admin ≡ false)
        → (if with_tun && not env.has_admin then asked else start_core env with_tun b).1 ≡ none
        → IsLive with_tun
            (if with_tun && not env.has_admin then asked else start_core env with_tun b).0
    choose (inl ask) f = absurd (require_admin-ne-none _ none b (rw ask at f))
    choose (inr go) f = rw go (start_core-IsLive env with_tun b (rw go at f))
