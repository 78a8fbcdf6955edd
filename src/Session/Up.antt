-- ===== src/Session/Up.antt =====
-- lifecycle.go: the running session, and the steps that leave its core and its phase as they are.
use sudoku_desktop.Prelude.{
  ◌≡◌, refl, ◌∙◌, inl, inr, Bool, true, false, Bool-cases, Option, none, String, arith,
}
use sudoku_desktop.Failure.{Failure}
use sudoku_desktop.Config.{AppConfig}
use sudoku_desktop.Session.{running, AdminRequest, Backend, Env}
use sudoku_desktop.Session.Steps.{update, require_admin}
use sudoku_desktop.Session.Tunnel.{tun_up, tun_down, refresh_net_repair}
use sudoku_desktop.Session.Operations.{
  set_tun_enabled, switch_tunnel_on, apply_tun, on_tun_lost, repair_network,
}
use sudoku_desktop.Session.Live.{HasCore}

-- The session runs on its core; the tunnel may be on or off.
pub record IsUp (b : Backend) : Type 0 where
  pub phase : b.state.phase ≡ running
  pub has_core : HasCore b

-- What a running session rests on.
pub record SameCore (a b : Backend) : Type 0 where
  pub phase : b.state.phase ≡ a.state.phase
  pub kern : b.kern ≡ a.kern
  pub sess : b.sess ≡ a.sess
  pub core : b.world.core ≡ a.world.core
  pub core_running : b.state.core_running ≡ a.state.core_running

pub IsUp-SameCore : {a b : Backend} → SameCore a b → IsUp a → IsUp b
IsUp-SameCore s up = record {
  phase = s.phase ∙ up.phase;
  has_core = record {
    kern = rw s.kern up.has_core.kern;
    sess = rw (s.sess, s.kern) up.has_core.sess;
    core = rw (s.core, s.kern) up.has_core.core;
    core_running = s.core_running ∙ up.has_core.core_running;
  };
}

SameCore-require_admin :
    (req : AdminRequest) (e : Option Failure) (b : Backend) → SameCore b (require_admin req e b).0
unfolding require_admin
SameCore-require_admin req e b = record {
  phase = refl;
  kern = refl;
  sess = refl;
  core = refl;
  core_running = refl;
}

pub SameCore-tun_up : (env : Env) (cfg : AppConfig) (b : Backend) → SameCore b (tun_up env cfg b).0
unfolding tun_up refresh_net_repair
SameCore-tun_up env cfg b = ground arith

pub SameCore-tun_down : (b : Backend) → SameCore b (tun_down b)
unfolding tun_down
SameCore-tun_down b = ground arith

SameCore-set_tun_enabled :
    (env : Env) (on : Bool) (b : Backend) → SameCore b (set_tun_enabled env on b)
unfolding set_tun_enabled
SameCore-set_tun_enabled env on b = ground arith

pub SameCore-trans : {a b c : Backend} → SameCore a b → SameCore b c → SameCore a c
SameCore-trans s t = record {
  phase = t.phase ∙ s.phase;
  kern = t.kern ∙ s.kern;
  sess = t.sess ∙ s.sess;
  core = t.core ∙ s.core;
  core_running = t.core_running ∙ s.core_running;
}

SameCore-switch : (env : Env) (b : Backend) → SameCore b (switch_tunnel_on env b).0
unfolding switch_tunnel_on tun_up refresh_net_repair require_admin set_tun_enabled
SameCore-switch env b = ground arith

pub SameCore-apply_tun :
    (env : Env) (want : Bool) (b : Backend) → SameCore b (apply_tun env want b).0
unfolding apply_tun
SameCore-apply_tun env false b =
    SameCore-trans
      (record { phase = refl; kern = refl; sess = refl; core = refl; core_running = refl })
      (SameCore-tun_down (update (λ s. record s { tun_requested = false }) b))
SameCore-apply_tun env true b = elim (Bool-cases env.has_admin) [
  | inr absent ↦ simp absent (SameCore-require_admin (AdminRequest.start true none) none b)
  | inl present ↦ simp present (SameCore-switch env b)
]

pub SameCore-on_tun_lost : (line : String) (b : Backend) → SameCore b (on_tun_lost line b).0
unfolding on_tun_lost
SameCore-on_tun_lost line b = ground arith

pub SameCore-repair : (env : Env) (b : Backend) → SameCore b (repair_network env b).0
unfolding repair_network refresh_net_repair require_admin
SameCore-repair env b = ground arith
