-- ===== src/Session/Recorded/Teardown.antt =====
-- lifecycle.go and journal.go together: the steps that touch nothing of the journal, and the teardown.
use sudoku_desktop.Prelude.{
  ◌≡◌, refl, Bool, true, false, Bool-cases, inl, inr, Option, none, some, String, text_append,
  arith,
}
use sudoku_desktop.Failure.{Failure}
use sudoku_desktop.Session.{Kernel, Backend, Env, AdminRequest}
use sudoku_desktop.Session.Steps.{
  add_log, require_admin, ensure_core_binaries, start_guard_once, start_custom, set_core_child,
}
use sudoku_desktop.Session.Tunnel.{
  refresh_net_repair, tun_up, tun_down, stop_kernel, clean_up, shut_down, teardown,
}
use sudoku_desktop.Session.Operations.{
  start_tunnel, set_tun_enabled, switch_tunnel_on, apply_tun, start_failed, fail_session,
  on_tun_lost, repair_network,
}
use sudoku_desktop.Session.Recorded.{
  IsReliable, IsRecorded, SameRecord, IsRecorded-SameRecord, restore_system_proxy-IsRecorded,
  set_core_child-IsRecorded,
}

pub SameRecord-ensure : (env : Env) (b : Backend) → SameRecord b (ensure_core_binaries env b).0
unfolding ensure_core_binaries
SameRecord-ensure env b = record {
  journal = refl;
  snap = refl;
  ours = refl;
  core = refl;
  kern = refl;
}

pub SameRecord-guard : (env : Env) (b : Backend) → SameRecord b (start_guard_once env b)
unfolding start_guard_once
SameRecord-guard env b = ground arith

pub SameRecord-custom : (env : Env) (b : Backend) → SameRecord b (start_custom env b).0
unfolding start_custom
SameRecord-custom env b = ground arith

pub SameRecord-tun_up : (env : Env) (cfg : _) (b : Backend) → SameRecord b (tun_up env cfg b).0
unfolding tun_up refresh_net_repair
SameRecord-tun_up env cfg b = ground arith

pub SameRecord-tun_down : (b : Backend) → SameRecord b (tun_down b)
unfolding tun_down
SameRecord-tun_down b = ground arith

pub SameRecord-refresh : (env : Env) (b : Backend) → SameRecord b (refresh_net_repair env b)
unfolding refresh_net_repair
SameRecord-refresh env b = ground arith

pub SameRecord-start_tunnel :
    (env : Env) (on : Bool) (b : Backend) → SameRecord b (start_tunnel env on b).0
unfolding start_tunnel
SameRecord-start_tunnel env false b = record {
  journal = refl;
  snap = refl;
  ours = refl;
  core = refl;
  kern = refl;
}
SameRecord-start_tunnel env true b = SameRecord-tun_up env b.cfg b

pub SameRecord-switch : (env : Env) (b : Backend) → SameRecord b (switch_tunnel_on env b).0
unfolding switch_tunnel_on tun_up refresh_net_repair require_admin set_tun_enabled
SameRecord-switch env b = ground arith

pub SameRecord-require_admin :
    (req : AdminRequest) (e : Option Failure) (b : Backend) → SameRecord b (require_admin req e b).0
unfolding require_admin
SameRecord-require_admin req e b = record {
  journal = refl;
  snap = refl;
  ours = refl;
  core = refl;
  kern = refl;
}

pub SameRecord-apply_tun :
    (env : Env) (want : Bool) (b : Backend) → SameRecord b (apply_tun env want b).0
unfolding apply_tun tun_down
SameRecord-apply_tun env false b = ground arith
SameRecord-apply_tun env true b = elim (Bool-cases env.has_admin) [
  | inr absent ↦ simp absent (SameRecord-require_admin (AdminRequest.start true none) none b)
  | inl present ↦ simp present (SameRecord-switch env b)
]

pub SameRecord-on_tun_lost : (line : String) (b : Backend) → SameRecord b (on_tun_lost line b).0
unfolding on_tun_lost
SameRecord-on_tun_lost line b = ground arith

pub SameRecord-repair : (env : Env) (b : Backend) → SameRecord b (repair_network env b).0
unfolding repair_network refresh_net_repair require_admin
SameRecord-repair env b = ground arith

pub SameRecord-start_failed :
    (env : Env) (with_tun : Bool) (e : Failure) (b : Backend)
    → SameRecord b (start_failed env with_tun e b).0
unfolding start_failed require_admin
SameRecord-start_failed env with_tun e b = ground arith

-- The teardown
shut_down-IsRecorded :
    (env : Env) (b : Backend) → IsReliable env → IsRecorded b → IsRecorded (shut_down env b)
unfolding shut_down tun_down
shut_down-IsRecorded env b fine r =
    restore_system_proxy-IsRecorded env _ fine (IsRecorded-SameRecord {a = b} (ground arith) r)

stop_kernel-IsRecorded :
    (env : Env) (b : Backend)
    → IsReliable env
    → IsRecorded b
    → IsRecorded (stop_kernel env b) × ((stop_kernel env b).world.core ≡ none)
unfolding stop_kernel
stop_kernel-IsRecorded env b fine r = go b.kern refl
  where
    lone : Backend
    lone = record b { kern = none }

    stopped :
        (k : Kernel) (o : Option Failure)
        → o ≡ none
        → (let out : Backend = elim o [
          | none ↦ record lone { world = record (lone.world) { core = none } }
          | some e ↦ add_log "warn" "core" (text_append "stop core: " e.text) lone
        ] in
            IsRecorded out × (out.world.core ≡ none))
    stopped k none e = (
      record {
        on_disk = r.on_disk;
        snapshot = r.snapshot;
        proxy = r.proxy;
        core = λ p h. cc h;
        no_core = λ _. refl;
      },
      refl,
    )
    stopped k (some f) e = cc e

    go :
        (o : Option Kernel)
        → b.kern ≡ o
        → (let out : Backend = elim o [
          | none ↦ b
          | some k ↦ elim (env.stop_kernel k) [
            | none ↦ record lone { world = record (lone.world) { core = none } }
            | some e ↦ add_log "warn" "core" (text_append "stop core: " e.text) lone
          ]
        ] in
            IsRecorded out × (out.world.core ≡ none))
    go none e = (r, r.no_core e)
    go (some k) e = stopped k (env.stop_kernel k) (fine.stops k)

pub teardown-IsRecorded :
    (env : Env) (b : Backend) → IsReliable env → IsRecorded b → IsRecorded (teardown env b)
unfolding teardown clean_up
teardown-IsRecorded env b fine r =
    let down = shut_down-IsRecorded env b fine r in
    let c = stop_kernel env (shut_down env b) in
    let (kept, dead) = stop_kernel-IsRecorded env (shut_down env b) fine down in
    IsRecorded-SameRecord (SameRecord-refresh env _) (
      IsRecorded-SameRecord {a = set_core_child env 0 c}
        (record { journal = refl; snap = refl; ours = refl; core = refl; kern = refl })
        (set_core_child-IsRecorded env 0 c fine kept dead))

pub fail_session-IsRecorded :
    (env : Env) (msg : String) (b : Backend)
    → IsReliable env
    → IsRecorded b
    → IsRecorded (fail_session env msg b)
unfolding fail_session
fail_session-IsRecorded env msg b fine r =
    let told : Backend = add_log "error" "app" (text_append "stopping: " msg) b in
    IsRecorded-SameRecord {a = teardown env told}
      (record { journal = refl; snap = refl; ours = refl; core = refl; kern = refl })
      (teardown-IsRecorded env told fine (
        IsRecorded-SameRecord {a = b}
          (record { journal = refl; snap = refl; ours = refl; core = refl; kern = refl }) r))
