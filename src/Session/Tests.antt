-- ===== src/Session/Tests.antt =====
-- lifecycle.go on concrete states: a start that succeeds, one whose tunnel does not come up, and a stop.
use sudoku_desktop.Prelude.{[], ◌≡◌, ◌≢◌, refl, true, none, some, inl, false}
use sudoku_desktop.Failure.{ok, new_error, wrap}
use sudoku_desktop.Session.{Env}
use sudoku_desktop.Session.Steps.{
  require_nodes, ensure_core_binaries, check_ports, start_guard_once, start_custom, adopt_kernel,
  launch, apply_system_proxy,
}
use sudoku_desktop.Session.Tunnel.{tun_up, teardown}
use sudoku_desktop.Session.Operations.{
  start_tunnel, set_running, bring_up_core, start_from_guard, bring_up, start_failed,
  conclude_start, start_core, start_proxy, stop_proxy,
}
use sudoku_desktop.Session.Idle.{IsIdle, teardown-IsIdle, start_proxy-IsIdle}
use sudoku_desktop.Session.Live.{IsLive, start_proxy-IsLive}
use sudoku_desktop.Session.Settled.{IsSettled, Step, Steps, done, then_step, Steps-IsSettled}
use sudoku_desktop.SystemProxy.{Snapshot}
use sudoku_desktop.Prelude.{ℕ, ◌<◌, any, ◌==◌, arith}
use sudoku_desktop.Journal.{JournalFile, nothing_to_undo}
use sudoku_desktop.Journal.Recover.{Machine, is_leftover, owner_alive, recover_stale_journal}
use sudoku_desktop.Session.Recorded.{IsReliable, IsRecorded}
use sudoku_desktop.Session.Recorded.Crash.{AreReliable, IsReliableStep, core_child, Steps-recovers}
use sudoku_desktop.Examples.{env, idle}

-- The tunnel device cannot be made.
abbrev no_device : Env
no_device = record env { tun_up = λ plan. some (new_error "no device") }

idle-IsIdle : IsIdle idle
idle-IsIdle = record {
  phase = refl;
  kern = refl;
  sess = refl;
  custom = refl;
  core_running = refl;
  tun_running = refl;
  tun_requested = refl;
  system_proxy_on = refl;
  helper = refl;
}

starts : (start_proxy env true idle).1 ≡ none
unfolding start_proxy start_core conclude_start bring_up require_nodes ensure_core_binaries
    check_ports start_from_guard start_guard_once start_custom bring_up_core launch adopt_kernel
    apply_system_proxy start_tunnel tun_up set_running
starts = refl

no_device-fails : (start_proxy no_device true idle).1 ≢ none
unfolding start_proxy start_core conclude_start bring_up require_nodes ensure_core_binaries
    check_ports start_from_guard start_guard_once start_custom bring_up_core launch adopt_kernel
    apply_system_proxy start_tunnel tun_up set_running start_failed wrap
no_device-fails h = cc

start_proxy-IsLive_example : IsLive true (start_proxy env true idle).0
start_proxy-IsLive_example = start_proxy-IsLive env true idle idle-IsIdle starts

start_proxy-IsIdle_example : IsIdle (start_proxy no_device true idle).0
start_proxy-IsIdle_example = start_proxy-IsIdle no_device true idle idle-IsIdle no_device-fails

teardown-IsIdle_example : IsIdle (teardown env (start_proxy env true idle).0)
teardown-IsIdle_example = teardown-IsIdle env (start_proxy env true idle).0

abbrev start_and_stop : Steps idle (stop_proxy env (start_proxy env true idle).0).0
start_and_stop = then_step (then_step done (Step.start env true)) (Step.stop env)

Steps-IsSettled_example : IsSettled (stop_proxy env (start_proxy env true idle).0).0
Steps-IsSettled_example = Steps-IsSettled start_and_stop (inl idle-IsIdle)

-- The settings before the start, on a machine where they can be read.
abbrev before : Snapshot
before = record { darwin = []; linux = none; windows = none }

abbrev desktop : Env
desktop = record env { capture_proxy = ok before }

idle-IsRecorded : IsRecorded idle
unfolding nothing_to_undo
idle-IsRecorded = record {
  on_disk = λ h. cc h;
  snapshot = refl;
  proxy = λ h. cc h;
  core = λ p h. cc h;
  no_core = λ _. refl;
}

desktop-IsReliable : IsReliable desktop
desktop-IsReliable = record { writes = λ f. refl; stops = λ k. refl }

-- The app is gone, and the core it started is still there.
abbrev machine : Machine
machine = record {
  pid = 99;
  alive = λ p. false;
  command = λ p. "/app/sudoku -c /app/configs/node-00.json";
  restore = λ snap port. none;
  removable = true;
}

owner_gone : (f : JournalFile) → owner_alive machine f ≡ false
owner_gone f = ground arith

Steps-recovers_example :
    let b = (start_proxy desktop true idle).0 in
    let o = recover_stale_journal machine b.journal.disk in
    (b.world.proxy_ours ≡ true
      → (snap : Snapshot) × (port : ℕ) × (b.sys_snap ≡ some snap)
        × (o.restored ≡ some (snap, port, machine.restore snap port)))
    × ((p : ℕ)
        → b.world.core ≡ some p
        → 0 < p
        → is_leftover machine (core_child p) ≡ true
        → any (λ q. q == p) o.killed ≡ true)
unfolding AreReliable IsReliableStep
Steps-recovers_example =
    Steps-recovers (then_step done (Step.start desktop true)) machine (tt, desktop-IsReliable)
      idle-IsRecorded (λ f e. owner_gone f)
