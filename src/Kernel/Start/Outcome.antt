-- ===== src/Kernel/Start/Outcome.antt =====
-- internal/core/kernel.go, `startKernel`: either the core is up and was told its mode, or nothing is left.
use sudoku_desktop.Prelude.{
  ◌≡◌, refl, ap, Bool, true, false, not, List, [], ◌∷◌, Option, none, some, String, if◌then◌else◌,
}
use sudoku_desktop.Failure.{Failure, Result, ok, err}
use sudoku_desktop.Config.{AppConfig}
use sudoku_desktop.Nodes.Select.{controller_mode}
use sudoku_desktop.Kernel.Client.{is_ok}
use sudoku_desktop.Kernel.Start.{
  StartEnv, Raced, ready, not_ready, exited, cancelled, Started, Post, set_mode, select_node,
  spawned, fail_start, after_listen, after_wait, spawn_core, after_write, after_build, start_kernel,
}

abbrev succeeded : Option Failure → Bool
succeeded none = true
succeeded (some f) = false

abbrev is_ready : StartEnv → Raced → Bool
is_ready e (ready v) = succeeded e.listener_error
is_ready e (not_ready f) = false
is_ready e exited = false
is_ready e cancelled = false

abbrev is_spawned : StartEnv → Option Failure → Bool
is_spawned e none = is_ready e e.raced
is_spawned e (some f) = false

abbrev is_written : StartEnv → Result (List String) → Bool
is_written e (err f) = false
is_written e (ok paths) = is_spawned e e.spawn_error

-- Each step of the start succeeds.
abbrev pub comes_up : StartEnv → Result (List String) → Bool
comes_up e (err f) = false
comes_up e (ok files) = is_written e (e.write_configs files)

-- The requests to the controller of a core that is up.
abbrev pub requests : StartEnv → AppConfig → List Post
requests e cfg =
    set_mode (controller_mode cfg.routing.proxy_mode) ∷ (select_node e cfg cfg.active_node_id).0

-- Up with its requests made, or nothing left.
abbrev pub IsAllOrNothing : StartEnv → AppConfig → Bool → Result String × Started → Type 0
IsAllOrNothing e cfg up o =
    (is_ok o.0 ≡ up)
    × (o.1.running ≡ up)
    × (o.1.ctl_open ≡ up)
    × (o.1.posted ≡ (if up then requests e cfg else []))

after_listen-IsAllOrNothing :
    (e : StartEnv) (cfg : AppConfig) (tun : Bool) (paths : List String) (v : String)
    (o : Option Failure)
    → e.stops ≡ true
    → IsAllOrNothing e cfg (succeeded o) (after_listen e cfg v o (spawned e cfg tun paths))
unfolding after_listen spawned fail_start
after_listen-IsAllOrNothing e cfg tun paths v none stops = (refl, refl, refl, refl)
after_listen-IsAllOrNothing e cfg tun paths v (some f) stops = (refl, ap not stops, refl, refl)

after_wait-IsAllOrNothing :
    (e : StartEnv) (cfg : AppConfig) (tun : Bool) (paths : List String) (r : Raced)
    → e.stops ≡ true
    → IsAllOrNothing e cfg (is_ready e r) (after_wait e cfg r (spawned e cfg tun paths))
unfolding after_wait spawned fail_start
after_wait-IsAllOrNothing e cfg tun paths (ready v) stops =
    after_listen-IsAllOrNothing e cfg tun paths v e.listener_error stops
after_wait-IsAllOrNothing e cfg tun paths (not_ready f) stops = (refl, ap not stops, refl, refl)
after_wait-IsAllOrNothing e cfg tun paths exited stops = (refl, refl, refl, refl)
after_wait-IsAllOrNothing e cfg tun paths cancelled stops = (refl, ap not stops, refl, refl)

spawn_core-IsAllOrNothing :
    (e : StartEnv) (cfg : AppConfig) (tun : Bool) (paths : List String) (o : Option Failure)
    → e.stops ≡ true
    → IsAllOrNothing e cfg (is_spawned e o) (spawn_core e cfg tun o paths)
unfolding spawn_core
spawn_core-IsAllOrNothing e cfg tun paths none stops =
    after_wait-IsAllOrNothing e cfg tun paths e.raced stops
spawn_core-IsAllOrNothing e cfg tun paths (some f) stops = (refl, refl, refl, refl)

after_write-IsAllOrNothing :
    (e : StartEnv) (cfg : AppConfig) (tun : Bool) (w : Result (List String))
    → e.stops ≡ true
    → IsAllOrNothing e cfg (is_written e w) (after_write e cfg tun w)
unfolding after_write
after_write-IsAllOrNothing e cfg tun (err f) stops = (refl, refl, refl, refl)
after_write-IsAllOrNothing e cfg tun (ok paths) stops =
    spawn_core-IsAllOrNothing e cfg tun paths e.spawn_error stops

after_build-IsAllOrNothing :
    (e : StartEnv) (cfg : AppConfig) (tun : Bool) (b : Result (List String))
    → e.stops ≡ true
    → IsAllOrNothing e cfg (comes_up e b) (after_build e cfg tun b)
unfolding after_build
after_build-IsAllOrNothing e cfg tun (err f) stops = (refl, refl, refl, refl)
after_build-IsAllOrNothing e cfg tun (ok files) stops =
    after_write-IsAllOrNothing e cfg tun (e.write_configs files) stops

-- Where a process that is stopped ends: a start succeeds exactly if every step of it does, and then the
-- process runs, the controller's client is open, and the controller was asked for the mode and for what
-- selectNode asks; else no process is left, the client is closed, and nothing was asked.
pub start_kernel-IsAllOrNothing :
    (e : StartEnv) (cfg : AppConfig) (tun : Bool)
    → e.stops ≡ true
    → IsAllOrNothing e cfg (comes_up e e.build_configs) (start_kernel e cfg tun)
unfolding start_kernel
start_kernel-IsAllOrNothing e cfg tun stops =
    after_build-IsAllOrNothing e cfg tun e.build_configs stops
