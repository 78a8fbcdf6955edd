-- ===== src/Kernel/Start.antt =====
-- internal/core/kernel.go: `startKernel` and `selectNode`. What the files, the process and the controller
-- answer is the record `StartEnv`; the log is left out.
pub mod Outcome
use sudoku_desktop.Prelude.{
  Bool, true, false, not, ◌&&◌, ◌||◌, List, [], ◌∷◌, ◌++◌, Option, none, some, String, text_append,
  str_eq, if◌then◌else◌, ltb, length, to_lower, trim_space,
}
use sudoku_desktop.Failure.{Failure, Result, ok, err, new_error, wrap}
use sudoku_desktop.Config.{AppConfig, balance_node_id}
use sudoku_desktop.Nodes.Select.{controller_mode}

-- What ends the wait for the controller first: its answer with its version, its silence, the end of the
-- process, or the end of the context.
pub data Raced : Type 0 where
  ready : String → Raced
  not_ready : Failure → Raced
  exited cancelled : Raced

-- `stops` holds if the process ends when it is stopped, the two fields `..._cancelled` if the context is
-- at its end by then, and `cancel_error` is the context's error. `quote` is `%q`.
pub record StartEnv : Type 0 where
  pub build_configs : Result (List String)
  pub write_configs : List String → Result (List String)
  pub rule_cache_dir : String
  pub bypass_env : List String
  pub spawn_error : Option Failure
  pub raced : Raced
  pub wait_cancelled : Bool
  pub listener_error : Option Failure
  pub listener_cancelled : Bool
  pub cancel_error : Failure
  pub tail : String
  pub stops : Bool
  pub select_error : Option Failure
  pub names : String → String
  pub listener_address : String
  pub quote : String → String

-- A request to the controller.
pub data Post : Type 0 where
  set_mode : String → Post
  select : String → String → Post

-- The process and the client of the controller, as they are left.
pub record Started : Type 0 where
  pub running : Bool
  pub ctl_open : Bool
  pub args : List String
  pub env : List String
  pub posted : List Post

abbrev pub not_started : Started
not_started = record { running = false; ctl_open = false; args = []; env = []; posted = [] }

-- `coreLogLevel`
unfoldable pub core_log_level : String → String
unfolding to_lower trim_space
core_log_level level =
    let l = to_lower (trim_space level) in
    if str_eq l "debug" || str_eq l "info" || str_eq l "warn" || str_eq l "error" then l else "info"

-- `args`, a flag before each path
unfoldable pub config_args : List String → List String
config_args [] = []
config_args (p ∷ ps) = "-c" ∷ p ∷ config_args ps

unfoldable pub core_env : StartEnv → AppConfig → Bool → List String
unfolding core_log_level
core_env e cfg with_tun =
    text_append "SUDOKU_LOG_LEVEL=" (core_log_level cfg.core.log_level)
    ∷ text_append "SUDOKU_RULE_CACHE_DIR=" e.rule_cache_dir
    ∷ (if with_tun then e.bypass_env else [])

-- `withTail`
unfoldable pub with_tail : StartEnv → Failure → Failure
with_tail e f =
    if str_eq e.tail ""
    then f
    else record { kind = f.kind; text = text_append f.text (text_append "\n" e.tail) }

-- `selectNode`: its request and its error
unfoldable pub select_node : StartEnv → AppConfig → String → List Post × Option Failure
select_node e cfg node_id =
    let name = if str_eq node_id balance_node_id then "Balance" else e.names node_id in
    if ltb (length cfg.nodes) 2
    then ([], none)
    else if str_eq name ""
    then (
      [],
      some (
          new_error
            (text_append "node " (text_append (e.quote node_id) " is not known to the core"))),
    )
    else (select "PROXY" name ∷ [], e.select_error)

-- The state once the process runs.
unfoldable pub spawned : StartEnv → AppConfig → Bool → List String → Started
unfolding config_args core_env
spawned e cfg with_tun paths = record {
  running = true;
  ctl_open = true;
  args = config_args paths;
  env = core_env e cfg with_tun;
  posted = [];
}

-- `fail`
unfoldable pub fail_start : StartEnv → Started → Failure → Result String × Started
fail_start e s f = (err f, record s { running = s.running && not e.stops; ctl_open = false })

-- The errors of the two last requests are only logged.
unfoldable pub after_listen :
    StartEnv → AppConfig → String → Option Failure → Started → Result String × Started
unfolding select_node fail_start with_tail
after_listen e cfg version none s = (
  ok version,
  record s {
    posted =
        set_mode (controller_mode cfg.routing.proxy_mode)
        ∷ (select_node e cfg cfg.active_node_id).0;
  },
)
after_listen e cfg version (some f) s = fail_start e s (
    if e.listener_cancelled
    then e.cancel_error
    else with_tail e
        (wrap (text_append "proxy listener " (text_append e.listener_address " not ready: ")) f))

unfoldable pub after_wait : StartEnv → AppConfig → Raced → Started → Result String × Started
unfolding after_listen fail_start with_tail
after_wait e cfg (ready version) s = after_listen e cfg version e.listener_error s
after_wait e cfg (not_ready f) s =
    fail_start e s (if e.wait_cancelled then e.cancel_error else with_tail e f)
after_wait e cfg exited s =
    fail_start e (record s { running = false })
      (with_tail e (new_error "sudoku core exited during startup"))
after_wait e cfg cancelled s = fail_start e s e.cancel_error

unfoldable pub spawn_core :
    StartEnv → AppConfig → Bool → Option Failure → List String → Result String × Started
unfolding after_wait spawned
spawn_core e cfg with_tun none paths = after_wait e cfg e.raced (spawned e cfg with_tun paths)
spawn_core e cfg with_tun (some f) paths = (err f, not_started)

unfoldable pub after_write :
    StartEnv → AppConfig → Bool → Result (List String) → Result String × Started
unfolding spawn_core
after_write e cfg with_tun (err f) = (err f, not_started)
after_write e cfg with_tun (ok paths) = spawn_core e cfg with_tun e.spawn_error paths

unfoldable pub after_build :
    StartEnv → AppConfig → Bool → Result (List String) → Result String × Started
unfolding after_write
after_build e cfg with_tun (err f) = (err f, not_started)
after_build e cfg with_tun (ok files) = after_write e cfg with_tun (e.write_configs files)

-- `startKernel`
unfoldable pub start_kernel : StartEnv → AppConfig → Bool → Result String × Started
unfolding after_build
start_kernel e cfg with_tun = after_build e cfg with_tun e.build_configs
