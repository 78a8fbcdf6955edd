-- ===== src/Session/Steps.antt =====
-- internal/core/lifecycle.go: the steps of which the operations are made. A step that may fail is an
-- `Action`; `m >> k` stops at the first failure, and keeps what was changed before it.
use sudoku_desktop.Prelude.{
  ℕ, ◌≡◌, refl, Bool, true, false, not, ◌&&◌, [], ◌∷◌, ◌++◌, Option, none, some, String,
  text_append, str_eq, ◌==◌, if◌then◌else◌, length, itoa, pos_part,
}
use sudoku_desktop.Failure.{Kind, Failure, ok, err, err_admin_required, new_error}
use sudoku_desktop.SystemProxy.{Snapshot}
use sudoku_desktop.Journal.{JournalFile, Journal, Io, set_child}
use sudoku_desktop.Journal
use sudoku_desktop.Config.{AppConfig}
use sudoku_desktop.Config.Normalize.{normalize_config, is_blank}
use sudoku_desktop.Session.{
  RuntimeState, AdminRequest, Kernel, not_spawned, given_up, ready, Backend, Env, no_traffic,
}

abbrev pub Action : Type 0
Action = Backend → Backend × Option Failure

infixl 5 ◌>>◌
abbrev pub ◌>>◌ : Action → Action → Action
◌>>◌ m k b = let (b', r) = m b in elim r [ none ↦ k b' | some e ↦ (b', some e) ]

-- A step that ends without a failure ran each part without one, so a claim about its outcome is a
-- claim about the rest, run from where the first part ended.
pub >>-returns :
    (P : Backend → Type 0) (m k : Action) (b : Backend)
    → ((m >> k) b).1 ≡ none
    → ((m b).1 ≡ none → (k (m b).0).1 ≡ none → P (k (m b).0).0)
    → P ((m >> k) b).0
>>-returns P m k b h next = go (m b) h next
  where
    go :
        (r : Backend × Option Failure)
        → (let out : Backend × Option Failure = elim r.1 [
          | none ↦ k r.0
          | some e ↦ (r.0, some e)
        ] in
            out.1)
          ≡ none
        → (r.1 ≡ none → (k r.0).1 ≡ none → P (k r.0).0)
        → P (
            let out : Backend × Option Failure = elim r.1 [
              | none ↦ k r.0
              | some e ↦ (r.0, some e)
            ] in
            out.0)
    go (b', none) h next = next refl h
    go (b', some e) h next = cc

-- `update`; the flag stands for the waiting state event of `markDirty`.
abbrev pub update : (RuntimeState → RuntimeState) → Backend → Backend
update f b = record b { state = f b.state; dirty = true }

-- `addLog`
abbrev pub add_log : String → String → String → Backend → Backend
add_log level component message b = record b {
  log = b.log ++ (record { level = level; component = component; message = message }) ∷ [];
}

-- the key of the core in the journal
abbrev pub kernel_config_key : String
kernel_config_key = "node-00.json"

abbrev pub set_core_child : Env → ℕ → Backend → Backend
set_core_child env pid b = record b {
  journal = (set_child env.io kernel_config_key pid b.journal).0;
}

-- `msg` of `requireAdmin`
abbrev pub admin_message : Option Failure → String
admin_message none = ""
admin_message (some (e)) = elim e.kind [ Kind.admin_bad_password ↦ e.text | _ ↦ "" ]

-- `requireAdmin`
unfoldable pub require_admin : AdminRequest → Option Failure → Action
require_admin req e b = (
  update (λ s. record s { needs_admin = true; admin_error = admin_message e })
      (record b { admin_pending = some req }),
  some err_admin_required,
)

-- the first lines of `bringUpLocked`
unfoldable pub require_nodes : Action
require_nodes b = (
  b,
  if length b.cfg.nodes == 0
      then some (new_error "no nodes configured: add a node first")
      else none,
)

-- `EnsureCoreBinaries`
unfoldable pub ensure_core_binaries : Env → Action
ensure_core_binaries env b =
    let (binary, e) = env.ensure_binary b.cfg in
    let cfg = record (b.cfg) { core = record (b.cfg.core) { sudoku_binary = binary } } in
    let changed = not (str_eq binary b.cfg.core.sudoku_binary) in
    (record b { cfg = if changed then normalize_config env.platform env.draws cfg else cfg }, e)

unfoldable pub check_ports : Env → Action
check_ports env b = (b, env.check_ports b.cfg)

-- `guardOnce.Do`
unfoldable pub start_guard_once : Env → Backend → Backend
start_guard_once env b =
    let b' = record b { guard_started = true } in
    if b.guard_started then b else elim env.start_guard [
      | none ↦ b'
      | some e ↦ add_log "warn" "app" (text_append "crash guard unavailable: " e.text) b'
    ]

-- The custom rule server, and its address or "".
unfoldable pub start_custom : Env → Backend → Backend × String
start_custom env b =
    if b.cfg.routing.custom_rules_enabled && not (is_blank b.cfg.routing.custom_rules)
    then elim (env.custom_server b.cfg.routing.custom_rules) [
      | ok url ↦ (record b { custom = some url }, url)
      | err e ↦ (add_log "warn" "route" (text_append "custom rules unavailable: " e.text) b, "")
    ]
    else (b, "")

abbrev pub ready_message : AppConfig → Kernel → String
ready_message cfg k = text_append "sudoku core " (
    text_append k.version (
      text_append " ready (proxy 127.0.0.1:10233, controller :"
        (text_append (itoa (pos_part cfg.controller.port)) ")")))

-- What follows a successful `startKernel`, `startSession` included.
unfoldable pub adopt_kernel : Env → Kernel → Backend → Backend
adopt_kernel env k b = add_log "info" "app" (ready_message b.cfg k) (record b {
  kern = some k;
  sess = some k;
  state = record (b.state) {
    core_running = true;
    started_at_unix = env.now;
    kernel_version = k.version;
    traffic = no_traffic;
  };
  world = record (b.world) { core = some k.pid };
})

-- `startKernel`: the process is in the journal as soon as it runs.
unfoldable pub launch : Env → Bool → String → Action
launch env with_tun url b = elim (env.start_kernel b.cfg url with_tun) [
  | not_spawned e ↦ (set_core_child env 0 b, some e)
  | given_up pid e ↦ (set_core_child env 0 (set_core_child env pid b), some e)
  | ready k ↦ (adopt_kernel env k (set_core_child env k.pid b), none)
]

abbrev pub with_proxy : Option Snapshot → JournalFile → JournalFile
with_proxy snap f = record f { system_proxy = snap }

abbrev pub proxy_error : Failure → Backend → Backend
proxy_error e = update (λ s. record s { last_error = text_append "system proxy: " e.text })

-- The snapshot is in the journal before the settings are touched.
unfoldable pub journal_snapshot : Env → Snapshot → Backend → Backend
journal_snapshot env snap b = record b {
  sys_snap = some snap;
  journal =
      (Journal.update env.io (λ f. record f { system_proxy = some snap; proxy_port = 10233 })
        b.journal).0;
}

-- `setSystemProxy` may have changed some settings when it fails.
unfoldable pub set_system_proxy : Env → Snapshot → Backend → Backend
set_system_proxy env snap b =
    let b' = record b { world = record (b.world) { proxy_ours = true } } in
    elim (env.set_proxy snap) [
      | some e ↦
          proxy_error e
            (add_log "error" "proxy" (text_append "set system proxy failed: " e.text) b')
      | none ↦
          add_log "info" "proxy" "system proxy set to 127.0.0.1:10233"
            (update (λ s. record s { system_proxy_on = true }) b')
    ]

-- `applySystemProxyLocked`
unfoldable pub apply_system_proxy : Env → Backend → Backend
apply_system_proxy env b = elim env.capture_proxy [
  | err e ↦ proxy_error e (
      add_log "warn" "proxy"
        (text_append "cannot read system proxy settings, leaving them untouched: " e.text) b)
  | ok snap ↦ set_system_proxy env snap (journal_snapshot env snap b)
]

-- `restoreSystemProxyLocked`: after a failure the journal keeps its entry.
unfoldable pub restore_system_proxy : Env → Backend → Backend
restore_system_proxy env b = elim b.sys_snap [
  | none ↦ b
  | some snap ↦ elim (env.restore_proxy snap) [
    | some e ↦ add_log "error" "proxy" (text_append "restore system proxy failed: " e.text) b
    | none ↦ add_log "info" "proxy" "system proxy restored" (
        update (λ s. record s { system_proxy_on = false })
          (record b {
            sys_snap = none;
            journal = (Journal.update env.io (with_proxy none) b.journal).0;
            world = record (b.world) { proxy_ours = false };
          }))
  ]
]
