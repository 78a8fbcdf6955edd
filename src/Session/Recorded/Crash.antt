-- ===== src/Session/Recorded/Crash.antt =====
-- lifecycle.go, journal.go and guard.go together: the app may die after any operations, and what it did to
-- the system is undone.
use sudoku_desktop.Prelude.{
  ℕ, ◌≡◌, refl, ap, ◌∙◌, Bool, true, false, Bool-cases, inl, inr, not, ◌&&◌, Option, none, some,
  String, text_append, if◌then◌else◌, arith,
}
use sudoku_desktop.Failure.{Failure}
use sudoku_desktop.Session.{Kernel, Backend, Env}
use sudoku_desktop.Session.Steps.{add_log}
use sudoku_desktop.Session.Tunnel.{set_helper, tun_up, tun_down}
use sudoku_desktop.Session.Operations.{
  stop_proxy, restart_proxy, fail_session, reapply_tun, recover_tun, same_kernel, kernel_exited,
  is_running,
}
use sudoku_desktop.Session.Recorded.{IsReliable, IsRecorded, SameRecord, IsRecorded-SameRecord}
use sudoku_desktop.Prelude.{
  ◌<◌, List, [], ◌∷◌, ◌==◌, ==_iff, any, str_eq, eq_iff, get_elem?, suc, ◌&&◌,
}
use sudoku_desktop.SystemProxy.{Snapshot}
use sudoku_desktop.Journal.{Child, JournalFile, holds, nothing_to_undo}
use sudoku_desktop.Journal.Recover.{
  Machine, is_leftover, owner_alive, port_of, recover_stale_journal, recovery_kills,
}
use sudoku_desktop.Session.Steps.{kernel_config_key}
use sudoku_desktop.Session.Settled.{Step, Steps, done, then_step}
use sudoku_desktop.Session.Recorded.{names_core}
use sudoku_desktop.Session.Recorded.Teardown.{
  teardown-IsRecorded, fail_session-IsRecorded, SameRecord-apply_tun, SameRecord-on_tun_lost,
  SameRecord-repair, SameRecord-tun_up, SameRecord-tun_down,
}
use sudoku_desktop.Session.Recorded.Start.{start_proxy-IsRecorded}

-- Each operation gets such answers.
unfoldable pub IsReliableStep : {a b : Backend} → Step a b → Type 0
IsReliableStep (Step.start env with_tun) = IsReliable env
IsReliableStep (Step.stop env) = IsReliable env
IsReliableStep (Step.restart env env' with_tun) = IsReliable env × IsReliable env'
IsReliableStep (Step.switch_tunnel env want runs) = IsReliable env
IsReliableStep (Step.reapply env) = IsReliable env
IsReliableStep (Step.tunnel_lost line) = Unit {0}
IsReliableStep (Step.recover env reason) = IsReliable env
IsReliableStep (Step.repair env) = IsReliable env
IsReliableStep (Step.core_exited env k) = IsReliable env

unfoldable pub AreReliable : {a b : Backend} → Steps a b → Type 0
unfolding IsReliableStep
AreReliable done = Unit {0}
AreReliable (then_step before last) = AreReliable before × IsReliableStep last

after_tun-IsRecorded :
    (env : Env) (r : Backend × Option Failure) (msg : Failure → String) (line : Backend → Backend)
    → IsReliable env
    → ((c : Backend) → SameRecord c (line c))
    → IsRecorded r.0
    → IsRecorded (
        let out : Backend = elim r.1 [ none ↦ line r.0 | some e ↦ fail_session env (msg e) r.0 ] in
        out)
after_tun-IsRecorded env (b, none) msg line fine same r = IsRecorded-SameRecord (same b) r
after_tun-IsRecorded env (b, some e) msg line fine same r =
    fail_session-IsRecorded env (msg e) b fine r

pick-IsRecorded :
    (t : Bool) (x y : Backend) → IsRecorded x → IsRecorded y → IsRecorded (if t then x else y)
pick-IsRecorded true x y p q = p
pick-IsRecorded false x y p q = q

recover_tun-IsRecorded :
    (env : Env) (reason : String) (b : Backend)
    → IsReliable env
    → IsRecorded b
    → IsRecorded (recover_tun env reason b)
unfolding recover_tun
recover_tun-IsRecorded env reason b fine r =
    pick-IsRecorded (is_running b.state.phase && b.state.tun_requested && not b.state.tun_running) _
      b
      (after_tun-IsRecorded env (tun_up env b.cfg (set_helper false b))
        (λ _. text_append "TUN: " reason) (add_log "info" "tun" "tunnel recovered") fine
        (λ c. record { journal = refl; snap = refl; ours = refl; core = refl; kern = refl })
        (IsRecorded-SameRecord (SameRecord-tun_up env b.cfg (set_helper false b)) (
          IsRecorded-SameRecord {a = b}
            (record { journal = refl; snap = refl; ours = refl; core = refl; kern = refl }) r)))
      r

reapplied-IsRecorded :
    (env : Env) (r : Backend × Option Failure)
    → IsReliable env
    → IsRecorded r.0
    → IsRecorded
        (let out : Backend × Option Failure = elim r.1 [
          | none ↦ (r.0, none)
          | some e ↦ (fail_session env (text_append "TUN: " e.text) r.0, some e)
        ] in
          out).0
reapplied-IsRecorded env (b, none) fine r = r
reapplied-IsRecorded env (b, some e) fine r = fail_session-IsRecorded env _ b fine r

reapply_tun-IsRecorded :
    (env : Env) (b : Backend) → IsReliable env → IsRecorded b → IsRecorded (reapply_tun env b).0
unfolding reapply_tun
reapply_tun-IsRecorded env b fine r = elim (Bool-cases b.state.tun_running) [
  | inr off ↦ simp off r
  | inl on ↦ simp on (
      reapplied-IsRecorded env (tun_up env b.cfg (tun_down b)) fine (
        IsRecorded-SameRecord (SameRecord-tun_up env b.cfg (tun_down b))
          (IsRecorded-SameRecord (SameRecord-tun_down b) r)))
]

kernel_exited-IsRecorded :
    (env : Env) (k : Kernel) (b : Backend)
    → IsReliable env
    → IsRecorded b
    → IsRecorded (kernel_exited env k b)
unfolding kernel_exited
kernel_exited-IsRecorded env k b fine r =
    pick-IsRecorded (same_kernel b.kern k) _ b
      (fail_session-IsRecorded env _ _ fine (record {
        on_disk = r.on_disk;
        snapshot = r.snapshot;
        proxy = r.proxy;
        core = λ p h. cc h;
        no_core = λ _. refl;
      }))
      r

Step-IsRecorded : {a b : Backend} (s : Step a b) → IsReliableStep s → IsRecorded a → IsRecorded b
unfolding IsReliableStep stop_proxy restart_proxy
Step-IsRecorded (Step.start env with_tun) fine r = start_proxy-IsRecorded env with_tun _ fine r
Step-IsRecorded (Step.stop env) fine r = teardown-IsRecorded env _ fine r
Step-IsRecorded (Step.restart env env' with_tun) (fine, fine') r =
    start_proxy-IsRecorded env' with_tun _ fine' (teardown-IsRecorded env _ fine r)
Step-IsRecorded (Step.switch_tunnel env want runs) fine r =
    IsRecorded-SameRecord (SameRecord-apply_tun env want _) r
Step-IsRecorded (Step.reapply env) fine r = reapply_tun-IsRecorded env _ fine r
Step-IsRecorded (Step.tunnel_lost line) fine r =
    IsRecorded-SameRecord (SameRecord-on_tun_lost line _) r
Step-IsRecorded (Step.recover env reason) fine r = recover_tun-IsRecorded env reason _ fine r
Step-IsRecorded (Step.repair env) fine r = IsRecorded-SameRecord (SameRecord-repair env _) r
Step-IsRecorded (Step.core_exited env k) fine r = kernel_exited-IsRecorded env k _ fine r

Steps-IsRecorded : {a b : Backend} (s : Steps a b) → AreReliable s → IsRecorded a → IsRecorded b
unfolding AreReliable
Steps-IsRecorded done fine r = r
Steps-IsRecorded (then_step before last) (fine, fine_last) r =
    Step-IsRecorded last fine_last (Steps-IsRecorded before fine r)

abbrev pub core_child : ℕ → Child
core_child p = record { pid = p; name = kernel_config_key }

names_core_at :
    (p : ℕ) (cs : List Child)
    → names_core p cs ≡ true
    → (i : ℕ) × (get_elem? cs i ≡ some (core_child p))
unfolding names_core
names_core_at p [] h = cc h
names_core_at p (c ∷ cs) h = elim (Bool-cases (c.pid == p && str_eq c.name kernel_config_key)) [
  | inl here ↦
      let same_pid : c.pid ≡ p = (==_iff c.pid p).0 (ground (arith, here)) in
      let same_name : c.name ≡ kernel_config_key =
        (eq_iff c.name kernel_config_key).0 (ground (arith, here)) in
      (0, λ k. some (record { pid = same_pid k; name = same_name k }))
  | inr later ↦ let (i, at) = names_core_at p cs (ground (arith, h, later)) in (suc i, at)
]

something_to_undo :
    (p : ℕ) (f : JournalFile) → names_core p f.children ≡ true → nothing_to_undo f ≡ false
unfolding nothing_to_undo names_core
something_to_undo p f h = go f.system_proxy f.children h
  where
    go :
        (o : Option Snapshot) (cs : List Child)
        → names_core p cs ≡ true
        → (let out : Bool = elim o [
          | some s ↦ false
          | none ↦ elim cs [ [] ↦ true | c ∷ ds ↦ false ]
        ] in
            out)
          ≡ false
    go (some s) cs k = refl
    go none [] k = cc k
    go none (c ∷ cs) k = refl

recover-restores :
    (m : Machine) (f : JournalFile) (snap : Snapshot)
    → owner_alive m f ≡ false
    → f.system_proxy ≡ some snap
    → (recover_stale_journal m (holds f)).restored
      ≡ some (snap, port_of f, m.restore snap (port_of f))
unfolding recover_stale_journal
recover-restores m f snap gone e = simp (gone, e) refl

has_snapshot :
    (f : JournalFile) (snap : Snapshot) → f.system_proxy ≡ some snap → nothing_to_undo f ≡ false
unfolding nothing_to_undo
has_snapshot f snap e = rw (e, nothing_to_undo) refl

-- If the app dies between two operations, after any sequence of them in which the journal could be
-- written and each core be stopped, then the recovery that the guard or the next launch runs restores the
-- settings of the proxy to the snapshot that the app held, where they may point at the app, and kills
-- the core that is alive, if its command, as the system tells it, holds the name of its configuration
-- (on Windows the system tells the path of the executable, which does not hold it). Of a death in the
-- middle of an operation it says nothing.
pub Steps-recovers :
    {a b : Backend} (s : Steps a b) (m : Machine)
    → AreReliable s
    → IsRecorded a
    → ((f : JournalFile) → b.journal.disk ≡ holds f → owner_alive m f ≡ false)
    → (b.world.proxy_ours ≡ true
        → (snap : Snapshot) × (port : ℕ) × (b.sys_snap ≡ some snap)
          × ((recover_stale_journal m b.journal.disk).restored
              ≡ some (snap, port, m.restore snap port)))
      × ((p : ℕ)
          → b.world.core ≡ some p
          → 0 < p
          → is_leftover m (core_child p) ≡ true
          → any (λ q. q == p) (recover_stale_journal m b.journal.disk).killed ≡ true)
Steps-recovers {a} {b} s m fine start gone = (proxy b.sys_snap refl, core)
  where
    r : IsRecorded b
    r = Steps-IsRecorded s fine start

    f : JournalFile
    f = b.journal.file

    proxy :
        (o : Option Snapshot)
        → b.sys_snap ≡ o
        → b.world.proxy_ours ≡ true
        → (snap : Snapshot) × (port : ℕ) × (b.sys_snap ≡ some snap)
          × ((recover_stale_journal m b.journal.disk).restored
              ≡ some (snap, port, m.restore snap port))
    proxy none e ours = absurd (r.proxy ours e)
    proxy (some snap) e ours =
        let held = r.snapshot ∙ e in
        let disk = r.on_disk (has_snapshot f snap held) in
        (
          snap,
          port_of f,
          e,
          ap (λ d. (recover_stale_journal m d).restored) disk
              ∙ recover-restores m f snap (gone f disk) held,
        )

    core :
        (p : ℕ)
        → b.world.core ≡ some p
        → 0 < p
        → is_leftover m (core_child p) ≡ true
        → any (λ q. q == p) (recover_stale_journal m b.journal.disk).killed ≡ true
    core p alive positive left =
        let named = r.core p alive positive in
        let disk = r.on_disk (something_to_undo p f named) in
        let (i, at) = names_core_at p f.children named in
        ap (λ d. any (λ q. q == p) (recover_stale_journal m d).killed) disk
        ∙ (recovery_kills m f).1 i (core_child p) (gone f disk) at left
