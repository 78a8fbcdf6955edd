-- ===== src/Session/Recorded.antt =====
-- lifecycle.go and journal.go together: what the running app would have to undo is in the journal on disk.
pub mod Teardown
pub mod Start
pub mod Crash
use sudoku_desktop.Prelude.{
  ℕ, ◌+◌, ◌<◌, ◌≡◌, ◌≢◌, refl, ap, sym, subst, text_append, ◌∙◌, Bool, true, false, Bool-cases, inl,
  inr, not, ◌&&◌, ◌||◌, List, [], ◌∷◌, ◌++◌, Option, none, some, String, str_eq, ltb, ◌==◌, any,
  if◌then◌else◌, arith,
}
use sudoku_desktop.Failure.{Failure, Result, ok, err}
use sudoku_desktop.SystemProxy.{Snapshot}
use sudoku_desktop.Journal.{
  Child, JournalFile, holds, Journal, Io, nothing_to_undo, update, remove_child, with_child,
  set_child, remove_locked, write_file,
}
use text.Mathlib.TextPositions.{eq_refl}
use sudoku_desktop.Journal.Mirror.{updated, update_outcome}
use sudoku_desktop.Session.{Launch, not_spawned, given_up, ready, Kernel, Backend, Env, World}
use sudoku_desktop.Session.Steps
use sudoku_desktop.Session.Steps.{
  kernel_config_key, apply_system_proxy, journal_snapshot, set_system_proxy, restore_system_proxy,
  set_core_child, adopt_kernel, launch, proxy_error, add_log, with_proxy,
}

-- What may have to be undone is on disk as it is in memory.
abbrev pub IsOnDisk : Journal → Type 0
IsOnDisk j = nothing_to_undo j.file ≡ false → j.disk ≡ holds j.file

-- The journal names the process as the core.
unfoldable pub names_core : ℕ → List Child → Bool
names_core p [] = false
names_core p (c ∷ cs) = (c.pid == p && str_eq c.name kernel_config_key) || names_core p cs

-- The answers with which the journal can be written and a core can be stopped.
pub record IsReliable (env : Env) : Type 0 where
  pub writes : (f : JournalFile) → env.io.write f ≡ none
  pub stops : (k : Kernel) → env.stop_kernel k ≡ none

-- The snapshot and the core are in the journal on disk.
pub record IsRecorded (b : Backend) : Type 0 where
  pub on_disk : IsOnDisk b.journal
  pub snapshot : b.journal.file.system_proxy ≡ b.sys_snap
  pub proxy : b.world.proxy_ours ≡ true → b.sys_snap ≢ none
  pub core : (p : ℕ) → b.world.core ≡ some p → 0 < p → names_core p b.journal.file.children ≡ true
  pub no_core : b.kern ≡ none → b.world.core ≡ none

-- What that rests on.
pub record SameRecord (a b : Backend) : Type 0 where
  pub journal : b.journal ≡ a.journal
  pub snap : b.sys_snap ≡ a.sys_snap
  pub ours : b.world.proxy_ours ≡ a.world.proxy_ours
  pub core : b.world.core ≡ a.world.core
  pub kern : b.kern ≡ a.kern

pub IsRecorded-SameRecord : {a b : Backend} → SameRecord a b → IsRecorded a → IsRecorded b
IsRecorded-SameRecord s r = record {
  on_disk = rw s.journal r.on_disk;
  snapshot = rw (s.journal, s.snap) r.snapshot;
  proxy = rw (s.snap, s.ours) r.proxy;
  core = rw (s.journal, s.core) r.core;
  no_core = rw (s.kern, s.core) r.no_core;
}

update-IsOnDisk :
    (io : Io) (change : JournalFile → JournalFile) (j : Journal)
    → ((f : JournalFile) → io.write f ≡ none)
    → IsOnDisk (update io change j).0
unfolding update write_file remove_locked nothing_to_undo
update-IsOnDisk io change j writes h =
    ground (arith, h, writes (record (change j.file) { app_pid = io.pid; updated_unix = io.now }))

names_core-append :
    (p : ℕ) (xs ys : List Child) → names_core p (xs ++ ys) ≡ (names_core p xs || names_core p ys)
unfolding names_core
names_core-append p [] ys = refl
names_core-append p (x ∷ xs) ys = ground (arith, names_core-append p xs ys)

set_child-file :
    (env : Env) (pid : ℕ) (b : Backend)
    → (set_core_child env pid b).journal.file
      ≡ updated env.io (with_child kernel_config_key pid) b.journal
unfolding set_child
set_child-file env pid b = (update_outcome env.io (with_child kernel_config_key pid) b.journal).0

set_child-IsOnDisk :
    (env : Env) (pid : ℕ) (b : Backend)
    → IsReliable env
    → IsOnDisk (set_core_child env pid b).journal
unfolding set_child
set_child-IsOnDisk env pid b fine =
    update-IsOnDisk env.io (with_child kernel_config_key pid) b.journal fine.writes

-- A change of the core's entry while no core is alive.
pub set_core_child-IsRecorded :
    (env : Env) (pid : ℕ) (b : Backend)
    → IsReliable env
    → IsRecorded b
    → b.world.core ≡ none
    → IsRecorded (set_core_child env pid b)
set_core_child-IsRecorded env pid b fine r dead = record {
  on_disk = set_child-IsOnDisk env pid b fine;
  snapshot = ap (λ f. f.system_proxy) (set_child-file env pid b) ∙ r.snapshot;
  proxy = r.proxy;
  core = λ p e. cc (e, dead);
  no_core = r.no_core;
}

names_core-with_child :
    (p : ℕ) (f : JournalFile)
    → 0 < p
    → names_core p (with_child kernel_config_key p f).children ≡ true
unfolding names_core
names_core-with_child p f positive =
    let there : ltb 0 p ≡ true = ground (arith, positive) in
    rw there (
      names_core-append p (remove_child f.children kernel_config_key)
        (record { pid = p; name = kernel_config_key } ∷ [])
      ∙ ground (arith, eq_refl kernel_config_key))

adopt_kernel-IsRecorded :
    (env : Env) (k : Kernel) (b : Backend)
    → IsReliable env
    → IsRecorded b
    → IsRecorded (adopt_kernel env k (set_core_child env k.pid b))
unfolding adopt_kernel
adopt_kernel-IsRecorded env k b fine r = record {
  on_disk = set_child-IsOnDisk env k.pid b fine;
  snapshot = ap (λ f. f.system_proxy) (set_child-file env k.pid b) ∙ r.snapshot;
  proxy = r.proxy;
  core = λ p e positive.
      let same : k.pid ≡ p = cc e in
      ap (λ f. names_core p f.children) (set_child-file env k.pid b)
      ∙ subst (λ q. names_core p (with_child kernel_config_key q b.journal.file).children ≡ true)
          (sym same) (names_core-with_child p b.journal.file positive);
  no_core = λ e. cc e;
}

pub launch-IsRecorded :
    (env : Env) (with_tun : Bool) (url : String) (b : Backend)
    → IsReliable env
    → IsRecorded b
    → b.kern ≡ none
    → IsRecorded (launch env with_tun url b).0
unfolding launch
launch-IsRecorded env with_tun url b fine r dead = go (env.start_kernel b.cfg url with_tun)
  where
    go :
        (l : Launch)
        → IsRecorded
            (let out : Backend × Option Failure = elim l [
              | not_spawned e ↦ (set_core_child env 0 b, some e)
              | given_up pid e ↦ (set_core_child env 0 (set_core_child env pid b), some e)
              | ready k ↦ (adopt_kernel env k (set_core_child env k.pid b), none)
            ] in
              out).0
    go (not_spawned e) = set_core_child-IsRecorded env 0 b fine r (r.no_core dead)
    go (given_up pid e) =
        set_core_child-IsRecorded env 0 (set_core_child env pid b) fine
          (set_core_child-IsRecorded env pid b fine r (r.no_core dead)) (r.no_core dead)
    go (ready k) = adopt_kernel-IsRecorded env k b fine r

set_system_proxy-SameRecord :
    (env : Env) (snap : Snapshot) (b : Backend)
    → SameRecord
        (record b { world = record (b.world) { proxy_ours = true } })
        (set_system_proxy env snap b)
unfolding set_system_proxy
set_system_proxy-SameRecord env snap b = ground arith

change : Snapshot → JournalFile → JournalFile
change snap f = record f { system_proxy = some snap; proxy_port = 10233 }

journal_snapshot-IsRecorded :
    (env : Env) (snap : Snapshot) (b : Backend)
    → IsReliable env
    → IsRecorded b
    → IsRecorded (
        let b' = journal_snapshot env snap b in
        record b' { world = record (b'.world) { proxy_ours = true } })
unfolding journal_snapshot change
journal_snapshot-IsRecorded env snap b fine r =
    let file = (update_outcome env.io (change snap) b.journal).0 in
    record {
      on_disk = update-IsOnDisk env.io (change snap) b.journal fine.writes;
      snapshot = ap (λ f. f.system_proxy) file;
      proxy = λ _ e. cc e;
      core = λ p e positive. ap (λ f. names_core p f.children) file ∙ r.core p e positive;
      no_core = r.no_core;
    }

pub apply_system_proxy-IsRecorded :
    (env : Env) (b : Backend)
    → IsReliable env
    → IsRecorded b
    → IsRecorded (apply_system_proxy env b)
unfolding apply_system_proxy
apply_system_proxy-IsRecorded env b fine r = go env.capture_proxy
  where
    go :
        (c : Result Snapshot)
        → IsRecorded (
            let out : Backend = elim c [
              | err e ↦ proxy_error e (
                  add_log "warn" "proxy"
                    (text_append "cannot read system proxy settings, leaving them untouched: "
                      e.text)
                    b)
              | ok snap ↦ set_system_proxy env snap (journal_snapshot env snap b)
            ] in
            out)
    go (err e) =
        IsRecorded-SameRecord
          (record { journal = refl; snap = refl; ours = refl; core = refl; kern = refl }) r
    go (ok snap) =
        IsRecorded-SameRecord (set_system_proxy-SameRecord env snap (journal_snapshot env snap b))
          (journal_snapshot-IsRecorded env snap b fine r)

-- The step of a restore that succeeds
restored-IsRecorded :
    (env : Env) (b : Backend)
    → IsReliable env
    → IsRecorded b
    → IsRecorded (record b {
      sys_snap = none;
      journal = (update env.io (with_proxy none) b.journal).0;
      world = record (b.world) { proxy_ours = false };
    })
restored-IsRecorded env b fine r =
    let file = (update_outcome env.io (with_proxy none) b.journal).0 in
    record {
      on_disk = update-IsOnDisk env.io (with_proxy none) b.journal fine.writes;
      snapshot = ap (λ f. f.system_proxy) file;
      proxy = λ e. cc e;
      core = λ p e positive. ap (λ f. names_core p f.children) file ∙ r.core p e positive;
      no_core = r.no_core;
    }

pub restore_system_proxy-IsRecorded :
    (env : Env) (b : Backend)
    → IsReliable env
    → IsRecorded b
    → IsRecorded (restore_system_proxy env b)
unfolding restore_system_proxy
restore_system_proxy-IsRecorded env b fine r = go b.sys_snap
  where
    gone : Backend
    gone = record b {
      sys_snap = none;
      journal = (update env.io (with_proxy none) b.journal).0;
      world = record (b.world) { proxy_ours = false };
    }

    after :
        (o : Option Failure)
        → IsRecorded (
            let out : Backend = elim o [
              | some e ↦
                  add_log "error" "proxy" (text_append "restore system proxy failed: " e.text) b
              | none ↦
                  add_log "info" "proxy" "system proxy restored"
                    (Steps.update (λ s. record s { system_proxy_on = false }) gone)
            ] in
            out)
    after (some e) =
        IsRecorded-SameRecord
          (record { journal = refl; snap = refl; ours = refl; core = refl; kern = refl }) r
    after none =
        IsRecorded-SameRecord {a = gone}
          (record { journal = refl; snap = refl; ours = refl; core = refl; kern = refl })
          (restored-IsRecorded env b fine r)

    go :
        (s : Option Snapshot)
        → IsRecorded (
            let out : Backend = elim s [
              | none ↦ b
              | some snap ↦ elim (env.restore_proxy snap) [
                | some e ↦
                    add_log "error" "proxy" (text_append "restore system proxy failed: " e.text) b
                | none ↦
                    add_log "info" "proxy" "system proxy restored"
                      (Steps.update (λ s. record s { system_proxy_on = false }) gone)
              ]
            ] in
            out)
    go none = r
    go (some snap) = after (env.restore_proxy snap)
