-- ===== src/Session/Guarded.antt =====
-- lifecycle.go and journal.go together: the snapshot of the proxy settings is in the journal on disk
-- from before they are changed until they are restored.
use sudoku_desktop.Prelude.{◌≡◌, refl, ap, ◌∙◌, false, Option, none, some, arith}
use sudoku_desktop.Failure.{Failure, ok}
use sudoku_desktop.SystemProxy.{Snapshot}
use sudoku_desktop.Journal.{
  JournalFile, Disk, holds, absent, Journal, Io, nothing_to_undo, set_child, with_child,
}
use sudoku_desktop.Journal
use sudoku_desktop.Session.{Backend, Env}
use sudoku_desktop.Session.Steps.{
  apply_system_proxy, journal_snapshot, set_system_proxy, restore_system_proxy,
}

-- The snapshot that a journal's file holds.
pub snapshot_on : Disk → Option Snapshot
snapshot_on Disk.absent = none
snapshot_on Disk.unreadable = none
snapshot_on (holds f) = f.system_proxy

-- What the journal holds once the snapshot is in it.
abbrev journaled : Env → Snapshot → Backend → JournalFile
journaled env snap b = record (b.journal.file) {
  system_proxy = some snap;
  proxy_port = 10233;
  app_pid = env.io.pid;
  updated_unix = env.io.now;
}

journal_snapshot-disk :
    (env : Env) (b : Backend) (snap : Snapshot)
    → env.io.write (journaled env snap b) ≡ none
    → ((journal_snapshot env snap b).journal.disk ≡ holds (journaled env snap b))
      × ((journal_snapshot env snap b).sys_snap ≡ some snap)
unfolding journal_snapshot Journal.update Journal.write_file nothing_to_undo
journal_snapshot-disk env b snap written = (ground (arith, written), refl)

apply_system_proxy-same :
    (env : Env) (b : Backend) (snap : Snapshot)
    → env.capture_proxy ≡ ok snap
    → ((apply_system_proxy env b).journal ≡ (journal_snapshot env snap b).journal)
      × ((apply_system_proxy env b).sys_snap ≡ some snap)
unfolding apply_system_proxy set_system_proxy journal_snapshot
apply_system_proxy-same env b snap captured = (ground (arith, captured), ground (arith, captured))

restore-failed :
    (env : Env) (b : Backend) (snap : Snapshot) (e : Failure)
    → b.sys_snap ≡ some snap
    → env.restore_proxy snap ≡ some e
    → (restore_system_proxy env b).journal ≡ b.journal
unfolding restore_system_proxy
restore-failed env b snap e taken failed = ground (arith, taken, failed)

restore-done :
    (env : Env) (b : Backend) (snap : Snapshot)
    → b.sys_snap ≡ some snap
    → env.restore_proxy snap ≡ none
    → ((restore_system_proxy env b).journal.file.system_proxy ≡ none)
      × ((restore_system_proxy env b).world.proxy_ours ≡ false)
unfolding restore_system_proxy Journal.update Journal.remove_locked Journal.write_file
    nothing_to_undo
restore-done env b snap taken restored =
    (ground (arith, taken, restored), ground (arith, taken, restored))

-- If the settings of the system can be read and the journal can be written, then after
-- `applySystemProxyLocked`, whether or not the settings could be changed, the file on disk holds the
-- snapshot that was taken before. It holds it still after a restore that fails; after a restore that
-- succeeds the journal has no snapshot, and the settings do not point at the app.
pub apply-restore_system_proxy :
    (env : Env) (b : Backend) (snap : Snapshot)
    → env.capture_proxy ≡ ok snap
    → env.io.write (journaled env snap b) ≡ none
    → (snapshot_on (apply_system_proxy env b).journal.disk ≡ some snap)
      × ((e : Failure)
          → env.restore_proxy snap ≡ some e
          → snapshot_on (restore_system_proxy env (apply_system_proxy env b)).journal.disk
            ≡ some snap)
      × (env.restore_proxy snap ≡ none
          → ((restore_system_proxy env (apply_system_proxy env b)).journal.file.system_proxy ≡ none)
            × ((restore_system_proxy env (apply_system_proxy env b)).world.proxy_ours ≡ false))
unfolding snapshot_on
apply-restore_system_proxy env b snap captured written =
    let (journal, taken) = apply_system_proxy-same env b snap captured in
    let on_disk =
      ap (λ j. snapshot_on j.disk) journal
      ∙ ap snapshot_on (journal_snapshot-disk env b snap written).0 in
    (
      on_disk,
      λ e failed.
          ap (λ j. snapshot_on j.disk)
            (restore-failed env (apply_system_proxy env b) snap e taken failed)
          ∙ on_disk,
      λ restored. restore-done env (apply_system_proxy env b) snap taken restored,
    )
