-- ===== src/Journal.antt =====
-- internal/core/journal.go: the crash journal, in memory and on disk. What a file holds is the
-- record that was encoded into it; a write is atomic, so a failed one leaves the old file.
pub mod Mirror
pub mod Recover
mod Tests
use sudoku_desktop.Prelude.{
  ℕ, Bool, true, false, not, ◌&&◌, List, [], ◌∷◌, ◌++◌, Option, none, some, String, ltb, str_eq,
  if◌then◌else◌,
}
use sudoku_desktop.Failure.{Failure}
use sudoku_desktop.SystemProxy.{Snapshot}

-- `journalChild`
pub record Child : Type 0 where
  pub pid : ℕ
  pub name : String

pub record JournalFile : Type 0 where
  pub version : ℕ
  pub app_pid : ℕ
  pub updated_unix : ℕ
  pub proxy_port : ℕ
  pub system_proxy : Option Snapshot
  pub children : List Child

-- What stands at the journal's path.
pub data Disk : Type 0 where
  absent : Disk
  unreadable : Disk
  holds : JournalFile → Disk

pub record Journal : Type 0 where
  pub file : JournalFile
  pub disk : Disk

-- The answers of the operating system: the process, the clock, `writeFileAtomic` and `os.Remove`
-- (a missing file is no error).
pub record Io : Type 0 where
  pub pid : ℕ
  pub now : ℕ
  pub write : JournalFile → Option Failure
  pub remove : Option Failure

abbrev pub empty_file : ℕ → JournalFile
empty_file pid = record {
  version = 1;
  app_pid = pid;
  updated_unix = 0;
  proxy_port = 0;
  system_proxy = none;
  children = [];
}

-- `newJournal`
abbrev pub new_journal : ℕ → Disk → Journal
new_journal pid disk = record { file = empty_file pid; disk = disk }

-- `removeLocked`
unfoldable pub remove_locked : Io → Journal → Journal × Option Failure
remove_locked io j = elim io.remove [
  | none ↦ (record j { disk = absent }, none)
  | some e ↦ (j, some e)
]

unfoldable pub write_file : Io → Journal → Journal × Option Failure
write_file io j = elim (io.write j.file) [
  | none ↦ (record j { disk = holds j.file }, none)
  | some e ↦ (j, some e)
]

-- `j.data.SystemProxy == nil && len(j.data.Children) == 0`
unfoldable pub nothing_to_undo : JournalFile → Bool
nothing_to_undo f = elim f.system_proxy [
  | some s ↦ false
  | none ↦ elim f.children [ [] ↦ true | c ∷ cs ↦ false ]
]

-- `Update`
unfoldable pub update : Io → (JournalFile → JournalFile) → Journal → Journal × Option Failure
unfolding remove_locked write_file nothing_to_undo
update io change j =
    let j' = record j {
      file = record (change j.file) { app_pid = io.pid; updated_unix = io.now };
    } in
    if nothing_to_undo j'.file then remove_locked io j' else write_file io j'

-- `Clear`
pub clear : Io → Journal → Journal × Option Failure
unfolding remove_locked
clear io j = remove_locked io (record j { file = empty_file io.pid })

-- `removeChild`
unfoldable pub remove_child : List Child → String → List Child
remove_child [] name = []
remove_child (c ∷ cs) name =
    let rest = remove_child cs name in if not (str_eq c.name name) then c ∷ rest else rest

-- The change that `SetChild` makes.
abbrev pub with_child : String → ℕ → JournalFile → JournalFile
with_child name pid f =
    let others = remove_child f.children name in
    record f {
      children = if ltb 0 pid then others ++ (record { pid = pid; name = name }) ∷ [] else others;
    }

-- `SetChild`
unfoldable pub set_child : Io → String → ℕ → Journal → Journal × Option Failure
unfolding update remove_child
set_child io name pid = update io (with_child name pid)
