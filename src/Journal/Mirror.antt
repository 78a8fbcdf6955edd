-- ===== src/Journal/Mirror.antt =====
-- journal.go: the file on disk mirrors the journal in memory.
use mathlib.Core.List.{append-nil}
use text.Mathlib.TextPositions.{eq_refl}
use sudoku_desktop.Prelude.{
  ℕ, ◌≡◌, refl, ◌∙◌, ◌⊎◌, true, false, Bool-cases, inl, inr, List, [], ◌∷◌, ◌++◌, none, some,
  String, ltb, str_eq, eq_iff, if◌then◌else◌, arith,
}
use sudoku_desktop.Failure.{Failure}
use sudoku_desktop.Journal.{
  Child, JournalFile, absent, holds, Journal, Io, nothing_to_undo, update, remove_child, with_child,
  set_child,
}

-- The file on disk is what the memory holds, and there is none where nothing is to be undone.
abbrev pub Mirrors : Journal → Type 0
Mirrors j = j.disk ≡ (if nothing_to_undo j.file then absent else holds j.file)

-- The entry that `Update` leaves in memory, whether or not it could be written.
abbrev pub updated : Io → (JournalFile → JournalFile) → Journal → JournalFile
updated io change j = record (change j.file) { app_pid = io.pid; updated_unix = io.now }

-- `Update` puts the changed journal in memory, with the process and the time. If it returns no error,
-- the file on disk mirrors it: absent if nothing is left to undo, and else exactly what the memory
-- holds. If it returns an error, the file on disk is the one from before.
pub update_outcome :
    (io : Io) (change : JournalFile → JournalFile) (j : Journal)
    → ((update io change j).0.file ≡ updated io change j)
      × ((update io change j).1 ≡ none → Mirrors (update io change j).0)
      × ((e : Failure) → (update io change j).1 ≡ some e → (update io change j).0.disk ≡ j.disk)
unfolding update
update_outcome io change j = (ground arith, λ h. ground arith, λ e h. ground arith)

-- The processes that a journal names so, in order.
pub pids : String → List Child → List ℕ
pids name [] = []
pids name (c ∷ cs) = let rest = pids name cs in if str_eq c.name name then c.pid ∷ rest else rest

pids-remove_child_self : (name : String) (cs : List Child) → pids name (remove_child cs name) ≡ []
unfolding pids remove_child
pids-remove_child_self name [] = refl
pids-remove_child_self name (c ∷ cs) = ground (arith, pids-remove_child_self name cs)

pids-remove_child_ne :
    (name other : String) (cs : List Child)
    → str_eq name other ≡ false
    → pids other (remove_child cs name) ≡ pids other cs
unfolding pids remove_child
pids-remove_child_ne name other [] h = refl
pids-remove_child_ne name other (c ∷ cs) h = ground (
  arith,
  pids-remove_child_ne name other cs h,
  eq_iff c.name name,
  eq_iff c.name other,
  eq_iff name other,
)

pids-append :
    (name : String) (xs ys : List Child) → pids name (xs ++ ys) ≡ pids name xs ++ pids name ys
unfolding pids
pids-append name [] ys = refl
pids-append name (x ∷ xs) ys = ground (arith, pids-append name xs ys)

-- After `SetChild` the journal in memory names exactly the given process under that name, or none
-- for the process 0, and under every other name the processes that it named before.
pids-set_child :
    (io : Io) (name other : String) (pid : ℕ) (j : Journal)
    → (pids name (set_child io name pid j).0.file.children ≡ (if ltb 0 pid then pid ∷ [] else []))
      × (str_eq name other ≡ false
          → pids other (set_child io name pid j).0.file.children ≡ pids other j.file.children)
unfolding set_child pids
pids-set_child io name other pid j =
    let kept = (update_outcome io (with_child name pid) j).0 in
    (rw kept (own (Bool-cases (ltb 0 pid))), λ h. rw kept (others h (Bool-cases (ltb 0 pid))))
  where
    own :
        (ltb 0 pid ≡ true) ⊎ (ltb 0 pid ≡ false)
        → pids name (with_child name pid j.file).children ≡ (if ltb 0 pid then pid ∷ [] else [])
    own (inl e) = rw e (
        pids-append name (remove_child j.file.children name) _
        ∙ rw (pids-remove_child_self name j.file.children, eq_refl name, pids))
    own (inr e) = rw e (pids-remove_child_self name j.file.children)

    others :
        str_eq name other ≡ false
        → (ltb 0 pid ≡ true) ⊎ (ltb 0 pid ≡ false)
        → pids other (with_child name pid j.file).children ≡ pids other j.file.children
    others h (inl e) = rw e (
        pids-append other (remove_child j.file.children name) _
        ∙ rw (pids-remove_child_ne name other j.file.children h, h, pids) (append-nil _))
    others h (inr e) = rw e (pids-remove_child_ne name other j.file.children h)
