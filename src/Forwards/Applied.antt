-- ===== src/Forwards/Applied.antt =====
-- portforward.go: which forwards run after `Apply`.
use sudoku_desktop.Prelude.{
  ℕ, List, [], ◌∷◌, Option, none, some, String, str_eq, if◌then◌else◌, ◌+◌,
}
use sudoku_desktop.Failure.{Failure}
use sudoku_desktop.Config.{PortForwardRule}
use sudoku_desktop.Config.Normalize.{Draw, new_id}
use sudoku_desktop.Forwards.{Forwards}

-- What stands first, and else what stands second.
abbrev pub or_else {ℓ} : {A : Type ℓ} → Option A → Option A → Option A
or_else none b = b
or_else (some a) b = some a

-- The rule that is asked for under an identifier: the last enabled one that has it, or that is given it.
abbrev pub asked : (ℕ → Draw) → ℕ → List PortForwardRule → String → Option PortForwardRule
asked draw i [] id = none
asked draw i (r ∷ rs) id =
    let own = if str_eq r.id "" then new_id "pf_" (draw i) else r.id in
    or_else (asked draw (i + 1) rs id)
      (if r.enabled then (if str_eq own id then some (record r { id = own }) else none) else none)
