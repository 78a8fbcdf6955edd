-- ===== src/Forwards.antt =====
-- internal/core/portforward.go: the set of running port forwards, `Apply` and `StopAll`. A map is an
-- association list; whether an address can be listened on is an answer from outside. The copying of
-- bytes between connections and the log lines are left out.
pub mod Applied
mod Tests
use sudoku_desktop.Prelude.{
  ℕ, ◌+◌, Bool, true, false, not, List, [], ◌∷◌, ◌++◌, Option, none, some, String, str_eq,
  if◌then◌else◌, any, keep,
}
use sudoku_desktop.Failure.{Failure}
use sudoku_desktop.Config.{PortForwardRule}
use sudoku_desktop.Config.Normalize.{Draw, new_id}

-- By identifier; an instance is the rule that it was started with.
abbrev pub Forwards : Type 0
Forwards = List (String × PortForwardRule)

unfoldable pub lookup : String → Forwards → Option PortForwardRule
lookup id [] = none
lookup id (f ∷ fs) = let rest = lookup id fs in if str_eq f.0 id then some f.1 else rest

abbrev pub has : String → Forwards → Bool
has id fs = elim (lookup id fs) [ none ↦ false | some r ↦ true ]

-- `m[id] = rule`
unfoldable pub put : String → PortForwardRule → Forwards → Forwards
put id rule fs = (id, rule) ∷ keep (λ f. not (str_eq f.0 id)) fs

-- The enabled rules, the later of two with one identifier; `draw` are the draws of `newID`.
unfoldable pub enabled_rules : (ℕ → Draw) → ℕ → List PortForwardRule → Forwards → Forwards
unfolding put
enabled_rules draw i [] next = next
enabled_rules draw i (r ∷ rs) next =
    let id = if str_eq r.id "" then new_id "pf_" (draw i) else r.id in
    let next' = if r.enabled then put id (record r { id = id }) next else next in
    enabled_rules draw (i + 1) rs next'

-- The first loop: what is no longer asked for is stopped.
unfoldable pub stop_removed : Forwards → Forwards → Forwards
stop_removed next active = keep (λ f. has f.0 next) active

-- The second loop; `listen` is the answer of `newForwardInstance` while those forwards run.
unfoldable pub start_new :
    (Forwards → PortForwardRule → Option Failure) → Forwards → Forwards → Forwards
start_new listen [] active = active
start_new listen (f ∷ fs) active =
    let started : Forwards = elim (listen active f.1) [
      | none ↦ active ++ f ∷ []
      | some e ↦ active
    ] in
    start_new listen fs (if has f.0 active then active else started)

-- `Apply`
unfoldable pub apply :
    (Forwards → PortForwardRule → Option Failure)
    → (ℕ → Draw)
    → List PortForwardRule
    → Forwards
    → Forwards
unfolding enabled_rules stop_removed start_new
apply listen draw rules active =
    let next = enabled_rules draw 0 rules [] in start_new listen next (stop_removed next active)

-- `StopAll`
unfoldable pub stop_all : Forwards → Forwards
stop_all [] = []
stop_all (f ∷ fs) = stop_all fs
