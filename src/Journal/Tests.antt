-- ===== src/Journal/Tests.antt =====
-- journal.go and guard.go on concrete journals.
use sudoku_desktop.Prelude.{
  ℕ, ◌<◌, ◌≡◌, ◌↔◌, get_elem?, refl, Bool, true, [], ◌∷◌, none, some, ltb, ◌==◌, any, arith,
  if◌then◌else◌, to_lower, contains,
}
use sudoku_desktop.Journal.{Child, JournalFile, holds}
use sudoku_desktop.Journal.Recover.{
  Machine, is_leftover, recover_stale_journal, run_guard, recover_kills, IsOurs, IsOwned,
  run_guard-replays,
}

abbrev core : Child
core = record { pid = 77; name = "node-00.json" }

abbrev left : JournalFile
left = record {
  version = 1;
  app_pid = 10;
  updated_unix = 1;
  proxy_port = 10233;
  system_proxy = none;
  children = core ∷ [];
}

-- The app has died, and its core runs on.
abbrev machine : Machine
machine = record {
  pid = 20;
  alive = λ p. p == 77;
  command = λ p. if p == 77 then "/app/sudoku -c /app/node-00.json" else "";
  restore = λ s port. none;
  removable = true;
}

core-is_leftover : is_leftover machine core ≡ true
unfolding contains to_lower
core-is_leftover = refl

recover_kills_example :
    ((p : ℕ)
      → (any (λ q. q == p) (recover_stale_journal machine (holds left)).killed ≡ true) ↔ (
          ¬ IsOwned machine left
          × ((i : ℕ) × (c : Child) × (get_elem? left.children i ≡ some c)
              × (c.pid ≡ p)
              × IsOurs machine c)))
    × (IsOwned machine left → (recover_stale_journal machine (holds left)).disk ≡ holds left)
recover_kills_example = recover_kills machine left

killed : (recover_stale_journal machine (holds left)).killed ≡ 77 ∷ []
unfolding recover_stale_journal contains to_lower
killed = refl

-- The parent is alive at the first two looks.
abbrev parent_alive : ℕ → Bool
parent_alive i = ltb i 2

alive_before : (j : ℕ) → j < 2 → parent_alive j ≡ true
alive_before j h = ground arith

run_guard-replays_example :
    run_guard machine parent_alive (λ i. holds left) 5 10
    ≡ some (recover_stale_journal machine (holds left))
run_guard-replays_example =
    run_guard-replays machine parent_alive (λ i. holds left) 5 10 2 (omega arith) alive_before refl
      (omega arith)
