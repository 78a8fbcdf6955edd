-- ===== src/Usage/Tests.antt =====
-- stats.go and usage_history.go on concrete polls.
use sudoku_desktop.Prelude.{
  ◌+◌, ◌%◌, ◌^◌, ◌<◌, min, ℕ, ◌≡◌, true, false, List, [], ◌∷◌, Option, String, none, some, str_eq,
  length,
}
use sudoku_desktop.Usage.{
  Connection, reset, accumulate_connections, UsageDay, Delta, new_day, more, Tracker, add,
  history_days,
}
use sudoku_desktop.Usage.Split.{sent, received, known, latest, accumulate-conserves}
use sudoku_desktop.Usage.Days.{day, add-day}

abbrev poll : List Connection
poll =
    record { id = "c1"; upload = 10; download = 20; chains = "direct" ∷ [] }
    ∷ record { id = "c2"; upload = 1; download = 2; chains = "Home" ∷ [] }
    ∷ []

accumulate-conserves_example :
    (((accumulate_connections poll reset).dir_tx + (accumulate_connections poll reset).prx_tx)
        % 2 ^ 64
      ≡ ((reset.dir_tx + reset.prx_tx) + sent reset.prev poll) % 2 ^ 64)
    × (((accumulate_connections poll reset).dir_rx + (accumulate_connections poll reset).prx_rx)
          % 2 ^ 64
        ≡ ((reset.dir_rx + reset.prx_rx) + received reset.prev poll) % 2 ^ 64)
    × ((accumulate_connections poll reset).dir_conns + (accumulate_connections poll reset).prx_conns
        ≡ length poll)
    × ((accumulate_connections poll reset).conns ≡ length poll)
    × ((id : String) → known id (accumulate_connections poll reset).prev ≡ latest id poll none)
accumulate-conserves_example = accumulate-conserves poll reset

abbrev delta : Delta
delta = record { tx = 1; rx = 2; direct_tx = 0; direct_rx = 0; proxy_tx = 1; proxy_rx = 2 }

abbrev tracker : Tracker
tracker = record {
  days = new_day "2025-01-01" delta ∷ [];
  dirty = false;
  last_flush = 0;
  saved = [];
}

add-day_example :
    let days = (add true 5 "2025-01-01" delta tracker).days in
    (length tracker.days < history_days
      → day "2025-01-01" days ≡ (elim (day "2025-01-01" tracker.days) as (λ _. Option UsageDay) [
        | none ↦ some (new_day "2025-01-01" delta)
        | some old ↦ some (more delta old)
      ]))
    × (length tracker.days < history_days
        → str_eq "2025-01-01" "2025-01-02" ≡ false
        → day "2025-01-02" days ≡ day "2025-01-02" tracker.days)
    × (length days
        ≡ min history_days (
            length tracker.days
            + (elim (day "2025-01-01" tracker.days) as (λ _. ℕ) [ none ↦ 1 | some old ↦ 0 ])))
add-day_example = add-day "2025-01-01" "2025-01-02" delta true 5 tracker
