-- ===== src/LogRing/Tests.antt =====
-- `GetLogs` on a concrete run.
use sudoku_desktop.Prelude.{◌≡◌, List, [], ◌∷◌, some, pos, take, keep}
use sudoku_desktop.LogRing.{LogEntry, empty, get_logs, log_ring_size, clamp_limit, wanted}
use sudoku_desktop.LogRing.Newest.{append_all, newest_first, get_logs-append_all}
use sudoku_desktop.Prelude.{to_lower, trim_space}

abbrev entry : LogEntry
entry = record {
  id = "";
  timestamp = 1;
  level = "info";
  component = "app";
  message = "started";
  raw = "";
}

abbrev run : List LogEntry
run = entry ∷ record entry { level = "warn" } ∷ entry ∷ []

get_logs-append_all_example :
    get_logs (append_all empty run) " Info" (pos 1)
    ≡ some (
        take (clamp_limit (pos 1)) (
          keep
            (wanted (to_lower (trim_space " Info")))
            (take log_ring_size (newest_first 0 [] run))))
get_logs-append_all_example = get_logs-append_all run " Info" (pos 1)
