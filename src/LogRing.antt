-- ===== src/LogRing.antt =====
-- internal/core/backend.go: the log ring of the backend, `appendLog` and `GetLogs`.
-- A slice is a list; an append beyond the ring size overwrites the slot at `log_head`.
-- The buffered channel to the emitter loop is the list of what waits in it, at most 1024 entries.
pub mod Newest
mod Tests
use sudoku_desktop.Prelude.{
  ℕ, zero, suc, ◌+◌, ◌-◌, ◌%◌, ◌^◌, Bool, true, false, not, ◌&&◌, List, [], ◌∷◌, ◌++◌, Option, none,
  some, String, ltb, ◌==◌, str_eq, if◌then◌else◌, length, get_elem?, set, ℤ, pos, nonpos, ltb_ℤ,
  pos_part, trim_space, to_lower, format_base36,
}

abbrev pub log_ring_size : ℕ
log_ring_size = 5000

-- the capacity of `logCh`
abbrev pub log_ch_size : ℕ
log_ch_size = 1024

-- model.go, `LogEntry`; a time is its nanoseconds.
pub record LogEntry : Type 0 where
  pub id : String
  pub timestamp : ℕ
  pub level : String
  pub component : String
  pub message : String
  pub raw : String

-- the fields of `Backend` behind `logMu`, and the channel
pub record Ring : Type 0 where
  pub logs : List LogEntry
  pub log_head : ℕ
  pub log_seq : ℕ
  pub log_ch : List LogEntry

abbrev pub empty : Ring
empty = record { logs = []; log_head = 0; log_seq = 0; log_ch = [] }

-- What is written to the ring is the entry with its sequence number as identifier.
abbrev pub stamp : ℕ → LogEntry → LogEntry
stamp seq e = record e { id = format_base36 seq }

abbrev pub next_seq : Ring → ℕ
next_seq b = (b.log_seq + 1) % 2 ^ 64

-- `select { case b.logCh <- e: default: }`
abbrev pub offer : LogEntry → List LogEntry → List LogEntry
offer e ch = if ltb (length ch) log_ch_size then ch ++ e ∷ [] else ch

-- `appendLog`
pub append_log : Ring → LogEntry → Ring
append_log b e =
    let e' = stamp (next_seq b) e in
    if ltb (length b.logs) log_ring_size
    then record b { logs = b.logs ++ e' ∷ []; log_seq = next_seq b; log_ch = offer e' b.log_ch }
    else record b {
      logs = set b.logs b.log_head e';
      log_head = (b.log_head + 1) % log_ring_size;
      log_seq = next_seq b;
      log_ch = offer e' b.log_ch;
    }

-- `limit <= 0 || limit > logRingSize`
abbrev pub clamp_limit : ℤ → ℕ
clamp_limit limit =
    if nonpos limit
    then log_ring_size
    else if ltb_ℤ (pos log_ring_size) limit
    then log_ring_size
    else pos_part limit

-- the negation of `level != "" && level != "all" && e.Level != level`
abbrev pub wanted : String → LogEntry → Bool
wanted level e =
    not (not (str_eq level "") && not (str_eq level "all") && not (str_eq e.level level))

-- The body of the loop once the entry is read.
abbrev pub take_wanted : String → LogEntry → List LogEntry → List LogEntry
take_wanted level e out = if wanted level e then out ++ e ∷ [] else out

-- The loop of `GetLogs` with `rounds` = n - i rounds left. An index out of range, which Go answers
-- with a panic, is `none`.
pub collect : Ring → String → ℕ → ℕ → ℕ → List LogEntry → Option (List LogEntry)
collect b level limit zero i out = some out
collect b level limit (suc rounds) i out =
    let n = length b.logs in
    elim (ltb (length out) limit) [
      | false ↦ some out
      | true ↦ elim (get_elem? b.logs ((b.log_head + n - 1 - i) % n)) [
        | none ↦ none
        | some e ↦ collect b level limit rounds (suc i) (take_wanted level e out)
      ]
    ]

-- `GetLogs`
pub get_logs : Ring → String → ℤ → Option (List LogEntry)
unfolding collect
get_logs b level limit =
    collect b (to_lower (trim_space level)) (clamp_limit limit) (length b.logs) 0 []
