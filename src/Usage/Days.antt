-- ===== src/Usage/Days.antt =====
-- usage_history.go and stats.go: the usage by day.
use text.Mathlib.TextPositions.{eq_refl}
use sudoku_desktop.Prelude.{
  ℕ, ◌+◌, ◌-◌, ◌≤◌, ◌<◌, min, ◌≡◌, refl, ◌∙◌, ap, Bool, true, false, List, [], ◌∷◌, Option, none,
  some, String, str_eq, eq_iff, if◌then◌else◌, length, arith, length-drop,
}
use sudoku_desktop.Usage.{
  UsageDay, Delta, new_day, more, add_usage_to_day, insert, sort, trim_usage_days, Tracker, flush,
  add, history_days,
}

-- The first entry of a day.
pub day : String → List UsageDay → Option UsageDay
day key [] = none
day key (u ∷ us) = let rest = day key us in if str_eq u.date key then some u else rest

length-insert : (u : UsageDay) (us : List UsageDay) → length (insert u us) ≡ length us + 1
unfolding insert
length-insert u [] = refl
length-insert u (v ∷ vs) = ground (arith, length-insert u vs)

length-sort : (us : List UsageDay) → length (sort us) ≡ length us
unfolding sort
length-sort [] = refl
length-sort (u ∷ us) = length-insert u (sort us) ∙ ap (λ n. n + 1) (length-sort us) ∙ omega arith

day-add_usage :
    (key other : String) (d : Delta) (us : List UsageDay)
    → (day key (add_usage_to_day us key d) ≡ (elim (day key us) as (λ _. Option UsageDay) [
      | none ↦ some (new_day key d)
      | some u ↦ some (more d u)
    ]))
      × (str_eq key other ≡ false → day other (add_usage_to_day us key d) ≡ day other us)
unfolding add_usage_to_day day
day-add_usage key other d [] = (ground (arith, eq_refl key), λ ne. ground arith)
day-add_usage key other d (u ∷ us) =
    let ih = day-add_usage key other d us in
    (
      ground (arith, ih.0),
      λ ne. ground (arith, ih.1 ne, eq_iff u.date key, eq_iff u.date other, eq_iff key other),
    )

days-flush : (writable : Bool) (now : ℕ) (u : Tracker) → (flush writable now u).days ≡ u.days
unfolding flush
days-flush writable now u = ground arith

length-add_usage :
    (us : List UsageDay) (key : String) (d : Delta)
    → length (add_usage_to_day us key d)
      ≡ length us + (elim (day key us) as (λ _. ℕ) [ none ↦ 1 | some u ↦ 0 ])
unfolding add_usage_to_day day
length-add_usage [] key d = refl
length-add_usage (u ∷ us) key d = ground (arith, length-add_usage us key d)

trim-short : (us : List UsageDay) → length us ≤ history_days → trim_usage_days us history_days ≡ us
unfolding trim_usage_days
trim-short us h = ground arith

length-trim_min :
    (us : List UsageDay) → length (trim_usage_days us history_days) ≡ min history_days (length us)
unfolding trim_usage_days
length-trim_min us =
    let shorter = length-drop (length us - history_days) (sort us) in
    let same = length-sort us in ground (arith, shorter, same)

days-add :
    (key : String) (d : Delta) (writable : Bool) (now : ℕ) (u : Tracker)
    → (add writable now key d u).days ≡ trim_usage_days (add_usage_to_day u.days key d) history_days
unfolding add
days-add key d writable now u =
    let u' : Tracker = record u {
      days = trim_usage_days (add_usage_to_day u.days key d) history_days;
      dirty = true;
    } in
    ground (arith, days-flush writable now u')

-- Where the history that is kept has fewer than 120 days, usage that is recorded is added to its day,
-- which is appended if it is new, and no other day changes; and whatever it has, it then has a day more
-- if the day is new, and else as many, but no more than 120.
pub add-day :
    (key other : String) (d : Delta) (writable : Bool) (now : ℕ) (u : Tracker)
    → let days = (add writable now key d u).days in
      (length u.days < history_days
        → day key days ≡ (elim (day key u.days) as (λ _. Option UsageDay) [
          | none ↦ some (new_day key d)
          | some old ↦ some (more d old)
        ]))
      × (length u.days < history_days
          → str_eq key other ≡ false
          → day other days ≡ day other u.days)
      × (length days
          ≡ min history_days
              (length u.days + (elim (day key u.days) as (λ _. ℕ) [ none ↦ 1 | some old ↦ 0 ])))
add-day key other d writable now u =
    let all = add_usage_to_day u.days key d in
    let recorded = day-add_usage key other d u.days in
    let size = length-add_usage u.days key d in
    let kept : length u.days < history_days → (add writable now key d u).days ≡ all =
      λ h. days-add key d writable now u ∙ trim-short all (ground (arith, size, h)) in
    (
      λ h. ap (day key) (kept h) ∙ recorded.0,
      λ h ne. ap (day other) (kept h) ∙ recorded.1 ne,
      ap length (days-add key d writable now u) ∙ length-trim_min all ∙ ap (min history_days) size,
    )
