-- ===== src/Helper/Idle.antt =====
-- internal/core/helper_server.go, `serve`: the watchdog notices a silent app.
use sudoku_desktop.Prelude.{
  ℕ, zero, suc, ◌+◌, ◌*◌, ◌≤◌, ◌<◌, ◌≡◌, refl, true, none, some, inl, inr, String, Option-cases,
  arith,
}
use sudoku_desktop.Helper.Serve.{watch, watch_for, second, helper_idle_timeout}

watch-some :
    (now last_seen pid : ℕ) (reason : String)
    → watch now last_seen pid true ≡ some reason
    → last_seen + helper_idle_timeout * second < now
unfolding watch
watch-some now last_seen pid reason h = ground arith

watch-none :
    (now last_seen pid : ℕ)
    → watch now last_seen pid true ≡ none
    → now ≤ last_seen + helper_idle_timeout * second
unfolding watch
watch-none now last_seen pid h = ground arith

-- The time at which the helper stops, within so many ticks.
abbrev pub StopsWithin : ℕ → ℕ → ℕ → ℕ → Type 0
StopsWithin ticks now last_seen pid =
    (t : ℕ) × (watch_for ticks now last_seen pid true ≡ some t)
    × (last_seen + helper_idle_timeout * second < t)
    × (t ≤ now + ticks * second)

stops_within :
    (ticks now last_seen pid : ℕ)
    → last_seen + helper_idle_timeout * second < now + suc ticks * second
    → StopsWithin (suc ticks) now last_seen pid
unfolding watch_for
stops_within zero now last_seen pid h =
    elim (Option-cases (watch (now + second) last_seen pid true)) [
      | inl quiet ↦ absurd (omega (arith, watch-none (now + second) last_seen pid quiet))
      | inr (reason, e) ↦ (
        now + second,
        rw (e, watch_for) refl,
        watch-some (now + second) last_seen pid reason e,
        omega arith,
      )
    ]
stops_within (suc ticks) now last_seen pid h =
    elim (Option-cases (watch (now + second) last_seen pid true)) [
      | inl quiet ↦
          let (t, found, late, soon) =
            stops_within ticks (now + second) last_seen pid (omega arith) in
          (t, rw (quiet, watch_for) found, late, omega (arith, soon))
      | inr (reason, e) ↦ (
        now + second,
        rw (e, watch_for) refl,
        watch-some (now + second) last_seen pid reason e,
        omega arith,
      )
    ]

-- Where the app's process is alive but no message comes in any more, the last one having come at
-- `last_seen`, the helper stops at one of the eleven ticks of the watchdog that follow: more than ten
-- seconds after the last message, and no later than eleven after `now`.
pub watch_for-stops : (now last_seen pid : ℕ) → last_seen ≤ now → StopsWithin 11 now last_seen pid
watch_for-stops now last_seen pid h = stops_within 10 now last_seen pid (omega arith)
