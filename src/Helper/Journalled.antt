-- ===== src/Helper/Journalled.antt =====
-- internal/core/helper_server.go: every operation of the helper keeps what it changes in the journal.
use sudoku_desktop.Prelude.{
  ℕ, ◌≡◌, inl, inr, refl, List, [], ◌∷◌, Option, none, some, ◌∙◌, Bool-cases, All, subst, sym,
  arith,
}
use sudoku_desktop.Failure.{Failure}
use sudoku_desktop.Plan.{TunPlan}
use sudoku_desktop.Plan.Validate.{Refusal, validate_tun_plan}
use mathlib.Core.List.{Memᴰ}
use sudoku_desktop.Helper.{Session, Helper, Env, System}
use sudoku_desktop.Helper.Steps.{recover_stale, change, teardown}
use sudoku_desktop.Helper.Rise.{Rising, bring_up}
use sudoku_desktop.Helper.Up.{
  settle, up, hev_died, report, begin, up_checked, after_death, Operation, bring, take_down,
  lose_hev, restart, perform, run, boot, Answer, refused, new_session,
}
use sudoku_desktop.Helper.Covered.{
  Covered, IsSound, teardown-IsSound, recover_stale-Clears, recover_stale-sess, Clears,
}
use sudoku_desktop.Helper.Risen.{holder, bring_up-Ends}

report-keeps : (e : Failure) (p : Helper × Option Failure) → (report e p).0 ≡ p.0
unfolding report
report-keeps e (h, none) = refl
report-keeps e (h, some f) = refl

module _ (env : Env) (saves : (i : ℕ) → env.save i ≡ none) where
  settle-IsSound : (p : Rising × Option Failure) → IsSound (holder p.0) → IsSound (settle env p).0
  unfolding settle
  settle-IsSound (u, none) s = s
  settle-IsSound (u, some e) s =
      rw (report-keeps e (teardown env (holder u))) (teardown-IsSound env (holder u) s)

  begin-IsSound :
      (plan : TunPlan) (p : Helper × Option Failure)
      → p.0.sess ≡ none
      → Clears p
      → IsSound (begin env plan p).0
  unfolding begin
  begin-IsSound plan (h, some e) idle c = record {
    now = c.0.now;
    before = c.0.before;
    known = ground (arith, idle);
  }
  begin-IsSound plan (h, none) idle c =
      settle-IsSound (bring_up env (record { sess = new_session plan; helper = h }))
        (bring_up-Ends env saves (record { sess = new_session plan; helper = h }) (c.1 refl))

  up_checked-IsSound :
      (plan : TunPlan) (o : Option Session) (h : Helper)
      → h.sess ≡ o
      → IsSound h
      → IsSound (up_checked env plan o h).0
  unfolding up_checked
  up_checked-IsSound plan (some t) h e s = s
  up_checked-IsSound plan none h e s =
      begin-IsSound plan (recover_stale env h) (recover_stale-sess env h ∙ e)
        (recover_stale-Clears env h (record { now = s.now; before = s.before }))

  up-IsSound : (plan : Option TunPlan) (h : Helper) → IsSound h → IsSound (up env plan h).0
  unfolding up
  up-IsSound none h s = s
  up-IsSound (some plan) h s = go (validate_tun_plan env.net (some plan))
    where
      go :
          (r : Option Refusal)
          → IsSound (
              let out : Answer = elim r [
                | some e ↦ (h, inl (refused e))
                | none ↦ up_checked env plan h.sess h
              ] in
              out.0)
      go (some e) = s
      go none = up_checked-IsSound plan h.sess h refl s

hev_died-IsSound : (env : Env) (h : Helper) → IsSound h → IsSound (hev_died env h).0
unfolding hev_died
hev_died-IsSound env h s = go h.sess
  where
    dead : Helper
    dead = change (λ y. record y { hev = none }) h

    sound : IsSound dead
    sound = record { now = s.now; before = (s.now, s.before); known = s.known }

    go : (o : Option Session) → IsSound (after_death env o dead).0
    go none = sound
    go (some t) = elim (Bool-cases t.stopped) [
      | inl stopped ↦ rw stopped sound
      | inr running ↦ rw running (teardown-IsSound env dead sound)
    ]

-- The journal can be written whenever a tunnel is asked for.
abbrev pub Saves : Operation → Type 0
Saves (bring env plan) = (i : ℕ) → env.save i ≡ none
Saves (take_down env) = Unit
Saves (lose_hev env) = Unit
Saves restart = Unit

perform-IsSound : (o : Operation) (h : Helper) → Saves o → IsSound h → IsSound (perform o h)
perform-IsSound (bring env plan) h saves s = up-IsSound env saves plan h s
perform-IsSound (take_down env) h saves s = teardown-IsSound env h s
perform-IsSound (lose_hev env) h saves s = hev_died-IsSound env h s
perform-IsSound restart h saves s = record { now = s.now; before = s.before; known = tt }

run-IsSound : (os : List Operation) (h : Helper) → All Saves os → IsSound h → IsSound (run os h)
unfolding run
run-IsSound [] h saves s = s
run-IsSound (o ∷ os) h saves s =
    run-IsSound os (perform o h) saves.1 (perform-IsSound o h saves.0 s)

-- A helper that starts with what a machine holds.
abbrev pub on : System → Helper
on y = record { sess = none; system = y; passed = [] }

-- What a machine may hold: no tunnel was ever up; a helper's life has ended after some operations; or
-- it was killed in the middle of one, in a state that it passed.
pub data Reachable : System → Type 0 where
  untouched : Reachable boot.system
  after :
      {y : System} (os : List Operation)
      → Reachable y
      → All Saves os
      → Reachable (run os (on y)).system
  killed_in :
      {y z : System} (os : List Operation)
      → Reachable y
      → All Saves os
      → Memᴰ z (run os (on y)).passed
      → Reachable z

All-Memᴰ {ℓ κ} : {A : Type ℓ} (P : A → Type κ) (x : A) (xs : List A) → Memᴰ x xs → All P xs → P x
All-Memᴰ P x [] at h = elim at [ ]
All-Memᴰ P x (y ∷ ys) (Memᴰ.head e) h = subst P (sym e) h.0
All-Memᴰ P x (y ∷ ys) (Memᴰ.tail at) h = All-Memᴰ P x ys at h.1

-- However the helper is asked to bring the tunnel up and to take it down, however these fail, and
-- whenever the tunnel process or the helper itself dies, between operations or in the middle of one, with
-- another helper then started on what was left, and so on: in every state that the system comes to,
-- either no route, rule or resolver is changed, or the journal on disk holds the record that undoes the
-- change. The journal is taken to be writable while a tunnel comes up, and macOS not to make the helper
-- repair the routes of a tunnel that is up (`wakeLoop`), which is no operation here.
pub run-Covered : {y : System} → Reachable y → Covered y
run-Covered untouched = inl refl
run-Covered (after {y = y} os lived saves) =
    (run-IsSound os (on y) saves (record { now = run-Covered lived; before = tt; known = tt })).now
run-Covered (killed_in {y = y} {z = z} os lived saves at) =
    let s =
      run-IsSound os (on y) saves (record { now = run-Covered lived; before = tt; known = tt }) in
    All-Memᴰ Covered z (run os (on y)).passed at s.before
