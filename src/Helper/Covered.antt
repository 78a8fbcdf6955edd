-- ===== src/Helper/Covered.antt =====
-- internal/core/helper_server.go: what may be changed on the system is in the journal on disk.
use sudoku_desktop.Prelude.{
  ℕ, zero, suc, ◌≡◌, ◌⊎◌, inl, inr, refl, Option, none, some, Option-cases, subst, sym, Bool-cases,
  All, arith,
}
use sudoku_desktop.Failure.{Failure}
use sudoku_desktop.Config.{TunSettings}
use sudoku_desktop.Routes.{RouteContext}
use sudoku_desktop.Helper.{
  Stored, missing, unreadable, stored, System, Session, Helper, Env, TunState,
}
use sudoku_desktop.Helper.Steps.{
  drop_journal, try_tear_down, stop_hev, release, teardown_routes, teardown_session, teardown,
  recover_from, forget_state, finish_teardown, recover_stored, recover_stale, is_other_helper,
  change,
}

-- The routes that a journal tells how to undo.
abbrev pub journal_routes : Stored → Option RouteContext
journal_routes missing = none
journal_routes unreadable = none
journal_routes (stored st) = st.routes

-- Nothing is changed, or what is changed is what the journal on disk tells how to undo.
abbrev pub Covered : System → Type 0
Covered y = (y.changed ≡ none) ⊎ (y.changed ≡ journal_routes y.journal)

-- Now and in every state since the start.
pub record IsSafe (h : Helper) : Type 0 where
  pub now : Covered h.system
  pub before : All Covered h.passed

-- A session knows what is changed.
abbrev pub Known : Option Session → Option RouteContext → Type 0
Known none changed = Unit {0}
Known (some s) changed = (changed ≡ none) ⊎ (changed ≡ s.routes)

pub record IsSound (h : Helper) : Type 0 where
  pub now : Covered h.system
  pub before : All Covered h.passed
  pub known : Known h.sess h.system.changed

-- The system with nothing changed.
abbrev pub restored : Helper → Helper
restored h = change (λ y. record y { changed = none }) h

-- The attempts end with nothing changed, or with an error and the system as it was.
pub try_tear_down-cases :
    (env : Env) (rc : RouteContext) (tun : TunSettings) (left k : ℕ) (last : Option Failure)
    (h : Helper)
    → let out = try_tear_down env rc tun (suc left) k last h in
      (out ≡ (restored h, none)) ⊎ ((e : Failure) × (out ≡ (h, some e)))
unfolding try_tear_down
try_tear_down-cases env rc tun zero k last h = elim (Option-cases (env.tear_down k rc tun)) [
  | inl done ↦ inl (rw (done, try_tear_down) refl)
  | inr (f, again) ↦ inr (f, rw (again, try_tear_down) refl)
]
try_tear_down-cases env rc tun (suc left) k last h = elim (Option-cases (env.tear_down k rc tun)) [
  | inl done ↦ inl (rw (done, try_tear_down) refl)
  | inr (f, again) ↦
      rw (again, try_tear_down) (try_tear_down-cases env rc tun left (suc k) (some f) h)
]

restored-IsSafe : (h : Helper) → IsSafe h → IsSafe (restored h)
restored-IsSafe h s = record { now = inl refl; before = (inl refl, s.before) }

release-IsSound :
    (env : Env) (h : Helper) → h.system.changed ≡ none → IsSafe h → IsSound (release env h).0
unfolding release drop_journal stop_hev
release-IsSound env h e s = ground arith

teardown_routes-IsSound :
    (env : Env) (s : Session) (o : Option RouteContext) (h : Helper)
    → s.routes ≡ o
    → h.sess ≡ some s
    → IsSound h
    → IsSound (teardown_routes env s o h).0
unfolding teardown_routes
teardown_routes-IsSound env s none h e held sound =
    release-IsSound env h (ground (arith, sound.known))
      (record { now = sound.now; before = sound.before })
teardown_routes-IsSound env s (some rc) h e held sound =
    elim (try_tear_down-cases env rc s.tun 2 0 none h) [
      | inl done ↦ subst FinishIsSound (sym done) (
          release-IsSound env (record (restored h) { sess = some (record s { routes = none }) })
            refl (record { now = inl refl; before = (inl refl, sound.before) }))
      | inr (f, failed) ↦ subst FinishIsSound (sym failed) sound
    ]
  where
    FinishIsSound : Helper × Option Failure → Type 0
    FinishIsSound out = IsSound (finish_teardown env s out).0

teardown_session-IsSound :
    (env : Env) (o : Option Session) (h : Helper)
    → h.sess ≡ o
    → IsSound h
    → IsSound (teardown_session env o h).0
unfolding teardown_session
teardown_session-IsSound env none h e s = s
teardown_session-IsSound env (some t) h e s =
    teardown_routes-IsSound env _ t.routes _ refl refl (record {
      now = s.now;
      before = s.before;
      known = subst (λ o. Known o h.system.changed) e s.known;
    })

pub teardown-IsSound : (env : Env) (h : Helper) → IsSound h → IsSound (teardown env h).0
unfolding teardown
teardown-IsSound env h s = teardown_session-IsSound env h.sess h refl s

-- Nothing is changed, and all was covered before.
pub record IsFresh (h : Helper) : Type 0 where
  pub unchanged : h.system.changed ≡ none
  pub before : All Covered h.passed

forget_state-IsFresh :
    (env : Env) (st : TunState) (h : Helper) → IsFresh h → IsFresh (forget_state env st h).0
unfolding forget_state
forget_state-IsFresh env st h s = ground arith

-- A step that keeps what is covered, and that leaves nothing changed if it succeeds.
abbrev pub Clears : Helper × Option Failure → Type 0
Clears out = IsSafe out.0 × (out.1 ≡ none → IsFresh out.0)

forget_state-Clears :
    (env : Env) (st : TunState) (h : Helper) → IsFresh h → Clears (forget_state env st h)
forget_state-Clears env st h s =
    let fresh = forget_state-IsFresh env st h s in
    (record { now = inl fresh.unchanged; before = fresh.before }, λ e. fresh)

recover_stored-Clears :
    (env : Env) (st : TunState) (h : Helper)
    → h.system.journal ≡ stored st
    → IsSafe h
    → Clears (recover_stored env st h)
unfolding recover_stored
recover_stored-Clears env st h at_disk s = elim (Bool-cases (is_other_helper env st)) [
  | inl other ↦ simp other (s, λ e. cc e)
  | inr mine ↦ elim (Option-cases st.routes) [
    | inl e ↦
        simp (mine, e)
          (forget_state-Clears env st h
            (record { unchanged = ground (arith, s.now, at_disk, e); before = s.before }))
    | inr (rc, e) ↦ elim (try_tear_down-cases env rc st.tun 2 0 none h) [
      | inl done ↦
          simp (mine, e, done)
            (forget_state-Clears env st (restored h)
              (record { unchanged = refl; before = (inl refl, s.before) }))
      | inr (f, failed) ↦ simp (mine, e, failed) (s, λ e. cc e)
    ]
  ]
]

recover_from-Clears :
    (env : Env) (j : Stored) (h : Helper)
    → h.system.journal ≡ j
    → IsSafe h
    → Clears (recover_from env j h)
unfolding recover_from drop_journal
recover_from-Clears env missing h e s =
    (s, λ q. record { unchanged = ground (arith, s.now, e); before = s.before })
recover_from-Clears env unreadable h e s =
    let same : h.system.changed ≡ none = ground (arith, s.now, e) in
    (ground arith, λ q. ground arith)
recover_from-Clears env (stored st) h e s = recover_stored-Clears env st h e s

pub recover_stale-Clears : (env : Env) (h : Helper) → IsSafe h → Clears (recover_stale env h)
unfolding recover_stale
recover_stale-Clears env h s = recover_from-Clears env h.system.journal h refl s

forget_state-sess :
    (env : Env) (st : TunState) (h : Helper) → (forget_state env st h).0.sess ≡ h.sess
unfolding forget_state
forget_state-sess env st h = ground arith

recover_stored-sess :
    (env : Env) (st : TunState) (h : Helper) → (recover_stored env st h).0.sess ≡ h.sess
unfolding recover_stored
recover_stored-sess env st h = elim (Bool-cases (is_other_helper env st)) [
  | inl other ↦ simp other
  | inr mine ↦ elim (Option-cases st.routes) [
    | inl e ↦ simp (mine, e) (forget_state-sess env st h)
    | inr (rc, e) ↦ elim (try_tear_down-cases env rc st.tun 2 0 none h) [
      | inl done ↦ simp (mine, e, done) (forget_state-sess env st (restored h))
      | inr (f, failed) ↦ simp (mine, e, failed)
    ]
  ]
]

recover_from-sess : (env : Env) (j : Stored) (h : Helper) → (recover_from env j h).0.sess ≡ h.sess
unfolding recover_from drop_journal
recover_from-sess env missing h = refl
recover_from-sess env unreadable h = ground arith
recover_from-sess env (stored st) h = recover_stored-sess env st h

-- Recovery starts no session.
pub recover_stale-sess : (env : Env) (h : Helper) → (recover_stale env h).0.sess ≡ h.sess
unfolding recover_stale
recover_stale-sess env h = recover_from-sess env h.system.journal h
