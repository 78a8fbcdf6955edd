-- ===== src/Helper/Steps.antt =====
-- internal/core/helper_server.go: the journal of the helper, and the ways back: `saveState`,
-- `teardownLocked`, `recoverStale`.
use sudoku_desktop.Prelude.{
  ℕ, zero, suc, Bool, true, false, not, ◌&&◌, ◌∷◌, Option, none, some, if◌then◌else◌, ltb, ◌==◌,
  contains,
}
use sudoku_desktop.Failure.{Failure, new_error, wrap}
use sudoku_desktop.Config.{TunSettings}
use sudoku_desktop.Routes.{RouteContext}
use sudoku_desktop.Helper.{
  TunState, Stored, missing, unreadable, stored, System, Session, Helper, Env, TunStatus,
}

abbrev pub change : (System → System) → Helper → Helper
change f h = record h { system = f h.system; passed = f h.system ∷ h.passed }

abbrev pub state_of : Env → Session → TunState
state_of env s = record {
  version = 1;
  helper_pid = env.pid;
  hev_pid = s.hev_pid;
  tun = s.tun;
  routes = s.routes;
  updated = env.now;
  interface = s.iface;
}

-- `saveState`; a failed write is logged, and leaves the file as it was.
unfoldable pub save_state : Env → ℕ → Session → Helper → Helper
save_state env i s h = elim (env.save i) [
  | some e ↦ h
  | none ↦ change (λ y. record y { journal = stored (state_of env s) }) h
]

-- `os.Remove(helperStatePath())`, with its error
unfoldable pub drop_journal : Env → Helper → Helper
drop_journal env h = elim env.remove_journal [
  | some e ↦ h
  | none ↦ change (λ y. record y { journal = missing }) h
]

-- Attempts at `teardownRoutes` until one succeeds or none is left; `last` is the latest error. A failed
-- attempt may have undone a part: `changed` stays then, as what may still be changed of the system.
unfoldable pub try_tear_down :
    Env → RouteContext → TunSettings → ℕ → ℕ → Option Failure → Helper → Helper × Option Failure
try_tear_down env rc tun zero k last h = (h, last)
try_tear_down env rc tun (suc left) k last h = elim (env.tear_down k rc tun) [
  | none ↦ (change (λ y. record y { changed = none }) h, none)
  | some e ↦ try_tear_down env rc tun left (suc k) (some e) h
]

abbrev pub attempts : ℕ
attempts = 3

-- `s.hev.Stop`
unfoldable pub stop_hev : Env → Helper → Helper
stop_hev env h = elim env.stop_hev [ none ↦ change (λ y. record y { hev = none }) h | some e ↦ h ]

-- The end of `teardownLocked`: the local DNS proxy and the rule feeder stop with the session.
unfoldable pub release : Env → Helper → Helper × Option Failure
unfolding stop_hev drop_journal
release env h = (record (drop_journal env (stop_hev env h)) { sess = none }, env.stop_hev)

-- What follows the attempts of `teardownLocked`.
unfoldable pub finish_teardown : Env → Session → Helper × Option Failure → Helper × Option Failure
unfolding release
finish_teardown env s (h, some e) = (h, some (wrap "restore routes/DNS: " e))
finish_teardown env s (h, none) =
    release env (record h { sess = some (record s { routes = none }) })

-- `teardownLocked` of a session, given its routes
unfoldable pub teardown_routes :
    Env → Session → Option RouteContext → Helper → Helper × Option Failure
unfolding try_tear_down release finish_teardown
teardown_routes env s none h = release env h
teardown_routes env s (some rc) h =
    finish_teardown env s (try_tear_down env rc s.tun attempts 0 none h)

unfoldable pub teardown_session : Env → Option Session → Helper → Helper × Option Failure
unfolding teardown_routes
teardown_session env none h = (h, none)
teardown_session env (some s) h =
    let s' = record s { stopped = true } in
    teardown_routes env s' s.routes (record h { sess = some s' })

-- `teardownLocked`
unfoldable pub teardown : Env → Helper → Helper × Option Failure
unfolding teardown_session
teardown env h = teardown_session env h.sess h

-- Another helper owns the journal, and runs.
unfoldable pub is_other_helper : Env → TunState → Bool
unfolding contains
is_other_helper env st =
    ltb 0 st.helper_pid
    && not (st.helper_pid == env.pid)
    && env.process_alive st.helper_pid
    && contains (env.process_command st.helper_pid) "tun-helper"

-- The tunnel process of the journal is killed if it runs and is one.
unfoldable pub kill_stale : Env → TunState → Helper → Helper
unfolding contains
kill_stale env st h =
    if ltb 0 st.hev_pid
      && env.process_alive st.hev_pid
      && contains (env.process_command st.hev_pid) "hev-socks5-tunnel"
    then change (λ y. record y { hev = none }) h
    else h

-- The end of `recoverStale`, once no route is left.
unfoldable pub forget_state : Env → TunState → Helper → Helper × Option Failure
unfolding kill_stale drop_journal
forget_state env st h = (drop_journal env (kill_stale env st h), env.remove_journal)

-- What follows the attempts of `recoverStale`.
unfoldable pub finish_recovery : Env → TunState → Helper × Option Failure → Helper × Option Failure
unfolding forget_state
finish_recovery env st (h, some e) = (h, some e)
finish_recovery env st (h, none) = forget_state env st h

unfoldable pub recover_stored : Env → TunState → Helper → Helper × Option Failure
unfolding is_other_helper try_tear_down finish_recovery forget_state
recover_stored env st h =
    if is_other_helper env st
    then (h, some (new_error "another tunnel helper is still running"))
    else elim st.routes [
      | none ↦ forget_state env st h
      | some rc ↦ finish_recovery env st (try_tear_down env rc st.tun attempts 0 none h)
    ]

-- `recoverStale`, given what is read
unfoldable pub recover_from : Env → Stored → Helper → Helper × Option Failure
unfolding drop_journal recover_stored
recover_from env missing h = (h, none)
recover_from env unreadable h = (drop_journal env h, none)
recover_from env (stored st) h = recover_stored env st h

-- `recoverStale`
unfoldable pub recover_stale : Env → Helper → Helper × Option Failure
unfolding recover_from
recover_stale env h = recover_from env h.system.journal h

-- `tunStateStale`
unfoldable pub state_stale : Env → System → Bool
state_stale env y = elim y.journal [
  | missing ↦ false
  | unreadable ↦ false
  | stored st ↦ not (ltb 0 st.helper_pid && env.process_alive st.helper_pid)
]

-- `statusLocked`
unfoldable pub status : Env → Helper → TunStatus
unfolding state_stale
status env h = elim h.sess [
  | none ↦ record {
    up = false;
    interface = "";
    split_dns = false;
    hev_pid = 0;
    stale_state = state_stale env h.system;
  }
  | some s ↦ record {
    up = true;
    interface = s.iface;
    split_dns = s.dns;
    hev_pid = s.hev_pid;
    stale_state = state_stale env h.system;
  }
]
