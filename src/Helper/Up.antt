-- ===== src/Helper/Up.antt =====
-- internal/core/helper_server.go: `up`, `watchHev`, and what happens to the helper over time.
use sudoku_desktop.Prelude.{◌⊎◌, inl, inr, false, List, [], ◌∷◌, Option, none, some, if◌then◌else◌}
use sudoku_desktop.Failure.{Failure}
use sudoku_desktop.Plan.{TunPlan}
use sudoku_desktop.Plan.Validate.{Refusal, missing_plan, validate_tun_plan}
use sudoku_desktop.Helper.{missing, Session, Helper, Env, TunStatus}
use sudoku_desktop.Helper.Steps.{change, teardown, recover_stale, status}
use sudoku_desktop.Helper.Rise.{Rising, bring_up}

-- The errors of `up`: the plan is refused, a tunnel is up, the state of an earlier helper could not
-- be undone, the tunnel did not come up, or neither did it nor could it be taken down.
pub data UpError : Type 0 where
  refused : Refusal → UpError
  already_up : UpError
  not_recovered : Failure → UpError
  not_up : Failure → UpError
  not_cleaned : Failure → Failure → UpError

abbrev pub new_session : TunPlan → Session
new_session plan = record {
  plan = plan;
  tun = plan.tun;
  hev_pid = 0;
  routes = none;
  dns = false;
  feeder = false;
  server_ip = [];
  iface = "";
  stopped = false;
}

abbrev pub Answer : Type 0
Answer = Helper × (UpError ⊎ TunStatus)

-- The error of `up`, given how the clean-up went.
unfoldable pub report : Failure → Helper × Option Failure → Answer
report e (h, none) = (h, inl (not_up e))
report e (h, some e') = (h, inl (not_cleaned e e'))

-- The end of `up`, after `bringUp`
unfoldable pub settle : Env → Rising × Option Failure → Answer
unfolding teardown status report
settle env (u, none) = let h = record (u.helper) { sess = some u.sess } in (h, inr (status env h))
settle env (u, some e) = report e (teardown env (record (u.helper) { sess = some u.sess }))

-- `up`, after `recoverStale`
unfoldable pub begin : Env → TunPlan → Helper × Option Failure → Answer
unfolding bring_up settle
begin env plan (h, some e) = (h, inl (not_recovered e))
begin env plan (h, none) =
    settle env (bring_up env (record { sess = new_session plan; helper = h }))

-- `up` of a plan that is accepted
unfoldable pub up_checked : Env → TunPlan → Option Session → Helper → Answer
unfolding recover_stale begin
up_checked env plan (some s) h = (h, inl already_up)
up_checked env plan none h = begin env plan (recover_stale env h)

-- `up`
unfoldable pub up : Env → Option TunPlan → Helper → Answer
unfolding up_checked
up env none h = (h, inl (refused missing_plan))
up env (some plan) h = elim (validate_tun_plan env.net (some plan)) [
  | some e ↦ (h, inl (refused e))
  | none ↦ up_checked env plan h.sess h
]

-- The session whose tunnel process ended, if it was not stopped, is torn down.
unfoldable pub after_death : Env → Option Session → Helper → Helper × Option Failure
unfolding teardown
after_death env none h = (h, none)
after_death env (some s) h = if s.stopped then (h, none) else teardown env h

-- `watchHev`, once the tunnel process has ended
unfoldable pub hev_died : Env → Helper → Helper × Option Failure
unfolding after_death
hev_died env h = after_death env h.sess (change (λ y. record y { hev = none }) h)

-- What happens to the helper: requests, the end of the tunnel process, and the end of the helper's
-- own process, after which another one starts with what is on disk.
pub data Operation : Type 0 where
  bring : Env → Option TunPlan → Operation
  take_down : Env → Operation
  lose_hev : Env → Operation
  restart : Operation

abbrev pub perform : Operation → Helper → Helper
perform (bring env plan) h = (up env plan h).0
perform (take_down env) h = (teardown env h).0
perform (lose_hev env) h = (hev_died env h).0
perform restart h = record h { sess = none }

unfoldable pub run : List Operation → Helper → Helper
unfolding up teardown hev_died
run [] h = h
run (o ∷ os) h = run os (perform o h)

-- A machine on which no tunnel was up.
abbrev pub boot : Helper
boot = record {
  sess = none;
  system = record { journal = missing; hev = none; changed = none };
  passed = [];
}
