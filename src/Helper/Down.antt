-- ===== src/Helper/Down.antt =====
-- internal/core/helper_server.go, `teardownLocked`: what it leaves, for each way it can go.
use sudoku_desktop.Prelude.{ℕ, ◌<◌, ◌≡◌, ◌⊎◌, Option, none, some, Bool, true, false, ◌||◌}
use sudoku_desktop.Failure.{Failure}
use sudoku_desktop.Config.{TunSettings}
use sudoku_desktop.Routes.{RouteContext}
use sudoku_desktop.Helper.{missing, Session, Helper, Env}
use sudoku_desktop.Helper.Steps.{stop_hev, attempts}

-- No session and no change are left, and neither journal nor tunnel process, unless the file cannot
-- be removed or the process not be stopped; the error is that of stopping it.
pub record IsGone (env : Env) (h : Helper) (out : Helper × Option Failure) : Type 0 where
  pub sess : out.0.sess ≡ none
  pub changed : out.0.system.changed ≡ none
  pub journal :
      out.0.system.journal
      ≡ (elim env.remove_journal [ none ↦ missing | some e ↦ h.system.journal ])
  pub hev : out.0.system.hev ≡ (elim env.stop_hev [ none ↦ none | some e ↦ h.system.hev ])
  pub error : out.1 ≡ env.stop_hev

-- The session is kept, with its background work stopped, the system is as it was, and there is an
-- error.
pub record IsKept (h : Helper) (s : Session) (out : Helper × Option Failure) : Type 0 where
  pub sess : out.0.sess ≡ some (record s { stopped = true })
  pub system : out.0.system ≡ h.system
  pub error : (e : Failure) × (out.1 ≡ some e)

abbrev is_done : Option Failure → Bool
is_done none = true
is_done (some e) = false

abbrev restores_from : Env → TunSettings → Option RouteContext → Bool
restores_from env tun none = true
restores_from env tun (some rc) =
    is_done (env.tear_down 0 rc tun)
    || is_done (env.tear_down 1 rc tun)
    || is_done (env.tear_down 2 rc tun)

-- The session has no routes to restore, or one of three attempts restores them.
abbrev pub restores : Env → Session → Bool
restores env s = restores_from env s.tun s.routes

abbrev pub Outcome : Env → Helper → Session → Helper × Option Failure → Bool → Type 0
Outcome env h s out true = IsGone env h out
Outcome env h s out false = IsKept h s out

AnAttemptWorks : Env → TunSettings → Option RouteContext → Type 0
AnAttemptWorks env tun o =
    (o ≡ none)
    ⊎ ((rc : RouteContext) × (j : ℕ) × (o ≡ some rc)
        × (j < attempts)
        × (env.tear_down j rc tun ≡ none))

EveryAttemptFails : Env → TunSettings → Option RouteContext → Type 0
EveryAttemptFails env tun o =
    (rc : RouteContext) × (o ≡ some rc)
    × ((j : ℕ) → j < attempts → (f : Failure) × (env.tear_down j rc tun ≡ some f))
