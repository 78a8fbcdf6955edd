-- ===== src/Helper/Risen.antt =====
-- internal/core/helper_server.go, `bringUp`: what is changed is in the journal at every stage.
use sudoku_desktop.Prelude.{ℕ, ◌≡◌, inl, List, [], ◌∷◌, Option, none, some, All, arith}
use sudoku_desktop.Failure.{Failure, Result, ok, err}
use sudoku_desktop.Routes.{RouteContext}
use sudoku_desktop.Helper.{Helper, Env}
use sudoku_desktop.Helper.Rise.{
  Rising, Stage, ◌>>◌, bring_up, run_stages, tunnel_stages, routes_from, save_last, set_up_routes,
  health_check, prepared, run_routes, start_hev, resolve_servers, start_split_dns, name_interface,
  route_plan,
}
use sudoku_desktop.Helper.Covered.{journal_routes, Covered, IsSound, IsFresh}

-- The helper that a session comes up in.
abbrev pub holder : Rising → Helper
holder u = record (u.helper) { sess = some u.sess }

abbrev Keeps : Stage → Type 0
Keeps m = (u : Rising) → IsFresh u.helper → IsFresh (m u).0.helper

abbrev pub Ends : Stage → Type 0
Ends m = (u : Rising) → IsFresh u.helper → IsSound (holder (m u).0)

abbrev KeepsSound : Stage → Type 0
KeepsSound m = (u : Rising) → IsSound (holder u) → IsSound (holder (m u).0)

-- A property of the state after each part is one of the state after the whole.
then_rule :
    (P Q : Rising → Type 0) (m k : Stage)
    → ((u : Rising) → P u → Q u)
    → ((u : Rising) → P u → Q (k u).0)
    → (u : Rising) → P (m u).0
    → Q ((m >> k) u).0
then_rule P Q m k weaken next u h = go (m u) h
  where
    go :
        (r : Rising × Option Failure)
        → P r.0
        → Q (
            let out : Rising × Option Failure = elim r.1 [
              | none ↦ k r.0
              | some e ↦ (r.0, some e)
            ] in
            out.0)
    go (u', none) h = next u' h
    go (u', some e) h = weaken u' h

keep_then : (m k : Stage) → Keeps m → Keeps k → Keeps (m >> k)
keep_then m k a b u h =
    then_rule (λ v. IsFresh v.helper) (λ v. IsFresh v.helper) m k (λ v q. q) b u (a u h)

IsFresh-IsSound : (u : Rising) → IsFresh u.helper → IsSound (holder u)
IsFresh-IsSound u h = record { now = inl h.unchanged; before = h.before; known = inl h.unchanged }

end_then : (m k : Stage) → Keeps m → Ends k → Ends (m >> k)
end_then m k a b u h =
    then_rule (λ v. IsFresh v.helper) (λ v. IsSound (holder v)) m k IsFresh-IsSound b u (a u h)

resolve_servers-Keeps : (env : Env) → Keeps (resolve_servers env)
unfolding resolve_servers
resolve_servers-Keeps env u h = h

start_split_dns-Keeps : (env : Env) → Keeps (start_split_dns env)
unfolding start_split_dns
start_split_dns-Keeps env u h = ground arith

start_hev-Keeps : (env : Env) → Keeps (start_hev env)
unfolding start_hev
start_hev-Keeps env u h = ground arith

name_interface-Keeps : (env : Env) → Keeps (name_interface env)
unfolding name_interface
name_interface-Keeps env u h = h

run_stages-Keeps : (ms : List Stage) → All Keeps ms → Keeps (run_stages ms)
unfolding run_stages
run_stages-Keeps [] a u h = h
run_stages-Keeps (m ∷ ms) a u h = keep_then m (run_stages ms) a.0 (run_stages-Keeps ms a.1) u h

tunnel_stages-Keeps : (env : Env) → All Keeps (tunnel_stages env)
tunnel_stages-Keeps env = (
  (λ u h. h),
  (
    (λ u h. h),
    (
      resolve_servers-Keeps env,
      (
        start_split_dns-Keeps env,
        (
          (λ u h. h),
          (start_hev-Keeps env, ((λ u h. h), ((λ u h. h), (name_interface-Keeps env, tt)))),
        ),
      ),
    ),
  ),
)

health_check-KeepsSound : (env : Env) → KeepsSound (health_check env)
unfolding health_check
health_check-KeepsSound env u h = ground arith

module _ (env : Env) (saves : (i : ℕ) → env.save i ≡ none) where
  -- The routes are in the journal and nothing is changed yet.
  record IsPrepared (rc : RouteContext) (u : Rising) : Type 0 where
    pub unchanged : u.helper.system.changed ≡ none
    pub before : All Covered u.helper.passed
    pub recorded : journal_routes u.helper.system.journal ≡ some rc
    pub held : u.sess.routes ≡ some rc

  prepared-IsPrepared :
      (rc : RouteContext) (u : Rising) → IsFresh u.helper → IsPrepared rc (prepared env rc u)
  unfolding prepared
  prepared-IsPrepared rc u h = ground (arith, saves 1)

  run_routes-IsSound :
      (rc : RouteContext) (u : Rising) → IsPrepared rc u → IsSound (holder (run_routes env rc u).0)
  unfolding run_routes
  run_routes-IsSound rc u p = ground arith

  save_last-KeepsSound : KeepsSound (save_last env)
  unfolding save_last
  save_last-KeepsSound u s = ground (arith, saves 2)

  routes_from-IsSound :
      (r : Result RouteContext) (u : Rising)
      → IsFresh u.helper
      → IsSound (holder (routes_from env r u).0)
  unfolding routes_from
  routes_from-IsSound (err e) u h = IsFresh-IsSound u h
  routes_from-IsSound (ok rc) u h =
      let u' = prepared env rc u in
      then_rule (λ v. IsSound (holder v)) (λ v. IsSound (holder v)) (run_routes env rc)
        (save_last env) (λ v q. q) save_last-KeepsSound u'
        (run_routes-IsSound rc u' (prepared-IsPrepared rc u h))

  set_up_routes-Ends : Ends (set_up_routes env)
  unfolding set_up_routes
  set_up_routes-Ends u h = routes_from-IsSound (env.prepare_routes (route_plan env u.sess)) u h

  pub bring_up-Ends : Ends (bring_up env)
  unfolding bring_up
  bring_up-Ends =
      end_then (run_stages (tunnel_stages env)) (set_up_routes env >> health_check env)
        (run_stages-Keeps (tunnel_stages env) (tunnel_stages-Keeps env))
        (λ u h.
          then_rule (λ v. IsSound (holder v)) (λ v. IsSound (holder v)) (set_up_routes env)
            (health_check env) (λ v q. q) (health_check-KeepsSound env) u (set_up_routes-Ends u h))
