-- ===== src/Session/Recorded/Start.antt =====
-- lifecycle.go and journal.go together: a start, whichever step of it fails.
use sudoku_desktop.Prelude.{
  ℕ, ◌≡◌, refl, ◌∙◌, Bool, true, false, not, ◌&&◌, Option, none, some, String, if◌then◌else◌,
}
use sudoku_desktop.Failure.{Failure}
use sudoku_desktop.Session.{Kernel, Backend, Env, AdminRequest}
use sudoku_desktop.Session.Steps.{
  Action, ◌>>◌, require_admin, require_nodes, ensure_core_binaries, check_ports, start_guard_once,
  start_custom, launch, apply_system_proxy,
}
use sudoku_desktop.Session.Tunnel.{teardown}
use sudoku_desktop.Session.Operations.{
  check_context, start_tunnel, set_running, finish_start, connect, bring_up_core, start_from_guard,
  bring_up, apply_tun, conclude_start, start_core, start_proxy, same_bool,
}
use sudoku_desktop.Session.Recorded.{
  IsReliable, IsRecorded, SameRecord, IsRecorded-SameRecord, launch-IsRecorded,
  apply_system_proxy-IsRecorded,
}
use sudoku_desktop.Session.Recorded.Teardown.{
  teardown-IsRecorded, SameRecord-ensure, SameRecord-guard, SameRecord-custom,
  SameRecord-start_tunnel, SameRecord-require_admin, SameRecord-apply_tun, SameRecord-start_failed,
}

-- A sequence keeps what holds where it may end.
>>-keeps :
    (P Q : Backend → Type 0) (m k : Action) (b : Backend)
    → P (m b).0
    → ((c : Backend) → P c → Q c)
    → ((c : Backend) → P c → Q (k c).0)
    → Q ((m >> k) b).0
>>-keeps P Q m k b first ends next = go (m b) first
  where
    go :
        (r : Backend × Option Failure)
        → P r.0
        → Q (
            let out : Backend × Option Failure = elim r.1 [
              | none ↦ k r.0
              | some e ↦ (r.0, some e)
            ] in
            out.0)
    go (c, none) p = next c p
    go (c, some e) p = ends c p

-- The start
check-IsRecorded :
    (env : Env) (stage : ℕ) (k : Action) (b : Backend)
    → ((c : Backend) → IsRecorded c → IsRecorded (k c).0)
    → IsRecorded b
    → IsRecorded ((check_context env stage >> k) b).0
check-IsRecorded env stage k b next r =
    >>-keeps IsRecorded IsRecorded (check_context env stage) k b r (λ c q. q) next

finish_start-IsRecorded :
    (env : Env) (b : Backend) → IsRecorded b → IsRecorded (finish_start env b).0
unfolding set_running
finish_start-IsRecorded env b r =
    check-IsRecorded env 2 set_running b
      (λ c q.
        IsRecorded-SameRecord {a = c}
          (record { journal = refl; snap = refl; ours = refl; core = refl; kern = refl }) q)
      r

connect-IsRecorded :
    (env : Env) (with_tun : Bool) (b : Backend)
    → IsReliable env
    → IsRecorded b
    → IsRecorded (connect env with_tun b).0
connect-IsRecorded env with_tun b fine r =
    let c = apply_system_proxy env b in
    >>-keeps IsRecorded IsRecorded (start_tunnel env with_tun) (finish_start env) c
      (IsRecorded-SameRecord (SameRecord-start_tunnel env with_tun c)
        (apply_system_proxy-IsRecorded env b fine r))
      (λ d q. q) (finish_start-IsRecorded env)

-- No core is alive, or held.
abbrev IsFresh : Backend → Type 0
IsFresh b = IsRecorded b × (b.kern ≡ none)

IsFresh-SameRecord : {a b : Backend} → SameRecord a b → IsFresh a → IsFresh b
IsFresh-SameRecord s (r, dead) = (IsRecorded-SameRecord s r, s.kern ∙ dead)

bring_up_core-IsRecorded :
    (env : Env) (with_tun : Bool) (url : String) (b : Backend)
    → IsReliable env
    → IsFresh b
    → IsRecorded (bring_up_core env with_tun url b).0
unfolding bring_up_core
bring_up_core-IsRecorded env with_tun url b fine (r, dead) =
    >>-keeps IsRecorded IsRecorded (launch env with_tun url)
      (check_context env 1 >> connect env with_tun) b
      (launch-IsRecorded env with_tun url b fine r dead) (λ c q. q)
      (λ c.
        check-IsRecorded env 1 (connect env with_tun) c
          (λ d. connect-IsRecorded env with_tun d fine))

start_from_guard-IsRecorded :
    (env : Env) (with_tun : Bool) (b : Backend)
    → IsReliable env
    → IsFresh b
    → IsRecorded (start_from_guard env with_tun b).0
unfolding start_from_guard
start_from_guard-IsRecorded env with_tun b fine f =
    let c = start_guard_once env b in
    bring_up_core-IsRecorded env with_tun (start_custom env c).1 (start_custom env c).0 fine
      (IsFresh-SameRecord (SameRecord-custom env c) (IsFresh-SameRecord (SameRecord-guard env b) f))

bring_up-IsRecorded :
    (env : Env) (with_tun : Bool) (b : Backend)
    → IsReliable env
    → IsFresh b
    → IsRecorded (bring_up env with_tun b).0
unfolding bring_up require_nodes check_ports
bring_up-IsRecorded env with_tun b fine f =
    >>-keeps IsFresh IsRecorded require_nodes
      (ensure_core_binaries env >> (check_ports env >> start_from_guard env with_tun)) b f
      (λ c q. q.0)
      (λ c g.
        >>-keeps IsFresh IsRecorded (ensure_core_binaries env)
          (check_ports env >> start_from_guard env with_tun) c
          (IsFresh-SameRecord (SameRecord-ensure env c) g) (λ d q. q.0)
          (λ d h.
            >>-keeps IsFresh IsRecorded (check_ports env) (start_from_guard env with_tun) d h
              (λ e q. q.0) (λ e. start_from_guard-IsRecorded env with_tun e fine)))

conclude_start-IsRecorded :
    (env : Env) (with_tun : Bool) (r : Backend × Option Failure)
    → IsReliable env
    → IsRecorded r.0
    → IsRecorded (conclude_start env with_tun r).0
unfolding conclude_start
conclude_start-IsRecorded env with_tun (b, none) fine r = r
conclude_start-IsRecorded env with_tun (b, some e) fine r =
    IsRecorded-SameRecord (SameRecord-start_failed env with_tun e (teardown env b))
      (teardown-IsRecorded env b fine r)

start_core-IsRecorded :
    (env : Env) (with_tun : Bool) (b : Backend)
    → IsReliable env
    → IsFresh b
    → IsRecorded (start_core env with_tun b).0
unfolding start_core
start_core-IsRecorded env with_tun b fine f = conclude_start-IsRecorded env with_tun _ fine (
    bring_up-IsRecorded env with_tun _ fine (
      IsFresh-SameRecord {a = b}
        (record { journal = refl; snap = refl; ours = refl; core = refl; kern = refl }) f))

-- A choice between two results keeps what both have.
if-IsRecorded :
    (t : Bool) (x y : Backend × Option Failure)
    → IsRecorded x.0
    → IsRecorded y.0
    → IsRecorded (if t then x else y).0
if-IsRecorded true x y p q = p
if-IsRecorded false x y p q = q

pub start_proxy-IsRecorded :
    (env : Env) (with_tun : Bool) (b : Backend)
    → IsReliable env
    → IsRecorded b
    → IsRecorded (start_proxy env with_tun b).0
unfolding start_proxy
start_proxy-IsRecorded env with_tun b fine r =
    if-IsRecorded (env.cancelled 0) _ _ r (go b.kern refl)
  where
    go :
        (o : Option Kernel)
        → b.kern ≡ o
        → IsRecorded
            (let out : Backend × Option Failure = elim o [
              | some k ↦
                  (if same_bool b.state.tun_requested with_tun
                    then (b, none)
                    else apply_tun env with_tun b)
              | none ↦
                  (if with_tun && not env.has_admin
                    then require_admin (AdminRequest.start with_tun none) none b
                    else start_core env with_tun b)
            ] in
              out).0
    go (some k) e =
        if-IsRecorded (same_bool b.state.tun_requested with_tun) _ _ r
          (IsRecorded-SameRecord (SameRecord-apply_tun env with_tun b) r)
    go none e =
        if-IsRecorded (with_tun && not env.has_admin) _ _
          (IsRecorded-SameRecord
            (SameRecord-require_admin (AdminRequest.start with_tun none) none b) r)
          (start_core-IsRecorded env with_tun b fine (r, e))
