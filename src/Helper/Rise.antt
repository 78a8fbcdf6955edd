-- ===== src/Helper/Rise.antt =====
-- internal/core/helper_server.go: `bringUp`, `healthCheck`, `wantSplitDNS`.
use sudoku_desktop.Prelude.{
  ℕ, Bool, true, false, not, ◌&&◌, ◌||◌, List, [], ◌∷◌, Option, none, some, String, text_append,
  str_eq, if◌then◌else◌, ◌==◌, length, trim_space,
}
use sudoku_desktop.Failure.{Failure, Result, ok, err, new_error, wrap}
use sudoku_desktop.Plan.{TunPlan}
use sudoku_desktop.Routes.{
  RoutePlan, RouteContext, local_loopback_ipv4, local_dns_proxy_redirect_port,
}
use sudoku_desktop.Helper.{Session, Helper, Env}
use sudoku_desktop.Helper.Steps.{change, save_state}

-- A session that comes up, and the helper that it is in.
pub record Rising : Type 0 where
  pub sess : Session
  pub helper : Helper

abbrev pub Stage : Type 0
Stage = Rising → Rising × Option Failure

infixl 5 ◌>>◌
abbrev pub ◌>>◌ : Stage → Stage → Stage
◌>>◌ m k u = let (u', r) = m u in elim r [ none ↦ k u' | some e ↦ (u', some e) ]

abbrev pub check : Option Failure → Stage
check r u = (u, r)

-- `wantSplitDNS`
unfoldable pub want_split_dns : Env → TunPlan → Bool
unfolding local_dns_proxy_redirect_port
want_split_dns env p =
    if not (str_eq p.mode "pac") || not p.tun.map_dns_enabled || length p.direct_rule_urls == 0
    then false
    else if str_eq env.goos "darwin" || str_eq env.goos "windows"
    then true
    else if str_eq env.goos "linux"
    then local_dns_proxy_redirect_port env.goos local_loopback_ipv4 == 0 || env.has_iptables
    else false

unfoldable pub resolve_servers : Env → Stage
resolve_servers env u =
    let ips = env.resolve u.sess.plan.server_addrs in
    (
      record u { sess = record (u.sess) { server_ip = ips } },
      if length ips == 0
          then some (new_error "could not resolve any server address to IPv4")
          else none,
    )

unfoldable pub start_split_dns : Env → Stage
unfolding want_split_dns
start_split_dns env u =
    if want_split_dns env u.sess.plan
    then elim env.split_dns [
      | some e ↦ (u, none)
      | none ↦ (record u { sess = record (u.sess) { dns = true; feeder = true } }, none)
    ]
    else (u, none)

-- `withTailText`
unfoldable pub with_tail_text : String → String → Failure
with_tail_text msg tail =
    if str_eq tail "" then new_error msg else new_error (text_append msg (text_append ":\n" tail))

unfoldable pub start_hev : Env → Stage
unfolding save_state
start_hev env u = elim env.start_hev [
  | err e ↦ (u, some e)
  | ok pid ↦
      let s = record (u.sess) { hev_pid = pid } in
      (
        record u {
          sess = s;
          helper = save_state env 0 s (change (λ y. record y { hev = some pid }) u.helper);
        },
        none,
      )
]

-- The wait for the tunnel process, and the name of its interface.
unfoldable pub name_interface : Env → Stage
name_interface env u =
    let s = u.sess in
    let named =
      if str_eq env.goos "darwin" && not (str_eq env.actual_interface "")
      then record s {
        tun = record (s.tun) { interface_name = env.actual_interface };
        iface = env.actual_interface;
      }
      else record s { iface = s.tun.interface_name } in
    (record u { sess = named }, none)

-- The resolver for the system, and the port to which DNS is redirected.
unfoldable pub system_dns : Env → Session → String × ℕ
unfolding local_dns_proxy_redirect_port trim_space
system_dns env s =
    if s.dns
    then (local_loopback_ipv4, local_dns_proxy_redirect_port env.goos local_loopback_ipv4)
    else if s.tun.map_dns_enabled
    then (trim_space s.tun.map_dns_address, 0)
    else ("", 0)

-- The callback that `setupRoutes` calls before it changes anything.
unfoldable pub prepared : Env → RouteContext → Rising → Rising
unfolding save_state
prepared env rc u =
    let s = u.sess in
    let s' = record s {
      routes = some rc;
      iface = if str_eq rc.tun_alias "" then s.iface else rc.tun_alias;
    } in
    record u { sess = s'; helper = save_state env 1 s' u.helper }

-- The rest of `setupRoutes`: a batch that fails is rolled back.
unfoldable pub run_routes : Env → RouteContext → Stage
run_routes env rc u =
    let h = change (λ y. record y { changed = some rc }) u.helper in
    elim (env.run_routes rc) [
      | none ↦ (record u { helper = h }, none)
      | some e ↦ elim (env.rollback rc) [
        | none ↦ (record u { helper = change (λ y. record y { changed = none }) h }, some e)
        | some e' ↦ (record u { helper = h }, some e)
      ]
    ]

abbrev pub route_plan : Env → Session → RoutePlan
route_plan env s = record {
  tun = s.tun;
  server_ips = s.server_ip;
  system_dns = (system_dns env s).0;
  dns_redirect_port = (system_dns env s).1;
}

-- The journal that is written once the routes are set.
unfoldable pub save_last : Env → Stage
unfolding save_state
save_last env u = (record u { helper = save_state env 2 u.sess u.helper }, none)

-- The call of `setupRoutes`, given what `prepare_routes` answers
unfoldable pub routes_from : Env → Result RouteContext → Stage
unfolding prepared run_routes save_last
routes_from env (err e) u = (u, some e)
routes_from env (ok rc) u = (run_routes env rc >> save_last env) (prepared env rc u)

unfoldable pub set_up_routes : Env → Stage
unfolding system_dns routes_from
set_up_routes env u = routes_from env (env.prepare_routes (route_plan env u.sess)) u

abbrev pub guarded : Bool → String → Option Failure → Option Failure
guarded needed prefix r =
    if needed then (elim r [ none ↦ none | some e ↦ some (wrap prefix e) ]) else none

-- `healthCheck`; the probe of the direct path only logs.
unfoldable pub health_check : Env → Stage
health_check env u =
    let mode = u.sess.plan.mode in
    (check (guarded true "core proxy not reachable: " env.proxy_ready)
        >> check (
            guarded (str_eq mode "global" || str_eq mode "pac") "proxy path check failed: "
              env.proxy_path)
        >> check (guarded u.sess.tun.map_dns_enabled "DNS check failed: " env.dns_check))
      u

-- Stages one after the other, up to the first that fails.
unfoldable pub run_stages : List Stage → Stage
run_stages [] u = (u, none)
run_stages (m ∷ ms) u = (m >> run_stages ms) u

-- `bringUp`, down to the routes
abbrev pub tunnel_stages : Env → List Stage
tunnel_stages env =
    check env.make_dirs
    ∷ check env.install_hev
    ∷ resolve_servers env
    ∷ start_split_dns env
    ∷ check env.write_hev_config
    ∷ start_hev env
    ∷ check env.cancelled
    ∷ check (if env.hev_exited then some (with_tail_text "hev exited early" env.hev_tail) else none)
    ∷ name_interface env
    ∷ []

-- `bringUp`
unfoldable pub bring_up : Env → Stage
unfolding run_stages resolve_servers start_split_dns start_hev with_tail_text name_interface
    set_up_routes health_check
bring_up env = run_stages (tunnel_stages env) >> (set_up_routes env >> health_check env)
