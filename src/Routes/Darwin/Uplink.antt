-- ===== src/Routes/Darwin/Uplink.antt =====
-- internal/core/routes.go, `setupRoutesDarwin`: the gateway and the interface behind the tunnel, and
-- the batch of the setup.
use sudoku_desktop.Prelude.{
  Bool, false, not, ◌&&◌, ◌||◌, List, [], ◌∷◌, ◌++◌, Option, none, some, String, str_eq,
  if◌then◌else◌, ltb, trim_space, map,
}
use sudoku_desktop.Failure.{Result, ok, err, new_error}
use sudoku_desktop.Config.{TunSettings}
use sudoku_desktop.Routes.{
  RouteContext, DarwinDnsSnapshot, local_dns_proxy_active, local_dns_proxy_redirect_port,
}
use sudoku_desktop.Routes.Shell.{shell_join}
use sudoku_desktop.Routes.Darwin.{
  is_tun_like, concat, add_tunnel_routes, add_bypass_routes, pf_set_command, dns_flush_command,
}

-- `darwinNetstatRoute`
pub record NetstatRoute : Type 0 where
  pub destination : String
  pub gateway : String
  pub flags : String
  pub netif : String

abbrev is_header : List String → Bool
is_header (a ∷ b ∷ rest) = str_eq a "Destination" && str_eq b "Gateway"
is_header _ = false

abbrev row : List String → List NetstatRoute
row (a ∷ b ∷ c ∷ d ∷ rest) = record { destination = a; gateway = b; flags = c; netif = d } ∷ []
row _ = []

-- `parseDarwinNetstatRoutes`, given the fields of each line; `in_table` once a header was seen.
unfoldable pub parse_netstat : Bool → List (List String) → List NetstatRoute
parse_netstat in_table [] = []
parse_netstat in_table (fields ∷ lines) =
    let rest = parse_netstat (in_table || is_header fields) lines in
    if not in_table || is_header fields then rest else row fields ++ rest

-- What the tools of the system say: `darwinPrimaryNetworkInfo`, the table of `netstat`, the
-- interface that bypasses the tunnel, the router of DHCP, `route get default`, the network service
-- of a device and its resolvers; and which texts are IPv4 addresses, and ones that can be routed to.
pub record DarwinMachine : Type 0 where
  pub router4 : String
  pub interface4 : String
  pub netstat : Option (List (List String))
  pub bypass_interface : String
  pub dhcp_router : String → Option String
  pub default_route : Option (String × String)
  pub service_of : String → Option String
  pub dns_of : String → Option (List String × Bool)
  pub is_ipv4 : String → Bool
  pub is_usable : String → Bool

-- `darwinPickPhysicalDefaultRouteIPv4`
unfoldable pub pick_physical_route : (String → Bool) → List NetstatRoute → String × String
unfolding is_tun_like trim_space
pick_physical_route is_ipv4 [] = ("", "")
pick_physical_route is_ipv4 (r ∷ rs) =
    let rest = pick_physical_route is_ipv4 rs in
    if not (str_eq r.destination "default")
    then rest
    else if is_tun_like r.netif
    then rest
    else if not (is_ipv4 (trim_space r.gateway))
    then rest
    else (trim_space r.gateway, trim_space r.netif)

-- What is known so far: the gateway and the interface, each empty until it is found.
abbrev pub Uplink : Type 0
Uplink = String × String

-- The interface, unless it is one of a tunnel.
unfoldable pub physical : String → String
unfolding is_tun_like
physical name = if is_tun_like name then "" else name

abbrev pub or_found : String → String → String
or_found a b = if str_eq a "" then b else a

unfoldable pub by_netstat : DarwinMachine → Uplink → Uplink
unfolding parse_netstat pick_physical_route trim_space
by_netstat m u = elim m.netstat [
  | none ↦ u
  | some lines ↦
      let (g, name) = pick_physical_route m.is_ipv4 (parse_netstat false lines) in
      if (str_eq u.0 "" || str_eq u.1 "")
        && not (str_eq (trim_space g) "")
        && not (str_eq (trim_space name) "")
      then (or_found u.0 (trim_space g), or_found u.1 (trim_space name))
      else u
]

unfoldable pub by_bypass : DarwinMachine → Uplink → Uplink
unfolding physical trim_space
by_bypass m u = if str_eq u.1 "" then (u.0, physical (trim_space m.bypass_interface)) else u

unfoldable pub by_dhcp : DarwinMachine → Uplink → Uplink
unfolding is_tun_like trim_space
by_dhcp m u =
    if str_eq u.0 "" && not (str_eq u.1 "") && not (is_tun_like u.1)
    then elim (m.dhcp_router u.1) [ none ↦ u | some g ↦ (trim_space g, u.1) ]
    else u

unfoldable pub by_default_route : DarwinMachine → Uplink → Uplink
unfolding is_tun_like trim_space
by_default_route m u = elim m.default_route [
  | none ↦ u
  | some (g, name) ↦
      if str_eq u.0 "" || str_eq u.1 ""
      then (
        (if str_eq u.0 "" && m.is_usable (trim_space g) then trim_space g else u.0),
        (if str_eq u.1 ""
              && not (str_eq (trim_space name) "")
              && not (is_tun_like (trim_space name))
            then trim_space name
            else u.1),
      )
      else u
]

-- The search of `setupRoutesDarwin`, by one tool after the other
unfoldable pub search_uplink : DarwinMachine → Uplink
unfolding by_netstat by_bypass by_dhcp by_default_route physical trim_space
search_uplink m =
    let given : Uplink = (trim_space m.router4, physical (trim_space m.interface4)) in
    by_default_route m (by_dhcp m (by_bypass m (by_netstat m given)))

unfoldable pub checked : Uplink → Result Uplink
unfolding trim_space
checked u =
    if str_eq (trim_space u.0) ""
    then err (new_error "default gateway not found")
    else if str_eq (trim_space u.1) ""
    then err (new_error "default interface not found")
    else ok (trim_space u.0, trim_space u.1)

unfoldable pub find_uplink : DarwinMachine → Result Uplink
unfolding search_uplink checked
find_uplink m = checked (search_uplink m)

-- What is known of the service whose resolver is switched.
unfoldable pub with_dns : DarwinMachine → TunSettings → RouteContext → RouteContext × List String
unfolding trim_space shell_join local_dns_proxy_active local_dns_proxy_redirect_port
with_dns m tun ctx =
    let addr = trim_space tun.map_dns_address in
    if tun.map_dns_enabled && not (str_eq addr "") && not (str_eq ctx.default_interface "")
    then elim (m.service_of ctx.default_interface) [
      | none ↦ (ctx, [])
      | some svc ↦
          let before : List String × Bool = elim (m.dns_of svc) [
            | none ↦ (ctx.dns_servers, ctx.dns_was_automatic)
            | some found ↦ found
          ] in
          let snapshot : DarwinDnsSnapshot = record {
            service = svc;
            servers = before.0;
            was_automatic = before.1;
          } in
          if str_eq (trim_space svc) "" then (ctx, []) else (
            record ctx {
              dns_service = svc;
              dns_override_address = addr;
              dns_proxy_redirect_port =
                  if local_dns_proxy_active tun
                  then local_dns_proxy_redirect_port "darwin" addr
                  else ctx.dns_proxy_redirect_port;
              dns_servers = before.0;
              dns_was_automatic = before.1;
              darwin_dns_snapshots = ctx.darwin_dns_snapshots ++ snapshot ∷ [];
            },
            shell_join ("networksetup" ∷ "-setdnsservers" ∷ svc ∷ addr ∷ [])
                ∷ dns_flush_command
                ∷ [],
          )
    ]
    else (ctx, [])

abbrev host_command : String → String → String
host_command gw ip = concat (
    shell_join ("route" ∷ "-n" ∷ "add" ∷ "-host" ∷ ip ∷ gw ∷ [])
    ∷ " || "
    ∷ shell_join ("route" ∷ "-n" ∷ "change" ∷ "-host" ∷ ip ∷ gw ∷ [])
    ∷ [])

-- `setupRoutesDarwin`, down to the call of `prepared`: the context and the batch to run.
unfoldable pub set_up_darwin :
    DarwinMachine → RouteContext → TunSettings → Result (RouteContext × List String)
unfolding find_uplink with_dns pf_set_command add_tunnel_routes add_bypass_routes
set_up_darwin m ctx tun = elim (find_uplink m) [
  | err e ↦ err e
  | ok (gw, name) ↦
      let (ctx', dns) =
        with_dns m tun (record ctx { default_gateway = gw; default_interface = name }) in
      let filtered = tun.block_quic || ltb 0 ctx'.dns_proxy_redirect_port in
      let anchor : String = "com.apple/sudoku4x4.tun" in
      ok (
        (if filtered then record ctx' { pf_anchor = anchor } else ctx'),
        map (host_command gw) ctx.server_ips
            ++ (add_tunnel_routes (trim_space tun.interface_name)
                ++ (add_bypass_routes name gw
                    ++ ((if filtered
                          then pf_set_command anchor tun.interface_name tun.block_quic
                              ctx'.dns_proxy_redirect_port
                            ∷ []
                          else [])
                        ++ dns))),
      )
]
