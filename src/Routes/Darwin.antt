-- ===== src/Routes/Darwin.antt =====
-- internal/core/routes.go, the macOS commands; pf_darwin.go; darwin_route_resolve.go,
-- `darwinIsTunLikeInterface`, `darwinPickPhysicalDefaultRouteIPv4`; darwin_netstat_parse.go. What
-- `net.ParseIP` says of a text, and what the tools of the system print, are parameters.
pub mod Primary
pub mod Uplink
use sudoku_desktop.Prelude.{
  ℕ, Bool, true, false, not, ◌&&◌, ◌||◌, List, [], ◌∷◌, ◌++◌, any, String, text_append, str_eq,
  if◌then◌else◌, ltb, ◌==◌, itoa, trim_space, to_lower, has_prefix, map, length,
}
use sudoku_desktop.Config.{TunSettings}
use sudoku_desktop.Routes.{RouteContext, DarwinDnsSnapshot, local_loopback_ipv4}
use sudoku_desktop.Routes.Shell.{shell_join, shell_quote}

-- `darwinIsTunLikeInterface`
unfoldable pub is_tun_like : String → Bool
unfolding trim_space
is_tun_like name = has_prefix (trim_space name) "utun" || has_prefix (trim_space name) "tun"

abbrev pub concat : List String → String
concat [] = ""
concat (s ∷ ss) = text_append s (concat ss)

-- `shellJoin(args...) + " >/dev/null 2>&1 || true"`
abbrev pub quiet : List String → String
quiet args = text_append (shell_join args) " >/dev/null 2>&1 || true"

abbrev pub net_command : String → String → String → List String
net_command verb prefix name = "route" ∷ "-n" ∷ verb ∷ "-net" ∷ prefix ∷ "-interface" ∷ name ∷ []

-- `darwinDeleteTunnelRouteCommands`
unfoldable pub delete_tunnel_routes : String → List String
unfolding trim_space shell_join
delete_tunnel_routes tun_if =
    let name = trim_space tun_if in
    if str_eq name ""
    then []
    else quiet (net_command "delete" "0.0.0.0/1" name)
      ∷ quiet (net_command "delete" "128.0.0.0/1" name)
      ∷ []

-- `darwinAddTunnelRouteCommands`
unfoldable pub add_tunnel_routes : String → List String
unfolding trim_space shell_join
add_tunnel_routes tun_if =
    let name = trim_space tun_if in
    if str_eq name ""
    then []
    else quiet (net_command "delete" "0.0.0.0/1" name)
      ∷ quiet (net_command "delete" "128.0.0.0/1" name)
      ∷ shell_join (net_command "add" "0.0.0.0/1" name)
      ∷ shell_join (net_command "add" "128.0.0.0/1" name)
      ∷ []

abbrev pub scoped_command : String → String → String → String → List String
scoped_command verb name prefix gateway =
    "route" ∷ "-n" ∷ verb ∷ "-net" ∷ "-ifscope" ∷ name ∷ prefix ∷ gateway ∷ []

-- `darwinAddPhysicalBypassRouteCommands`
unfoldable pub add_bypass_routes : String → String → List String
unfolding trim_space shell_join
add_bypass_routes if_name gateway =
    let name = trim_space if_name in
    let gw = trim_space gateway in
    if str_eq name "" || str_eq gw ""
    then []
    else quiet (scoped_command "delete" name "0.0.0.0/1" gw)
      ∷ shell_join (scoped_command "add" name "0.0.0.0/1" gw)
      ∷ quiet (scoped_command "delete" name "128.0.0.0/1" gw)
      ∷ shell_join (scoped_command "add" name "128.0.0.0/1" gw)
      ∷ []

-- `darwinDeletePhysicalBypassRouteCommands`
unfoldable pub delete_bypass_routes : String → String → List String
unfolding trim_space shell_join
delete_bypass_routes if_name gateway =
    let name = trim_space if_name in
    let gw = trim_space gateway in
    if str_eq name "" || str_eq gw ""
    then []
    else quiet (scoped_command "delete" name "0.0.0.0/1" gw)
      ∷ quiet (scoped_command "delete" name "128.0.0.0/1" gw)
      ∷ []

-- `darwinBuildPFSetCmd`, before the trimming of its last separator, where there is a rule to set
unfoldable pub pf_set_command : String → String → Bool → ℕ → String
unfolding trim_space shell_quote itoa
pf_set_command anchor tun_if block_quic port = concat (
    "pfctl -q -e >/dev/null 2>&1 || true; "
    ∷ "pfctl -a "
    ∷ shell_quote (trim_space anchor)
    ∷ " -F all >/dev/null 2>&1 || true; "
    ∷ "cfg_trans=''; cfg_flt=''; "
    ∷ (if ltb 0 port && not (port == 53)
        then concat (
            "cfg_trans=\"${cfg_trans}rdr pass on lo0 inet proto { udp tcp } from any to "
            ∷ local_loopback_ipv4
            ∷ " port 53 -> "
            ∷ local_loopback_ipv4
            ∷ " port "
            ∷ itoa port
            ∷ "\\n\"; "
            ∷ [])
        else "")
    ∷ (if block_quic
        then (if str_eq (trim_space tun_if) ""
            then "cfg_flt=\"${cfg_flt}block drop out proto udp to any port 443\\n\"; "
            else concat (
                "cfg_flt=\"${cfg_flt}block drop out quick on "
                ∷ trim_space tun_if
                ∷ " proto udp to any port 443\\n\"; "
                ∷ []))
        else "")
    ∷ "cfg=\"${cfg_trans}${cfg_flt}\"; "
    ∷ "if [ -n \"$cfg\" ]; then printf \"%b\" \"$cfg\" | pfctl -a "
    ∷ shell_quote (trim_space anchor)
    ∷ " -f - >/dev/null; fi"
    ∷ [])

abbrev pub dns_flush_command : String
dns_flush_command = concat (
    "dscacheutil -flushcache >/dev/null 2>&1 || true; "
    ∷ "killall -HUP mDNSResponder >/dev/null 2>&1 || true" ∷ [])

-- The services to restore: the snapshots, and the service of the context if none of them is its.
-- `strings.EqualFold` is given by the lower case.
unfoldable pub all_snapshots : RouteContext → List DarwinDnsSnapshot
unfolding trim_space to_lower
all_snapshots ctx =
    let svc = trim_space ctx.dns_service in
    let own : DarwinDnsSnapshot = record {
      service = svc;
      servers = ctx.dns_servers;
      was_automatic = ctx.dns_was_automatic;
    } in
    let named : DarwinDnsSnapshot → Bool =
      λ s. str_eq (to_lower (trim_space s.service)) (to_lower svc) in
    if str_eq svc "" || any named ctx.darwin_dns_snapshots
    then ctx.darwin_dns_snapshots
    else ctx.darwin_dns_snapshots ++ own ∷ []

-- The command that gives one service its resolvers back.
unfoldable pub restore_service : DarwinDnsSnapshot → String
unfolding shell_join trim_space
restore_service s =
    let svc = trim_space s.service in
    if s.was_automatic || length s.servers == 0
    then shell_join ("networksetup" ∷ "-setdnsservers" ∷ svc ∷ "Empty" ∷ [])
    else shell_join ("networksetup" ∷ "-setdnsservers" ∷ svc ∷ s.servers)

-- The loop over the snapshots, with the services that were seen: each service once.
unfoldable pub restore_services : List String → List DarwinDnsSnapshot → List String
unfolding restore_service trim_space to_lower
restore_services seen [] = []
restore_services seen (s ∷ ss) =
    let key = to_lower (trim_space s.service) in
    let same = restore_services seen ss in
    let more = restore_services (key ∷ seen) ss in
    if str_eq (trim_space s.service) ""
    then same
    else if any (str_eq key) seen
    then same
    else restore_service s ∷ more

-- `teardownRoutesDarwin`; `actual` is what `darwinFindTunInterfaceByIPv4` finds, or empty
unfoldable pub tear_down_darwin : RouteContext → TunSettings → String → List String
unfolding delete_tunnel_routes delete_bypass_routes all_snapshots restore_services trim_space
tear_down_darwin ctx tun actual =
    let tun_if =
      if str_eq (trim_space actual) "" then trim_space tun.interface_name else trim_space actual in
    let snaps = all_snapshots ctx in
    delete_tunnel_routes tun_if
    ++ (delete_bypass_routes ctx.default_interface ctx.default_gateway
        ++ (map (λ ip. quiet ("route" ∷ "-n" ∷ "delete" ∷ "-host" ∷ ip ∷ [])) ctx.server_ips
            ++ ((if length snaps == 0
                  then []
                  else restore_services [] snaps ++ dns_flush_command ∷ [])
                ++ (if str_eq (trim_space ctx.pf_anchor) ""
                    then []
                    else quiet ("pfctl" ∷ "-a" ∷ trim_space ctx.pf_anchor ∷ "-F" ∷ "all" ∷ [])
                      ∷ []))))
