-- ===== src/Routes.antt =====
-- internal/core/routes.go: what the setup of the tunnel's routes is given and what it records, on
-- every platform; local_net.go: the port of the local DNS proxy; system_proxy_util.go,
-- `uniqueStrings`. Log lines are left out.
pub mod Shell
pub mod Command
pub mod Linux
pub mod Darwin
pub mod Windows
pub mod Undo
pub mod Undone
pub mod Physical
mod Tests
use sudoku_desktop.Prelude.{
  ℕ, Bool, true, false, not, ◌&&◌, List, [], ◌∷◌, any, String, str_eq, if◌then◌else◌, ◌==◌,
  trim_space, to_lower,
}
use sudoku_desktop.Config.{TunSettings}

-- `darwinDNSSnapshot`
pub record DarwinDnsSnapshot : Type 0 where
  pub service : String
  pub servers : List String
  pub was_automatic : Bool

-- `routeContext`
pub record RouteContext : Type 0 where
  pub default_gateway : String
  pub default_interface : String
  pub server_ips : List String
  pub tun_index : ℕ
  pub tun_alias : String
  pub dns_service : String
  pub dns_servers : List String
  pub dns_was_automatic : Bool
  pub dns_override_address : String
  pub dns_proxy_redirect_port : ℕ
  pub darwin_dns_snapshots : List DarwinDnsSnapshot
  pub pf_anchor : String
  pub linux_outbound_src_ip : String
  pub linux_dns_mode : String
  pub linux_resolv_conf_backup : String
  pub windows_firewall_rule : String
  pub windows_dns_backup : String
  pub windows_default_if_index : ℕ

-- `routePlan`
pub record RoutePlan : Type 0 where
  pub tun : TunSettings
  pub server_ips : List String
  pub system_dns : String
  pub dns_redirect_port : ℕ

-- The loop of `uniqueStrings` over the rest of the list, with the keys that were seen.
unfoldable pub unique_from : List String → List String → List String
unfolding trim_space to_lower
unique_from seen [] = []
unique_from seen (s ∷ ss) =
    let key = to_lower (trim_space s) in
    let same = unique_from seen ss in
    let more = unique_from (key ∷ seen) ss in
    if str_eq (trim_space s) ""
    then same
    else if any (str_eq key) seen
    then same
    else trim_space s ∷ more

-- `uniqueStrings`
unfoldable pub unique_strings : List String → List String
unfolding unique_from
unique_strings ss = unique_from [] ss

-- `localLoopbackIPv4`
abbrev pub local_loopback_ipv4 : String
local_loopback_ipv4 = "127.0.0.1"

-- `localDNSProxyListenPort`
unfoldable pub local_dns_proxy_listen_port : String → ℕ
local_dns_proxy_listen_port goos = if str_eq goos "windows" then 53 else 1053

-- `localDNSProxyRedirectPort`
unfoldable pub local_dns_proxy_redirect_port : String → String → ℕ
unfolding local_dns_proxy_listen_port trim_space
local_dns_proxy_redirect_port goos system_dns =
    let port = local_dns_proxy_listen_port goos in
    if not (str_eq (trim_space system_dns) local_loopback_ipv4)
    then 0
    else if port == 53
    then 0
    else port

-- `localDNSProxyActive`
unfoldable pub local_dns_proxy_active : TunSettings → Bool
unfolding trim_space
local_dns_proxy_active tun =
    tun.map_dns_enabled && str_eq (trim_space tun.map_dns_address) local_loopback_ipv4

abbrev pub new_context : RouteContext
new_context = record {
  default_gateway = "";
  default_interface = "";
  server_ips = [];
  tun_index = 0;
  tun_alias = "";
  dns_service = "";
  dns_servers = [];
  dns_was_automatic = false;
  dns_override_address = "";
  dns_proxy_redirect_port = 0;
  darwin_dns_snapshots = [];
  pf_anchor = "";
  linux_outbound_src_ip = "";
  linux_dns_mode = "";
  linux_resolv_conf_backup = "";
  windows_firewall_rule = "";
  windows_dns_backup = "";
  windows_default_if_index = 0;
}

-- The context and the settings with which `setupRoutes` calls the setup of the platform.
unfoldable pub first_context : RoutePlan → RouteContext
unfolding unique_strings trim_space
first_context plan = record new_context {
  server_ips = unique_strings plan.server_ips;
  dns_proxy_redirect_port =
      if str_eq (trim_space plan.system_dns) "" then 0 else plan.dns_redirect_port;
}

unfoldable pub route_settings : RoutePlan → TunSettings
unfolding trim_space
route_settings plan = record (plan.tun) {
  map_dns_address = trim_space plan.system_dns;
  map_dns_enabled = not (str_eq (trim_space plan.system_dns) "");
}
