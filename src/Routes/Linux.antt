-- ===== src/Routes/Linux.antt =====
-- internal/core/routes.go, `setupRoutesLinux`, `teardownRoutesLinux`: the commands, in the order in
-- which one batch runs them.
use sudoku_desktop.Prelude.{
  ℕ, Bool, not, ◌&&◌, List, [], ◌∷◌, ◌++◌, String, str_eq, if◌then◌else◌, ltb, trim_space, map,
}
use sudoku_desktop.Failure.{Result, ok, err, new_error}
use sudoku_desktop.Config.{TunSettings}
use sudoku_desktop.Routes.{RouteContext, local_dns_proxy_active, local_dns_proxy_redirect_port}
use sudoku_desktop.Routes.Command.{
  LinuxCommand, add_server_rule, del_server_rule, add_source_rule, del_source_rule, block_quic,
  unblock_quic, unblock_quic6, add_redirect, del_redirect, link_dns, link_domain, revert_link,
  flush_caches, flush_any_cache, save_resolv_conf, restore_resolv_conf, write_resolv_conf,
  rp_filter_off, add_mark_rule, del_mark_rule, del_mark_rule6, add_default_route, del_default_route,
  del_default_route6, add_table_rule, del_table_rule, del_table_rule6,
}

-- What the setup finds on the machine: the commands that are installed, and the address from which
-- the default route sends (`linuxDefaultOutboundIPv4`).
pub record Machine : Type 0 where
  pub has_command : String → Bool
  pub outbound_ipv4 : Result String

abbrev pub source_ip : Result String → String
source_ip (ok ip) = trim_space ip
source_ip (err e) = ""

abbrev pub resolv_conf_backup_path : String
resolv_conf_backup_path = "/run/sudoku4x4-resolv.conf.bak"

-- What stands in the batch for the resolver of the system.
unfoldable pub dns_commands : Machine → TunSettings → String → List LinuxCommand
dns_commands m tun addr =
    if m.has_command "resolvectl"
    then link_dns tun.interface_name addr ∷ link_domain tun.interface_name ∷ flush_caches ∷ []
    else save_resolv_conf resolv_conf_backup_path ∷ write_resolv_conf addr ∷ flush_any_cache ∷ []

abbrev pub dns_context : Machine → String → RouteContext → RouteContext
dns_context m addr ctx =
    if m.has_command "resolvectl"
    then record ctx { dns_override_address = addr; linux_dns_mode = "resolvectl" }
    else record ctx {
      dns_override_address = addr;
      linux_dns_mode = "resolvconf";
      linux_resolv_conf_backup = resolv_conf_backup_path;
    }

abbrev pub redirect_commands : ℕ → List LinuxCommand
redirect_commands port =
    if ltb 0 port then add_redirect "udp" port ∷ add_redirect "tcp" port ∷ [] else []

-- The last commands of the batch: the policy rules and the route of the tunnel's table.
unfoldable pub policy_commands : TunSettings → List LinuxCommand
policy_commands tun =
    rp_filter_off "all"
    ∷ rp_filter_off tun.interface_name
    ∷ add_mark_rule tun.socks_mark
    ∷ add_default_route tun.interface_name tun.route_table
    ∷ add_table_rule tun.route_table
    ∷ []

-- What the part on DNS adds to the context and the batch, or why the setup is refused.
unfoldable pub prepare_dns :
    Machine → TunSettings → RouteContext → Result (RouteContext × List LinuxCommand)
unfolding dns_commands local_dns_proxy_active local_dns_proxy_redirect_port trim_space
prepare_dns m tun ctx =
    let addr = trim_space tun.map_dns_address in
    let port = local_dns_proxy_redirect_port "linux" addr in
    if tun.map_dns_enabled && not (str_eq addr "")
    then (if local_dns_proxy_active tun
        then (if ltb 0 port && not (m.has_command "iptables")
            then err (new_error "iptables required for linux local dns proxy redirect")
            else ok (
              dns_context m addr (record ctx { dns_proxy_redirect_port = port }),
              redirect_commands port ++ dns_commands m tun addr,
            ))
        else ok (dns_context m addr ctx, dns_commands m tun addr))
    else ok (ctx, [])

-- `setupRoutesLinux`, down to the call of `prepared`: the context and the batch to run.
unfoldable pub set_up_linux :
    Machine → RouteContext → TunSettings → Result (RouteContext × List LinuxCommand)
unfolding prepare_dns policy_commands
set_up_linux m ctx tun =
    let src = source_ip m.outbound_ipv4 in
    let ctx' = if str_eq src "" then ctx else record ctx { linux_outbound_src_ip = src } in
    if not (m.has_command "ip")
    then err (new_error "required command not found on linux: ip")
    else elim (prepare_dns m tun ctx') [
      | err e ↦ err e
      | ok (ctx'', dns) ↦ ok (
        ctx'',
        map add_server_rule ctx.server_ips
            ++ ((if str_eq src "" then [] else add_source_rule src ∷ [])
                ++ ((if tun.block_quic && m.has_command "iptables" then block_quic ∷ [] else [])
                    ++ (dns ++ policy_commands tun))),
      )
    ]

-- The commands that give the resolver of the system back.
unfoldable pub restore_dns : RouteContext → TunSettings → List LinuxCommand
unfolding trim_space
restore_dns ctx tun =
    let path = ctx.linux_resolv_conf_backup in
    let has_backup = not (str_eq (trim_space path) "") in
    if str_eq ctx.linux_dns_mode "resolvectl"
    then revert_link tun.interface_name ∷ flush_caches ∷ []
    else if str_eq ctx.linux_dns_mode "resolvconf" && has_backup
    then restore_resolv_conf path ∷ flush_any_cache ∷ []
    else if str_eq (trim_space ctx.linux_dns_mode) ""
    then revert_link tun.interface_name
      ∷ flush_any_cache
      ∷ (if has_backup then restore_resolv_conf path ∷ [] else [])
    else []

-- The last commands of the teardown, for both families of addresses.
unfoldable pub remove_policy : TunSettings → List LinuxCommand
remove_policy tun =
    del_mark_rule tun.socks_mark
    ∷ del_mark_rule6 tun.socks_mark
    ∷ del_table_rule tun.route_table
    ∷ del_table_rule6 tun.route_table
    ∷ del_default_route tun.interface_name tun.route_table
    ∷ del_default_route6 tun.interface_name tun.route_table
    ∷ []

abbrev pub remove_redirect : ℕ → List LinuxCommand
remove_redirect port =
    if ltb 0 port then del_redirect "udp" port ∷ del_redirect "tcp" port ∷ [] else []

-- `teardownRoutesLinux`, of a context that is there
unfoldable pub tear_down_linux : RouteContext → TunSettings → List LinuxCommand
unfolding restore_dns remove_policy trim_space
tear_down_linux ctx tun =
    let src = ctx.linux_outbound_src_ip in
    map del_server_rule ctx.server_ips
    ++ ((if str_eq (trim_space src) "" then [] else del_source_rule src ∷ [])
        ++ ((if tun.block_quic then unblock_quic ∷ unblock_quic6 ∷ [] else [])
            ++ (restore_dns ctx tun
                ++ (remove_redirect ctx.dns_proxy_redirect_port ++ remove_policy tun))))
