-- ===== src/Nodes/Compare.antt =====
-- backend_config_nodes.go, `configChangeRequiresRestart`: what of a configuration the core or the tunnel
-- reads only at its launch. `reflect.DeepEqual` is equality field by field; it tells a nil slice from an
-- empty one, which are one list here.
use sudoku_desktop.Prelude.{
  Bool, true, false, not, ◌&&◌, ◌||◌, List, [], ◌∷◌, Option, none, some, str_eq, eqb_ℤ,
  if◌then◌else◌, trim_space,
}
use sudoku_desktop.Config.{
  HttpMaskSettings, NodeConfig, ReverseRoute, ReverseClientSettings, RoutingSettings, TunSettings,
  CoreSettings, ControllerSettings, AppConfig,
}

abbrev pub bool_eq : Bool → Bool → Bool
bool_eq a b = if a then b else not b

module _ {ℓ} {A : Type ℓ} (eq : A → A → Bool) where
  abbrev pub list_eq : List A → List A → Bool
  list_eq [] [] = true
  list_eq [] (y ∷ ys) = false
  list_eq (x ∷ xs) [] = false
  list_eq (x ∷ xs) (y ∷ ys) = eq x y && list_eq xs ys

  abbrev pub option_eq : Option A → Option A → Bool
  option_eq none none = true
  option_eq none (some y) = false
  option_eq (some x) none = false
  option_eq (some x) (some y) = eq x y

unfoldable pub mask_eq : HttpMaskSettings → HttpMaskSettings → Bool
mask_eq a b =
    bool_eq a.disable b.disable
    && str_eq a.mode b.mode
    && bool_eq a.tls b.tls
    && str_eq a.host b.host
    && str_eq a.path_root b.path_root
    && str_eq a.multiplex b.multiplex

unfoldable pub node_eq : NodeConfig → NodeConfig → Bool
unfolding mask_eq
node_eq a b =
    str_eq a.id b.id
    && str_eq a.name b.name
    && str_eq a.server_address b.server_address
    && str_eq a.key b.key
    && str_eq a.aead b.aead
    && str_eq a.ascii b.ascii
    && eqb_ℤ a.padding_min b.padding_min
    && eqb_ℤ a.padding_max b.padding_max
    && bool_eq a.enable_pure_downlink b.enable_pure_downlink
    && str_eq a.custom_table b.custom_table
    && list_eq str_eq a.custom_tables b.custom_tables
    && str_eq a.multiplex b.multiplex
    && mask_eq a.http_mask b.http_mask

unfoldable pub controller_eq : ControllerSettings → ControllerSettings → Bool
controller_eq a b =
    eqb_ℤ a.port b.port && str_eq a.secret b.secret && bool_eq a.allow_lan b.allow_lan

unfoldable pub route_eq : ReverseRoute → ReverseRoute → Bool
route_eq a b =
    str_eq a.path b.path
    && str_eq a.target b.target
    && option_eq bool_eq a.strip_prefix b.strip_prefix
    && str_eq a.host_header b.host_header

unfoldable pub reverse_eq : ReverseClientSettings → ReverseClientSettings → Bool
unfolding route_eq
reverse_eq a b = str_eq a.client_id b.client_id && list_eq route_eq a.routes b.routes

-- `pt != nt`, with `Enabled` put out on both sides
unfoldable pub tun_eq : TunSettings → TunSettings → Bool
tun_eq a b =
    str_eq a.interface_name b.interface_name
    && eqb_ℤ a.mtu b.mtu
    && str_eq a.ipv4 b.ipv4
    && str_eq a.ipv6 b.ipv6
    && bool_eq a.block_quic b.block_quic
    && str_eq a.socks_udp b.socks_udp
    && eqb_ℤ a.socks_mark b.socks_mark
    && eqb_ℤ a.route_table b.route_table
    && str_eq a.log_level b.log_level
    && bool_eq a.map_dns_enabled b.map_dns_enabled
    && str_eq a.map_dns_address b.map_dns_address
    && eqb_ℤ a.map_dns_port b.map_dns_port
    && str_eq a.map_dns_network b.map_dns_network
    && str_eq a.map_dns_netmask b.map_dns_netmask
    && eqb_ℤ a.task_stack_size b.task_stack_size
    && eqb_ℤ a.tcp_buffer_size b.tcp_buffer_size
    && eqb_ℤ a.max_session b.max_session
    && eqb_ℤ a.connect_timeout b.connect_timeout

unfoldable pub routing_eq : RoutingSettings → RoutingSettings → Bool
routing_eq a b =
    list_eq str_eq a.rule_urls b.rule_urls
    && bool_eq a.custom_rules_enabled b.custom_rules_enabled
    && str_eq (trim_space a.custom_rules) (trim_space b.custom_rules)

unfoldable pub core_eq : CoreSettings → CoreSettings → Bool
core_eq a b =
    str_eq a.log_level b.log_level
    && str_eq a.working_dir b.working_dir
    && str_eq a.sudoku_binary b.sudoku_binary
    && bool_eq a.allow_lan b.allow_lan

-- `configChangeRequiresRestart`
unfoldable pub config_change_requires_restart : AppConfig → AppConfig → Bool
unfolding node_eq controller_eq reverse_eq routing_eq tun_eq core_eq
config_change_requires_restart prev next =
    if not (list_eq node_eq prev.nodes next.nodes)
      || not (controller_eq prev.controller next.controller)
      || not (reverse_eq prev.reverse_client next.reverse_client)
    then true
    else if not (routing_eq prev.routing next.routing)
    then true
    else if not (tun_eq prev.tun next.tun)
    then true
    else not (core_eq prev.core next.core)
