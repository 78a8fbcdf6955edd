-- ===== src/Config.antt =====
-- internal/core/model.go: the configuration of the app. A nil slice and an empty one are the same
-- list here; Go's `int` is ℤ; `*bool` is an Option.
pub mod Rules
pub mod Normalize
mod Tests
use sudoku_desktop.Prelude.{Bool, List, Option, String, ℤ}

pub record HttpMaskSettings : Type 0 where
  pub disable : Bool
  pub mode : String
  pub tls : Bool
  pub host : String
  pub path_root : String
  pub multiplex : String

pub record NodeConfig : Type 0 where
  pub id : String
  pub name : String
  pub server_address : String
  pub key : String
  pub aead : String
  pub ascii : String
  pub padding_min : ℤ
  pub padding_max : ℤ
  pub enable_pure_downlink : Bool
  pub custom_table : String
  pub custom_tables : List String
  pub multiplex : String
  pub http_mask : HttpMaskSettings

pub record ReverseRoute : Type 0 where
  pub path : String
  pub target : String
  pub strip_prefix : Option Bool
  pub host_header : String

pub record ReverseClientSettings : Type 0 where
  pub client_id : String
  pub routes : List ReverseRoute

pub record RoutingSettings : Type 0 where
  pub proxy_mode : String
  pub rule_urls : List String
  pub custom_rules_enabled : Bool
  pub custom_rules : String

pub record TunSettings : Type 0 where
  pub enabled : Bool
  pub interface_name : String
  pub mtu : ℤ
  pub ipv4 : String
  pub ipv6 : String
  pub block_quic : Bool
  pub socks_udp : String
  pub socks_mark : ℤ
  pub route_table : ℤ
  pub log_level : String
  pub map_dns_enabled : Bool
  pub map_dns_address : String
  pub map_dns_port : ℤ
  pub map_dns_network : String
  pub map_dns_netmask : String
  pub task_stack_size : ℤ
  pub tcp_buffer_size : ℤ
  pub max_session : ℤ
  pub connect_timeout : ℤ

pub record CoreSettings : Type 0 where
  pub sudoku_binary : String
  pub hev_binary : String
  pub working_dir : String
  pub log_level : String
  pub auto_start : Bool
  pub allow_lan : Bool

pub record ControllerSettings : Type 0 where
  pub port : ℤ
  pub secret : String
  pub allow_lan : Bool

pub record ReverseForwarderSettings : Type 0 where
  pub dial_url : String
  pub listen_addr : String
  pub insecure : Bool

pub record PortForwardRule : Type 0 where
  pub id : String
  pub name : String
  pub listen : String
  pub target : String
  pub enabled : Bool

pub record UiSettings : Type 0 where
  pub language : String
  pub theme : String
  pub launch_at_login : Bool

pub record AppConfig : Type 0 where
  pub version : ℤ
  pub active_node_id : String
  pub nodes : List NodeConfig
  pub routing : RoutingSettings
  pub tun : TunSettings
  pub core : CoreSettings
  pub controller : ControllerSettings
  pub reverse_client : ReverseClientSettings
  pub reverse_forward : ReverseForwarderSettings
  pub port_forwards : List PortForwardRule
  pub ui : UiSettings
  pub last_started_node : String

-- `ProxyPort`, `DefaultControllerPort`, `BalanceNodeID`
abbrev pub proxy_port : ℤ
proxy_port = ℤ.pos 10233

abbrev pub default_controller_port : ℤ
default_controller_port = ℤ.pos 9097

abbrev pub balance_node_id : String
balance_node_id = "@balance"
