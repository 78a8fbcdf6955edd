-- ===== src/Kernel.antt =====
-- internal/core/runtime_config.go: what is rendered for the core, one client configuration for each
-- node, and for the tunnel program hev.
pub mod Client
pub mod Start
pub mod Names
pub mod Files
mod Tests
use sudoku_desktop.Prelude.{
  ◌+◌, Bool, true, false, List, [], ◌∷◌, Option, none, some, String, text_append, str_eq,
  if◌then◌else◌, ℤ, pos, nonpos, ltb_ℤ, trim_space,
}
use sudoku_desktop.Failure.{Failure, Result, ok, err, new_error}
use sudoku_desktop.Config.{
  NodeConfig, TunSettings, CoreSettings, ControllerSettings, ReverseRoute, ReverseClientSettings,
  proxy_port,
}
use sudoku_desktop.Config.Normalize.{Platform, normalize_ascii, is_blank, or_default}

-- `sudokuHTTPMask`
pub record SudokuHttpMask : Type 0 where
  pub disable : Bool
  pub mode : String
  pub tls : Bool
  pub host : String
  pub path_root : String

-- `sudokuReverse`; a route has the fields of `ReverseRoute`.
pub record SudokuReverse : Type 0 where
  pub client_id : String
  pub routes : List ReverseRoute

-- `sudokuClientConfig`
pub record SudokuClientConfig : Type 0 where
  pub name : String
  pub mode : String
  pub transport : String
  pub local_port : ℤ
  pub local_address : String
  pub server_address : String
  pub key : String
  pub aead : String
  pub padding_min : ℤ
  pub padding_max : ℤ
  pub custom_table : String
  pub custom_tables : List String
  pub ascii : String
  pub enable_pure_downlink : Bool
  pub multiplex : String
  pub http_mask : SudokuHttpMask
  pub rule_urls : List String
  pub reverse : Option SudokuReverse
  pub external_controller : String
  pub secret : String

abbrev pub client_max : ℤ → ℤ
client_max hi = if nonpos hi then pos 15 else hi

abbrev pub client_min : ℤ → ℤ → ℤ
client_min lo hi = if ltb_ℤ hi lo then hi else lo

unfoldable pub client_config : Platform → NodeConfig → SudokuClientConfig
client_config pl node = record {
  name = trim_space node.name;
  mode = "client";
  transport = "tcp";
  local_port = proxy_port;
  local_address = "";
  server_address = trim_space node.server_address;
  key = trim_space node.key;
  aead = or_default (trim_space node.aead) "chacha20-poly1305";
  padding_min = client_min node.padding_min (client_max node.padding_max);
  padding_max = client_max node.padding_max;
  custom_table = trim_space node.custom_table;
  custom_tables = node.custom_tables;
  ascii = normalize_ascii pl node.ascii;
  enable_pure_downlink = node.enable_pure_downlink;
  multiplex = or_default (trim_space node.multiplex) "off";
  http_mask = record {
    disable = node.http_mask.disable;
    mode = or_default (trim_space node.http_mask.mode) "legacy";
    tls = node.http_mask.tls;
    host = trim_space node.http_mask.host;
    path_root = trim_space node.http_mask.path_root;
  };
  rule_urls = "global" ∷ [];
  reverse = none;
  external_controller = "";
  secret = "";
}

-- `buildSudokuClientConfig`
unfoldable pub build_sudoku_client_config : Platform → NodeConfig → Result SudokuClientConfig
unfolding client_config
build_sudoku_client_config pl node =
    if is_blank node.server_address
    then err (new_error "server address is empty")
    else if is_blank node.key
    then err (new_error "key is empty")
    else ok (client_config pl node)

-- `proxyListenAddress`
unfoldable pub proxy_listen_address : CoreSettings → String
proxy_listen_address core = if core.allow_lan then "" else "127.0.0.1"

-- The loop of `buildKernelConfigs`: the first node that cannot be rendered ends it, with its name (`%q`
-- of the name is left out of the error).
unfoldable pub render_nodes :
    Platform → CoreSettings → List NodeConfig → Result (List SudokuClientConfig)
render_nodes pl core [] = ok []
render_nodes pl core (n ∷ ns) =
    let rest = render_nodes pl core ns in
    elim (build_sudoku_client_config pl n) [
      | err e ↦ err e
      | ok c ↦ elim rest [
        | err e ↦ err e
        | ok cs ↦ ok (record c { local_address = proxy_listen_address core } ∷ cs)
      ]
    ]

-- `hevTunnelSection`, `hevSocks5Section`, `hevMapDNSSection`, `hevMiscSection`
pub record HevTunnel : Type 0 where
  pub name : String
  pub mtu : ℤ
  pub multi_queue : Bool
  pub ipv4 : String
  pub ipv6 : String

pub record HevSocks5 : Type 0 where
  pub port : ℤ
  pub address : String
  pub udp : String
  pub mark : ℤ
  pub tcp_fastopen : Bool

pub record HevMapDns : Type 0 where
  pub address : String
  pub port : ℤ
  pub network : String
  pub netmask : String
  pub cache_size : ℤ

pub record HevMisc : Type 0 where
  pub task_stack_size : ℤ
  pub tcp_buffer_size : ℤ
  pub max_session_count : ℤ
  pub connect_timeout : ℤ
  pub log_file : String
  pub log_level : String

-- `hevTunnelConfig`
pub record HevTunnelConfig : Type 0 where
  pub tunnel : HevTunnel
  pub socks5 : HevSocks5
  pub map_dns : Option HevMapDns
  pub misc : HevMisc

-- `buildHevConfig`
unfoldable pub build_hev_config : TunSettings → HevTunnelConfig
build_hev_config t = record {
  tunnel = record {
    name = t.interface_name;
    mtu = t.mtu;
    multi_queue = false;
    ipv4 = t.ipv4;
    ipv6 = t.ipv6;
  };
  socks5 = record {
    port = proxy_port;
    address = "127.0.0.1";
    udp = or_default (trim_space t.socks_udp) "udp";
    mark = t.socks_mark;
    tcp_fastopen = true;
  };
  map_dns =
      if t.map_dns_enabled
      then some (record {
        address = t.map_dns_address;
        port = t.map_dns_port;
        network = t.map_dns_network;
        netmask = t.map_dns_netmask;
        cache_size = pos 10000;
      })
      else none;
  misc = record {
    task_stack_size = t.task_stack_size;
    tcp_buffer_size = t.tcp_buffer_size;
    max_session_count = t.max_session;
    connect_timeout = t.connect_timeout;
    log_file = "stderr";
    log_level = or_default (trim_space t.log_level) "warn";
  };
}
