-- ===== src/Config/Normalize.antt =====
-- internal/core/store.go: `normalizeConfigForOS` and what it calls, and util.go's `newID`.
-- Random bytes and the clock are arguments; `GOOS`, the paths under the runtime directory and
-- `NormalizeASCIIMode` of the module sudoku (not in this repository) are the fields of `Platform`.
pub mod Valid
pub mod Stable
use sudoku_desktop.Prelude.{
  ℕ, zero, suc, ◌+◌, Bool, true, false, not, ◌&&◌, ◌||◌, List, [], ◌∷◌, ◌++◌, Option, none, some,
  String, text_append, ltb, ◌==◌, str_eq, if◌then◌else◌, length, any, ℤ, pos, nonpos, negative,
  ltb_ℤ, eqb_ℤ, trim_space, to_lower, hex_encode, format_base36, itoa,
}
use sudoku_desktop.Config.Rules.{
  default_pac_rule_urls, default_reject_source, has_reject_rule_prefix,
}
use sudoku_desktop.Config.{
  HttpMaskSettings, NodeConfig, RoutingSettings, TunSettings, CoreSettings, ControllerSettings,
  PortForwardRule, UiSettings, AppConfig, proxy_port, default_controller_port, balance_node_id,
}

abbrev pub config_version : ℤ
config_version = pos 7

-- What the build and the machine fix: `runtime.GOOS`, the three default paths below the runtime
-- directory, and `NormalizeASCIIMode`, which fails (`none`) on a mode that it does not know.
pub record Platform : Type 0 where
  pub goos : String
  pub sudoku_binary : String
  pub hev_binary : String
  pub workspace : String
  pub normalize_ascii_mode : String → Option String

-- One draw of `newID`: the random bytes, if `rand.Read` succeeds, and the clock.
pub record Draw : Type 0 where
  pub bytes : Option (List ℕ)
  pub unix_nano : ℕ

-- The draws of one normalisation, by the index of the item that they are for.
pub record Draws : Type 0 where
  pub forward : ℕ → Draw
  pub node : ℕ → Draw
  pub secret : Draw

-- `newID`
unfoldable pub new_id : String → Draw → String
new_id prefix d = elim d.bytes [
  | none ↦ text_append prefix (format_base36 d.unix_nano)
  | some bytes ↦ text_append prefix (hex_encode bytes)
]

-- `randomSecret`
unfoldable pub random_secret : Draw → String
unfolding new_id
random_secret d = elim d.bytes [ none ↦ new_id "s" d | some bytes ↦ hex_encode bytes ]

-- `normalizeASCII`
unfoldable pub normalize_ascii : Platform → String → String
normalize_ascii pl s = elim (pl.normalize_ascii_mode s) [ none ↦ "prefer_entropy" | some m ↦ m ]

-- `strings.TrimSpace(s) == ""`
abbrev pub is_blank : String → Bool
is_blank s = str_eq (trim_space s) ""

-- `if s == "" { s = d }`
abbrev pub or_default : String → String → String
or_default s d = if str_eq s "" then d else s

-- `if strings.TrimSpace(s) == "" { s = d }`
abbrev pub or_if_blank : String → String → String
or_if_blank s d = if is_blank s then d else s

-- `if v <= 0 { v = d }`
abbrev pub or_positive : ℤ → ℤ → ℤ
or_positive v d = if nonpos v then d else v

-- `defaultTunSettings`
unfoldable pub default_tun_settings : String → TunSettings
default_tun_settings goos = record {
  enabled = false;
  interface_name = if str_eq goos "darwin" then "tun0" else "sudoku0";
  mtu = pos 8500;
  ipv4 = "198.18.0.1";
  ipv6 = "fc00::1";
  block_quic = str_eq goos "windows";
  socks_udp = "udp";
  socks_mark = pos 438;
  route_table = pos 20;
  log_level = "warn";
  map_dns_enabled = true;
  map_dns_address = "198.18.0.2";
  map_dns_port = pos 53;
  map_dns_network = "198.18.0.0";
  map_dns_netmask = "255.254.0.0";
  task_stack_size = pos 86016;
  tcp_buffer_size = pos 65536;
  max_session = pos 0;
  connect_timeout = pos 10000;
}

-- `switch cfg.Routing.ProxyMode`
unfoldable pub normalize_proxy_mode : String → String
normalize_proxy_mode m =
    if str_eq m "global" || str_eq m "direct" || str_eq m "pac" then m else "pac"

-- The PAC defaults of a cleared list.
unfoldable pub restore_rule_urls : RoutingSettings → List String
restore_rule_urls r =
    if str_eq r.proxy_mode "pac"
      && length r.rule_urls == 0
      && (not r.custom_rules_enabled || is_blank r.custom_rules)
    then default_pac_rule_urls
    else r.rule_urls

-- The migration of configurations before version 6.
unfoldable pub add_reject_source : ℤ → String → List String → List String
add_reject_source prev_version mode urls =
    if ltb_ℤ prev_version (pos 6) && str_eq mode "pac" && ltb 0 (length urls)
    then if any has_reject_rule_prefix urls then urls else urls ++ default_reject_source ∷ []
    else urls

unfoldable pub normalize_routing : ℤ → RoutingSettings → RoutingSettings
normalize_routing prev_version r =
    let r1 = record r { proxy_mode = normalize_proxy_mode r.proxy_mode } in
    let r2 = record r1 { rule_urls = restore_rule_urls r1 } in
    record r2 { rule_urls = add_reject_source prev_version r2.proxy_mode r2.rule_urls }

-- A Linux-style name is replaced on macOS.
unfoldable pub interface_name_of : String → String → String
unfolding default_tun_settings
interface_name_of goos name =
    if str_eq name "" || (str_eq goos "darwin" && str_eq name "sudoku0")
    then (default_tun_settings goos).interface_name
    else name

-- PAC over the tunnel depends on MapDNS.
unfoldable pub map_dns_enabled_of : String → Bool → Bool
map_dns_enabled_of mode on = if str_eq mode "pac" then true else on

unfoldable pub normalize_tun : String → String → TunSettings → TunSettings
unfolding default_tun_settings
normalize_tun goos mode t =
    let d = default_tun_settings goos in
    record t {
      interface_name = interface_name_of goos t.interface_name;
      mtu = or_positive t.mtu d.mtu;
      ipv4 = or_default t.ipv4 d.ipv4;
      ipv6 = or_default t.ipv6 d.ipv6;
      socks_udp = or_default t.socks_udp d.socks_udp;
      socks_mark = or_positive t.socks_mark d.socks_mark;
      route_table = or_positive t.route_table d.route_table;
      log_level = or_default t.log_level d.log_level;
      map_dns_enabled = map_dns_enabled_of mode t.map_dns_enabled;
      map_dns_address = or_default t.map_dns_address d.map_dns_address;
      map_dns_port = or_positive t.map_dns_port d.map_dns_port;
      map_dns_network = or_default t.map_dns_network d.map_dns_network;
      map_dns_netmask = or_default t.map_dns_netmask d.map_dns_netmask;
      task_stack_size = or_positive t.task_stack_size d.task_stack_size;
      tcp_buffer_size = or_positive t.tcp_buffer_size d.tcp_buffer_size;
      connect_timeout = or_positive t.connect_timeout d.connect_timeout;
    }

unfoldable pub normalize_core : Platform → CoreSettings → CoreSettings
normalize_core pl c = record c {
  working_dir = or_if_blank c.working_dir pl.workspace;
  sudoku_binary = or_if_blank c.sudoku_binary pl.sudoku_binary;
  hev_binary = or_if_blank c.hev_binary pl.hev_binary;
  log_level = or_default c.log_level "info";
}

unfoldable pub controller_port_of : ℤ → ℤ
controller_port_of port =
    if nonpos port || ltb_ℤ (pos 65535) port || eqb_ℤ port proxy_port
    then default_controller_port
    else port

unfoldable pub normalize_controller : Draw → ControllerSettings → ControllerSettings
unfolding random_secret
normalize_controller d c = record c {
  port = controller_port_of c.port;
  secret = or_if_blank c.secret (random_secret d);
}

abbrev one_of : List String → String → Bool
one_of words s = any (str_eq s) words

-- `isValidUITheme`
unfoldable pub is_valid_ui_theme : String → Bool
unfolding trim_space to_lower
is_valid_ui_theme theme =
    one_of
      ("auto" ∷ "atelier" ∷ "light" ∷ "dark" ∷ "qingshanlan" ∷ "langhualv" ∷ "fengxinzi"
        ∷ "manjianghong" ∷ [])
      (to_lower (trim_space theme))

unfoldable pub theme_of : String → String
unfolding is_valid_ui_theme
theme_of theme = if is_valid_ui_theme theme then theme else "auto"

unfoldable pub normalize_ui : UiSettings → UiSettings
normalize_ui u = record u { language = or_default u.language "auto"; theme = theme_of u.theme }

-- The loop over the port-forwards, from index `i` on.
unfoldable pub normalize_forwards : (ℕ → Draw) → ℕ → List PortForwardRule → List PortForwardRule
unfolding new_id
normalize_forwards draw i [] = []
normalize_forwards draw i (r ∷ rs) =
    record r {
      id = or_if_blank r.id (new_id "pf_" (draw i));
      name = or_if_blank r.name (text_append "Forward " (itoa (i + 1)));
    }
    ∷ normalize_forwards draw (i + 1) rs

-- The clamp of the two padding bounds.
unfoldable pub padding_max_of : ℤ → ℤ
padding_max_of hi = or_positive hi (pos 15)

unfoldable pub padding_min_of : ℤ → ℤ → ℤ
padding_min_of lo hi =
    let lo' = if negative lo then pos 0 else lo in if ltb_ℤ hi lo' then hi else lo'

-- `normalizeNode`
unfoldable pub normalize_node : Platform → Draw → NodeConfig → NodeConfig
unfolding new_id normalize_ascii
normalize_node pl d n =
    let hi = padding_max_of n.padding_max in
    record n {
      id = or_if_blank n.id (new_id "node_" d);
      aead = or_default n.aead "chacha20-poly1305";
      ascii = normalize_ascii pl n.ascii;
      padding_min = padding_min_of n.padding_min hi;
      padding_max = hi;
      multiplex = or_default (or_default n.multiplex (trim_space n.http_mask.multiplex)) "off";
      http_mask = record (n.http_mask) {
        mode = or_default n.http_mask.mode "legacy";
        multiplex = "";
      };
    }

-- The loop over the nodes, from index `i` on.
unfoldable pub normalize_nodes : Platform → (ℕ → Draw) → ℕ → List NodeConfig → List NodeConfig
normalize_nodes pl draw i [] = []
normalize_nodes pl draw i (n ∷ ns) =
    normalize_node pl (draw i) n ∷ normalize_nodes pl draw (i + 1) ns

-- Some node has this identifier.
abbrev pub has_node : String → List NodeConfig → Bool
has_node id ns = any (λ n. str_eq n.id id) ns

abbrev pub first_node_id : List NodeConfig → String
first_node_id [] = ""
first_node_id (n ∷ ns) = n.id

-- `resolveActiveNodeID`, of the two fields that it reads.
unfoldable pub resolve_active_node_id : String → List NodeConfig → String
resolve_active_node_id active nodes =
    if str_eq active balance_node_id && ltb 1 (length nodes)
    then balance_node_id
    else if has_node active nodes
    then active
    else first_node_id nodes

-- `normalizeConfigForOS`
unfoldable pub normalize_config : Platform → Draws → AppConfig → AppConfig
normalize_config pl draws cfg =
    let routing = normalize_routing cfg.version cfg.routing in
    let next = record cfg {
      version = config_version;
      routing = routing;
      tun = normalize_tun pl.goos routing.proxy_mode cfg.tun;
      core = normalize_core pl cfg.core;
      controller = normalize_controller draws.secret cfg.controller;
      ui = normalize_ui cfg.ui;
      port_forwards = normalize_forwards draws.forward 0 cfg.port_forwards;
      nodes = normalize_nodes pl draws.node 0 cfg.nodes;
    } in
    record next { active_node_id = resolve_active_node_id next.active_node_id next.nodes }
