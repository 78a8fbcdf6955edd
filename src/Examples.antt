-- ===== src/Examples.antt =====
-- Concrete data for the tests: one machine, one node, one configuration, a stopped app, and answers with
-- which everything succeeds.
use sudoku_desktop.Prelude.{
  true, false, [], ◌∷◌, none, some, pos, str_eq, if◌then◌else◌, has_prefix, ◌||◌,
}
use sudoku_desktop.Failure.{ok, err, new_error}
use sudoku_desktop.Journal.{absent, new_journal, Io}
use sudoku_desktop.Config.{HttpMaskSettings, NodeConfig, TunSettings, AppConfig, proxy_port}
use sudoku_desktop.Plan.{TunPlan}
use sudoku_desktop.Plan.Validate.{Net}
use sudoku_desktop.Config.Normalize.{Platform, Draw, Draws}
use sudoku_desktop.Session.{stopped, RuntimeState, ready, Backend, Env, no_traffic}

abbrev pub platform : Platform
platform = record {
  goos = "linux";
  sudoku_binary = "/app/sudoku";
  hev_binary = "/app/hev";
  workspace = "/app/work";
  normalize_ascii_mode = λ m.
      if str_eq m "prefer_ascii"
      then some m
      else if str_eq m "prefer_entropy"
      then some m
      else none;
}

abbrev pub draw : Draw
draw = record { bytes = some (1 ∷ 2 ∷ []); unix_nano = 0 }

abbrev pub draws : Draws
draws = record { forward = λ _. draw; node = λ _. draw; secret = draw }

abbrev pub mask : HttpMaskSettings
mask = record {
  disable = false;
  mode = "legacy";
  tls = false;
  host = "";
  path_root = "";
  multiplex = "";
}

abbrev pub node : NodeConfig
node = record {
  id = "n1";
  name = "Home";
  server_address = "example.org:443";
  key = "secret";
  aead = "chacha20-poly1305";
  ascii = "prefer_entropy";
  padding_min = pos 5;
  padding_max = pos 15;
  enable_pure_downlink = true;
  custom_table = "";
  custom_tables = [];
  multiplex = "off";
  http_mask = mask;
}

abbrev pub tun : TunSettings
tun = record {
  enabled = true;
  interface_name = "sudoku0";
  mtu = pos 8500;
  ipv4 = "198.18.0.1";
  ipv6 = "fc00::1";
  block_quic = false;
  socks_udp = "udp";
  socks_mark = pos 438;
  route_table = pos 20;
  log_level = "warn";
  map_dns_enabled = true;
  map_dns_address = "198.18.0.2";
  map_dns_port = pos 53;
  map_dns_network = "198.18.0.0";
  map_dns_netmask = "255.254.0.0";
  task_stack_size = pos 86016;
  tcp_buffer_size = pos 65536;
  max_session = pos 0;
  connect_timeout = pos 10000;
}

abbrev pub cfg : AppConfig
cfg = record {
  version = pos 7;
  active_node_id = "n1";
  nodes = node ∷ [];
  routing = record {
    proxy_mode = "global";
    rule_urls = [];
    custom_rules_enabled = false;
    custom_rules = "";
  };
  tun = tun;
  core = record {
    sudoku_binary = "/app/sudoku";
    hev_binary = "/app/hev";
    working_dir = "/app/work";
    log_level = "info";
    auto_start = false;
    allow_lan = false;
  };
  controller = record { port = pos 9097; secret = "abc"; allow_lan = false };
  reverse_client = record { client_id = ""; routes = [] };
  reverse_forward = record { dial_url = ""; listen_addr = ""; insecure = false };
  port_forwards = [];
  ui = record { language = "auto"; theme = "auto"; launch_at_login = false };
  last_started_node = "";
}

abbrev pub stopped_runtime : RuntimeState
stopped_runtime = record {
  phase = stopped;
  core_running = false;
  tun_running = false;
  tun_requested = false;
  system_proxy_on = false;
  started_at_unix = 0;
  last_error = "";
  traffic = no_traffic;
  kernel_version = "";
  memory_bytes = 0;
  connection_count = 0;
  needs_net_repair = false;
  needs_admin = false;
  admin_error = "";
}

abbrev pub idle : Backend
idle = record {
  cfg = cfg;
  state = stopped_runtime;
  kern = none;
  sess = none;
  custom = none;
  sys_snap = none;
  journal = new_journal 10 absent;
  guard_started = false;
  admin_pending = none;
  dirty = false;
  log = [];
  world = record { proxy_ours = false; core = none; helper = false };
}

abbrev pub io : Io
io = record { pid = 10; now = 1; write = λ f. none; remove = none }

abbrev pub env : Env
env = record {
  now = 1;
  io = io;
  platform = platform;
  draws = draws;
  save = none;
  has_admin = true;
  cancelled = λ stage. false;
  ensure_binary = λ c. (c.core.sudoku_binary, none);
  check_ports = λ c. none;
  start_guard = none;
  custom_server = λ rules. ok "http://127.0.0.1:4000/rules";
  start_kernel = λ c url with_tun. ready (record { pid = 77; version = "1.0" });
  capture_proxy = err (new_error "no desktop");
  set_proxy = λ s. none;
  restore_proxy = λ s. none;
  tun_up = λ plan. none;
  tun_recover = none;
  stop_kernel = λ k. none;
  tail = "";
  stale = false;
  rule_cache_dir = "/app/rules";
}

abbrev pub net : Net
net = record {
  parse_ip = λ s.
      if has_prefix s "fc00"
      then some false
      else if has_prefix s "198." || has_prefix s "255."
      then some true
      else none;
  split_host = λ s. if str_eq s "example.org:443" then some "example.org" else none;
  parse_url = λ s. if has_prefix s "https://" then some ("https", "example.org") else none;
}

abbrev pub plan : TunPlan
plan = record {
  tun = tun;
  proxy_port = proxy_port;
  server_addrs = "example.org:443" ∷ [];
  mode = "pac";
  direct_rule_urls = "https://example.org/cn.txt" ∷ [];
  rule_seed_dir = "/app/rules";
}
