-- ===== src/Routes/Windows/Setup.antt =====
-- internal/core/routes.go, `setupRoutesWindows`, `teardownRoutesWindows`: what they record and run. The
-- outcome of a script, of the caller's `prepared` and of the context are parameters. Log lines are
-- left out.
use sudoku_desktop.Prelude.{
  ℕ, Bool, true, false, not, ◌&&◌, List, [], ◌∷◌, Option, none, some, String, str_eq, if◌then◌else◌,
  trim_space, text_append,
}
use sudoku_desktop.Failure.{ok, err, Failure, wrap}
use sudoku_desktop.Config.{TunSettings}
use sudoku_desktop.Routes.{RouteContext}
use sudoku_desktop.Routes.Windows.{PowerShell, windows_preferred_default_route_ipv4}
use sudoku_desktop.Routes.Windows.Resolve.{Round, windows_resolve_tun_interface_index}
use sudoku_desktop.Routes.Windows.Script.{Script, default_firewall_rule, build_windows_route_script}

pub record WindowsMachine : Type 0 where
  pub rounds : ℕ → Round
  pub shell : PowerShell
  pub cancelled : Option Failure
  pub prepared : RouteContext → Option Failure
  pub parse_ip : String → Option String
  pub run_script : String → Option Failure

-- What the setup does that others see: it hands the context to `prepared` and runs scripts.
pub data Act : Type 0 where
  noted : RouteContext → Option Failure → Act
  ran : Script → Option Failure → Act

pub record SetupResult : Type 0 where
  pub context : Option RouteContext
  pub error : Option Failure
  pub acts : List Act

-- `windowsDNSBackupFile`
abbrev pub windows_dns_backup_file : String
windows_dns_backup_file = "sudoku4x4-dns.json"

-- Whether the resolver of the system is changed.
abbrev pub overrides_dns : TunSettings → Bool
overrides_dns tun = tun.map_dns_enabled && not (str_eq (trim_space tun.map_dns_address) "")

-- The context that the setup records.
unfoldable pub windows_context : RouteContext → TunSettings → ℕ × String → String × ℕ → RouteContext
unfolding trim_space
windows_context ctx tun (idx, alias) (gw, if4) = record ctx {
  tun_index = idx;
  tun_alias = trim_space alias;
  default_gateway = gw;
  windows_default_if_index = if4;
  windows_firewall_rule =
      if tun.block_quic then default_firewall_rule else ctx.windows_firewall_rule;
  dns_override_address =
      if overrides_dns tun then trim_space tun.map_dns_address else ctx.dns_override_address;
  windows_dns_backup =
      if overrides_dns tun then windows_dns_backup_file else ctx.windows_dns_backup;
}

unfoldable pub start_script : RouteContext → TunSettings → Script
unfolding trim_space
start_script ctx tun = record {
  start = true;
  server_ips = ctx.server_ips;
  firewall_rule = default_firewall_rule;
  block_quic = tun.block_quic;
  tun_if_index = ctx.tun_index;
  default_gw4 = ctx.default_gateway;
  default_if4 = ctx.windows_default_if_index;
  map_dns_enabled = tun.map_dns_enabled;
  map_dns_address = trim_space tun.map_dns_address;
  dns_backup_name = if overrides_dns tun then windows_dns_backup_file else "";
}

unfoldable pub stop_script : RouteContext → TunSettings → Script
unfolding trim_space
stop_script ctx tun = record {
  start = false;
  server_ips = ctx.server_ips;
  firewall_rule =
      if str_eq ctx.windows_firewall_rule ""
      then default_firewall_rule
      else ctx.windows_firewall_rule;
  block_quic = tun.block_quic;
  tun_if_index = ctx.tun_index;
  default_gw4 = ctx.default_gateway;
  default_if4 = ctx.windows_default_if_index;
  map_dns_enabled = not (str_eq (trim_space ctx.windows_dns_backup) "");
  map_dns_address = trim_space tun.map_dns_address;
  dns_backup_name = ctx.windows_dns_backup;
}

-- `teardownRoutesWindows`
unfoldable pub tear_down_windows : WindowsMachine → RouteContext → TunSettings → Option Failure
unfolding stop_script build_windows_route_script
tear_down_windows m ctx tun =
    m.run_script (build_windows_route_script m.parse_ip (stop_script ctx tun))

abbrev pub refused : Failure → List Act → SetupResult
refused e acts = record { context = none; error = some e; acts = acts }

-- `fmt.Errorf("setup windows routes: %w; rollback failed: %v", err, rollbackErr)`
abbrev pub rollback_failed : Failure → Failure → Failure
rollback_failed e e' = record {
  kind = e.kind;
  text =
      text_append "setup windows routes: "
        (text_append e.text (text_append "; rollback failed: " e'.text));
}

-- After the start script, with its error.
unfoldable pub after_script :
    WindowsMachine → RouteContext → TunSettings → Option Failure → List Act → SetupResult
unfolding tear_down_windows
after_script m ctx tun none acts = record { context = some ctx; error = none; acts = acts }
after_script m ctx tun (some e) acts = elim (tear_down_windows m ctx tun) [
  | none ↦ refused e (ran (stop_script ctx tun) none ∷ acts)
  | some e' ↦ record {
    context = some ctx;
    error = some (rollback_failed e e');
    acts = ran (stop_script ctx tun) (some e') ∷ acts;
  }
]

-- With the context filled in. The acts are listed from the last on.
unfoldable pub change_windows : WindowsMachine → RouteContext → TunSettings → SetupResult
unfolding after_script build_windows_route_script start_script
change_windows m ctx tun = elim (m.prepared ctx) [
  | some e ↦ refused (wrap "prepare windows route recovery: " e) (noted ctx (some e) ∷ [])
  | none ↦
      let result = m.run_script (build_windows_route_script m.parse_ip (start_script ctx tun)) in
      after_script m ctx tun result (ran (start_script ctx tun) result ∷ noted ctx none ∷ [])
]

-- With the tunnel's interface found.
unfoldable pub with_interface :
    WindowsMachine → RouteContext → TunSettings → ℕ × String → SetupResult
unfolding change_windows windows_context
with_interface m ctx tun (idx, alias) = elim (windows_preferred_default_route_ipv4 m.shell idx) [
  | err e ↦ refused e []
  | ok route ↦ elim (m.cancelled) [
    | some e ↦ refused e []
    | none ↦ change_windows m (windows_context ctx tun (idx, alias) route) tun
  ]
]

-- `setupRoutesWindows`
unfoldable pub set_up_windows : WindowsMachine → RouteContext → TunSettings → Option SetupResult
unfolding with_interface
set_up_windows m ctx tun = elim (windows_resolve_tun_interface_index m.rounds tun) [
  | none ↦ none
  | some (err e) ↦ some (refused e [])
  | some (ok at) ↦ some (with_interface m ctx tun at)
]
