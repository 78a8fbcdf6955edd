-- ===== src/Routes/Windows/Tests.antt =====
-- internal/core/routes.go: the search and the setup on Windows with a PowerShell that knows one tunnel.
use sudoku_desktop.Prelude.{
  ℕ, ◌*◌, ◌≡◌, refl, String, none, some, [], ◌∷◌, if◌then◌else◌, has_prefix, trim_space, to_lower,
  text_append, arith, itoa,
}
use sudoku_desktop.Failure.{Result, ok}
use sudoku_desktop.Plan.Validate.{
  validate_tun_plan, check_device, check_map_dns, check_targets, check_servers, check_urls,
  is_interface_name, is_host_name, server_host,
}
use sudoku_desktop.Routes.{RoutePlan, first_context, route_settings}
use sudoku_desktop.Routes.Windows.{
  PowerShell, parse_first_int, interface_script, interface_query, join, windows_interface_index,
  windows_interface_index_by_ipv4,
}
use sudoku_desktop.Routes.Windows.Resolve.{Round, windows_resolve_tun_interface_index}
use sudoku_desktop.Routes.Windows.Found.{IsResolved, windows_resolve_tun_interface_index-IsResolved}
use sudoku_desktop.Routes.Windows.Setup.{WindowsMachine, SetupResult, set_up_windows}
use sudoku_desktop.Routes.Windows.Recorded.{IsUndoable, set_up_windows-IsUndoable}
use sudoku_desktop.Routes.Windows.Quote.{read_assignment, read_interface_script-validated}
use sudoku_desktop.Examples.{net, plan, tun}

abbrev shell : PowerShell
shell script =
    if has_prefix script "$ip = "
    then ok "12\tsudoku0\r\n"
    else if has_prefix script "$exclude = "
    then ok "192.168.1.1\t5"
    else ok ""

-- PowerShell knows the address from the third round on.
abbrev rounds : ℕ → Round
rounds i = record {
  cancelled = none;
  first = if has_prefix (itoa i) "2" then shell else λ script. ok "";
  later = λ script. ok "";
  now = i * 350;
  woken = none;
}

abbrev machine : WindowsMachine
machine = record {
  rounds = rounds;
  shell = shell;
  cancelled = none;
  prepared = λ ctx. none;
  parse_ip = λ ip. some ip;
  run_script = λ script. none;
}

abbrev routes : RoutePlan
routes = record {
  tun = tun;
  server_ips = "1.2.3.4" ∷ [];
  system_dns = "127.0.0.1";
  dns_redirect_port = 0;
}

takes_first : parse_first_int "if 12, not 7" ≡ ok 12
unfolding parse_first_int
takes_first = refl

finds : windows_resolve_tun_interface_index rounds tun ≡ some (ok (12, "sudoku0"))
unfolding windows_resolve_tun_interface_index windows_interface_index_by_ipv4
    windows_interface_index trim_space itoa
finds = refl

-- A typographic quote ends the text.
ends_early :
    read_assignment "$name" (interface_script "a’; calc #")
    ≡ some ("a", text_append "; calc #'; " (join "; " interface_query))
unfolding read_assignment interface_script join
ends_early = refl

windows_resolve_tun_interface_index-IsResolved_example :
    (r : Result (ℕ × String)) × (windows_resolve_tun_interface_index rounds tun ≡ some r)
    × IsResolved rounds tun r
windows_resolve_tun_interface_index-IsResolved_example =
    windows_resolve_tun_interface_index-IsResolved rounds tun (λ i. omega arith)

set_up_windows-IsUndoable_example :
    (o : SetupResult) × (set_up_windows machine (first_context routes) (route_settings routes)
      ≡ some o)
    × IsUndoable (route_settings routes) o
set_up_windows-IsUndoable_example = set_up_windows-IsUndoable machine routes (λ i. omega arith)

accepted : validate_tun_plan net (some plan) ≡ none
unfolding validate_tun_plan check_device is_interface_name trim_space to_lower check_map_dns
    check_targets check_servers server_host is_host_name check_urls
accepted = refl

read_interface_script-validated_example :
    let name = trim_space plan.tun.interface_name in
    read_assignment "$name" (interface_script name)
    ≡ some (name, text_append "; " (join "; " interface_query))
read_interface_script-validated_example = read_interface_script-validated net plan accepted
