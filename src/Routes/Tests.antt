-- ===== src/Routes/Tests.antt =====
-- routes.go, command_runner.go: one setup and teardown on Linux, and one search on macOS.
use sudoku_desktop.Prelude.{
  ◌≡◌, refl, not, String, true, contains_char, cut_prefix, trim_space, trim_left, trim_right,
  is_space, false, ◌∷◌, [], none, some, str_eq, ◌||◌, All, List, itoa, if◌then◌else◌, has_prefix,
}
use sudoku_desktop.Failure.{Result, ok, err}
use sudoku_desktop.Routes.{RouteContext, RoutePlan, first_context, route_settings}
use sudoku_desktop.Routes.Shell.{
  read_word, shell_quote, shell_join, contains_any, is_listed, is_harmless, read_word-shell_quote,
}
use sudoku_desktop.Routes.Command.{batch_script, LinuxCommand, add_mark_rule}
use sudoku_desktop.Routes.Linux.{Machine, set_up_linux, tear_down_linux}
use sudoku_desktop.Routes.Undo.{Undoes}
use sudoku_desktop.Routes.Undone.{set_up_linux-tear_down_linux}
use sudoku_desktop.Routes.Darwin.Primary.{
  IpText, parse_nwi, parse_lines, parse_line, set_named, set_listed, set_interface, set_address,
  clean, clean_address, strip_ip_zone, usable, IsUsable, parse_nwi-IsUsable, cut,
}
use sudoku_desktop.Routes.Darwin.{is_tun_like}
use sudoku_desktop.Routes.Darwin.Uplink.{DarwinMachine, find_uplink}
use sudoku_desktop.Routes.Physical.{find_uplink-IsPhysical}
use sudoku_desktop.Examples.{tun}

abbrev machine : Machine
machine = record {
  has_command = λ c. str_eq c "ip" || str_eq c "iptables";
  outbound_ipv4 = ok "10.0.0.7";
}

abbrev plan : RoutePlan
plan = record {
  tun = tun;
  server_ips = "1.2.3.4" ∷ " 1.2.3.4" ∷ "5.6.7.8" ∷ [];
  system_dns = "127.0.0.1";
  dns_redirect_port = 1053;
}

servers_once : (first_context plan).server_ips ≡ "1.2.3.4" ∷ "5.6.7.8" ∷ []
unfolding first_context
servers_once = refl

mark_line :
    batch_script (add_mark_rule tun.socks_mark ∷ [])
    ≡ "set -e; PATH=/usr/sbin:/sbin:/usr/bin:/bin:$PATH; ip rule add fwmark 438 lookup main pref 10 || true"
unfolding batch_script itoa
mark_line = refl

quoted : shell_quote "it's" ≡ "'it'\"'\"'s'"
unfolding shell_quote
quoted = refl

-- A backquote alone does not bring the quotes on.
bare_backquote : shell_join ("echo" ∷ "`id`" ∷ []) ≡ "echo `id`"
unfolding shell_join
bare_backquote = refl

abbrev result : Result (RouteContext × List LinuxCommand) → RouteContext × List LinuxCommand
result (ok p) = p
result (err e) = (first_context plan, [])

abbrev batch : RouteContext × List LinuxCommand
batch = result (set_up_linux machine (first_context plan) (route_settings plan))

batch_made : set_up_linux machine (first_context plan) (route_settings plan) ≡ ok (batch.0, batch.1)
unfolding set_up_linux first_context route_settings
batch_made = refl

set_up_linux-tear_down_linux_example :
    All (Undoes (tear_down_linux batch.0 (route_settings plan))) batch.1
set_up_linux-tear_down_linux_example =
    set_up_linux-tear_down_linux machine (route_settings plan) (first_context plan) batch.0 batch.1
      batch_made

-- A laptop whose primary interface is another tunnel: the table of routes gives the way out.
abbrev laptop : DarwinMachine
laptop = record {
  router4 = "";
  interface4 = "utun3";
  netstat = some (
      ("Destination" ∷ "Gateway" ∷ "Flags" ∷ "Netif" ∷ [])
      ∷ ("default" ∷ "link#20" ∷ "UCSg" ∷ "utun3" ∷ [])
      ∷ ("default" ∷ "192.168.1.1" ∷ "UGScg" ∷ "en0" ∷ [])
      ∷ []);
  bypass_interface = "";
  dhcp_router = λ name. none;
  default_route = none;
  service_of = λ name. some "Wi-Fi";
  dns_of = λ svc. none;
  is_ipv4 = λ s. has_prefix s "192.";
  is_usable = λ s. false;
}

found : find_uplink laptop ≡ ok ("192.168.1.1", "en0")
unfolding find_uplink
found = refl

find_uplink-IsPhysical_example :
    (is_tun_like "en0" ≡ false) × (str_eq "192.168.1.1" "" ≡ false) × (str_eq "en0" "" ≡ false)
find_uplink-IsPhysical_example = find_uplink-IsPhysical laptop ("192.168.1.1", "en0") found

read_word-shell_quote_example :
    read_word (shell_quote "it's")
    ≡ (if contains_any is_listed "it's" || is_harmless "it's" then some "it's" else none)
read_word-shell_quote_example = read_word-shell_quote "it's"

abbrev ip_text : IpText
ip_text = record {
  is_ip = λ a. not (str_eq a "");
  is_ipv4 = λ a. not (contains_char 58 a);
  is_loopback = λ a. str_eq a "127.0.0.1" || str_eq a "::1";
  is_unspecified = λ a. str_eq a "0.0.0.0" || str_eq a "::";
}

abbrev printed : List String
printed =
    "Network information" ∷ "IPv4 network interface information"
    ∷ "   en0 : flags      : 0x7 (IPv4,IPv6,DNS)" ∷ "           address  : 192.168.1.10"
    ∷ "IPv4 router: 0.0.0.0" ∷ "IPv6 network interface: en1" ∷ "IPv6 router: fe80::1%en1" ∷ []

reads : parse_nwi ip_text printed ≡ record {
  interface4 = "en0";
  address4 = "192.168.1.10";
  router4 = "";
  interface6 = "en1";
  address6 = "";
  router6 = "fe80::1";
}
unfolding parse_nwi parse_lines parse_line set_named set_listed cut cut_prefix set_interface
    set_address trim_space trim_left trim_right is_space clean clean_address strip_ip_zone usable
    contains_char
reads = refl

parse_nwi-IsUsable_example :
    let i = parse_nwi ip_text printed in
    IsUsable ip_text true i.address4
    × IsUsable ip_text true i.router4
    × IsUsable ip_text false i.address6
    × IsUsable ip_text false i.router6
    × (trim_space i.interface4 ≡ i.interface4)
    × (trim_space i.interface6 ≡ i.interface6)
parse_nwi-IsUsable_example = parse_nwi-IsUsable ip_text printed
