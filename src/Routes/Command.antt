-- ===== src/Routes/Command.antt =====
-- internal/core/routes.go, `setupRoutesLinux`, `teardownRoutesLinux`: the command lines;
-- command_runner.go, `runShellBatch`: the script that they make.
use sudoku_desktop.Prelude.{ℕ, suc, List, [], ◌∷◌, String, text_append, ℤ, pos, negsuc, itoa, map}
use sudoku_desktop.Routes.Shell.{shell_join, shell_quote}

pub data LinuxCommand : Type 0 where
  add_server_rule del_server_rule : String → LinuxCommand
  add_source_rule del_source_rule : String → LinuxCommand
  block_quic unblock_quic unblock_quic6 : LinuxCommand
  add_redirect del_redirect : String → ℕ → LinuxCommand
  link_dns : String → String → LinuxCommand
  link_domain revert_link : String → LinuxCommand
  flush_caches flush_any_cache : LinuxCommand
  save_resolv_conf restore_resolv_conf : String → LinuxCommand
  write_resolv_conf : String → LinuxCommand
  rp_filter_off : String → LinuxCommand
  add_mark_rule del_mark_rule del_mark_rule6 : ℤ → LinuxCommand
  add_default_route del_default_route del_default_route6 : String → ℤ → LinuxCommand
  add_table_rule del_table_rule del_table_rule6 : ℤ → LinuxCommand

-- `strconv.Itoa` of any `int`
unfoldable pub itoa_ℤ : ℤ → String
itoa_ℤ (pos n) = itoa n
itoa_ℤ (negsuc n) = text_append "-" (itoa (suc n))

abbrev texts : List String → String
texts [] = ""
texts (s ∷ ss) = text_append s (texts ss)

-- `shellJoin(args...) + " || true"`
abbrev tolerant : List String → String
tolerant args = text_append (shell_join args) " || true"

-- The rule that sends DNS over UDP or TCP to the local proxy.
abbrev redirect_rule : String → ℕ → String
redirect_rule proto port =
    texts ("-d 127.0.0.1/32 -p " ∷ proto ∷ " --dport 53 -j REDIRECT --to-ports " ∷ itoa port ∷ [])

-- The text of each command.
line : LinuxCommand → String
unfolding shell_join itoa_ℤ shell_quote
line (add_server_rule ip) =
    tolerant ("ip" ∷ "rule" ∷ "add" ∷ "to" ∷ ip ∷ "lookup" ∷ "main" ∷ "pref" ∷ "5" ∷ [])
line (del_server_rule ip) =
    tolerant ("ip" ∷ "rule" ∷ "del" ∷ "to" ∷ ip ∷ "lookup" ∷ "main" ∷ "pref" ∷ "5" ∷ [])
line (add_source_rule ip) =
    tolerant ("ip" ∷ "rule" ∷ "add" ∷ "from" ∷ ip ∷ "lookup" ∷ "main" ∷ "pref" ∷ "8" ∷ [])
line (del_source_rule ip) =
    tolerant ("ip" ∷ "rule" ∷ "del" ∷ "from" ∷ ip ∷ "lookup" ∷ "main" ∷ "pref" ∷ "8" ∷ [])
line block_quic = texts (
    "iptables -C OUTPUT -p udp --dport 443 -j DROP >/dev/null 2>&1 || "
    ∷ "iptables -I OUTPUT 1 -p udp --dport 443 -j DROP" ∷ [])
line unblock_quic = "iptables -D OUTPUT -p udp --dport 443 -j DROP >/dev/null 2>&1 || true"
line unblock_quic6 = "ip6tables -D OUTPUT -p udp --dport 443 -j DROP >/dev/null 2>&1 || true"
line (add_redirect proto port) = texts (
    "iptables -t nat -C OUTPUT "
    ∷ redirect_rule proto port
    ∷ " >/dev/null 2>&1 || iptables -t nat -I OUTPUT 1 "
    ∷ redirect_rule proto port
    ∷ [])
line (del_redirect proto port) =
    texts
      ("iptables -t nat -D OUTPUT " ∷ redirect_rule proto port ∷ " >/dev/null 2>&1 || true" ∷ [])
line (link_dns name addr) = tolerant ("resolvectl" ∷ "dns" ∷ name ∷ addr ∷ [])
line (link_domain name) = tolerant ("resolvectl" ∷ "domain" ∷ name ∷ "~." ∷ [])
line (revert_link name) = tolerant ("resolvectl" ∷ "revert" ∷ name ∷ [])
line flush_caches = "resolvectl flush-caches >/dev/null 2>&1 || true"
line flush_any_cache = texts (
    "resolvectl flush-caches >/dev/null 2>&1 || "
    ∷ "systemd-resolve --flush-caches >/dev/null 2>&1 || true" ∷ [])
line (save_resolv_conf path) =
    texts ("cp -f /etc/resolv.conf " ∷ shell_quote path ∷ " >/dev/null 2>&1 || true" ∷ [])
line (restore_resolv_conf path) = texts (
    "if [ -f "
    ∷ shell_quote path
    ∷ " ]; then cp -f "
    ∷ shell_quote path
    ∷ " /etc/resolv.conf >/dev/null 2>&1 || true; rm -f "
    ∷ shell_quote path
    ∷ " >/dev/null 2>&1 || true; fi"
    ∷ [])
line (write_resolv_conf addr) =
    texts ("printf 'nameserver " ∷ addr ∷ "\\n' > /etc/resolv.conf" ∷ [])
line (rp_filter_off name) =
    tolerant ("sysctl" ∷ "-w" ∷ texts ("net.ipv4.conf." ∷ name ∷ ".rp_filter=0" ∷ []) ∷ [])
line (add_mark_rule mark) =
    tolerant
      ("ip" ∷ "rule" ∷ "add" ∷ "fwmark" ∷ itoa_ℤ mark ∷ "lookup" ∷ "main" ∷ "pref" ∷ "10" ∷ [])
line (del_mark_rule mark) =
    tolerant
      ("ip" ∷ "rule" ∷ "del" ∷ "fwmark" ∷ itoa_ℤ mark ∷ "lookup" ∷ "main" ∷ "pref" ∷ "10" ∷ [])
line (del_mark_rule6 mark) =
    tolerant (
      "ip"
      ∷ "-6"
      ∷ "rule"
      ∷ "del"
      ∷ "fwmark"
      ∷ itoa_ℤ mark
      ∷ "lookup"
      ∷ "main"
      ∷ "pref"
      ∷ "10"
      ∷ [])
line (add_default_route name table) =
    tolerant ("ip" ∷ "route" ∷ "add" ∷ "default" ∷ "dev" ∷ name ∷ "table" ∷ itoa_ℤ table ∷ [])
line (del_default_route name table) =
    tolerant ("ip" ∷ "route" ∷ "del" ∷ "default" ∷ "dev" ∷ name ∷ "table" ∷ itoa_ℤ table ∷ [])
line (del_default_route6 name table) =
    tolerant
      ("ip" ∷ "-6" ∷ "route" ∷ "del" ∷ "default" ∷ "dev" ∷ name ∷ "table" ∷ itoa_ℤ table ∷ [])
line (add_table_rule table) =
    tolerant ("ip" ∷ "rule" ∷ "add" ∷ "lookup" ∷ itoa_ℤ table ∷ "pref" ∷ "20" ∷ [])
line (del_table_rule table) =
    tolerant ("ip" ∷ "rule" ∷ "del" ∷ "lookup" ∷ itoa_ℤ table ∷ "pref" ∷ "20" ∷ [])
line (del_table_rule6 table) =
    tolerant ("ip" ∷ "-6" ∷ "rule" ∷ "del" ∷ "lookup" ∷ itoa_ℤ table ∷ "pref" ∷ "20" ∷ [])

joined : List String → String
joined [] = ""
joined (s ∷ []) = s
joined (s ∷ s' ∷ ss) = text_append s (text_append "; " (joined (s' ∷ ss)))

-- The script that `runShellBatch` hands to one shell.
unfoldable pub batch_script : List LinuxCommand → String
unfolding line joined
batch_script cmds =
    text_append "set -e; PATH=/usr/sbin:/sbin:/usr/bin:/bin:$PATH; " (joined (map line cmds))
