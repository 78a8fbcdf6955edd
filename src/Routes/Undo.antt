-- ===== src/Routes/Undo.antt =====
-- internal/core/routes.go, `setupRoutesLinux`, `teardownRoutesLinux`: for each part of the setup, the
-- commands of the teardown that answer it.
use mathlib.Core.List.{Memᴰ}
use sudoku_desktop.Prelude.{
  ℕ, trim_space_idem, ◌≡◌, refl, ◌&&◌, Bool-cases, inl, inr, List, [], ◌∷◌, ◌++◌, Option, none,
  some, String, str_eq, if◌then◌else◌, ltb, All, trim_space, map, arith,
}
use sudoku_desktop.Failure.{Result, ok, err}
use sudoku_desktop.Config.{TunSettings}
use sudoku_desktop.Routes.{RouteContext}
use sudoku_desktop.Routes.Command.{
  LinuxCommand, add_server_rule, del_server_rule, add_source_rule, del_source_rule, block_quic,
  unblock_quic, unblock_quic6, add_redirect, del_redirect, link_dns, link_domain, revert_link,
  save_resolv_conf, write_resolv_conf, restore_resolv_conf, add_mark_rule, del_mark_rule,
  add_default_route, del_default_route, add_table_rule, del_table_rule,
}
use sudoku_desktop.Routes.Linux.{
  Machine, resolv_conf_backup_path, restore_dns, remove_policy, dns_commands, dns_context,
  policy_commands, source_ip, remove_redirect, redirect_commands,
}

-- The command that takes back what a command of the setup does. The setup has no command to restore
-- the reverse-path filter, and a flush of a cache changes nothing that lasts.
unfoldable pub undo : LinuxCommand → Option LinuxCommand
undo (add_server_rule ip) = some (del_server_rule ip)
undo (add_source_rule ip) = some (del_source_rule ip)
undo block_quic = some unblock_quic
undo (add_redirect proto port) = some (del_redirect proto port)
undo (link_dns name addr) = some (revert_link name)
undo (link_domain name) = some (revert_link name)
undo (save_resolv_conf path) = some (restore_resolv_conf path)
undo (write_resolv_conf addr) = some (restore_resolv_conf resolv_conf_backup_path)
undo (add_mark_rule mark) = some (del_mark_rule mark)
undo (add_default_route name table) = some (del_default_route name table)
undo (add_table_rule table) = some (del_table_rule table)
undo _ = none

-- A batch holds the command that undoes the given one, if there is one.
abbrev pub Holds : List LinuxCommand → Option LinuxCommand → Type 0
Holds cmds none = Unit {0}
Holds cmds (some c) = Memᴰ c cmds

abbrev pub Undoes : List LinuxCommand → LinuxCommand → Type 0
Undoes cmds c = Holds cmds (undo c)

module _ {ℓ} {A : Type ℓ} where
  pub All_append : (P : A → Type 0) (xs ys : List A) → All P xs → All P ys → All P (xs ++ ys)
  All_append P [] ys h k = k
  All_append P (x ∷ xs) ys h k = (h.0, All_append P xs ys h.1 k)

-- The commands of one list are all in another.
abbrev pub Within : List LinuxCommand → List LinuxCommand → Type 0
Within some_cmds cmds = (c : LinuxCommand) → Memᴰ c some_cmds → Memᴰ c cmds

pub servers_undone :
    (ips : List String) (T : List LinuxCommand)
    → Within (map del_server_rule ips) T
    → All (Undoes T) (map add_server_rule ips)
unfolding undo
servers_undone [] T sub = tt
servers_undone (ip ∷ ips) T sub =
    (sub _ (Memᴰ.head refl), servers_undone ips T (λ c e. sub c (Memᴰ.tail e)))

pub redirect_commands-Undoes :
    (port : ℕ) (T : List LinuxCommand)
    → Within (remove_redirect port) T
    → All (Undoes T) (redirect_commands port)
unfolding undo
redirect_commands-Undoes port T sub = elim (Bool-cases (ltb 0 port)) [
  | inl on ↦
      rw on (sub _ (rw on (Memᴰ.head refl)), (sub _ (rw on (Memᴰ.tail (Memᴰ.head refl))), tt))
  | inr off ↦ rw off tt
]

pub dns_commands-Undoes :
    (m : Machine) (tun : TunSettings) (addr : String) (ctx : RouteContext) (T : List LinuxCommand)
    → Within (restore_dns (dns_context m addr ctx) tun) T
    → All (Undoes T) (dns_commands m tun addr)
unfolding undo dns_commands restore_dns
dns_commands-Undoes m tun addr ctx T sub = elim (Bool-cases (m.has_command "resolvectl")) [
  | inl on ↦ rw on (sub _ (rw on (Memᴰ.head refl)), (sub _ (rw on (Memᴰ.head refl)), (tt, tt)))
  | inr off ↦ rw off (sub _ (rw off (Memᴰ.head refl)), (sub _ (rw off (Memᴰ.head refl)), (tt, tt)))
]

pub source_ip-trim : (r : Result String) → trim_space (source_ip r) ≡ source_ip r
unfolding trim_space
source_ip-trim (ok ip) = trim_space_idem ip
source_ip-trim (err e) = refl

abbrev pub with_source : String → RouteContext → RouteContext
with_source src ctx = if str_eq src "" then ctx else record ctx { linux_outbound_src_ip = src }

pub with_source-keeps :
    (src : String) (ctx : RouteContext) → (with_source src ctx).server_ips ≡ ctx.server_ips
with_source-keeps src ctx = ground arith

pub source_undone :
    (r : Result String) (ctx : RouteContext) (T : List LinuxCommand)
    → let src = source_ip r in
      let src' = (with_source src ctx).linux_outbound_src_ip in
      Within (if str_eq (trim_space src') "" then [] else del_source_rule src' ∷ []) T
      → All (Undoes T) (if str_eq src "" then [] else add_source_rule src ∷ [])
unfolding undo
source_undone r ctx T sub = elim (Bool-cases (str_eq (source_ip r) "")) [
  | inl unknown ↦ rw unknown tt
  | inr known ↦ rw known (sub _ (rw (known, source_ip-trim r, known) (Memᴰ.head refl)), tt)
]

pub quic_undone :
    (m : Machine) (tun : TunSettings) (T : List LinuxCommand)
    → Within (if tun.block_quic then unblock_quic ∷ unblock_quic6 ∷ [] else []) T
    → All (Undoes T) (if tun.block_quic && m.has_command "iptables" then block_quic ∷ [] else [])
unfolding undo
quic_undone m tun T sub = elim (Bool-cases (tun.block_quic)) [
  | inl on ↦ elim (Bool-cases (m.has_command "iptables")) [
    | inl has ↦ rw (on, has) (sub _ (rw on (Memᴰ.head refl)), tt)
    | inr no_tables ↦ rw (on, no_tables) tt
  ]
  | inr off ↦ rw off tt
]

pub policy_commands-Undoes :
    (tun : TunSettings) (T : List LinuxCommand)
    → Within (remove_policy tun) T
    → All (Undoes T) (policy_commands tun)
unfolding undo remove_policy policy_commands
policy_commands-Undoes tun T sub = (
  tt,
  (
    tt,
    (
      sub _ (Memᴰ.head refl),
      (
        sub _ (Memᴰ.tail (Memᴰ.tail (Memᴰ.tail (Memᴰ.tail (Memᴰ.head refl))))),
        (sub _ (Memᴰ.tail (Memᴰ.tail (Memᴰ.head refl))), tt),
      ),
    ),
  ),
)
