-- ===== src/Plan/Validate/Sound.antt =====
-- helper_proto.go, `validateTunPlan`: exactly which plans are accepted.
use sudoku_desktop.Prelude.{
  ℕ, ◌≤◌, ◌≡◌, refl, ◌↔◌, Bool, true, false, ◌&&◌, ◌||◌, ◌⊎◌, inl, inr, Bool-cases, List, [], ◌∷◌,
  Option, none, some, String, str_eq, ◌≤ℤ◌, leb, ◌==◌, length, ℤ, pos, eqb_ℤ, trim_space, to_lower,
  arith, All,
}
use sudoku_desktop.Config.{TunSettings}
use sudoku_desktop.Config
use sudoku_desktop.Plan.{TunPlan}
use sudoku_desktop.Plan.Validate.{
  Net, Refusal, require, within, is_host_name, server_host, is_ipv4, is_ip, is_server, is_web,
  is_interface_name, is_tuning, one_of, tuning_max, tuned, invalid_server, invalid_url,
  invalid_tuning, no_servers, too_many_urls, invalid_interface, invalid_mtu, invalid_ipv4,
  invalid_ipv6, invalid_socks_udp, invalid_mark_or_table, invalid_log_level, unexpected_port,
  invalid_mode, invalid_map_dns_address, invalid_map_dns_port, invalid_map_dns_network,
  invalid_map_dns_netmask, check_servers, check_urls, check_map_dns, check_device, check_targets,
  validate_tun_plan, every_char, is_host_char, text_length,
}

-- A text of 1 to `most` characters of a class.
abbrev pub IsShort : (ℕ → Bool) → ℕ → String → Type 0
IsShort p most s = (every_char p s ≡ true) × ((1 ≤ text_length s) × (text_length s ≤ most))

abbrev pub Within : ℤ → ℤ → ℤ → Type 0
Within lo hi v = (lo ≤ℤ v) × (v ≤ℤ hi)

-- An address, or a host name of letters, digits, `_`, `.` and `-`.
abbrev pub IsServer : Net → String → Type 0
IsServer net a =
    (is_ip net (server_host net a) ≡ true) ⊎ IsShort is_host_char 253 (server_host net a)

-- The device: a name without quotes, separators or control characters, and settings within bounds.
abbrev pub IsDevice : Net → TunSettings → Type 0
IsDevice net t =
    IsShort (λ c. is_host_char c || c == 32) 32 t.interface_name
    × (Within (pos 576) (pos 65535) t.mtu
        × ((is_ipv4 net t.ipv4 ≡ true)
            × (((str_eq t.ipv6 "" || is_ip net t.ipv6) ≡ true)
                × ((one_of ("" ∷ "tcp" ∷ "udp" ∷ []) (trim_space t.socks_udp) ≡ true)
                    × ((Within (pos 0) tuning_max t.socks_mark
                          × Within (pos 0) tuning_max t.route_table)
                        × (one_of ("" ∷ "debug" ∷ "info" ∷ "warn" ∷ "error" ∷ [])
                              (to_lower (trim_space t.log_level))
                            ≡ true))))))

-- The addresses that MapDNS answers with, if it is on.
abbrev pub IsMapDns : Net → TunSettings → Type 0
IsMapDns net t =
    (is_ipv4 net t.map_dns_address ≡ true)
    × (Within (pos 1) (pos 65535) t.map_dns_port
        × ((is_ipv4 net t.map_dns_network ≡ true) × (is_ipv4 net t.map_dns_netmask ≡ true)))

abbrev pub IsTuned : TunSettings → Type 0
IsTuned t =
    Within (pos 0) tuning_max t.task_stack_size
    × (Within (pos 0) tuning_max t.tcp_buffer_size
        × (Within (pos 0) tuning_max t.max_session × Within (pos 0) tuning_max t.connect_timeout))

-- A plan that a root process may act on.
pub record IsPlausible (net : Net) (p : TunPlan) : Type 0 where
  pub proxy_port : p.proxy_port ≡ Config.proxy_port
  pub mode : one_of ("pac" ∷ "global" ∷ "direct" ∷ []) p.mode ≡ true
  pub device : IsDevice net p.tun
  pub map_dns : p.tun.map_dns_enabled ≡ true → IsMapDns net p.tun
  pub tuning : IsTuned p.tun
  pub server_count : (1 ≤ length p.server_addrs) × (length p.server_addrs ≤ 256)
  pub servers : All (IsServer net) p.server_addrs
  pub url_count : length p.direct_rule_urls ≤ 64
  pub urls : All (λ u. is_web net u ≡ true) p.direct_rule_urls

-- One test of a chain of them.
require_iff {ℓ κ} :
    {P : Type ℓ} {Q : Type κ} {c : Bool} (r : Refusal) {rest : Option Refusal}
    → (c ≡ true) ↔ P
    → (rest ≡ none) ↔ Q
    → (require c r rest ≡ none) ↔ (P × Q)
require_iff {c = true} r p q = (λ h. (p.0 refl, q.0 h), λ h. q.1 h.1)
require_iff {c = false} r p q = (λ h. cc, λ h. cc (p.1 h.0))

same {ℓ} : {P : Type ℓ} → P ↔ P
same = (λ h. h, λ h. h)

and_iff {ℓ κ} :
    {P : Type ℓ} {Q : Type κ} {a b : Bool}
    → (a ≡ true) ↔ P
    → (b ≡ true) ↔ Q
    → ((a && b) ≡ true) ↔ (P × Q)
and_iff {a = true} p q = (λ h. (p.0 refl, q.0 h), λ h. q.1 h.1)
and_iff {a = false} p q = (λ h. cc, λ h. cc (p.1 h.0))

or_iff {ℓ κ} :
    {P : Type ℓ} {Q : Type κ} {a b : Bool}
    → (a ≡ true) ↔ P
    → (b ≡ true) ↔ Q
    → ((a || b) ≡ true) ↔ (P ⊎ Q)
or_iff {a = true} p q = (λ h. inl (p.0 refl), λ h. refl)
or_iff {a = false} p q = (λ h. inr (q.0 h), λ h. elim h [ inl x ↦ cc (p.1 x) | inr y ↦ q.1 y ])

within_iff : (lo hi v : ℤ) → (within lo hi v ≡ true) ↔ Within lo hi v
within_iff lo hi v = ground arith

leb_iff : (a b : ℕ) → (leb a b ≡ true) ↔ (a ≤ b)
leb_iff a b = ground arith

IsShort-iff :
    (p : ℕ → Bool) (most : ℕ) (s : String)
    → ((every_char p s && (leb 1 (text_length s) && leb (text_length s) most)) ≡ true)
      ↔ IsShort p most s
IsShort-iff p most s =
    and_iff same (and_iff (leb_iff 1 (text_length s)) (leb_iff (text_length s) most))

IsServer-iff : (net : Net) (a : String) → (is_server net a ≡ true) ↔ IsServer net a
unfolding is_host_name
IsServer-iff net a = or_iff same (IsShort-iff is_host_char 253 (server_host net a))

eqb_iff : (a b : ℤ) → (eqb_ℤ a b ≡ true) ↔ (a ≡ b)
eqb_iff a b = ground arith

servers_iff :
    (net : Net) (addrs : List String) (rest : Option Refusal)
    → (check_servers net addrs rest ≡ none) ↔ (All (IsServer net) addrs × (rest ≡ none))
unfolding check_servers
servers_iff net [] rest = (λ h. (tt, h), λ h. h.1)
servers_iff net (a ∷ more) rest =
    let step = require_iff (invalid_server a) (IsServer-iff net a) (servers_iff net more rest) in
    (λ h. let all = step.0 h in ((all.0, all.1.0), all.1.1), λ h. step.1 (h.0.0, (h.0.1, h.1)))

urls_iff :
    (net : Net) (us : List String) → (check_urls net us ≡ none) ↔ All (λ u. is_web net u ≡ true) us
unfolding check_urls
urls_iff net [] = (λ h. tt, λ h. refl)
urls_iff net (u ∷ us) = require_iff (invalid_url u) same (urls_iff net us)

tuning_iff : (v : ℤ) → (is_tuning v ≡ true) ↔ Within (pos 0) tuning_max v
tuning_iff v = within_iff (pos 0) tuning_max v

tuned_iff : (t : TunSettings) → (tuned t ≡ true) ↔ IsTuned t
tuned_iff t = and_iff (tuning_iff t.task_stack_size) (
    and_iff (tuning_iff t.tcp_buffer_size)
      (and_iff (tuning_iff t.max_session) (tuning_iff t.connect_timeout)))

abbrev Targets : Net → TunPlan → Type 0
Targets net p =
    IsTuned p.tun
    × (((1 ≤ length p.server_addrs) × (length p.server_addrs ≤ 256))
        × (All (IsServer net) p.server_addrs
            × ((length p.direct_rule_urls ≤ 64)
                × All (λ u. is_web net u ≡ true) p.direct_rule_urls)))

Targets-iff : (net : Net) (p : TunPlan) → (check_targets net p ≡ none) ↔ Targets net p
unfolding check_targets
Targets-iff net p = require_iff invalid_tuning (tuned_iff p.tun) (
    require_iff no_servers
      (and_iff (leb_iff 1 (length p.server_addrs)) (leb_iff (length p.server_addrs) 256))
      (servers-then (
        require_iff too_many_urls (leb_iff (length p.direct_rule_urls) 64)
          (urls_iff net p.direct_rule_urls))))
  where
    servers-then :
        {Q : Type 0} {rest : Option Refusal}
        → (rest ≡ none) ↔ Q
        → (check_servers net p.server_addrs rest ≡ none) ↔ (All (IsServer net) p.server_addrs × Q)
    servers-then {rest = rest} q =
        let step = servers_iff net p.server_addrs rest in
        (λ h. ((step.0 h).0, q.0 (step.0 h).1), λ h. step.1 (h.0, q.1 h.1))

IsMapDns-iff :
    {Q : Type 0} (net : Net) (t : TunSettings) (rest : Option Refusal)
    → (rest ≡ none) ↔ Q
    → (check_map_dns net t rest ≡ none) ↔ ((t.map_dns_enabled ≡ true → IsMapDns net t) × Q)
unfolding check_map_dns
IsMapDns-iff net t rest q =
    let chain = require_iff (invalid_map_dns_address t.map_dns_address) same (
      require_iff (invalid_map_dns_port t.map_dns_port)
        (within_iff (pos 1) (pos 65535) t.map_dns_port)
        (require_iff (invalid_map_dns_network t.map_dns_network) same
          (require_iff (invalid_map_dns_netmask t.map_dns_netmask) same q))) in
    elim (Bool-cases t.map_dns_enabled) [
      | inr off ↦ simp off ((λ h. ((λ on. cc), q.0 h)), λ h. q.1 h.1)
      | inl on ↦ simp on (
        (λ h.
            let all = chain.0 h in
            ((λ _. (all.0, (all.1.0, (all.1.1.0, all.1.1.1.0)))), all.1.1.1.1)),
        λ h. let m = h.0 refl in chain.1 (m.0, (m.1.0, (m.1.1.0, (m.1.1.1, h.1)))),
      )
    ]

IsDevice-iff :
    {Q : Type 0} (net : Net) (t : TunSettings) (rest : Option Refusal)
    → (rest ≡ none) ↔ Q
    → (check_device net t rest ≡ none) ↔ (IsDevice net t × Q)
unfolding check_device is_interface_name
IsDevice-iff net t rest q =
    let chain =
      require_iff (invalid_interface t.interface_name)
        (IsShort-iff (λ c. is_host_char c || c == 32) 32 t.interface_name)
        (require_iff (invalid_mtu t.mtu) (within_iff (pos 576) (pos 65535) t.mtu) (
          require_iff (invalid_ipv4 t.ipv4) same (
            require_iff (invalid_ipv6 t.ipv6) same (
              require_iff (invalid_socks_udp t.socks_udp) same (
                require_iff invalid_mark_or_table
                  (and_iff (tuning_iff t.socks_mark) (tuning_iff t.route_table))
                  (require_iff (invalid_log_level t.log_level) same q)))))) in
    (
      (λ h.
          let x = chain.0 h in
          let y = x.1.1.1 in
          ((x.0, (x.1.0, (x.1.1.0, (y.0, (y.1.0, (y.1.1.0, y.1.1.1.0)))))), y.1.1.1.1)),
      λ h.
          let x = h.0 in
          let y = x.1.1.1 in
          chain.1 (x.0, (x.1.0, (x.1.1.0, (y.0, (y.1.0, (y.1.1.0, (y.1.1.1, h.1))))))),
    )

-- The helper accepts a plan exactly if it is plausible: the port is the app's, the mode is one of
-- three, the interface name is 1 to 32 letters, digits, spaces, `_`, `.` and `-`, every server's host
-- is an address or a name of such characters without a space, every address of the tunnel and (if it
-- is on) of MapDNS is an address, every number is within its bounds, there are 1 to 256 servers, and
-- at most 64 rule sources, each of which is an http or https URL with a host.
pub validate_tun_plan_iff :
    (net : Net) (p : TunPlan) → (validate_tun_plan net (some p) ≡ none) ↔ IsPlausible net p
unfolding validate_tun_plan
validate_tun_plan_iff net p =
    let chain =
      require_iff (unexpected_port p.proxy_port) (eqb_iff p.proxy_port Config.proxy_port) (
        require_iff (invalid_mode p.mode) same
          (IsDevice-iff net p.tun _ (IsMapDns-iff net p.tun _ (Targets-iff net p)))) in
    (
      λ h. plausible (chain.0 h),
      λ h. chain.1 (
        h.proxy_port,
        (
          h.mode,
          (h.device, (h.map_dns, (h.tuning, (h.server_count, (h.servers, (h.url_count, h.urls)))))),
        ),
      ),
    )
  where
    plausible :
        (p.proxy_port ≡ Config.proxy_port)
          × ((one_of ("pac" ∷ "global" ∷ "direct" ∷ []) p.mode ≡ true)
              × (IsDevice net p.tun
                  × ((p.tun.map_dns_enabled ≡ true → IsMapDns net p.tun) × Targets net p)))
        → IsPlausible net p
    plausible x =
        let y = x.1.1.1.1 in
        record {
          proxy_port = x.0;
          mode = x.1.0;
          device = x.1.1.0;
          map_dns = x.1.1.1.0;
          tuning = y.0;
          server_count = y.1.0;
          servers = y.1.1.0;
          url_count = y.1.1.1.0;
          urls = y.1.1.1.1;
        }
