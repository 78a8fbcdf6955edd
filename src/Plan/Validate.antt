-- ===== src/Plan/Validate.antt =====
-- internal/core/helper_proto.go, `validateTunPlan`: what the helper, which runs as root, accepts of a
-- plan. `net.ParseIP`, `net.SplitHostPort` and `url.Parse` are the fields of `Net`; a refusal is told
-- by its kind and the value that its text quotes.
pub mod Sound
use Prim.Native.Char.{code}
use sudoku_desktop.Prelude.{
  ℕ, ◌+◌, ◌^◌, Bool, true, false, not, ◌&&◌, ◌||◌, List, [], ◌∷◌, Option, none, some, String,
  str_eq, if◌then◌else◌, any, leb, ltb, ◌==◌, length, ℤ, pos, negative, ltb_ℤ, eqb_ℤ, trim_space,
  to_lower,
}
use sudoku_desktop.Config.{TunSettings, proxy_port}
use sudoku_desktop.Plan.{TunPlan}

-- What the three library functions answer: whether a text is an address, and then whether it is one of
-- IPv4 (`To4`); the host of `host:port`; the scheme and the host of a URL.
pub record Net : Type 0 where
  pub parse_ip : String → Option Bool
  pub split_host : String → Option String
  pub parse_url : String → Option (String × String)

-- The errors.
pub data Refusal : Type 0 where
  missing_plan : Refusal
  unexpected_port : ℤ → Refusal
  invalid_mode : String → Refusal
  invalid_interface : String → Refusal
  invalid_mtu : ℤ → Refusal
  invalid_ipv4 : String → Refusal
  invalid_ipv6 : String → Refusal
  invalid_socks_udp : String → Refusal
  invalid_mark_or_table : Refusal
  invalid_log_level : String → Refusal
  invalid_map_dns_address : String → Refusal
  invalid_map_dns_port : ℤ → Refusal
  invalid_map_dns_network : String → Refusal
  invalid_map_dns_netmask : String → Refusal
  invalid_tuning : Refusal
  no_servers : Refusal
  invalid_server : String → Refusal
  too_many_urls : Refusal
  invalid_url : String → Refusal

-- A Boolean test of every character.
abbrev pub every_char : (ℕ → Bool) → String → Bool
every_char p String.[] = true
every_char p (String.◌∷◌ c s) = p (code c) && every_char p s

abbrev pub text_length : String → ℕ
text_length String.[] = 0
text_length (String.◌∷◌ c s) = text_length s + 1

-- `[A-Za-z0-9_.\-]`
abbrev pub is_host_char : ℕ → Bool
is_host_char c =
    (leb 65 c && leb c 90)
    || (leb 97 c && leb c 122)
    || (leb 48 c && leb c 57)
    || c == 95
    || c == 46
    || c == 45

-- `ifaceNameRe`, which allows a space as well
unfoldable pub is_interface_name : String → Bool
is_interface_name s =
    every_char (λ c. is_host_char c || c == 32) s
    && (leb 1 (text_length s) && leb (text_length s) 32)

-- `hostNameRe`
unfoldable pub is_host_name : String → Bool
is_host_name s = every_char is_host_char s && (leb 1 (text_length s) && leb (text_length s) 253)

abbrev pub one_of : List String → String → Bool
one_of words s = any (str_eq s) words

-- `lo <= v && v <= hi`, which the code writes negated
abbrev pub within : ℤ → ℤ → ℤ → Bool
within lo hi v = not (ltb_ℤ v lo || ltb_ℤ hi v)

abbrev pub is_ipv4 : Net → String → Bool
is_ipv4 net s = elim (net.parse_ip s) [ none ↦ false | some v4 ↦ v4 ]

abbrev pub is_ip : Net → String → Bool
is_ip net s = elim (net.parse_ip s) [ none ↦ false | some v4 ↦ true ]

-- `if !c { return r }`, and then the rest
abbrev pub require : Bool → Refusal → Option Refusal → Option Refusal
require true r rest = rest
require false r rest = some r

-- `strings.Trim(host, "[]")`
trim_brackets_left : String → String
trim_brackets_left String.[] = String.[]
trim_brackets_left (String.◌∷◌ c s) =
    let rest = trim_brackets_left s in if code c == 91 || code c == 93 then rest else String.◌∷◌ c s

trim_brackets_right : String → String
trim_brackets_right String.[] = String.[]
trim_brackets_right (String.◌∷◌ c s) =
    let rest = trim_brackets_right s in
    if str_eq rest "" && (code c == 91 || code c == 93) then "" else String.◌∷◌ c rest

unfoldable pub trim_brackets : String → String
unfolding trim_brackets_left trim_brackets_right
trim_brackets s = trim_brackets_right (trim_brackets_left s)

-- The host of one server address.
unfoldable pub server_host : Net → String → String
unfolding trim_brackets
server_host net a =
    trim_brackets (elim (net.split_host (trim_space a)) [ none ↦ trim_space a | some h ↦ h ])

abbrev pub is_server : Net → String → Bool
is_server net a = is_ip net (server_host net a) || is_host_name (server_host net a)

abbrev pub is_web : Net → String → Bool
is_web net raw = elim (net.parse_url raw) [
  | none ↦ false
  | some (scheme, host) ↦ (str_eq scheme "http" || str_eq scheme "https") && not (str_eq host "")
]

-- The two loops.
unfoldable pub check_servers : Net → List String → Option Refusal → Option Refusal
check_servers net [] rest = rest
check_servers net (a ∷ more) rest =
    require (is_server net a) (invalid_server a) (check_servers net more rest)

unfoldable pub check_urls : Net → List String → Option Refusal
check_urls net [] = none
check_urls net (u ∷ us) = require (is_web net u) (invalid_url u) (check_urls net us)

-- `t.MapDNSEnabled`
unfoldable pub check_map_dns : Net → TunSettings → Option Refusal → Option Refusal
check_map_dns net t rest =
    if t.map_dns_enabled
    then require (is_ipv4 net t.map_dns_address) (invalid_map_dns_address t.map_dns_address) (
        require (within (pos 1) (pos 65535) t.map_dns_port) (invalid_map_dns_port t.map_dns_port) (
          require (is_ipv4 net t.map_dns_network) (invalid_map_dns_network t.map_dns_network) (
            require (is_ipv4 net t.map_dns_netmask) (invalid_map_dns_netmask t.map_dns_netmask)
              rest)))
    else rest

-- `1<<30`
abbrev pub tuning_max : ℤ
tuning_max = pos 1073741824

abbrev pub is_tuning : ℤ → Bool
is_tuning v = within (pos 0) tuning_max v

-- From the device to the log level.
unfoldable pub check_device : Net → TunSettings → Option Refusal → Option Refusal
check_device net t rest =
    require (is_interface_name t.interface_name) (invalid_interface t.interface_name) (
      require (within (pos 576) (pos 65535) t.mtu) (invalid_mtu t.mtu) (
        require (is_ipv4 net t.ipv4) (invalid_ipv4 t.ipv4) (
          require (str_eq t.ipv6 "" || is_ip net t.ipv6) (invalid_ipv6 t.ipv6) (
            require (one_of ("" ∷ "tcp" ∷ "udp" ∷ []) (trim_space t.socks_udp))
              (invalid_socks_udp t.socks_udp)
              (require (is_tuning t.socks_mark && is_tuning t.route_table) invalid_mark_or_table (
                require
                  (one_of ("" ∷ "debug" ∷ "info" ∷ "warn" ∷ "error" ∷ [])
                    (to_lower (trim_space t.log_level)))
                  (invalid_log_level t.log_level) rest))))))

abbrev pub tuned : TunSettings → Bool
tuned t =
    is_tuning t.task_stack_size
    && (is_tuning t.tcp_buffer_size && (is_tuning t.max_session && is_tuning t.connect_timeout))

-- From the tuning values to the end.
unfoldable pub check_targets : Net → TunPlan → Option Refusal
check_targets net p = require (tuned p.tun) invalid_tuning (
    require (leb 1 (length p.server_addrs) && leb (length p.server_addrs) 256) no_servers (
      check_servers net p.server_addrs (
        require (leb (length p.direct_rule_urls) 64) too_many_urls
          (check_urls net p.direct_rule_urls))))

-- `validateTunPlan`; a nil plan is `none`.
unfoldable pub validate_tun_plan : Net → Option TunPlan → Option Refusal
validate_tun_plan net none = some missing_plan
validate_tun_plan net (some p) =
    require (eqb_ℤ p.proxy_port proxy_port) (unexpected_port p.proxy_port) (
      require (one_of ("pac" ∷ "global" ∷ "direct" ∷ []) p.mode) (invalid_mode p.mode)
        (check_device net p.tun (check_map_dns net p.tun (check_targets net p))))
