-- ===== src/Plan.antt =====
-- internal/core/lifecycle.go, `buildTunPlan` and `normalizeMode`; runtime_config.go,
-- `effectiveRuleURLs`; helper_proto.go, `tunPlan`: what the app asks of the tunnel helper.
pub mod Validate
mod Tests
use sudoku_desktop.Prelude.{
  ◌+◌, Bool, true, false, not, ◌&&◌, ◌||◌, List, [], ◌∷◌, ◌++◌, String, str_eq, if◌then◌else◌,
  length, ◌==◌, ℤ, trim_space, to_lower, has_prefix, map,
}
use sudoku_desktop.Config.{NodeConfig, RoutingSettings, TunSettings, AppConfig}
use sudoku_desktop.Config.Rules.{
  RuleSourceAction, direct, proxy, reject, reserved, parse_rule_source, default_pac_rule_urls,
}
use sudoku_desktop.Config.Normalize.{is_blank}

-- `tunPlan`
pub record TunPlan : Type 0 where
  pub tun : TunSettings
  pub proxy_port : ℤ
  pub server_addrs : List String
  pub mode : String
  pub direct_rule_urls : List String
  pub rule_seed_dir : String

-- `normalizeMode`
unfoldable pub normalize_mode : String → String
unfolding trim_space to_lower
normalize_mode m =
    let m' = to_lower (trim_space m) in
    if str_eq m' "global" then "global" else if str_eq m' "direct" then "direct" else "pac"

-- The texts of a list that are not blank, trimmed.
unfoldable pub trimmed : List String → List String
unfolding trim_space
trimmed [] = []
trimmed (u ∷ us) =
    let rest = trimmed us in if str_eq (trim_space u) "" then rest else trim_space u ∷ rest

-- `effectiveRuleURLs`
unfoldable pub effective_rule_urls : RoutingSettings → String → List String
unfolding trimmed
effective_rule_urls r custom_url =
    let own = trimmed r.rule_urls in
    let urls = if length own == 0 then default_pac_rule_urls else own in
    if r.custom_rules_enabled && not (is_blank r.custom_rules) && not (str_eq custom_url "")
    then custom_url ∷ urls
    else urls

abbrev is_direct : RuleSourceAction → Bool
is_direct direct = true
is_direct proxy = false
is_direct reject = false
is_direct reserved = false

abbrev pub is_http : String → Bool
is_http u = has_prefix u "http://" || has_prefix u "https://"

-- The direct sources of a list that are web addresses.
unfoldable pub direct_urls : List String → List String
unfolding parse_rule_source
direct_urls [] = []
direct_urls (raw ∷ raws) =
    let rest = direct_urls raws in
    let (act, u) = parse_rule_source raw in if is_direct act && is_http u then u ∷ rest else rest

-- `buildTunPlan`; `custom_url` is the address of the custom rule server, or empty, and `seed_dir`
-- the rule cache of the store.
unfoldable pub build_tun_plan : AppConfig → String → String → TunPlan
unfolding normalize_mode effective_rule_urls direct_urls
build_tun_plan cfg custom_url seed_dir = record {
  tun = cfg.tun;
  proxy_port = sudoku_desktop.Config.proxy_port;
  server_addrs = trimmed (map (λ n. n.server_address) cfg.nodes);
  mode = normalize_mode cfg.routing.proxy_mode;
  direct_rule_urls = direct_urls (effective_rule_urls cfg.routing custom_url);
  rule_seed_dir = seed_dir;
}
