-- ===== src/Config/Rules.antt =====
-- internal/core/routing_defaults.go: rule sources and their prefixes.
use sudoku_desktop.Prelude.{
  Bool, ◌||◌, List, [], ◌∷◌, String, str_eq, if◌then◌else◌, trim_space, has_prefix,
}

abbrev pub default_pac_reject_rule_url : String
default_pac_reject_rule_url =
    "https://gcore.jsdelivr.net/gh/TG-Twilight/AWAvenue-Ads-Rule@main/Filters/AWAvenue-Ads-Rule-Clash.yaml"

pub data RuleSourceAction : Type 0 where
  direct proxy reject reserved : RuleSourceAction

-- `"!" + defaultPACRejectRuleURL`
abbrev pub default_reject_source : String
default_reject_source = String.◌∷◌ "!" default_pac_reject_rule_url

-- `defaultPACRuleURLs`
abbrev pub default_pac_rule_urls : List String
default_pac_rule_urls =
    "https://fastly.jsdelivr.net/gh/blackmatrix7/ios_rule_script@master/rule/Clash/ChinaMaxNoIP/ChinaMaxNoIP.list"
    ∷ "https://fastly.jsdelivr.net/gh/fernvenue/chn-cidr-list@master/ipv4.yaml"
    ∷ "https://fastly.jsdelivr.net/gh/fernvenue/chn-cidr-list@master/ipv6.yaml"
    ∷ default_reject_source ∷ []

-- `hasRejectRulePrefix`
unfoldable pub has_reject_rule_prefix : String → Bool
unfolding trim_space
has_reject_rule_prefix raw = let raw' = trim_space raw in has_prefix raw' "!" || has_prefix raw' "！"

-- The text behind its first character: `raw[1:]` and `TrimPrefix` by the prefix that was tested.
abbrev behind_first : String → String
behind_first String.[] = ""
behind_first (String.◌∷◌ c s) = s

-- `parseRuleSource`
unfoldable pub parse_rule_source : String → RuleSourceAction × String
unfolding trim_space
parse_rule_source raw =
    let raw' = trim_space raw in
    let rest = trim_space (behind_first raw') in
    if str_eq raw' ""
    then (reserved, "")
    else if has_prefix raw' "!" || has_prefix raw' "！"
    then (reject, rest)
    else if has_prefix raw' "-" || has_prefix raw' "_"
    then (proxy, rest)
    else if has_prefix raw' "?"
    then (reserved, rest)
    else (direct, raw')
