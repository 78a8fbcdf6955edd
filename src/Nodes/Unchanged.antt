-- ===== src/Nodes/Unchanged.antt =====
-- backend_config_nodes.go: which changes are applied without a restart.
use text.Mathlib.TextPositions.{eq_refl}
use sudoku_desktop.Prelude.{
  ◌≡◌, ◌↔◌, refl, sym, subst, Bool, not, ◌||◌, if◌then◌else◌, true, false, trim_space, str_eq,
}
use sudoku_desktop.Config.{TunSettings, AppConfig}
use sudoku_desktop.Nodes.Compare.{
  list_eq, node_eq, controller_eq, reverse_eq, tun_eq, routing_eq, core_eq,
  config_change_requires_restart,
}
use sudoku_desktop.Nodes.Same.{
  bool_sound, text_sound, both, list_sound, node_sound, controller_sound, reverse_sound, tun_sound,
  list_refl, node_refl, controller_refl, reverse_refl, same,
}

-- What the code takes as read only at a launch stays: the switch of the tunnel, the routing mode, the
-- selection, the blanks around the custom rules, and what is not named here may differ.
pub record IsLiveChange (prev next : AppConfig) : Type 0 where
  pub nodes : prev.nodes ≡ next.nodes
  pub controller : prev.controller ≡ next.controller
  pub reverse_client : prev.reverse_client ≡ next.reverse_client
  pub rule_urls : prev.routing.rule_urls ≡ next.routing.rule_urls
  pub custom_rules_enabled : prev.routing.custom_rules_enabled ≡ next.routing.custom_rules_enabled
  pub custom_rules : trim_space prev.routing.custom_rules ≡ trim_space next.routing.custom_rules
  pub tun : next.tun ≡ record (prev.tun) { enabled = next.tun.enabled }
  pub log_level : prev.core.log_level ≡ next.core.log_level
  pub working_dir : prev.core.working_dir ≡ next.core.working_dir
  pub sudoku_binary : prev.core.sudoku_binary ≡ next.core.sudoku_binary
  pub allow_lan : prev.core.allow_lan ≡ next.core.allow_lan

tun_refl : (t : TunSettings) (on : Bool) → tun_eq t (record t { enabled = on }) ≡ true
unfolding tun_eq
tun_refl t on = simp same

-- The questions in their order: no restart is due exactly if each is answered with yes.
passed :
    (a b c d e f : Bool)
    → (if not a || not b || not c
        then true
        else if not d
        then true
        else if not e
        then true
        else not f)
      ≡ false
    → (a ≡ true) × (b ≡ true) × (c ≡ true) × (d ≡ true) × (e ≡ true) × (f ≡ true)
passed true true true true true true h = (refl, refl, refl, refl, refl, refl)
passed true true true true true false h = cc h
passed true true true true false f h = cc h
passed true true true false e f h = cc h
passed true true false d e f h = cc h
passed true false c d e f h = cc h
passed false b c d e f h = cc h

all_yes :
    (a b c d e f : Bool)
    → a ≡ true
    → b ≡ true
    → c ≡ true
    → d ≡ true
    → e ≡ true
    → f ≡ true
    → (if not a || not b || not c
        then true
        else if not d
        then true
        else if not e
        then true
        else not f)
      ≡ false
all_yes a b c d e f p q r s t u = rw (p, q, r, s, t, u) refl

routing_same :
    (prev next : AppConfig) → IsLiveChange prev next → routing_eq prev.routing next.routing ≡ true
unfolding routing_eq
routing_same prev next h = simp (
  sym h.rule_urls,
  sym h.custom_rules_enabled,
  sym h.custom_rules,
  list_refl str_eq eq_refl,
  same,
)

core_same : (prev next : AppConfig) → IsLiveChange prev next → core_eq prev.core next.core ≡ true
unfolding core_eq
core_same prev next h =
    simp (sym h.log_level, sym h.working_dir, sym h.sudoku_binary, sym h.allow_lan, same)

no_restart :
    (prev next : AppConfig)
    → IsLiveChange prev next
    → config_change_requires_restart prev next ≡ false
unfolding config_change_requires_restart
no_restart prev next h =
    all_yes (list_eq node_eq prev.nodes next.nodes) (controller_eq prev.controller next.controller)
      (reverse_eq prev.reverse_client next.reverse_client) (routing_eq prev.routing next.routing)
      (tun_eq prev.tun next.tun) (core_eq prev.core next.core)
      (subst (λ x. list_eq node_eq prev.nodes x ≡ true) h.nodes
        (list_refl node_eq node_refl prev.nodes))
      (subst (λ x. controller_eq prev.controller x ≡ true) h.controller
        (controller_refl prev.controller))
      (subst (λ x. reverse_eq prev.reverse_client x ≡ true) h.reverse_client
        (reverse_refl prev.reverse_client))
      (routing_same prev next h)
      (subst (λ t. tun_eq prev.tun t ≡ true) (sym h.tun) (tun_refl prev.tun next.tun.enabled))
      (core_same prev next h)

live_change :
    (prev next : AppConfig)
    → config_change_requires_restart prev next ≡ false
    → IsLiveChange prev next
unfolding config_change_requires_restart routing_eq core_eq
live_change prev next h =
    let (nodes, controller, reverse_client, routing, tun, core) =
      passed (list_eq node_eq prev.nodes next.nodes) (controller_eq prev.controller next.controller)
        (reverse_eq prev.reverse_client next.reverse_client) (routing_eq prev.routing next.routing)
        (tun_eq prev.tun next.tun) (core_eq prev.core next.core) h in
    let (urls_enabled, rules) = both _ _ routing in
    let (urls, enabled) = both _ _ urls_enabled in
    let (log_dir_binary, lan) = both _ _ core in
    let (log_dir, binary) = both _ _ log_dir_binary in
    let (log, dir) = both _ _ log_dir in
    record {
      nodes = list_sound node_eq node_sound _ _ nodes;
      controller = controller_sound _ _ controller;
      reverse_client = reverse_sound _ _ reverse_client;
      rule_urls = list_sound str_eq text_sound _ _ urls;
      custom_rules_enabled = bool_sound _ _ enabled;
      custom_rules = text_sound _ _ rules;
      tun = tun_sound prev.tun next.tun tun;
      log_level = text_sound _ _ log;
      working_dir = text_sound _ _ dir;
      sudoku_binary = text_sound _ _ binary;
      allow_lan = bool_sound _ _ lan;
    }

-- A change of the configuration asks for no restart exactly if it leaves alone the nodes, the controller,
-- the reverse client's settings, the rule sources and the custom rules (the blanks around them apart), the
-- tunnel's settings but its switch, and of the core its log level, directory, program and whether it is
-- open to the local network. Each of these is compared in every field.
pub config_change_requires_restart_iff :
    (prev next : AppConfig)
    → (config_change_requires_restart prev next ≡ false) ↔ IsLiveChange prev next
config_change_requires_restart_iff prev next = (live_change prev next, no_restart prev next)
