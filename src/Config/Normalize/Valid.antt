-- ===== src/Config/Normalize/Valid.antt =====
-- store.go, `normalizeConfigForOS`: what every normalised configuration has, whatever was loaded.
use text.Mathlib.TextPositions.{eq_refl}
use sudoku_desktop.Prelude.{
  ℕ, ◌+◌, ◌≤◌, ◌≡◌, refl, ◌⊎◌, inl, inr, Bool, true, false, Bool-cases, List, [], ◌∷◌, String,
  str_eq, eq_iff, length, All, ℤ, pos, nonpos, ◌≤ℤ◌, eqb_ℤ, arith, length-append, trim_space,
}
use sudoku_desktop.Config.Rules.{default_reject_source}
use sudoku_desktop.Config.{NodeConfig, RoutingSettings, AppConfig, proxy_port, balance_node_id}
use sudoku_desktop.Config.Normalize.{
  Platform, Draw, Draws, is_blank, or_default, or_if_blank, normalize_proxy_mode, restore_rule_urls,
  add_reject_source, normalize_routing, normalize_tun, map_dns_enabled_of, normalize_controller,
  controller_port_of, normalize_node, normalize_nodes, padding_min_of, padding_max_of, has_node,
  resolve_active_node_id, normalize_config,
}
use sudoku_desktop.Config.Normalize.Stable.{node_not_blank, first_is_node}

-- The paddings are an interval of numbers with a positive upper end, and no name that the core
-- reads is empty.
pub record IsValidNode (n : NodeConfig) : Type 0 where
  pub id : is_blank n.id ≡ false
  pub padding_low : pos 0 ≤ℤ n.padding_min
  pub padding_order : n.padding_min ≤ℤ n.padding_max
  pub padding_high : nonpos n.padding_max ≡ false
  pub aead : str_eq n.aead "" ≡ false
  pub mask_mode : str_eq n.http_mask.mode "" ≡ false
  pub multiplex : str_eq n.multiplex "" ≡ false

-- The selection is the Balance group of at least two nodes, or a node, or nothing where there is none.
abbrev pub IsSelectable : String → List NodeConfig → Type 0
IsSelectable active nodes =
    ((active ≡ balance_node_id) × (2 ≤ length nodes))
    ⊎ (has_node active nodes ≡ true)
    ⊎ ((active ≡ "") × (length nodes ≡ 0))

pub record IsValid (cfg : AppConfig) : Type 0 where
  pub port_low : pos 1 ≤ℤ cfg.controller.port
  pub port_high : cfg.controller.port ≤ℤ pos 65535
  pub port_free : eqb_ℤ cfg.controller.port proxy_port ≡ false
  pub mode :
      (cfg.routing.proxy_mode ≡ "global")
      ⊎ (cfg.routing.proxy_mode ≡ "direct")
      ⊎ (cfg.routing.proxy_mode ≡ "pac")
  pub pac_dns : cfg.routing.proxy_mode ≡ "pac" → cfg.tun.map_dns_enabled ≡ true
  pub pac_rules :
      cfg.routing.proxy_mode ≡ "pac"
      → (cfg.routing.custom_rules_enabled ≡ false) ⊎ (is_blank cfg.routing.custom_rules ≡ true)
      → 1 ≤ length cfg.routing.rule_urls
  pub nodes : All IsValidNode cfg.nodes
  pub active : IsSelectable cfg.active_node_id cfg.nodes

or_default-ne : (s d : String) → str_eq d "" ≡ false → str_eq (or_default s d) "" ≡ false
or_default-ne s d h = elim (Bool-cases (str_eq s "")) [ inl e ↦ rw (e, h) | inr e ↦ rw (e, e) ]

or_if_blank-not : (s d : String) → is_blank d ≡ false → is_blank (or_if_blank s d) ≡ false
or_if_blank-not s d h = elim (Bool-cases (is_blank s)) [ inl e ↦ rw (e, h) | inr e ↦ rw (e, e) ]

padding_max_pos : (hi : ℤ) → nonpos (padding_max_of hi) ≡ false
unfolding padding_max_of
padding_max_pos hi = ground arith

padding_bounds :
    (lo hi : ℤ) → nonpos hi ≡ false → (pos 0 ≤ℤ padding_min_of lo hi) × (padding_min_of lo hi ≤ℤ hi)
unfolding padding_min_of
padding_bounds lo hi h = ground arith

pub normalize_node-IsValidNode :
    (pl : Platform) (d : Draw) (n : NodeConfig) → IsValidNode (normalize_node pl d n)
unfolding normalize_node
normalize_node-IsValidNode pl d n =
    let high = padding_max_pos n.padding_max in
    let bounds = padding_bounds n.padding_min (padding_max_of n.padding_max) high in
    record {
      id = or_if_blank-not n.id _ (node_not_blank d);
      padding_low = bounds.0;
      padding_order = bounds.1;
      padding_high = high;
      aead = or_default-ne n.aead _ refl;
      mask_mode = or_default-ne n.http_mask.mode _ refl;
      multiplex =
          or_default-ne (or_default n.multiplex (trim_space n.http_mask.multiplex)) "off" refl;
    }

normalize_nodes-All :
    (pl : Platform) (draw : ℕ → Draw) (i : ℕ) (ns : List NodeConfig)
    → All IsValidNode (normalize_nodes pl draw i ns)
unfolding normalize_nodes
normalize_nodes-All pl draw i [] = tt
normalize_nodes-All pl draw i (n ∷ ns) =
    (normalize_node-IsValidNode pl (draw i) n, normalize_nodes-All pl draw (i + 1) ns)

-- Whatever was selected, the resolved selection can be used.
pub resolve-IsSelectable :
    (active : String) (ns : List NodeConfig) → IsSelectable (resolve_active_node_id active ns) ns
unfolding resolve_active_node_id
resolve-IsSelectable active [] = ground (arith, eq_iff active balance_node_id)
resolve-IsSelectable active (n ∷ ns) =
    ground (arith, eq_iff active balance_node_id, eq_refl n.id, first_is_node n ns)

controller_port_bounds :
    (p : ℤ)
    → (pos 1 ≤ℤ controller_port_of p)
      × (controller_port_of p ≤ℤ pos 65535)
      × (eqb_ℤ (controller_port_of p) proxy_port ≡ false)
unfolding controller_port_of
controller_port_bounds p = ground arith

proxy_mode_cases :
    (m : String)
    → (normalize_proxy_mode m ≡ "global")
      ⊎ (normalize_proxy_mode m ≡ "direct")
      ⊎ (normalize_proxy_mode m ≡ "pac")
unfolding normalize_proxy_mode
proxy_mode_cases m = ground (arith, eq_iff m "global", eq_iff m "direct", eq_iff m "pac")

map_dns_of_pac : (mode : String) (on : Bool) → mode ≡ "pac" → map_dns_enabled_of mode on ≡ true
unfolding map_dns_enabled_of
map_dns_of_pac mode on e = rw e

add_reject_source-le :
    (prev : ℤ) (mode : String) (urls : List String)
    → length urls ≤ length (add_reject_source prev mode urls)
unfolding add_reject_source
add_reject_source-le prev mode urls =
    ground (arith, length-append urls (default_reject_source ∷ []))

restore_rule_urls-pos :
    (r : RoutingSettings)
    → r.proxy_mode ≡ "pac"
    → (r.custom_rules_enabled ≡ false) ⊎ (is_blank r.custom_rules ≡ true)
    → 1 ≤ length (restore_rule_urls r)
unfolding restore_rule_urls
restore_rule_urls-pos r e h = ground (arith, eq_iff r.proxy_mode "pac")

rule_urls_of_pac :
    (prev : ℤ) (r : RoutingSettings)
    → r.proxy_mode ≡ "pac"
    → (r.custom_rules_enabled ≡ false) ⊎ (is_blank r.custom_rules ≡ true)
    → 1 ≤ length (add_reject_source prev r.proxy_mode (restore_rule_urls r))
rule_urls_of_pac prev r e h = omega (
  arith,
  restore_rule_urls-pos r e h,
  add_reject_source-le prev r.proxy_mode (restore_rule_urls r),
)

-- Whatever configuration is loaded or saved, the normalised one has: a controller port from 1 to
-- 65535 that is not the proxy port; one of the three routing modes; in pac mode MapDNS on, and at
-- least one rule source unless there are custom rules; nodes with an identifier, positive ordered
-- paddings and non-empty cipher, mask mode and multiplex; and a selection that exists.
pub normalize_config-IsValid :
    (pl : Platform) (draws : Draws) (cfg : AppConfig) → IsValid (normalize_config pl draws cfg)
unfolding normalize_config normalize_routing normalize_tun normalize_controller
normalize_config-IsValid pl draws cfg =
    let port = controller_port_bounds cfg.controller.port in
    record {
      port_low = port.0;
      port_high = port.1;
      port_free = port.2;
      mode = proxy_mode_cases cfg.routing.proxy_mode;
      pac_dns = map_dns_of_pac _ cfg.tun.map_dns_enabled;
      pac_rules =
          rule_urls_of_pac cfg.version
            (record (cfg.routing) { proxy_mode = normalize_proxy_mode cfg.routing.proxy_mode });
      nodes = normalize_nodes-All pl draws.node 0 cfg.nodes;
      active = resolve-IsSelectable cfg.active_node_id _;
    }
