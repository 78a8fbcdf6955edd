-- ===== src/Config/Normalize/Stable.antt =====
-- store.go, `normalizeConfigForOS`: what was normalised once is not changed by another run.
use Prim.Native.Char.{Char, code}
use text.Mathlib.TextLemmas.{cons-ne-nil, cons-append}
use text.Mathlib.TextPositions.{eq_refl}
use sudoku_desktop.Prelude.{
  ℕ, ◌+◌, ◌≡◌, refl, ap₂, Bool, true, false, ◌&&◌, Bool-cases, inl, inr, List, [], ◌∷◌,
  Option-cases, some, String, text_append, str_eq, eq_iff, ℤ, pos, nonpos, arith, trim_space,
  trim_left, trim_right, is_space,
}
use sudoku_desktop.Config.{
  NodeConfig, RoutingSettings, TunSettings, CoreSettings, ControllerSettings, PortForwardRule,
  UiSettings, AppConfig, balance_node_id,
}
use sudoku_desktop.Config.Normalize.{
  Platform, Draw, Draws, new_id, random_secret, normalize_ascii, is_blank, or_default, or_if_blank,
  or_positive, normalize_proxy_mode, restore_rule_urls, add_reject_source, normalize_routing,
  normalize_tun, normalize_core, normalize_controller, normalize_ui, normalize_forwards,
  normalize_node, normalize_nodes, resolve_active_node_id, has_node, first_node_id,
  normalize_config, config_version, padding_max_of, padding_min_of, interface_name_of,
  map_dns_enabled_of, controller_port_of, theme_of, is_valid_ui_theme,
}

str_eq-false : (s t : String) → (s ≡ t → ⊥) → str_eq s t ≡ false
str_eq-false s t ne = elim (Bool-cases (str_eq s t)) [
  | inl e ↦ absurd (ne ((eq_iff s t).0 e))
  | inr e ↦ e
]

and_false : (b : Bool) → (b && false) ≡ false
and_false true = refl
and_false false = refl

-- A text that begins with another character than a space is not blank.
is_blank-cons :
    (c : Char) (s : String) → is_space (code c) ≡ false → is_blank (String.◌∷◌ c s) ≡ false
unfolding trim_space
is_blank-cons c s h =
    let whole : trim_space (String.◌∷◌ c s) ≡ String.◌∷◌ c (trim_right s) =
      rw (h, trim_space, trim_left, trim_right) (simp (h, and_false)) in
    rw whole (str_eq-false _ _ (cons-ne-nil c (trim_right s)))

pub new_id-not_blank :
    (c : Char) (s : String) (d : Draw)
    → is_space (code c) ≡ false
    → is_blank (new_id (String.◌∷◌ c s) d) ≡ false
unfolding new_id
new_id-not_blank c s d h = elim (Option-cases d.bytes) [
  | inl e ↦ rw (e, cons-append) (is_blank-cons c _ h)
  | inr (bytes, e) ↦ rw (e, cons-append) (is_blank-cons c _ h)
]

or_default_idem :
    (s d : String) → str_eq d "" ≡ false → or_default (or_default s d) d ≡ or_default s d
or_default_idem s d h = elim (Bool-cases (str_eq s "")) [ inl e ↦ rw (e, h) | inr e ↦ rw (e, e) ]

or_if_blank_idem :
    (s d d' : String) → is_blank d ≡ false → or_if_blank (or_if_blank s d) d' ≡ or_if_blank s d
or_if_blank_idem s d d' h = elim (Bool-cases (is_blank s)) [ inl e ↦ rw (e, h) | inr e ↦ rw (e, e) ]

or_positive_idem : (v d : ℤ) → nonpos d ≡ false → or_positive (or_positive v d) d ≡ or_positive v d
or_positive_idem v d h = elim (Bool-cases (nonpos v)) [ inl e ↦ rw (e, h) | inr e ↦ rw (e, e) ]

proxy_mode_idem :
    (m : String) → normalize_proxy_mode (normalize_proxy_mode m) ≡ normalize_proxy_mode m
unfolding normalize_proxy_mode
proxy_mode_idem m = ground arith

interface_name_idem :
    (goos name : String)
    → interface_name_of goos (interface_name_of goos name) ≡ interface_name_of goos name
unfolding interface_name_of
interface_name_idem goos name = ground arith

map_dns_enabled_idem :
    (mode : String) (on : Bool)
    → map_dns_enabled_of mode (map_dns_enabled_of mode on) ≡ map_dns_enabled_of mode on
unfolding map_dns_enabled_of
map_dns_enabled_idem mode on = ground arith

controller_port_idem : (p : ℤ) → controller_port_of (controller_port_of p) ≡ controller_port_of p
unfolding controller_port_of
controller_port_idem p = ground arith

theme_idem : (t : String) → theme_of (theme_of t) ≡ theme_of t
unfolding theme_of
theme_idem t = elim (Bool-cases (is_valid_ui_theme t)) [ inl e ↦ rw (e, e) | inr e ↦ rw e refl ]

padding_idem :
    (lo hi : ℤ)
    → padding_min_of (padding_min_of lo (padding_max_of hi)) (padding_max_of hi)
      ≡ padding_min_of lo (padding_max_of hi)
unfolding padding_min_of padding_max_of
padding_idem lo hi = ground arith

padding_max_idem : (hi : ℤ) → padding_max_of (padding_max_of hi) ≡ padding_max_of hi
unfolding padding_max_of
padding_max_idem hi = or_positive_idem hi (pos 15) refl

rule_urls_idem :
    (prev : ℤ) (mode custom : String) (on : Bool) (urls : List String)
    → (let first : RoutingSettings = record {
      proxy_mode = mode;
      rule_urls = urls;
      custom_rules_enabled = on;
      custom_rules = custom;
    } in
        let urls' = add_reject_source prev mode (restore_rule_urls first) in
        restore_rule_urls (record first { rule_urls = urls' }) ≡ urls')
unfolding restore_rule_urls add_reject_source
rule_urls_idem prev mode custom on [] = ground arith
rule_urls_idem prev mode custom on (u ∷ us) = ground arith

tun_idem :
    (goos mode : String) (t : TunSettings)
    → normalize_tun goos mode (normalize_tun goos mode t) ≡ normalize_tun goos mode t
unfolding normalize_tun
tun_idem goos mode t =
    simp (or_default_idem, or_positive_idem, interface_name_idem, map_dns_enabled_idem)

add_nothing :
    (mode : String) (urls : List String) → add_reject_source config_version mode urls ≡ urls
unfolding add_reject_source
add_nothing mode urls = refl

or_default_twice :
    (s t d u : String)
    → str_eq d "" ≡ false
    → or_default (or_default (or_default (or_default s t) d) u) d ≡ or_default (or_default s t) d
or_default_twice s t d u h = elim (Bool-cases (str_eq (or_default s t) "")) [
  | inl e ↦ rw (e, h, h)
  | inr e ↦ rw (e, e, e)
]

routing_idem :
    (prev : ℤ) (r : RoutingSettings)
    → normalize_routing config_version (normalize_routing prev r) ≡ normalize_routing prev r
unfolding normalize_routing
routing_idem prev r =
    let mode = normalize_proxy_mode r.proxy_mode in
    simp (
      proxy_mode_idem,
      rule_urls_idem prev mode r.custom_rules r.custom_rules_enabled r.rule_urls,
      add_nothing,
    )

core_idem :
    (pl : Platform) (c : CoreSettings)
    → is_blank pl.workspace ≡ false
    → is_blank pl.sudoku_binary ≡ false
    → is_blank pl.hev_binary ≡ false
    → normalize_core pl (normalize_core pl c) ≡ normalize_core pl c
unfolding normalize_core
core_idem pl c w sb hb = simp (or_default_idem, or_if_blank_idem, w, sb, hb)

ui_idem : (u : UiSettings) → normalize_ui (normalize_ui u) ≡ normalize_ui u
unfolding normalize_ui
ui_idem u = simp (or_default_idem, theme_idem)

controller_idem :
    (d d' : Draw) (c : ControllerSettings)
    → is_blank (random_secret d) ≡ false
    → normalize_controller d' (normalize_controller d c) ≡ normalize_controller d c
unfolding normalize_controller
controller_idem d d' c h = simp (controller_port_idem, or_if_blank_idem, h)

pf_not_blank : (d : Draw) → is_blank (new_id "pf_" d) ≡ false
unfolding is_space
pf_not_blank d = new_id-not_blank "p" "f_" d refl

pub node_not_blank : (d : Draw) → is_blank (new_id "node_" d) ≡ false
unfolding is_space
node_not_blank d = new_id-not_blank "n" "ode_" d refl

forward_not_blank : (s : String) → is_blank (text_append "Forward " s) ≡ false
unfolding is_space
forward_not_blank s = rw (cons-append "F" "orward " s) (is_blank-cons "F" _ refl)

forwards_idem :
    (draw draw' : ℕ → Draw) (i j : ℕ) (rs : List PortForwardRule)
    → normalize_forwards draw' j (normalize_forwards draw i rs) ≡ normalize_forwards draw i rs
unfolding normalize_forwards
forwards_idem draw draw' i j [] = refl
forwards_idem draw draw' i j (r ∷ rs) =
    simp (
      forwards_idem draw draw' (i + 1) (j + 1) rs,
      or_if_blank_idem,
      pf_not_blank,
      forward_not_blank,
    )

-- What the module sudoku promises of its modes: a mode that it returns it accepts unchanged, and
-- so the fallback.
pub record KnowsModes (pl : Platform) : Type 0 where
  pub stable :
      (m m' : String) → pl.normalize_ascii_mode m ≡ some m' → pl.normalize_ascii_mode m' ≡ some m'
  pub fallback : pl.normalize_ascii_mode "prefer_entropy" ≡ some "prefer_entropy"

ascii_idem :
    (pl : Platform) (m : String)
    → KnowsModes pl
    → normalize_ascii pl (normalize_ascii pl m) ≡ normalize_ascii pl m
unfolding normalize_ascii
ascii_idem pl m k = elim (Option-cases (pl.normalize_ascii_mode m)) [
  | inl e ↦ rw (e, normalize_ascii, k.fallback)
  | inr (m', e) ↦ rw (e, normalize_ascii, k.stable m m' e)
]

node_idem :
    (pl : Platform) (d d' : Draw) (n : NodeConfig)
    → KnowsModes pl
    → normalize_node pl d' (normalize_node pl d n) ≡ normalize_node pl d n
unfolding normalize_node
node_idem pl d d' n k = simp (
  or_default_idem, or_default_twice, or_if_blank_idem, node_not_blank, ascii_idem, k, padding_idem,
  padding_max_idem,
)

nodes_idem :
    (pl : Platform) (draw draw' : ℕ → Draw) (i j : ℕ) (ns : List NodeConfig)
    → KnowsModes pl
    → normalize_nodes pl draw' j (normalize_nodes pl draw i ns) ≡ normalize_nodes pl draw i ns
unfolding normalize_nodes
nodes_idem pl draw draw' i j [] k = refl
nodes_idem pl draw draw' i j (n ∷ ns) k =
    ap₂ ◌∷◌ (node_idem pl (draw i) (draw' j) n k) (nodes_idem pl draw draw' (i + 1) (j + 1) ns k)

pub first_is_node :
    (n : NodeConfig) (ns : List NodeConfig) → has_node (first_node_id (n ∷ ns)) (n ∷ ns) ≡ true
first_is_node n ns = rw (eq_refl n.id)

active_idem :
    (active : String) (ns : List NodeConfig)
    → resolve_active_node_id (resolve_active_node_id active ns) ns
      ≡ resolve_active_node_id active ns
unfolding resolve_active_node_id
active_idem active [] = ground (arith, eq_iff active balance_node_id)
active_idem active (n ∷ ns) = ground (
  arith,
  eq_iff active balance_node_id,
  eq_iff n.id balance_node_id,
  eq_refl n.id,
  first_is_node n ns,
)

-- What the paths and the module sudoku give.
pub record IsSound (pl : Platform) : Type 0 where
  pub modes : KnowsModes pl
  pub workspace : is_blank pl.workspace ≡ false
  pub sudoku_binary : is_blank pl.sudoku_binary ≡ false
  pub hev_binary : is_blank pl.hev_binary ≡ false

-- Normalising is idempotent: with default paths that are not blank, an ASCII mode that the module
-- sudoku returns accepted by it unchanged, and a first secret that is not blank, a normalised
-- configuration is not changed by normalising it again, whatever random bytes the second run draws.
pub normalize_config_idem :
    (pl : Platform) (draws draws' : Draws) (cfg : AppConfig)
    → IsSound pl
    → is_blank (random_secret draws.secret) ≡ false
    → normalize_config pl draws' (normalize_config pl draws cfg) ≡ normalize_config pl draws cfg
unfolding normalize_config
normalize_config_idem pl draws draws' cfg sound secret = simp (
  routing_idem,
  tun_idem,
  core_idem pl _ sound.workspace sound.sudoku_binary sound.hev_binary,
  controller_idem draws.secret draws'.secret cfg.controller secret,
  ui_idem,
  forwards_idem,
  nodes_idem pl draws.node draws'.node 0 0 cfg.nodes sound.modes,
  active_idem,
)
