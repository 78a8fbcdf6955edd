-- ===== src/Nodes/Valid.antt =====
-- backend_config_nodes.go and ctl_sync.go: every edit of the configuration keeps it valid, in memory
-- and in the file.
use sudoku_desktop.Prelude.{
  ◌≤◌, ◌≡◌, ◌∙◌, sym, subst, ◌⊎◌, inl, inr, Bool, true, false, Bool-cases, ℤ, length-append, List,
  [], ◌∷◌, Option, none, some, Option-cases, String, str_eq, if◌then◌else◌, length, arith, to_lower,
  trim_space,
}
use sudoku_desktop.Config.{NodeConfig, AppConfig, RoutingSettings}
use sudoku_desktop.Config.Normalize.{
  normalize_config, normalize_routing, restore_rule_urls, add_reject_source, normalize_tun,
  map_dns_enabled_of, normalize_proxy_mode,
}
use sudoku_desktop.Config.Rules.{default_reject_source}
use sudoku_desktop.Config.Normalize.Valid.{IsValid, normalize_config-IsValid}
use sudoku_desktop.Nodes.{Book, EditEnv, save}
use sudoku_desktop.Nodes.Edit.{
  save_config, upsert_node, delete_node, named_node, put_node, drop_node, active_after, after_save,
}
use sudoku_desktop.Nodes.Sort.{
  stable_sort, name_less, latency_less, sort_nodes, sort_nodes_by_name, sort_nodes_by_latency,
}
use sudoku_desktop.Nodes.Select.{
  ControlEnv, Seen, set_active_node, set_routing_mode, adopt_external_mode, adopt_external_node,
  apply_node_live, apply_mode_live, with_mode, sync, is_news,
}

-- The configuration in memory is valid, and so is the one in the file, if there is one.
pub record IsKept (b : Book) : Type 0 where
  pub cfg : IsValid b.cfg
  pub file : (f : AppConfig) → b.file ≡ some f → IsValid f

save-IsKept : (env : EditEnv) (cfg : AppConfig) (b : Book) → IsKept b → IsKept (save env cfg b).0
unfolding save
save-IsKept env cfg b kept =
    elim (Option-cases (env.write (normalize_config env.platform env.draws cfg))) [
      | inl written ↦
          rw (save, written)
            (record { cfg = valid; file = λ f e. subst IsValid (some_inj e) valid })
      | inr (e, failed) ↦ rw (save, failed) (record { cfg = valid; file = kept.file })
    ]
  where
    valid : IsValid (normalize_config env.platform env.draws cfg)
    valid = normalize_config-IsValid env.platform env.draws cfg

    some_inj : {f g : AppConfig} → some f ≡ some g → f ≡ g
    some_inj e = cc

-- Two states with the same configuration.
abbrev SameConfig : Book → Book → Type 0
SameConfig a b = (b.cfg ≡ a.cfg) × (b.file ≡ a.file)

IsKept-SameConfig : (a b : Book) → SameConfig a b → IsKept a → IsKept b
IsKept-SameConfig a b (c, f) kept = record {
  cfg = subst IsValid (sym c) kept.cfg;
  file = λ g e. kept.file g (sym f ∙ e);
}

after_save-same : (prev : AppConfig) (b : Book) → SameConfig b (after_save prev b)
unfolding after_save
after_save-same prev b = (ground arith, ground arith)

apply_node_live-same : (ctl : ControlEnv) (b : Book) → SameConfig b (apply_node_live ctl b).0
unfolding apply_node_live
apply_node_live-same ctl b = (ground arith, ground arith)

apply_mode_live-same :
    (ctl : ControlEnv) (prev mode : String) (b : Book)
    → SameConfig b (apply_mode_live ctl prev mode b).0
unfolding apply_mode_live
apply_mode_live-same ctl prev mode b = (ground arith, ground arith)

-- What an edit leaves that stores `cfg`: the configurations of `save`, or those before it.
abbrev Stores : EditEnv → AppConfig → Book → Book → Type 0
Stores env cfg b b' = SameConfig b b' ⊎ SameConfig (save env cfg b).0 b'

Stores-IsKept :
    (env : EditEnv) (cfg : AppConfig) (b b' : Book) → Stores env cfg b b' → IsKept b → IsKept b'
Stores-IsKept env cfg b b' (inl same) kept = IsKept-SameConfig b b' same kept
Stores-IsKept env cfg b b' (inr after) kept =
    IsKept-SameConfig (save env cfg b).0 b' after (save-IsKept env cfg b kept)

save_config-Stores :
    (env : EditEnv) (cfg : AppConfig) (b : Book)
    → Stores env (normalize_config env.platform env.draws cfg) b (save_config env cfg b).0
unfolding save_config after_save save
save_config-Stores env cfg b = ground arith

set_active_node-Stores :
    (env : EditEnv) (ctl : ControlEnv) (id : String) (b : Book)
    → Stores env (record (b.cfg) { active_node_id = id }) b (set_active_node env ctl id b).0
unfolding set_active_node save apply_node_live
set_active_node-Stores env ctl id b = ground arith

adopt_external_node-Stores :
    (env : EditEnv) (id : String) (b : Book)
    → Stores env (record (b.cfg) { active_node_id = id }) b (adopt_external_node env id b)
unfolding adopt_external_node save
adopt_external_node-Stores env id b = ground arith

adopt_external_mode-Stores :
    (env : EditEnv) (ctl : ControlEnv) (mode : String) (b : Book)
    → Stores env (with_mode mode b.cfg) b (adopt_external_mode env ctl mode b).0
unfolding adopt_external_mode save
adopt_external_mode-Stores env ctl mode b = ground arith

abbrev upserted : EditEnv → NodeConfig → Book → AppConfig
upserted env node b =
    let node' = named_node env node in
    record (b.cfg) {
      nodes = (put_node node' b.cfg.nodes).0;
      active_node_id = if str_eq b.cfg.active_node_id "" then node'.id else b.cfg.active_node_id;
    }

upsert_node-Stores :
    (env : EditEnv) (node : NodeConfig) (b : Book)
    → Stores env (upserted env node b) b (upsert_node env node b).0
unfolding upsert_node save
upsert_node-Stores env node b = ground arith

abbrev deleted : String → Book → AppConfig
deleted id b =
    let nodes = drop_node id b.cfg.nodes in
    record (b.cfg) { nodes = nodes; active_node_id = active_after id b.cfg.active_node_id nodes }

delete_node-Stores :
    (env : EditEnv) (id : String) (b : Book) → Stores env (deleted id b) b (delete_node env id b).0
unfolding delete_node save
delete_node-Stores env id b = ground arith

sort_nodes-Stores :
    (env : EditEnv) (less : NodeConfig → NodeConfig → Bool) (b : Book)
    → Stores env
        (record (b.cfg) { nodes = stable_sort less b.cfg.nodes })
        b
        (sort_nodes env less b).0
unfolding sort_nodes save
sort_nodes-Stores env less b = ground arith

-- The mode that is put back belongs to a valid configuration: MapDNS and the rule sources were not
-- taken away by the mode that was tried.
restore_kept : (r : RoutingSettings) → 1 ≤ length r.rule_urls → restore_rule_urls r ≡ r.rule_urls
unfolding restore_rule_urls
restore_kept r h = ground arith

add_kept :
    (v : ℤ) (mode : String) (urls : List String)
    → 1 ≤ length urls
    → 1 ≤ length (add_reject_source v mode urls)
unfolding add_reject_source
add_kept v mode urls h = ground (arith, length-append urls (default_reject_source ∷ []))

rule_urls_kept :
    (v : ℤ) (r : RoutingSettings)
    → 1 ≤ length r.rule_urls
    → 1 ≤ length (normalize_routing v r).rule_urls
unfolding normalize_routing
rule_urls_kept v r h =
    let r1 = record r { proxy_mode = normalize_proxy_mode r.proxy_mode } in
    rw (restore_kept r1 h) (add_kept v _ r.rule_urls h)

put_back-IsValid :
    (env : EditEnv) (mode : String) (cfg : AppConfig)
    → IsValid cfg
    → IsValid (
        with_mode cfg.routing.proxy_mode
          (normalize_config env.platform env.draws (with_mode mode cfg)))
unfolding normalize_config normalize_tun map_dns_enabled_of normalize_routing
put_back-IsValid env mode cfg old =
    let new = normalize_config-IsValid env.platform env.draws (with_mode mode cfg) in
    record {
      port_low = new.port_low;
      port_high = new.port_high;
      port_free = new.port_free;
      mode = old.mode;
      pac_dns = λ h. ground (arith, old.pac_dns h);
      pac_rules = λ h custom.
          rule_urls_kept cfg.version (with_mode mode cfg).routing (old.pac_rules h custom);
      nodes = new.nodes;
      active = new.active;
    }

set_routing_mode-Stores :
    (env : EditEnv) (ctl : ControlEnv) (raw : String) (b : Book)
    → Stores env (with_mode (to_lower (trim_space raw)) b.cfg) b (set_routing_mode env ctl raw b).0
      ⊎ (((set_routing_mode env ctl raw b).0.cfg
            ≡ with_mode b.cfg.routing.proxy_mode (
                normalize_config env.platform env.draws
                  (with_mode (to_lower (trim_space raw)) b.cfg)))
          × ((set_routing_mode env ctl raw b).0.file ≡ b.file))
unfolding set_routing_mode save apply_mode_live
set_routing_mode-Stores env ctl raw b = ground arith

set_routing_mode-IsKept :
    (env : EditEnv) (ctl : ControlEnv) (raw : String) (b : Book)
    → IsKept b
    → IsKept (set_routing_mode env ctl raw b).0
set_routing_mode-IsKept env ctl raw b kept = elim (set_routing_mode-Stores env ctl raw b) [
  | inl stored ↦ Stores-IsKept env _ b _ stored kept
  | inr (back, same) ↦ record {
    cfg = subst IsValid (sym back) (put_back-IsValid env _ b.cfg kept.cfg);
    file = λ f e. kept.file f (sym same ∙ e);
  }
]

sync-IsKept :
    (env : EditEnv) (ctl : ControlEnv) (answer : Option (String × String)) (s : Seen × Book)
    → IsKept s.1
    → IsKept (sync env ctl answer s).1
unfolding sync
sync-IsKept env ctl none (seen, b) kept = kept
sync-IsKept env ctl (some (mode, node)) (seen, b) kept = pick (Bool-cases seen.primed)
  where
    b1 : Book
    b1 = if is_news mode seen.last_mode then (adopt_external_mode env ctl mode b).0 else b

    kept1 : IsKept b1
    kept1 = elim (Bool-cases (is_news mode seen.last_mode)) [
      | inl news ↦
          rw news (Stores-IsKept env _ b _ (adopt_external_mode-Stores env ctl mode b) kept)
      | inr old ↦ rw old kept
    ]

    kept2 : IsKept (if is_news node seen.last_node then adopt_external_node env node b1 else b1)
    kept2 = elim (Bool-cases (is_news node seen.last_node)) [
      | inl news ↦ rw news (Stores-IsKept env _ b1 _ (adopt_external_node-Stores env node b1) kept1)
      | inr old ↦ rw old kept1
    ]

    pick :
        (seen.primed ≡ true) ⊎ (seen.primed ≡ false)
        → IsKept (sync env ctl (some (mode, node)) (seen, b)).1
    pick (inl on) = rw (sync, on) kept2
    pick (inr off) = rw (sync, off) kept

-- One edit, by the user or from the controller.
pub data Edit : Book → Book → Type 0 where
  on_save : {b : Book} (env : EditEnv) (cfg : AppConfig) → Edit b (save_config env cfg b).0
  on_upsert : {b : Book} (env : EditEnv) (node : NodeConfig) → Edit b (upsert_node env node b).0
  on_delete : {b : Book} (env : EditEnv) (id : String) → Edit b (delete_node env id b).0
  on_sort_by_name :
      {b : Book} (env : EditEnv) (lower : String → String)
      → Edit b (sort_nodes_by_name env lower b).0
  on_sort_by_latency :
      {b : Book} (env : EditEnv) (lower : String → String)
      → Edit b (sort_nodes_by_latency env lower b).0
  on_select :
      {b : Book} (env : EditEnv) (ctl : ControlEnv) (id : String)
      → Edit b (set_active_node env ctl id b).0
  on_mode :
      {b : Book} (env : EditEnv) (ctl : ControlEnv) (raw : String)
      → Edit b (set_routing_mode env ctl raw b).0
  on_sync :
      {b : Book} (env : EditEnv) (ctl : ControlEnv) (answer : Option (String × String))
      (seen : Seen)
      → Edit b (sync env ctl answer (seen, b)).1

pub data Edits : Book → Book → Type 0 where
  done : {b : Book} → Edits b b
  then_edit : {a b c : Book} → Edits a b → Edit b c → Edits a c

Edit-IsKept : {a b : Book} → Edit a b → IsKept a → IsKept b
unfolding sort_nodes_by_name sort_nodes_by_latency
Edit-IsKept (on_save env cfg) kept = Stores-IsKept env _ _ _ (save_config-Stores env cfg _) kept
Edit-IsKept (on_upsert env node) kept = Stores-IsKept env _ _ _ (upsert_node-Stores env node _) kept
Edit-IsKept (on_delete env id) kept = Stores-IsKept env _ _ _ (delete_node-Stores env id _) kept
Edit-IsKept (on_sort_by_name env lower) kept =
    Stores-IsKept env _ _ _ (sort_nodes-Stores env (name_less lower) _) kept
Edit-IsKept (on_sort_by_latency {b = b} env lower) kept =
    Stores-IsKept env _ _ _ (sort_nodes-Stores env (latency_less lower b.latency) b) kept
Edit-IsKept (on_select env ctl id) kept =
    Stores-IsKept env _ _ _ (set_active_node-Stores env ctl id _) kept
Edit-IsKept (on_mode env ctl raw) kept = set_routing_mode-IsKept env ctl raw _ kept
Edit-IsKept (on_sync env ctl answer seen) kept = sync-IsKept env ctl answer (seen, _) kept

-- Through any sequence of edits, by the user or adopted from the controller, with any failures of the
-- file on the way, the configuration in memory and the one in the file stay valid: the selected
-- node exists, the mode is known, and pac mode has MapDNS, and rules unless there are custom ones.
pub Edits-IsKept : {a b : Book} → Edits a b → IsKept a → IsKept b
Edits-IsKept done kept = kept
Edits-IsKept (then_edit before last) kept = Edit-IsKept last (Edits-IsKept before kept)
