-- ===== src/Nodes/Tests.antt =====
-- backend_config_nodes.go on a concrete configuration.
use sudoku_desktop.Prelude.{◌≡◌, refl, true, false, none, List, [], ◌∷◌, ℤ, pos, to_lower}
use sudoku_desktop.Config.{NodeConfig, AppConfig}
use sudoku_desktop.Config.Normalize.{normalize_config}
use sudoku_desktop.Config.Normalize.Valid.{normalize_config-IsValid}
use sudoku_desktop.Session.{stopped}
use sudoku_desktop.Nodes.{Book, EditEnv, LatencyResult}
use sudoku_desktop.Nodes.Compare.{config_change_requires_restart}
use sudoku_desktop.Nodes.Edit.{delete_node, upsert_node}
use sudoku_desktop.Nodes.Sort.{stable_sort, latency_less, sort_nodes_by_name, sort_nodes_by_latency}
use sudoku_desktop.Nodes.Sorted.{IsSortOf, ByName, ByLatency, sort_nodes-IsSortOf}
use sudoku_desktop.Nodes.Unchanged.{IsLiveChange, config_change_requires_restart_iff}
use sudoku_desktop.Nodes.Valid.{IsKept, Edits, done, then_edit, on_delete, on_upsert, Edits-IsKept}
use sudoku_desktop.Examples.{platform, draw, draws, node, cfg}

abbrev book : Book
book = record {
  cfg = normalize_config platform draws cfg;
  latency = [];
  phase = stopped;
  last_error = "";
  restart = none;
  live = [];
  launch_item = false;
  file = none;
  dirty = false;
}

abbrev edit_env : EditEnv
edit_env = record {
  platform = platform;
  draws = draws;
  id_draw = draw;
  blank_draw = draw;
  unix = 1700000000;
  write = λ c. none;
  set_launch = λ on. none;
}

book-IsKept : IsKept book
book-IsKept = record { cfg = normalize_config-IsValid platform draws cfg; file = λ f e. cc }

abbrev removed_and_added :
    Edits book (upsert_node edit_env node (delete_node edit_env "n1" book).0).0
removed_and_added = then_edit (then_edit done (on_delete edit_env "n1")) (on_upsert edit_env node)

Edits-IsKept_example : IsKept (upsert_node edit_env node (delete_node edit_env "n1" book).0).0
Edits-IsKept_example = Edits-IsKept removed_and_added book-IsKept

-- The same configuration with the tunnel off, in direct mode.
abbrev switched : AppConfig
switched = record cfg {
  tun = record (cfg.tun) { enabled = false };
  routing = record (cfg.routing) { proxy_mode = "direct" };
}

switched-IsLiveChange : IsLiveChange cfg switched
switched-IsLiveChange = record {
  nodes = refl;
  controller = refl;
  reverse_client = refl;
  rule_urls = refl;
  custom_rules_enabled = refl;
  custom_rules = refl;
  tun = refl;
  log_level = refl;
  working_dir = refl;
  sudoku_binary = refl;
  allow_lan = refl;
}

config_change_requires_restart_iff_example : config_change_requires_restart cfg switched ≡ false
config_change_requires_restart_iff_example =
    (config_change_requires_restart_iff cfg switched).1 switched-IsLiveChange

abbrev second : NodeConfig
second = record node { id = "n2" }

abbrev pinged : ℤ → LatencyResult
pinged ms = record {
  node_id = "n1";
  node_name = "";
  latency_ms = ms;
  connect_ok = true;
  checked_at_unix = 0;
  error = "";
}

abbrev measured : Book
measured = record book {
  cfg = record cfg { nodes = record node { id = "n3" } ∷ node ∷ second ∷ [] };
  latency = ("n1", pinged (pos 90)) ∷ ("n2", pinged (pos 30)) ∷ [];
}

-- The faster node is first, and one without a result last.
sorts :
    stable_sort (latency_less to_lower measured.latency) measured.cfg.nodes
    ≡ second ∷ node ∷ record node { id = "n3" } ∷ []
unfolding stable_sort latency_less
sorts = refl

sort_nodes-IsSortOf_example :
    let by_name = (sort_nodes_by_name edit_env to_lower measured).0 in
    let by_latency = (sort_nodes_by_latency edit_env to_lower measured).0 in
    ((ns : List NodeConfig) × IsSortOf (ByName to_lower) measured.cfg.nodes ns
      × (by_name.cfg ≡ normalize_config platform draws (record (measured.cfg) { nodes = ns })))
    × ((ns : List NodeConfig) × IsSortOf (ByLatency to_lower measured.latency) measured.cfg.nodes ns
        × (by_latency.cfg ≡ normalize_config platform draws (record (measured.cfg) { nodes = ns })))
sort_nodes-IsSortOf_example = sort_nodes-IsSortOf edit_env to_lower measured
