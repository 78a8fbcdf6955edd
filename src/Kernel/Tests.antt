-- ===== src/Kernel/Tests.antt =====
-- runtime_config.go on a concrete node.
use sudoku_desktop.Prelude.{
  String, List, All, str_eq, ◌&&◌, trim_left, trim_right, is_space, itoa, digits_in_base, digit_in,
}
use sudoku_desktop.Kernel.{build_sudoku_client_config, proxy_listen_address}
use sudoku_desktop.Kernel.Names.{
  Names, node_proxy_names, name_nodes, free_name, node_id_for_outbound,
}
use sudoku_desktop.Kernel.Names.Unique.{node_id_for_outbound-names}
use sudoku_desktop.Kernel.Files.{
  KernelConfigFile, name_in, files_of, with_controller, build_kernel_configs,
}
use sudoku_desktop.Kernel.Files.Plain.{MatchesNodes, IsRidden, build_kernel_configs-IsRidden}
use sudoku_desktop.Prelude.{◌≡◌, refl, any, [], ◌∷◌, arith, trim_space}
use sudoku_desktop.Config.{NodeConfig}
use sudoku_desktop.Config.Normalize.Valid.{IsValidNode}
use sudoku_desktop.Kernel.{render_nodes, client_config}
use sudoku_desktop.Prelude.{true, false, none, some}
use sudoku_desktop.Failure.{ok, err_start_cancelled, new_error}
use sudoku_desktop.Kernel.Start.{StartEnv, Raced, start_kernel}
use sudoku_desktop.Kernel.Start.Outcome.{comes_up, IsAllOrNothing, start_kernel-IsAllOrNothing}
use sudoku_desktop.Examples.{platform, node, cfg}

abbrev keyless : NodeConfig
keyless = record node { key = "" }

node-IsValidNode : IsValidNode node
unfolding trim_space
node-IsValidNode = record {
  id = refl;
  padding_low = omega arith;
  padding_order = omega arith;
  padding_high = refl;
  aead = refl;
  mask_mode = refl;
  multiplex = refl;
}

-- A core whose proxy does not listen.
abbrev deaf : StartEnv
deaf = record {
  build_configs = ok ("{}" ∷ []);
  write_configs = λ _. ok ("/app/work/n1.json" ∷ []);
  rule_cache_dir = "/app/rules";
  bypass_env = [];
  spawn_error = none;
  raced = Raced.ready "1.0";
  wait_cancelled = false;
  listener_error = some (new_error "refused");
  listener_cancelled = false;
  cancel_error = err_start_cancelled;
  tail = "port in use";
  stops = true;
  select_error = none;
  names = λ id. id;
  listener_address = "127.0.0.1:10233";
  quote = λ id. id;
}

start_kernel-IsAllOrNothing_example :
    IsAllOrNothing deaf cfg (comes_up deaf deaf.build_configs) (start_kernel deaf cfg true)
start_kernel-IsAllOrNothing_example = start_kernel-IsAllOrNothing deaf cfg true refl

-- A second node of the same name.
abbrev twin : NodeConfig
twin = record node { id = "n2" }

node_id_for_outbound-names_example :
    (names : Names) × (node_proxy_names (node ∷ twin ∷ []) ≡ some names)
    × All (λ n. (u : String) × (names n.id ≡ some u)) (node ∷ twin ∷ [])
    × ((id u : String) (entries : List (String × String))
        → names id ≡ some u
        → str_eq u "" ≡ false
        → All (λ e. names e.0 ≡ some e.1) entries
        → any (λ e. str_eq e.0 id && str_eq e.1 u) entries ≡ true
        → node_id_for_outbound entries u ≡ id)
node_id_for_outbound-names_example = node_id_for_outbound-names (node ∷ twin ∷ []) (omega arith)

numbered : name_in (node_proxy_names (node ∷ twin ∷ [])) "n2" ≡ "Home#2"
unfolding name_in node_proxy_names name_nodes free_name trim_space trim_left trim_right is_space
    itoa digits_in_base digit_in
numbered = refl

abbrev files : List KernelConfigFile
files = with_controller cfg "" (
    files_of (node_proxy_names cfg.nodes) cfg.nodes
      (record (client_config platform node) { local_address = "127.0.0.1" } ∷ []))

builds : build_kernel_configs platform cfg "" ≡ ok files
unfolding build_kernel_configs render_nodes build_sudoku_client_config proxy_listen_address
    trim_space trim_left trim_right is_space
builds = refl

build_kernel_configs-IsRidden_example :
    MatchesNodes (node_proxy_names cfg.nodes) cfg.nodes files × IsRidden cfg "" files
build_kernel_configs-IsRidden_example = build_kernel_configs-IsRidden platform cfg "" files builds
