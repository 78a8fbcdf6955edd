-- ===== src/Kernel/Files.antt =====
-- internal/core/runtime_config.go, `buildKernelConfigs`: the files that the core is started with, one for each
-- node; ctl_sync.go, `pollController`. The controller's port is positive in a normalised configuration.
pub mod Plain
use sudoku_desktop.Prelude.{
  ℕ, ◌≡◌, refl, ap, ◌∙◌, Bool, true, false, not, ◌&&◌, ◌||◌, List, [], ◌∷◌, Option, none, some,
  String, text_append, str_eq, if◌then◌else◌, ◌==◌, itoa, pos_part, length, map, All, trim_space,
  to_lower, arith,
}
use sudoku_desktop.Failure.{Failure, Result, ok, err, new_error}
use sudoku_desktop.Config.{
  ReverseRoute, ReverseClientSettings, ControllerSettings, NodeConfig, AppConfig,
}
use sudoku_desktop.Config.Normalize.{Platform}
use sudoku_desktop.Plan.{effective_rule_urls}
use sudoku_desktop.Kernel.{
  SudokuReverse, SudokuClientConfig, render_nodes, build_sudoku_client_config, client_config,
}
use sudoku_desktop.Kernel.Names.{Names, node_proxy_names, node_id_for_outbound}

-- `kernelConfigFile`, before it is written
pub record KernelConfigFile : Type 0 where
  pub node_id : String
  pub name : String
  pub config : SudokuClientConfig

-- `controllerListenAddr`
unfoldable pub controller_listen_addr : ControllerSettings → String
controller_listen_addr c =
    text_append (if c.allow_lan then ":" else "127.0.0.1:") (itoa (pos_part c.port))

unfoldable pub trimmed_route : ReverseRoute → ReverseRoute
unfolding trim_space
trimmed_route r = record r {
  path = trim_space r.path;
  target = trim_space r.target;
  host_header = trim_space r.host_header;
}

-- `first.Reverse`
unfoldable pub reverse_of : ReverseClientSettings → Option SudokuReverse
unfolding trimmed_route trim_space
reverse_of r =
    if not (str_eq r.client_id "") || not (length r.routes == 0)
    then some (record { client_id = trim_space r.client_id; routes = map trimmed_route r.routes })
    else none

-- A name that is missing is "".
unfoldable pub name_in : Option Names → String → String
name_in none id = ""
name_in (some names) id = elim (names id) [ none ↦ "" | some u ↦ u ]

unfoldable pub files_of :
    Option Names → List NodeConfig → List SudokuClientConfig → List KernelConfigFile
unfolding name_in
files_of names [] cs = []
files_of names (n ∷ ns) [] = []
files_of names (n ∷ ns) (c ∷ cs) =
    record { node_id = n.id; name = name_in names n.id; config = c } ∷ files_of names ns cs

-- What rides on the first file
unfoldable pub with_controller : AppConfig → String → List KernelConfigFile → List KernelConfigFile
unfolding controller_listen_addr reverse_of
with_controller cfg custom_url [] = []
with_controller cfg custom_url (f ∷ fs) =
    record f {
      config = record (f.config) {
        external_controller = controller_listen_addr cfg.controller;
        secret = cfg.controller.secret;
        rule_urls = effective_rule_urls cfg.routing custom_url;
        reverse = reverse_of cfg.reverse_client;
      };
    }
    ∷ fs

-- `buildKernelConfigs`
unfoldable pub build_kernel_configs : Platform → AppConfig → String → Result (List KernelConfigFile)
unfolding files_of with_controller
build_kernel_configs pl cfg custom_url =
    if length cfg.nodes == 0
    then err (new_error "no nodes configured")
    else elim (render_nodes pl cfg.core cfg.nodes) [
      | err e ↦ err e
      | ok cs ↦
          ok (with_controller cfg custom_url (files_of (node_proxy_names cfg.nodes) cfg.nodes cs))
    ]

-- `pollController`, given what the controller says of its mode and of the group PROXY, if it does; the
-- entries of the names are in the order in which they are visited.
unfoldable pub poll_controller :
    Result String → Result (Option String) → List (String × String) → Option (String × String)
unfolding node_id_for_outbound to_lower trim_space
poll_controller (err e) group entries = none
poll_controller (ok raw) group entries =
    let m = to_lower (trim_space raw) in
    let mode : String =
      if str_eq m "global"
      then "global"
      else if str_eq m "direct"
      then "direct"
      else if str_eq m "rule"
      then "pac"
      else "" in
    let node : String = elim group [
      | err e ↦ ""
      | ok found ↦ elim found [ none ↦ "" | some now ↦ node_id_for_outbound entries now ]
    ] in
    some (mode, node)
