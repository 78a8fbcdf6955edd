-- ===== src/Kernel/Client.antt =====
-- runtime_config.go: when the nodes can be rendered, and that rendering a node that the store
-- normalised changes none of its numbers.
use sudoku_desktop.Prelude.{◌≡◌, refl, Bool, true, false, ◌||◌, not, List, [], ◌∷◌, arith, any}
use sudoku_desktop.Failure.{Result, ok, err}
use sudoku_desktop.Config.{NodeConfig, CoreSettings}
use sudoku_desktop.Config.Normalize.{Platform, is_blank}
use sudoku_desktop.Config.Normalize.Valid.{IsValidNode}
use sudoku_desktop.Kernel.{client_config, build_sudoku_client_config, render_nodes}

abbrev pub is_broken : NodeConfig → Bool
is_broken n = is_blank n.server_address || is_blank n.key

abbrev pub is_ok {ℓ} : {A : Type ℓ} → Result A → Bool
is_ok (ok a) = true
is_ok (err e) = false

-- One node without a server address or without a key keeps all nodes from being rendered; otherwise
-- all are.
render_nodes-is_ok :
    (pl : Platform) (core : CoreSettings) (ns : List NodeConfig)
    → is_ok (render_nodes pl core ns) ≡ not (any is_broken ns)
unfolding render_nodes build_sudoku_client_config
render_nodes-is_ok pl core [] = refl
render_nodes-is_ok pl core (n ∷ ns) = ground (arith, render_nodes-is_ok pl core ns)

-- A node that the store normalised is rendered with its own paddings.
pub client_config-paddings :
    (pl : Platform) (n : NodeConfig)
    → IsValidNode n
    → ((client_config pl n).padding_min ≡ n.padding_min)
      × ((client_config pl n).padding_max ≡ n.padding_max)
unfolding client_config
client_config-paddings pl n valid =
    (ground (arith, valid.padding_order, valid.padding_high), ground (arith, valid.padding_high))
