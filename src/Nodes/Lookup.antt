-- ===== src/Nodes/Lookup.antt =====
-- backend_config_nodes.go: the list that `UpsertNode` and `DeleteNode` edit, by identifier.
use text.Mathlib.TextPositions.{eq_refl}
use sudoku_desktop.Prelude.{
  ◌≡◌, refl, ap, false, Bool-cases, inl, inr, List, [], ◌∷◌, Option, none, some, String, str_eq,
  eq_iff, if◌then◌else◌, arith,
}
use sudoku_desktop.Config.{NodeConfig}
use sudoku_desktop.Config.Normalize.{has_node}
use sudoku_desktop.Nodes.Edit.{put_node, drop_node}

-- `findNodeLocked`
pub find_node : String → List NodeConfig → Option NodeConfig
find_node id [] = none
find_node id (n ∷ ns) = let rest = find_node id ns in if str_eq n.id id then some n else rest

find-put_node :
    (node : NodeConfig) (other : String) (ns : List NodeConfig)
    → (find_node node.id (put_node node ns).0 ≡ some node)
      × (str_eq node.id other ≡ false → find_node other (put_node node ns).0 ≡ find_node other ns)
unfolding put_node find_node
find-put_node node other [] = (ground (arith, eq_refl node.id), λ ne. ground arith)
find-put_node node other (n ∷ ns) =
    let ih = find-put_node node other ns in
    (
      ground (arith, ih.0, eq_refl node.id),
      λ ne. ground (arith, ih.1 ne, eq_iff n.id node.id, eq_iff n.id other, eq_iff node.id other),
    )

find-drop_node :
    (id other : String) (ns : List NodeConfig)
    → str_eq id other ≡ false
    → find_node other (drop_node id ns) ≡ find_node other ns
unfolding drop_node find_node
find-drop_node id other [] ne = refl
find-drop_node id other (n ∷ ns) ne =
    ground
      (arith, find-drop_node id other ns ne, eq_iff n.id id, eq_iff n.id other, eq_iff id other)

drop-put_node :
    (node : NodeConfig) (ns : List NodeConfig)
    → has_node node.id ns ≡ false
    → drop_node node.id (put_node node ns).0 ≡ ns
unfolding put_node drop_node
drop-put_node node [] new = ground (arith, eq_refl node.id)
drop-put_node node (n ∷ ns) new = elim (Bool-cases (str_eq n.id node.id)) [
  | inl same ↦ cc (rw same at new)
  | inr other ↦ simp other (ap (◌∷◌ n) (drop-put_node node ns (rw other at new)))
]

-- After the loop of `UpsertNode` the node is found under its identifier, and every other identifier
-- finds the node that it found before; `DeleteNode` leaves every other identifier's node as it was;
-- and deleting a node that was new takes the list back to what it was.
pub put-drop_node :
    (node : NodeConfig) (other : String) (ns : List NodeConfig)
    → (find_node node.id (put_node node ns).0 ≡ some node)
      × (str_eq node.id other ≡ false
          → (find_node other (put_node node ns).0 ≡ find_node other ns)
            × (find_node other (drop_node node.id ns) ≡ find_node other ns))
      × (has_node node.id ns ≡ false → drop_node node.id (put_node node ns).0 ≡ ns)
put-drop_node node other ns =
    let put = find-put_node node other ns in
    (put.0, λ ne. (put.1 ne, find-drop_node node.id other ns ne), drop-put_node node ns)
