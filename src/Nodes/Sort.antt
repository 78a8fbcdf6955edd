-- ===== src/Nodes/Sort.antt =====
-- backend_config_nodes.go, `sortNodes`, `SortNodesByName`, `SortNodesByLatency`; detect.go,
-- `sortLatencyResults`. `strings.ToLower` is a parameter; `sort.SliceStable` is an insertion that leaves
-- equal elements in their order.
use Prim.Native.Char.{code}
use Prim.Native.String.{String as Text, [] as done, ◌∷◌ as cons}
use sudoku_desktop.Prelude.{
  Bool, true, false, not, ◌&&◌, ◌||◌, List, [], ◌∷◌, Option, none, some, String, str_eq,
  if◌then◌else◌, ltb, any, ltb_ℤ, negative,
}
use sudoku_desktop.Failure.{Failure}
use sudoku_desktop.Config.{NodeConfig}
use sudoku_desktop.Nodes.{Book, EditEnv, LatencyResult, save}
use sudoku_desktop.Nodes.Compare.{bool_eq}
use sudoku_desktop.Nodes.Edit.{is_stopped, schedule_restart}

module _ {ℓ} {A : Type ℓ} (less : A → A → Bool) where
  unfoldable pub insert : A → List A → List A
  insert x [] = x ∷ []
  insert x (y ∷ ys) = let rest = insert x ys in if less y x then y ∷ rest else x ∷ y ∷ ys

  -- `sort.SliceStable`
  unfoldable pub stable_sort : List A → List A
  unfolding insert
  stable_sort [] = []
  stable_sort (x ∷ xs) = insert x (stable_sort xs)

-- The order of Go's texts
unfoldable pub text_less : Text → Text → Bool
text_less done done = false
text_less done (cons d t) = true
text_less (cons c s) done = false
text_less (cons c s) (cons d t) =
    let rest = text_less s t in
    if ltb (code c) (code d) then true else if ltb (code d) (code c) then false else rest

-- `SortNodesByName`'s order
unfoldable pub name_less : (String → String) → NodeConfig → NodeConfig → Bool
unfolding text_less
name_less lower a c = text_less (lower a.name) (lower c.name)

-- `SortNodesByLatency`'s order of the results of two nodes, given that of their names.
unfoldable pub result_less : Bool → Option LatencyResult → Option LatencyResult → Bool
result_less by_name none none = by_name
result_less by_name none (some lc) = false
result_less by_name (some la) none = true
result_less by_name (some la) (some lc) =
    if not (bool_eq la.connect_ok lc.connect_ok)
    then la.connect_ok
    else if negative la.latency_ms || negative lc.latency_ms
    then negative lc.latency_ms && not (negative la.latency_ms)
    else ltb_ℤ la.latency_ms lc.latency_ms

abbrev pub lookup : String → List (String × LatencyResult) → Option LatencyResult
lookup id [] = none
lookup id ((k, v) ∷ rest) = if str_eq k id then some v else lookup id rest

unfoldable pub latency_less :
    (String → String) → List (String × LatencyResult) → NodeConfig → NodeConfig → Bool
unfolding result_less name_less
latency_less lower lat a c = result_less (name_less lower a c) (lookup a.id lat) (lookup c.id lat)

-- `hasDuplicateNames`, with the names that were seen.
unfoldable pub has_duplicate_names : List String → List NodeConfig → Bool
has_duplicate_names seen [] = false
has_duplicate_names seen (n ∷ ns) =
    let rest = has_duplicate_names (n.name ∷ seen) ns in
    if any (str_eq n.name) seen then true else rest

-- `sortNodes`
unfoldable pub sort_nodes :
    EditEnv → (NodeConfig → NodeConfig → Bool) → Book → Book × Option Failure
unfolding save stable_sort has_duplicate_names
sort_nodes env less b =
    let (saved, r) = save env (record (b.cfg) { nodes = stable_sort less b.cfg.nodes }) b in
    let b' = record saved { dirty = true } in
    elim r [
      | some e ↦ (b', some e)
      | none ↦ (
        if has_duplicate_names [] b'.cfg.nodes && not (is_stopped b'.phase)
            then schedule_restart "node order changed; restarting" b'
            else b',
        none,
      )
    ]

-- `SortNodesByName`
unfoldable pub sort_nodes_by_name : EditEnv → (String → String) → Book → Book × Option Failure
unfolding sort_nodes name_less
sort_nodes_by_name env lower b = sort_nodes env (name_less lower) b

-- `SortNodesByLatency`
unfoldable pub sort_nodes_by_latency : EditEnv → (String → String) → Book → Book × Option Failure
unfolding sort_nodes latency_less
sort_nodes_by_latency env lower b = sort_nodes env (latency_less lower b.latency) b

-- `sortLatencyResults`'s order
unfoldable pub latency_result_less : (String → String) → LatencyResult → LatencyResult → Bool
unfolding text_less
latency_result_less lower a b =
    if not (bool_eq a.connect_ok b.connect_ok)
    then a.connect_ok
    else if negative a.latency_ms
    then false
    else if negative b.latency_ms
    then true
    else if not (ltb_ℤ a.latency_ms b.latency_ms || ltb_ℤ b.latency_ms a.latency_ms)
    then text_less (lower a.node_name) (lower b.node_name)
    else ltb_ℤ a.latency_ms b.latency_ms

-- `sortLatencyResults`
unfoldable pub sort_latency_results : (String → String) → List LatencyResult → List LatencyResult
unfolding stable_sort latency_result_less
sort_latency_results lower results = stable_sort (latency_result_less lower) results
