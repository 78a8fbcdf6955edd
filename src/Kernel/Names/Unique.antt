-- ===== src/Kernel/Names/Unique.antt =====
-- internal/core/runtime_config.go and ctl_sync.go: the core's names tell the nodes apart.
use text.Mathlib.TextPositions.{eq_refl}
use sudoku_desktop.Prelude.{
  suc, ◌+◌, ◌<◌, ◌≡◌, refl, sym, ap, ◌∙◌, true, false, ◌&&◌, Bool-cases, inl, inr, List, [], ◌∷◌,
  none, some, String, str_eq, eq_iff, length, any, All, ◌^◌, ◌⊎◌, ◌≢◌, subst, trim_space, arith,
}
use sudoku_desktop.Config.{NodeConfig}
use sudoku_desktop.Config.Normalize.{or_default}
use sudoku_desktop.Kernel.Names.{
  Names, reserved, is_taken, put, name_nodes, node_proxy_names, entry_of, node_id_for_outbound,
}
use sudoku_desktop.Kernel.Names.Free.{free_name-some, free_name_found}

-- Every name is taken and no group's, and no two identifiers have one.
record IsNaming (taken : List String) (names : Names) : Type 0 where
  known : (i u : String) → names i ≡ some u → is_taken taken u ≡ true
  fresh : (i u : String) → names i ≡ some u → is_taken reserved u ≡ false
  apart : (i j u : String) → names i ≡ some u → names j ≡ some u → i ≡ j
  groups : (u : String) → is_taken reserved u ≡ true → is_taken taken u ≡ true

put-cases :
    (id u : String) (names : Names) (i v : String)
    → put id u names i ≡ some v
    → ((id ≡ i) × (u ≡ v)) ⊎ (names i ≡ some v)
put-cases id u names i v e = elim (Bool-cases (str_eq id i)) [
  | inl here ↦ inl ((eq_iff id i).0 here, cc (rw here at e))
  | inr other ↦ inr (rw other at e)
]

not_taken :
    (taken : List String) (u v : String)
    → is_taken taken u ≡ false
    → is_taken taken v ≡ true
    → u ≢ v
not_taken taken u v free there e = cc (free, there, ap (is_taken taken) e)

put-IsNaming :
    (taken : List String) (names : Names) (id u : String)
    → is_taken taken u ≡ false
    → IsNaming taken names
    → IsNaming (u ∷ taken) (put id u names)
put-IsNaming taken names id u free w = record {
  known = λ i v e. elim (put-cases id u names i v e) [
    | inl (_, same) ↦ ground (arith, (eq_iff u v).1 same)
    | inr old ↦ ground (arith, w.known i v old)
  ];
  fresh = λ i v e. elim (put-cases id u names i v e) [
    | inl (_, same) ↦ subst (λ t. is_taken reserved t ≡ false) same no_group
    | inr old ↦ w.fresh i v old
  ];
  apart = λ i j v e f. both i j v (put-cases id u names i v e) (put-cases id u names j v f);
  groups = λ v h. ground (arith, w.groups v h);
}
  where
    no_group : is_taken reserved u ≡ false
    no_group = elim (Bool-cases (is_taken reserved u)) [
      | inr other ↦ other
      | inl group ↦ cc (w.groups u group, free)
    ]

    both :
        (i j v : String)
        → ((id ≡ i) × (u ≡ v)) ⊎ (names i ≡ some v)
        → ((id ≡ j) × (u ≡ v)) ⊎ (names j ≡ some v)
        → i ≡ j
    both i j v (inl (a, _)) (inl (b, _)) = sym a ∙ b
    both i j v (inl (_, same)) (inr old) = absurd (not_taken taken u v free (w.known j v old) same)
    both i j v (inr old) (inl (_, same)) = absurd (not_taken taken u v free (w.known i v old) same)
    both i j v (inr a) (inr b) = w.apart i j v a b

abbrev Has : Names → String → Type 0
Has names id = (u : String) × (names id ≡ some u)

put-Has : (names : Names) (id u i : String) → Has names i → Has (put id u names) i
put-Has names id u i (v, e) = elim (Bool-cases (str_eq id i)) [
  | inl here ↦ (u, rw here refl)
  | inr other ↦ (v, rw other e)
]

name_nodes-IsNaming :
    (ns : List NodeConfig) (taken : List String) (names : Names)
    → length ns + length taken < 10 ^ 18
    → IsNaming taken names
    → (out : Names) × (all : List String) × (name_nodes ns taken names ≡ some out)
      × IsNaming all out
      × ((i : String) → Has names i → Has out i)
      × All (λ n. Has out n.id) ns
unfolding name_nodes
name_nodes-IsNaming [] taken names few w = (names, taken, refl, w, (λ i h. h), tt)
name_nodes-IsNaming (n ∷ ns) taken names few w =
    let name = or_default (trim_space n.name) n.id in
    let (u, e) = free_name_found taken name (omega (arith, few)) in
    let free = free_name-some (suc (length taken)) taken name u 0 e in
    let (out, all, found, w', kept, each) =
      name_nodes-IsNaming ns (u ∷ taken) (put n.id u names) (omega (arith, few))
        (put-IsNaming taken names n.id u free w) in
    (
      out,
      all,
      rw (e, name_nodes) found,
      w',
      (λ i h. kept i (put-Has names n.id u i h)),
      (kept n.id (u, rw (eq_refl n.id) refl), each),
    )

entry_of-id :
    (taken : List String) (names : Names) (id u : String) (entries : List (String × String))
    → IsNaming taken names
    → names id ≡ some u
    → All (λ e. names e.0 ≡ some e.1) entries
    → any (λ e. str_eq e.0 id && str_eq e.1 u) entries ≡ true
    → entry_of entries u ≡ id
unfolding entry_of
entry_of-id taken names id u [] w at from there = cc there
entry_of-id taken names id u (e ∷ es) w at (first, from) there = elim (Bool-cases (str_eq e.1 u)) [
  | inl here ↦ rw here (w.apart e.0 id u (first ∙ ap some ((eq_iff e.1 u).0 here)) at)
  | inr other ↦ rw other (entry_of-id taken names id u es w at from (ground (arith, there, other)))
]

-- Every node has a name, the search for it ends, and no two identifiers have the same; so the identifier that
-- is found for a name that the controller reports is the node's own, in whatever order the entries are
-- visited.
pub node_id_for_outbound-names :
    (ns : List NodeConfig)
    → length ns < 10 ^ 17
    → (names : Names) × (node_proxy_names ns ≡ some names)
      × All (λ n. (u : String) × (names n.id ≡ some u)) ns
      × ((id u : String) (entries : List (String × String))
          → names id ≡ some u
          → str_eq u "" ≡ false
          → All (λ e. names e.0 ≡ some e.1) entries
          → any (λ e. str_eq e.0 id && str_eq e.1 u) entries ≡ true
          → node_id_for_outbound entries u ≡ id)
unfolding node_proxy_names node_id_for_outbound
node_id_for_outbound-names ns few =
    let (names, taken, found, w, _, each) =
      name_nodes-IsNaming ns reserved (λ id. none) (omega (arith, few))
        (record {
          known = λ i u e. cc e;
          fresh = λ i u e. cc e;
          apart = λ i j u e. cc e;
          groups = λ u h. h;
        }) in
    (
      names,
      found,
      each,
      λ id u entries at named from there.
          rw (named, not_balance u (w.fresh id u at))
            (entry_of-id taken names id u entries w at from there),
    )
  where
    not_balance : (u : String) → is_taken reserved u ≡ false → str_eq u "Balance" ≡ false
    not_balance u h = elim (Bool-cases (str_eq u "Balance")) [
      | inr other ↦ other
      | inl same ↦ cc (subst (λ t. is_taken reserved t ≡ false) ((eq_iff u "Balance").0 same) h)
    ]
