-- ===== src/Nodes/Sorted.antt =====
-- backend_config_nodes.go, `SortNodesByName`, `SortNodesByLatency`: what a stable sort does, and that the
-- comparisons are orders.
use Prim.Native.String.{String as Text, [] as done, ◌∷◌ as cons}
use sudoku_desktop.Prelude.{
  if◌then◌else◌, ℕ, ◌+◌, ◌≤◌, ◌≤ℤ◌, ◌↔◌, ltb_ℤ, pos, ◌≡◌, refl, Bool, true, false, Bool-cases, inl,
  inr, List, [], ◌∷◌, Option, none, some, String, All, keep, arith,
}
use sudoku_desktop.Config.{NodeConfig}
use sudoku_desktop.Config.Normalize.{normalize_config}
use sudoku_desktop.Nodes.{Book, EditEnv, LatencyResult, save}
use sudoku_desktop.Nodes.Sort.{
  insert, stable_sort, text_less, name_less, result_less, latency_less, lookup, latency_result_less,
  sort_latency_results, sort_nodes, sort_nodes_by_name, sort_nodes_by_latency,
}

-- No two elements come before each other, and what does not come after one that does not come after
-- a third does not come after that.
pub record IsOrder {ℓ} {A : Type ℓ} (less : A → A → Bool) : Type ℓ where
  pub asym : (a b : A) → less a b ≡ true → less b a ≡ false
  pub apart : (a b c : A) → less a b ≡ false → less b c ≡ false → less a c ≡ false

-- No element comes before an earlier one.
abbrev pub IsSorted {ℓ} : {A : Type ℓ} → (A → A → Bool) → List A → Type ℓ
IsSorted less [] = Unit
IsSorted less (x ∷ xs) = All (λ y. less y x ≡ false) xs × IsSorted less xs

module _ {ℓ} {A : Type ℓ} (less : A → A → Bool) where
  All-insert {κ} :
      (P : A → Type κ) (x : A) (ys : List A) → P x → All P ys → All P (insert less x ys)
  unfolding insert
  All-insert P x [] h hs = (h, tt)
  All-insert P x (y ∷ ys) h hs = elim (Bool-cases (less y x)) [
    | inl later ↦ rw later (hs.0, All-insert P x ys h hs.1)
    | inr here ↦ rw here (h, hs)
  ]

  All-apart :
      IsOrder less
      → (x y : A) (ys : List A) → less y x ≡ false
      → All (λ z. less z y ≡ false) ys
      → All (λ z. less z x ≡ false) ys
  All-apart order x y [] h hs = tt
  All-apart order x y (z ∷ ys) h hs = (order.apart z y x hs.0 h, All-apart order x y ys h hs.1)

  insert-IsSorted :
      IsOrder less → (x : A) (ys : List A) → IsSorted less ys → IsSorted less (insert less x ys)
  unfolding insert
  insert-IsSorted order x [] h = (tt, tt)
  insert-IsSorted order x (y ∷ ys) h = elim (Bool-cases (less y x)) [
    | inl later ↦ rw later (
      All-insert (λ z. less z y ≡ false) x ys (order.asym y x later) h.0,
      insert-IsSorted order x ys h.1,
    )
    | inr here ↦ rw here ((here, All-apart order x y ys here h.0), h)
  ]

  -- None of the elements that a test picks comes before another of them.
  abbrev pub AreEqual : (A → Bool) → Type ℓ
  AreEqual p = (a b : A) → p a ≡ true → p b ≡ true → less a b ≡ false

  keep-insert :
      (p : A → Bool)
      → AreEqual p
      → (x : A) (ys : List A) → keep p (insert less x ys) ≡ keep p (x ∷ ys)
  unfolding insert
  keep-insert p equal x [] = refl
  keep-insert p equal x (y ∷ ys) = ground (arith, keep-insert p equal x ys, equal y x)

  keep-stable_sort :
      (p : A → Bool) → AreEqual p → (xs : List A) → keep p (stable_sort less xs) ≡ keep p xs
  unfolding stable_sort
  keep-stable_sort p equal [] = refl
  keep-stable_sort p equal (x ∷ xs) =
      ground (arith, keep-insert p equal x (stable_sort less xs), keep-stable_sort p equal xs)

  stable_sort-IsSorted : IsOrder less → (xs : List A) → IsSorted less (stable_sort less xs)
  unfolding stable_sort
  stable_sort-IsSorted order [] = tt
  stable_sort-IsSorted order (x ∷ xs) =
      insert-IsSorted order x (stable_sort less xs) (stable_sort-IsSorted order xs)

text_less-asym : (s t : Text) → text_less s t ≡ true → text_less t s ≡ false
unfolding text_less
text_less-asym done done h = refl
text_less-asym done (cons d t) h = refl
text_less-asym (cons c s) done h = cc h
text_less-asym (cons c s) (cons d t) h = ground (arith, text_less-asym s t)

text_less_done : (s : Text) → text_less s done ≡ false
unfolding text_less
text_less_done done = refl
text_less_done (cons c s) = refl

text_less-apart :
    (s t u : Text) → text_less s t ≡ false → text_less t u ≡ false → text_less s u ≡ false
unfolding text_less
text_less-apart s t done h k = text_less_done s
text_less-apart done done (cons e u) h k = cc k
text_less-apart done (cons d t) (cons e u) h k = cc h
text_less-apart (cons c s) done (cons e u) h k = cc k
text_less-apart (cons c s) (cons d t) (cons e u) h k = ground (arith, text_less-apart s t u)

result_less-asym :
    (n n' : Bool) (a b : Option LatencyResult)
    → (n ≡ true → n' ≡ false)
    → result_less n a b ≡ true
    → result_less n' b a ≡ false
unfolding result_less
result_less-asym n n' none none names h = names h
result_less-asym n n' none (some b) names h = cc h
result_less-asym n n' (some a) none names h = refl
result_less-asym n n' (some a) (some b) names h = ground arith

result_less-apart :
    (n n' n'' : Bool) (a b c : Option LatencyResult)
    → (n ≡ false → n' ≡ false → n'' ≡ false)
    → result_less n a b ≡ false
    → result_less n' b c ≡ false
    → result_less n'' a c ≡ false
unfolding result_less
result_less-apart n n' n'' none none none names h k = names h k
result_less-apart n n' n'' none b (some c) names h k = refl
result_less-apart n n' n'' none (some b) none names h k = cc k
result_less-apart n n' n'' (some a) none c names h k = cc h
result_less-apart n n' n'' (some a) (some b) none names h k = cc k
result_less-apart n n' n'' (some a) (some b) (some c) names h k = ground arith

name_less-IsOrder : (lower : String → String) → IsOrder (name_less lower)
unfolding name_less
name_less-IsOrder lower = record {
  asym = λ a b. text_less-asym (lower a.name) (lower b.name);
  apart = λ a b c. text_less-apart (lower a.name) (lower b.name) (lower c.name);
}

latency_less-IsOrder :
    (lower : String → String) (lat : List (String × LatencyResult))
    → IsOrder (latency_less lower lat)
unfolding latency_less
latency_less-IsOrder lower lat =
    let names = name_less-IsOrder lower in
    record {
      asym = λ a b. result_less-asym _ _ (lookup a.id lat) (lookup b.id lat) (names.asym a b);
      apart = λ a b c.
          result_less-apart _ _ _ (lookup a.id lat) (lookup b.id lat) (lookup c.id lat)
            (names.apart a b c);
    }

latency_result_less-IsOrder : (lower : String → String) → IsOrder (latency_result_less lower)
unfolding latency_result_less
latency_result_less-IsOrder lower = record {
  asym = λ a b. ground (arith, text_less-asym (lower a.node_name) (lower b.node_name));
  apart = λ a b c.
      ground (arith, text_less-apart (lower a.node_name) (lower b.node_name) (lower c.node_name));
}

-- No result of a sorted list comes before an earlier one.
sort_latency_results-IsSorted :
    (lower : String → String) (results : List LatencyResult)
    → IsSorted (latency_result_less lower) (sort_latency_results lower results)
unfolding sort_latency_results
sort_latency_results-IsSorted lower results =
    stable_sort-IsSorted (latency_result_less lower) (latency_result_less-IsOrder lower) results

-- The class of a node by its last measurement: connected with a latency, connected without one, not
-- connected with one and without, and never measured.
abbrev pub class : Option LatencyResult → ℕ
class none = 4
class (some r) = (if r.connect_ok then 0 else 2) + (if ltb_ℤ r.latency_ms (pos 0) then 1 else 0)

-- A node may stand before another: the class is no higher; where both have a latency and the same
-- class, it is no longer; and where neither was measured, the other's name in lower case does not come
-- first.
abbrev pub MayPrecede : Option LatencyResult → Option LatencyResult → Bool → Type 0
MayPrecede none none name_first = name_first ≡ false
MayPrecede none (some y) name_first = class none ≤ class (some y)
MayPrecede (some x) none name_first = class (some x) ≤ class none
MayPrecede (some x) (some y) name_first =
    (class (some x) ≤ class (some y))
    × (class (some x) ≡ class (some y)
        → ltb_ℤ x.latency_ms (pos 0) ≡ false
        → x.latency_ms ≤ℤ y.latency_ms)

result_less-MayPrecede :
    (x y : Option LatencyResult) (name_first : Bool)
    → (result_less name_first y x ≡ false) ↔ MayPrecede x y name_first
unfolding result_less
result_less-MayPrecede none none name_first = (λ h. h, λ h. h)
result_less-MayPrecede none (some y) name_first = (λ h. cc h, λ h. ground (arith, h))
result_less-MayPrecede (some x) none name_first = (λ h. ground arith, λ h. refl)
result_less-MayPrecede (some x) (some y) name_first = (
  λ h. (ground (arith, h), λ same timed. ground (arith, h, same, timed)),
  λ h. ground (arith, h.0, h.1),
)

-- By name: the other's name in lower case does not come first.
abbrev pub ByName : (String → String) → NodeConfig → NodeConfig → Type 0
ByName lower a c = text_less (lower c.name) (lower a.name) ≡ false

abbrev pub ByLatency :
    (String → String) → List (String × LatencyResult) → NodeConfig → NodeConfig → Type 0
ByLatency lower lat a c =
    MayPrecede (lookup a.id lat) (lookup c.id lat) (text_less (lower c.name) (lower a.name))

-- Each node may stand before those behind it.
abbrev pub IsRanked : (NodeConfig → NodeConfig → Type 0) → List NodeConfig → Type 0
IsRanked R [] = Unit
IsRanked R (n ∷ ns) = All (R n) ns × IsRanked R ns

-- What a list of nodes is sorted to: each node may stand before those behind it, and any nodes of which
-- each may stand before each are all kept, in the order that they had.
abbrev pub IsSortOf :
    (NodeConfig → NodeConfig → Type 0) → List NodeConfig → List NodeConfig → Type 0
IsSortOf R old new =
    IsRanked R new
    × ((p : NodeConfig → Bool)
        → ((a b : NodeConfig) → p a ≡ true → p b ≡ true → R a b)
        → keep p new ≡ keep p old)

module _ (less : NodeConfig → NodeConfig → Bool) (R : NodeConfig → NodeConfig → Type 0)
    (spells : (a c : NodeConfig) → (less c a ≡ false) ↔ R a c) where
  All-ranked :
      (n : NodeConfig) (ns : List NodeConfig) → All (λ y. less y n ≡ false) ns → All (R n) ns
  All-ranked n [] h = tt
  All-ranked n (m ∷ ms) h = ((spells n m).0 h.0, All-ranked n ms h.1)

  IsRanked-sorted : (ns : List NodeConfig) → IsSorted less ns → IsRanked R ns
  IsRanked-sorted [] h = tt
  IsRanked-sorted (n ∷ ns) h = (All-ranked n ns h.0, IsRanked-sorted ns h.1)

  stable_sort-IsSortOf : IsOrder less → (ns : List NodeConfig) → IsSortOf R ns (stable_sort less ns)
  stable_sort-IsSortOf order ns = (
    IsRanked-sorted (stable_sort less ns) (stable_sort-IsSorted less order ns),
    λ p equal. keep-stable_sort less p (λ a b h k. (spells b a).1 (equal b a k h)) ns,
  )

name_less-ByName :
    (lower : String → String) (a c : NodeConfig) → (name_less lower c a ≡ false) ↔ ByName lower a c
unfolding name_less
name_less-ByName lower a c = (λ h. h, λ h. h)

latency_less-ByLatency :
    (lower : String → String) (lat : List (String × LatencyResult)) (a c : NodeConfig)
    → (latency_less lower lat c a ≡ false) ↔ ByLatency lower lat a c
unfolding latency_less name_less
latency_less-ByLatency lower lat a c = result_less-MayPrecede (lookup a.id lat) (lookup c.id lat) _

sort_nodes-cfg :
    (env : EditEnv) (less : NodeConfig → NodeConfig → Bool) (b : Book)
    → (sort_nodes env less b).0.cfg
      ≡ normalize_config env.platform env.draws
          (record (b.cfg) { nodes = stable_sort less b.cfg.nodes })
unfolding sort_nodes save
sort_nodes-cfg env less b = ground arith

-- Sorting the nodes by name or by latency leaves, whether the file can be written or not, the normal
-- form of the configuration with the nodes of before in a new order. By name, no node stands behind one
-- whose name in lower case comes later. By latency, the nodes that connected with a latency come first,
-- the quicker before the slower, then those that connected without one, those that did not connect, again
-- with a latency and by it, and without, and last, by name, those that were never measured. Nodes that
-- these orders do not tell apart are all kept, in the order that they had.
pub sort_nodes-IsSortOf :
    (env : EditEnv) (lower : String → String) (b : Book)
    → let by_name = (sort_nodes_by_name env lower b).0 in
      let by_latency = (sort_nodes_by_latency env lower b).0 in
      ((ns : List NodeConfig) × IsSortOf (ByName lower) b.cfg.nodes ns
        × (by_name.cfg ≡ normalize_config env.platform env.draws (record (b.cfg) { nodes = ns })))
      × ((ns : List NodeConfig) × IsSortOf (ByLatency lower b.latency) b.cfg.nodes ns
          × (by_latency.cfg
              ≡ normalize_config env.platform env.draws (record (b.cfg) { nodes = ns })))
unfolding sort_nodes_by_name sort_nodes_by_latency
sort_nodes-IsSortOf env lower b =
    let names = name_less-IsOrder lower in
    let latencies = latency_less-IsOrder lower b.latency in
    (
      (
        stable_sort (name_less lower) b.cfg.nodes,
        stable_sort-IsSortOf (name_less lower) (ByName lower) (name_less-ByName lower) names
            b.cfg.nodes,
        sort_nodes-cfg env (name_less lower) b,
      ),
      (
        stable_sort (latency_less lower b.latency) b.cfg.nodes,
        stable_sort-IsSortOf (latency_less lower b.latency) (ByLatency lower b.latency)
            (latency_less-ByLatency lower b.latency) latencies b.cfg.nodes,
        sort_nodes-cfg env (latency_less lower b.latency) b,
      ),
    )
