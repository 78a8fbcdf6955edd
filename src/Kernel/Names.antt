-- ===== src/Kernel/Names.antt =====
-- internal/core/runtime_config.go, `nodeProxyNames`: the names that the core gives its outbounds; ctl_sync.go,
-- `nodeIDForOutbound`. A map is a function; the order in which its entries are visited is an argument.
pub mod Free
pub mod Unique
use sudoku_desktop.Prelude.{
  ℕ, zero, suc, ◌+◌, Bool, true, false, List, [], ◌∷◌, Option, none, some, String, text_append,
  str_eq, if◌then◌else◌, itoa, length, any, trim_space,
}
use sudoku_desktop.Config.{NodeConfig, balance_node_id}
use sudoku_desktop.Config.Normalize.{or_default}

abbrev pub Names : Type 0
Names = String → Option String

abbrev pub reserved : List String
reserved = "DIRECT" ∷ "REJECT" ∷ "PROXY" ∷ "GLOBAL" ∷ "Balance" ∷ []

abbrev pub is_taken : List String → String → Bool
is_taken taken s = any (λ t. str_eq t s) taken

-- `unique`, after k rounds
abbrev pub candidate : String → ℕ → String
candidate name zero = name
candidate name (suc k) = text_append name (text_append "#" (itoa (k + 2)))

-- The loop that looks for a name, from round k on
unfoldable pub free_name : ℕ → List String → String → ℕ → Option String
free_name zero taken name k = none
free_name (suc fuel) taken name k =
    let later = free_name fuel taken name (suc k) in
    if is_taken taken (candidate name k) then later else some (candidate name k)

abbrev pub put : String → String → Names → Names
put id name names other = if str_eq id other then some name else names other

-- The loop over the nodes. A name is found within a round more than there are names taken.
unfoldable pub name_nodes : List NodeConfig → List String → Names → Option Names
unfolding free_name trim_space
name_nodes [] taken names = some names
name_nodes (n ∷ ns) taken names =
    elim (free_name (suc (length taken)) taken (or_default (trim_space n.name) n.id) 0) [
      | none ↦ none
      | some unique ↦ name_nodes ns (unique ∷ taken) (put n.id unique names)
    ]

-- `nodeProxyNames`
unfoldable pub node_proxy_names : List NodeConfig → Option Names
unfolding name_nodes
node_proxy_names ns = name_nodes ns reserved (λ id. none)

-- The first entry with the name
unfoldable pub entry_of : List (String × String) → String → String
entry_of [] name = ""
entry_of (e ∷ es) name = let rest = entry_of es name in if str_eq e.1 name then e.0 else rest

-- `nodeIDForOutbound`
unfoldable pub node_id_for_outbound : List (String × String) → String → String
unfolding entry_of
node_id_for_outbound entries name =
    if str_eq name ""
    then ""
    else if str_eq name "Balance"
    then balance_node_id
    else entry_of entries name
