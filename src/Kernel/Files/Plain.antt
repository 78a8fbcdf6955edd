-- ===== src/Kernel/Files/Plain.antt =====
-- internal/core/runtime_config.go, `buildKernelConfigs`: what each file carries.
use sudoku_desktop.Prelude.{
  ◌≡◌, refl, ap, subst, false, List, [], ◌∷◌, Option, none, String, map, All, Bool-cases, inl, inr,
  length, arith, ◌==◌,
}
use sudoku_desktop.Failure.{Result, ok, err}
use sudoku_desktop.Config.{CoreSettings, NodeConfig, AppConfig}
use sudoku_desktop.Config.Normalize.{Platform, is_blank}
use sudoku_desktop.Plan.{effective_rule_urls}
use sudoku_desktop.Kernel.{
  SudokuClientConfig, render_nodes, build_sudoku_client_config, client_config, proxy_listen_address,
}
use sudoku_desktop.Kernel.Names.{Names, node_proxy_names}
use sudoku_desktop.Kernel.Files.{
  KernelConfigFile, controller_listen_addr, reverse_of, name_in, files_of, with_controller,
  build_kernel_configs,
}

abbrev IsPlainConfig : SudokuClientConfig → Type 0
IsPlainConfig c =
    (c.external_controller ≡ "")
    × (c.secret ≡ "")
    × (c.rule_urls ≡ "global" ∷ [])
    × (c.reverse ≡ none)

-- A file that carries nothing but its node
abbrev pub IsPlain : KernelConfigFile → Type 0
IsPlain f = IsPlainConfig f.config

-- A file for each node, under the name that the controller reports
abbrev pub MatchesNodes : Option Names → List NodeConfig → List KernelConfigFile → Type 0
MatchesNodes names ns fs =
    map {B = String × String} (λ f. (f.node_id, f.name)) fs
    ≡ map (λ n. (n.id, name_in names n.id)) ns

-- The rendered nodes, one for each and plain
abbrev ArePlain : List NodeConfig → List SudokuClientConfig → Type 0
ArePlain ns cs = (length cs ≡ length ns) × All IsPlainConfig cs

abbrev Rendered : List NodeConfig → Result (List SudokuClientConfig) → Type 0
Rendered ns (ok cs) = ArePlain ns cs
Rendered ns (err e) = Unit {0}

abbrev RenderedNode : Result SudokuClientConfig → Type 0
RenderedNode (ok c) = IsPlainConfig c
RenderedNode (err e) = Unit {0}

build-RenderedNode :
    (pl : Platform) (n : NodeConfig) → RenderedNode (build_sudoku_client_config pl n)
unfolding build_sudoku_client_config client_config
build-RenderedNode pl n = elim (Bool-cases (is_blank n.server_address)) [
  | inl blank ↦ rw blank tt
  | inr address ↦ elim (Bool-cases (is_blank n.key)) [
    | inl blank ↦ rw (address, blank) tt
    | inr key ↦ rw (address, key) (refl, refl, refl, refl)
  ]
]

add-Rendered :
    (core : CoreSettings) (n : NodeConfig) (ns : List NodeConfig) (b : Result SudokuClientConfig)
    (r : Result (List SudokuClientConfig))
    → RenderedNode b
    → Rendered ns r
    → Rendered (n ∷ ns) (
        let out : Result (List SudokuClientConfig) = elim b [
          | err e ↦ err e
          | ok c ↦ elim r [
            | err e ↦ err e
            | ok cs ↦ ok (record c { local_address = proxy_listen_address core } ∷ cs)
          ]
        ] in
        out)
add-Rendered core n ns (err e) r p q = tt
add-Rendered core n ns (ok c) (err e) p q = tt
add-Rendered core n ns (ok c) (ok cs) p (same, plain) = (omega (arith, same), (p, plain))

render_nodes-Rendered :
    (pl : Platform) (core : CoreSettings) (ns : List NodeConfig)
    → Rendered ns (render_nodes pl core ns)
unfolding render_nodes
render_nodes-Rendered pl core [] = (refl, tt)
render_nodes-Rendered pl core (n ∷ ns) =
    add-Rendered core n ns (build_sudoku_client_config pl n) (render_nodes pl core ns)
      (build-RenderedNode pl n) (render_nodes-Rendered pl core ns)

files_of-IsPlain :
    (names : Option Names) (ns : List NodeConfig) (cs : List SudokuClientConfig)
    → ArePlain ns cs
    → MatchesNodes names ns (files_of names ns cs) × All IsPlain (files_of names ns cs)
unfolding files_of
files_of-IsPlain names [] cs (same, plain) = (refl, tt)
files_of-IsPlain names (n ∷ ns) [] (same, plain) = absurd (omega (arith, same))
files_of-IsPlain names (n ∷ ns) (c ∷ cs) (same, (p, plain)) =
    let (matches, rest) = files_of-IsPlain names ns cs (omega (arith, same), plain) in
    (ap (λ l. (n.id, name_in names n.id) ∷ l) matches, (p, rest))

-- The first file of a configuration rides, the others are plain.
abbrev pub IsRidden : AppConfig → String → List KernelConfigFile → Type 0
IsRidden cfg custom_url [] = ⊥
IsRidden cfg custom_url (f ∷ fs) =
    (f.config.external_controller ≡ controller_listen_addr cfg.controller)
    × (f.config.secret ≡ cfg.controller.secret)
    × (f.config.rule_urls ≡ effective_rule_urls cfg.routing custom_url)
    × (f.config.reverse ≡ reverse_of cfg.reverse_client)
    × All IsPlain fs

ridden :
    (cfg : AppConfig) (custom_url : String) (ns : List NodeConfig) (names : Option Names)
    (fs : List KernelConfigFile)
    → (length ns == 0) ≡ false
    → MatchesNodes names ns fs
    → All IsPlain fs
    → MatchesNodes names ns (with_controller cfg custom_url fs)
      × IsRidden cfg custom_url (with_controller cfg custom_url fs)
unfolding with_controller
ridden cfg custom_url [] names fs some_node matches plain = cc some_node
ridden cfg custom_url (n ∷ ns) names [] some_node matches plain = cc matches
ridden cfg custom_url (n ∷ ns) names (f ∷ fs) some_node matches (p, plain) =
    (matches, (refl, refl, refl, refl, plain))

-- Where the files of a configuration are built, there is one for each node, in order, with its identifier and
-- the name that the core gives it; the first carries the controller, its secret, the rule sources and the
-- reverse settings, and no other carries any of them.
pub build_kernel_configs-IsRidden :
    (pl : Platform) (cfg : AppConfig) (custom_url : String) (files : List KernelConfigFile)
    → build_kernel_configs pl cfg custom_url ≡ ok files
    → MatchesNodes (node_proxy_names cfg.nodes) cfg.nodes files × IsRidden cfg custom_url files
unfolding build_kernel_configs
build_kernel_configs-IsRidden pl cfg custom_url files e =
    elim (Bool-cases (length cfg.nodes == 0)) [
      | inl empty ↦ cc (rw empty at e)
      | inr nodes ↦
          built nodes (render_nodes pl cfg.core cfg.nodes)
            (render_nodes-Rendered pl cfg.core cfg.nodes) (rw nodes at e)
    ]
  where
    names : Option Names
    names = node_proxy_names cfg.nodes

    built :
        (length cfg.nodes == 0) ≡ false
        → (r : Result (List SudokuClientConfig)) → Rendered cfg.nodes r
        → (let out : Result (List KernelConfigFile) = elim r [
          | err f ↦ err f
          | ok cs ↦ ok (with_controller cfg custom_url (files_of names cfg.nodes cs))
        ] in
            out)
          ≡ ok files
        → MatchesNodes names cfg.nodes files × IsRidden cfg custom_url files
    built nodes (err f) plain h = cc h
    built nodes (ok cs) plain h =
        let (matches, all) = files_of-IsPlain names cfg.nodes cs plain in
        let same : with_controller cfg custom_url (files_of names cfg.nodes cs) ≡ files = cc h in
        subst (λ fs. MatchesNodes names cfg.nodes fs × IsRidden cfg custom_url fs) same
          (ridden cfg custom_url cfg.nodes names (files_of names cfg.nodes cs) nodes matches all)
