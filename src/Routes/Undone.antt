-- ===== src/Routes/Undone.antt =====
-- internal/core/routes.go, `setupRoutesLinux`, `teardownRoutesLinux`: what the one adds the other
-- removes.
use mathlib.Core.List.{Memᴰ}
use mathlib.Core.List.Memᴰ.{append_left, append_right}
use sudoku_desktop.Prelude.{
  ℕ, ◌≡◌, refl, sym, subst, ◌∙◌, not, ◌&&◌, Bool-cases, inl, inr, List, [], ◌∷◌, ◌++◌, String,
  str_eq, if◌then◌else◌, ltb, All, trim_space, map, arith,
}
use sudoku_desktop.Failure.{Result, ok, err}
use sudoku_desktop.Config.{TunSettings}
use sudoku_desktop.Routes.{RouteContext, local_dns_proxy_active, local_dns_proxy_redirect_port}
use sudoku_desktop.Routes.Undo.{
  Undoes, Within, All_append, with_source, with_source-keeps, servers_undone,
  redirect_commands-Undoes, dns_commands-Undoes, source_undone, quic_undone, policy_commands-Undoes,
}
use sudoku_desktop.Routes.Command.{
  LinuxCommand, add_server_rule, del_server_rule, add_source_rule, del_source_rule, block_quic,
  unblock_quic, unblock_quic6,
}
use sudoku_desktop.Routes.Linux.{
  Machine, set_up_linux, tear_down_linux, restore_dns, remove_policy, prepare_dns, dns_commands,
  dns_context, policy_commands, source_ip, remove_redirect, redirect_commands,
}

abbrev Batch : Type 0
Batch = RouteContext × List LinuxCommand

abbrev Ensures : (Batch → Type 0) → Result Batch → Type 0
Ensures P (ok p) = P p
Ensures P (err e) = Unit {0}

-- Where `T` holds what a context tells the teardown about DNS, it undoes the commands on DNS.
abbrev Answers : TunSettings → List LinuxCommand → Batch → Type 0
Answers tun T p =
    Within (restore_dns p.0 tun) T
    → Within (remove_redirect p.0.dns_proxy_redirect_port) T
    → All (Undoes T) p.1

dns_context-redirect :
    (m : Machine) (addr : String) (ctx : RouteContext)
    → (dns_context m addr ctx).dns_proxy_redirect_port ≡ ctx.dns_proxy_redirect_port
dns_context-redirect m addr ctx = ground arith

active_dns_undone :
    (m : Machine) (tun : TunSettings) (addr : String) (port : ℕ) (ctx : RouteContext)
    (T : List LinuxCommand)
    → Answers tun T (
      dns_context m addr (record ctx { dns_proxy_redirect_port = port }),
      redirect_commands port ++ dns_commands m tun addr,
    )
active_dns_undone m tun addr port ctx T sub sub' =
    let ctx' = record ctx { dns_proxy_redirect_port = port } in
    All_append (Undoes T) (redirect_commands port) (dns_commands m tun addr)
      (redirect_commands-Undoes port T (rw (dns_context-redirect m addr ctx') at sub'))
      (dns_commands-Undoes m tun addr ctx' T sub)

prepare_dns-Answers :
    (m : Machine) (tun : TunSettings) (ctx : RouteContext) (T : List LinuxCommand)
    → Ensures (Answers tun T) (prepare_dns m tun ctx)
unfolding prepare_dns
prepare_dns-Answers m tun ctx T =
    let addr = trim_space tun.map_dns_address in
    let port = local_dns_proxy_redirect_port "linux" addr in
    elim (Bool-cases (tun.map_dns_enabled && not (str_eq addr ""))) [
      | inl on ↦ rw on (elim (Bool-cases (local_dns_proxy_active tun)) [
        | inl own ↦ rw own (elim (Bool-cases (ltb 0 port && not (m.has_command "iptables"))) [
          | inl refused ↦ rw refused tt
          | inr allowed ↦ rw allowed (active_dns_undone m tun addr port ctx T)
        ])
        | inr direct ↦ rw direct (λ sub sub'. dns_commands-Undoes m tun addr ctx T sub)
      ])
      | inr off ↦ rw off (λ sub sub'. tt)
    ]

prepare_dns-keeps :
    (m : Machine) (tun : TunSettings) (ctx ctx' : RouteContext) (cmds : List LinuxCommand)
    → prepare_dns m tun ctx ≡ ok (ctx', cmds)
    → (ctx'.server_ips ≡ ctx.server_ips) × (ctx'.linux_outbound_src_ip ≡ ctx.linux_outbound_src_ip)
unfolding prepare_dns
prepare_dns-keeps m tun ctx ctx' cmds h = ground arith

batch_undone :
    (m : Machine) (ctx ctx' : RouteContext) (tun : TunSettings) (dns : List LinuxCommand)
    → let src = source_ip m.outbound_ipv4 in
      prepare_dns m tun (with_source src ctx) ≡ ok (ctx', dns)
      → All (Undoes (tear_down_linux ctx' tun)) (
          map add_server_rule ctx.server_ips
          ++ ((if str_eq src "" then [] else add_source_rule src ∷ [])
              ++ ((if tun.block_quic && m.has_command "iptables" then block_quic ∷ [] else [])
                  ++ (dns ++ policy_commands tun))))
unfolding tear_down_linux
batch_undone m ctx ctx' tun dns h =
    let src = source_ip m.outbound_ipv4 in
    let started = with_source src ctx in
    let kept = prepare_dns-keeps m tun started ctx' dns h in
    let ips : ctx'.server_ips ≡ ctx.server_ips = kept.0 ∙ with_source-keeps src ctx in
    let A = map del_server_rule ctx'.server_ips in
    let B : List LinuxCommand =
      if str_eq (trim_space ctx'.linux_outbound_src_ip) ""
      then []
      else del_source_rule ctx'.linux_outbound_src_ip ∷ [] in
    let Q : List LinuxCommand = if tun.block_quic then unblock_quic ∷ unblock_quic6 ∷ [] else [] in
    let D = restore_dns ctx' tun in
    let R = remove_redirect ctx'.dns_proxy_redirect_port in
    let T = tear_down_linux ctx' tun in
    let in_rest : Within (D ++ (R ++ remove_policy tun)) T =
      λ c e. append_right A (append_right B (append_right Q e)) in
    let at_source : (ip : String)
        → ip ≡ ctx'.linux_outbound_src_ip
        → Within (if str_eq (trim_space ip) "" then [] else del_source_rule ip ∷ []) T =
      λ ip same c e. append_right A (
        append_left _ (
          subst (λ i. Memᴰ c (if str_eq (trim_space i) "" then [] else del_source_rule i ∷ [])) same
            e)) in
    let answered = subst (Ensures (Answers tun T)) h (prepare_dns-Answers m tun started T) in
    All_append (Undoes T) _ _
      (subst (λ l. All (Undoes T) (map add_server_rule l)) ips
        (servers_undone ctx'.server_ips T (λ c e. append_left _ e)))
      (All_append (Undoes T) _ _ (source_undone m.outbound_ipv4 ctx T (at_source _ (sym kept.1))) (
        All_append (Undoes T) _ _
          (quic_undone m tun T (λ c e. append_right A (append_right B (append_left _ e))))
          (All_append (Undoes T) _ _
            (answered (λ c e. in_rest c (append_left _ e))
              (λ c e. in_rest c (append_right D (append_left _ e))))
            (policy_commands-Undoes tun T (λ c e. in_rest c (append_right D (append_right R e)))))))

-- Whatever the setup of the routes on Linux is about to run, the teardown with the context that it
-- recorded runs the command that takes it back: each rule, route and redirection that is added is
-- deleted, with the same addresses, mark, table and port, and the resolver is given back, by the
-- means that the setup took. Flushing a cache has nothing to take back; the reverse-path filter,
-- which the setup switches off, is not restored.
pub set_up_linux-tear_down_linux :
    (m : Machine) (tun : TunSettings) (ctx ctx' : RouteContext) (cmds : List LinuxCommand)
    → set_up_linux m ctx tun ≡ ok (ctx', cmds)
    → All (Undoes (tear_down_linux ctx' tun)) cmds
unfolding set_up_linux
set_up_linux-tear_down_linux m tun ctx ctx' cmds h =
    subst (Ensures TakenBack) h (elim (Bool-cases (m.has_command "ip")) [
      | inl has ↦ rw has (finish _ refl)
      | inr missing ↦ rw missing tt
    ])
  where
    TakenBack : Batch → Type 0
    TakenBack p = All (Undoes (tear_down_linux p.0 tun)) p.1

    finish :
        (r : Result Batch)
        → prepare_dns m tun (with_source (source_ip m.outbound_ipv4) ctx) ≡ r
        → Ensures TakenBack (elim r [
          | err e ↦ err e
          | ok (ctx'', dns) ↦ ok (
            ctx'',
            map add_server_rule ctx.server_ips
                ++ ((if str_eq (source_ip m.outbound_ipv4) ""
                      then []
                      else add_source_rule (source_ip m.outbound_ipv4) ∷ [])
                    ++ ((if tun.block_quic && m.has_command "iptables" then block_quic ∷ [] else [])
                        ++ (dns ++ policy_commands tun))),
          )
        ])
    finish (err e) q = tt
    finish (ok (ctx'', dns)) q = batch_undone m ctx ctx'' tun dns q
