-- ===== src/Routes/Physical.antt =====
-- internal/core/routes.go, `setupRoutesDarwin`: the uplink that is found is a physical one.
use sudoku_desktop.Prelude.{
  ◌≡◌, refl, ◌∙◌, Bool-cases, inl, inr, Bool, false, List, [], ◌∷◌, String, str_eq, trim_space,
  trim_space_idem, arith, Option-cases,
}
use sudoku_desktop.Routes.Darwin.{is_tun_like}
use sudoku_desktop.Routes.Darwin.Uplink.{
  NetstatRoute, DarwinMachine, Uplink, pick_physical_route, physical, by_netstat, by_bypass,
  by_dhcp, by_default_route, find_uplink, search_uplink, checked, parse_netstat,
}
use sudoku_desktop.Failure.{ok}

is_tun_like-trim : (s : String) → is_tun_like (trim_space s) ≡ is_tun_like s
unfolding is_tun_like
is_tun_like-trim s = rw (trim_space_idem s) refl

abbrev IsPhysical : Uplink → Type 0
IsPhysical u = is_tun_like u.1 ≡ false

physical-IsPhysical : (s : String) → is_tun_like (physical s) ≡ false
unfolding physical
physical-IsPhysical s = elim (Bool-cases (is_tun_like s)) [
  | inl tunnel ↦ rw tunnel refl
  | inr other ↦ rw (other, other) refl
]

pick-IsPhysical :
    (is_ipv4 : String → Bool) (rs : List NetstatRoute) → IsPhysical (pick_physical_route is_ipv4 rs)
unfolding pick_physical_route
pick-IsPhysical is_ipv4 [] = refl
pick-IsPhysical is_ipv4 (r ∷ rs) =
    ground (arith, pick-IsPhysical is_ipv4 rs, is_tun_like-trim r.netif)

by_netstat-IsPhysical :
    (m : DarwinMachine) (u : Uplink) → IsPhysical u → IsPhysical (by_netstat m u)
unfolding by_netstat
by_netstat-IsPhysical m u h = elim (Option-cases m.netstat) [
  | inl e ↦ rw e h
  | inr (lines, e) ↦ rw e (
      let picked = pick_physical_route m.is_ipv4 (parse_netstat false lines) in
      let kept : is_tun_like (trim_space picked.1) ≡ false =
        is_tun_like-trim picked.1 ∙ pick-IsPhysical m.is_ipv4 (parse_netstat false lines) in
      ground (arith, kept, h))
]

by_bypass-IsPhysical : (m : DarwinMachine) (u : Uplink) → IsPhysical u → IsPhysical (by_bypass m u)
unfolding by_bypass
by_bypass-IsPhysical m u h = ground (arith, physical-IsPhysical (trim_space m.bypass_interface))

by_dhcp-IsPhysical : (m : DarwinMachine) (u : Uplink) → IsPhysical u → IsPhysical (by_dhcp m u)
unfolding by_dhcp
by_dhcp-IsPhysical m u h = ground arith

by_default_route-IsPhysical :
    (m : DarwinMachine) (u : Uplink) → IsPhysical u → IsPhysical (by_default_route m u)
unfolding by_default_route
by_default_route-IsPhysical m u h = ground arith

search_uplink-IsPhysical : (m : DarwinMachine) → IsPhysical (search_uplink m)
unfolding search_uplink
search_uplink-IsPhysical m =
    let given : Uplink = (trim_space m.router4, physical (trim_space m.interface4)) in
    let u = by_netstat m given in
    by_default_route-IsPhysical m (by_dhcp m (by_bypass m u)) (
      by_dhcp-IsPhysical m (by_bypass m u) (
        by_bypass-IsPhysical m u
          (by_netstat-IsPhysical m given (physical-IsPhysical (trim_space m.interface4)))))

checked-IsPhysical :
    (u u' : Uplink)
    → IsPhysical u
    → checked u ≡ ok u'
    → (is_tun_like u'.1 ≡ false) × (str_eq u'.0 "" ≡ false) × (str_eq u'.1 "" ≡ false)
unfolding checked
checked-IsPhysical u u' h e = ground (arith, is_tun_like-trim u.1)

-- The interface that the setup on macOS takes for the way round the tunnel is never a tunnel's, and
-- neither its name nor the gateway is blank.
pub find_uplink-IsPhysical :
    (m : DarwinMachine) (u : Uplink)
    → find_uplink m ≡ ok u
    → (is_tun_like u.1 ≡ false) × (str_eq u.0 "" ≡ false) × (str_eq u.1 "" ≡ false)
unfolding find_uplink
find_uplink-IsPhysical m u h = checked-IsPhysical (search_uplink m) u (search_uplink-IsPhysical m) h
