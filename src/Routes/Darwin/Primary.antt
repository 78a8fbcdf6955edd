-- ===== src/Routes/Darwin/Primary.antt =====
-- internal/core/darwin_primary_route_parse.go: what `scutil --nwi` prints of the primary routes.
use Prim.Native.Char.{code}
use sudoku_desktop.Prelude.{
  ℕ, ◌≡◌, ◌⊎◌, refl, inl, inr, Bool, true, false, not, ◌&&◌, List, [], ◌∷◌, Option, none, some,
  String, str_eq, if◌then◌else◌, ◌==◌, trim_space, trim_space_idem, has_prefix, cut_prefix, arith,
}

-- `darwinPrimaryRouteInfo`
pub record PrimaryRouteInfo : Type 0 where
  pub interface4 : String
  pub address4 : String
  pub router4 : String
  pub interface6 : String
  pub address6 : String
  pub router6 : String

-- `net.ParseIP` with `To4`, and what the code asks of an address.
pub record IpText : Type 0 where
  pub is_ip : String → Bool
  pub is_ipv4 : String → Bool
  pub is_loopback : String → Bool
  pub is_unspecified : String → Bool

-- `stripIPZone`
unfoldable pub strip_ip_zone : String → String
strip_ip_zone String.[] = String.[]
strip_ip_zone (String.◌∷◌ c s) =
    let rest = strip_ip_zone s in if code c == 37 then String.[] else String.◌∷◌ c rest

-- The texts before and after the first `sep`
unfoldable pub cut : String → String → Option (String × String)
cut sep String.[] = elim (cut_prefix sep String.[]) [
  | some rest ↦ some (String.[], rest)
  | none ↦ none
]
cut sep (String.◌∷◌ c s) =
    let later = cut sep s in
    elim (cut_prefix sep (String.◌∷◌ c s)) [
      | some rest ↦ some (String.[], rest)
      | none ↦ elim later [ some (a, b) ↦ some (String.◌∷◌ c a, b) | none ↦ none ]
    ]

abbrev pub Setter : Type 0
Setter = String → PrimaryRouteInfo → PrimaryRouteInfo

-- The lines that name a field, in the order in which they are tried.
abbrev pub named_fields : List (String × Setter)
named_fields =
    ("IPv4 network interface:", λ v i. record i { interface4 = v })
    ∷ ("IPv4 primary address:", λ v i. record i { address4 = v })
    ∷ ("IPv4 router:", λ v i. record i { router4 = v })
    ∷ ("IPv6 network interface:", λ v i. record i { interface6 = v })
    ∷ ("IPv6 primary address:", λ v i. record i { address6 = v })
    ∷ ("IPv6 router:", λ v i. record i { router6 = v })
    ∷ []

unfoldable pub set_named :
    List (String × Setter) → String → PrimaryRouteInfo → Option PrimaryRouteInfo
unfolding trim_space
set_named [] line i = none
set_named ((prefix, set) ∷ fs) line i =
    let rest = set_named fs line i in
    elim (cut_prefix prefix line) [ some v ↦ some (set (trim_space v) i) | none ↦ rest ]

-- An interface or an address of the section that the line stands in, unless there is one.
unfoldable pub set_interface : ℕ → String → PrimaryRouteInfo → PrimaryRouteInfo
set_interface family name i =
    if family == 4 && str_eq i.interface4 ""
    then record i { interface4 = name }
    else if family == 6 && str_eq i.interface6 ""
    then record i { interface6 = name }
    else i

unfoldable pub set_address : ℕ → String → PrimaryRouteInfo → PrimaryRouteInfo
set_address family address i =
    if family == 4 && str_eq i.address4 ""
    then record i { address4 = address }
    else if family == 6 && str_eq i.address6 ""
    then record i { address6 = address }
    else i

unfoldable pub set_listed : ℕ → String → PrimaryRouteInfo → PrimaryRouteInfo
unfolding cut set_interface set_address trim_space
set_listed family line i = elim (cut " : flags" line) [
  | some (name, _) ↦ set_interface family (trim_space name) i
  | none ↦
      if has_prefix line "address"
      then elim (cut ":" line) [ some (_, a) ↦ set_address family (trim_space a) i | none ↦ i ]
      else i
]

-- One line, with the family of the section.
unfoldable pub parse_line : String → ℕ × PrimaryRouteInfo → ℕ × PrimaryRouteInfo
unfolding set_named set_listed
parse_line line (family, i) =
    if str_eq line "IPv4 network interface information"
    then (4, i)
    else if str_eq line "IPv6 network interface information"
    then (6, i)
    else if has_prefix line "Network interfaces:"
    then (0, i)
    else elim (set_named named_fields line i) [
      | some i' ↦ (family, i')
      | none ↦ (family, set_listed family line i)
    ]

unfoldable pub parse_lines : List String → ℕ × PrimaryRouteInfo → PrimaryRouteInfo
unfolding parse_line trim_space
parse_lines [] s = s.1
parse_lines (l ∷ ls) s = parse_lines ls (parse_line (trim_space l) s)

unfoldable pub usable : IpText → Bool → String → Bool
usable t v4 a =
    t.is_ip a
    && (if v4 then t.is_ipv4 a else not (t.is_ipv4 a))
    && not (t.is_loopback a)
    && not (t.is_unspecified a)

-- An address without its zone, or nothing if it is not one of the family that leads anywhere
unfoldable pub clean_address : IpText → Bool → String → String
unfolding usable strip_ip_zone trim_space
clean_address t v4 a = let a' = trim_space (strip_ip_zone a) in if usable t v4 a' then a' else ""

unfoldable pub clean : IpText → PrimaryRouteInfo → PrimaryRouteInfo
unfolding clean_address trim_space
clean t i = record {
  interface4 = trim_space i.interface4;
  address4 = clean_address t true i.address4;
  router4 = clean_address t true i.router4;
  interface6 = trim_space i.interface6;
  address6 = clean_address t false i.address6;
  router6 = clean_address t false i.router6;
}

abbrev pub nothing_read : PrimaryRouteInfo
nothing_read = record {
  interface4 = "";
  address4 = "";
  router4 = "";
  interface6 = "";
  address6 = "";
  router6 = "";
}

-- `parseDarwinScutilNWIOutput`, given the lines
unfoldable pub parse_nwi : IpText → List String → PrimaryRouteInfo
unfolding parse_lines clean
parse_nwi t lines = clean t (parse_lines lines (0, nothing_read))

-- Nothing, or an address of the family that is neither a loopback nor the unspecified one.
abbrev pub IsUsable : IpText → Bool → String → Type 0
IsUsable t v4 a =
    (a ≡ "")
    ⊎ ((t.is_ip a ≡ true)
        × (t.is_ipv4 a ≡ v4)
        × (t.is_loopback a ≡ false)
        × (t.is_unspecified a ≡ false))

kept-IsUsable :
    (t : IpText) (v4 : Bool) (a : String) (b : Bool)
    → usable t v4 a ≡ b
    → IsUsable t v4 (if b then a else "")
unfolding usable
kept-IsUsable t v4 a true e =
    inr (ground (arith, e), ground (arith, e), ground (arith, e), ground (arith, e))
kept-IsUsable t v4 a false e = inl refl

clean_address-IsUsable :
    (t : IpText) (v4 : Bool) (a : String) → IsUsable t v4 (clean_address t v4 a)
unfolding clean_address
clean_address-IsUsable t v4 a =
    let a' = trim_space (strip_ip_zone a) in kept-IsUsable t v4 a' (usable t v4 a') refl

-- Whatever is printed, the addresses and routers that are read are empty or of their family and neither
-- a loopback nor the unspecified address, and the names of the interfaces are trimmed.
pub parse_nwi-IsUsable :
    (t : IpText) (lines : List String)
    → let i = parse_nwi t lines in
      IsUsable t true i.address4
      × IsUsable t true i.router4
      × IsUsable t false i.address6
      × IsUsable t false i.router6
      × (trim_space i.interface4 ≡ i.interface4)
      × (trim_space i.interface6 ≡ i.interface6)
unfolding parse_nwi clean
parse_nwi-IsUsable t lines =
    let i = parse_lines lines (0, nothing_read) in
    (
      clean_address-IsUsable t true i.address4,
      clean_address-IsUsable t true i.router4,
      clean_address-IsUsable t false i.address6,
      clean_address-IsUsable t false i.router6,
      trim_space_idem i.interface4,
      trim_space_idem i.interface6,
    )
