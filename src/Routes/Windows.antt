-- ===== src/Routes/Windows.antt =====
-- internal/core/routes.go: the questions that the setup of the routes on Windows asks PowerShell. What
-- PowerShell prints for a script is a parameter.
pub mod Script
pub mod Resolve
pub mod Setup
pub mod Found
pub mod Recorded
pub mod Quote
mod Tests
use Prim.Native.Char.{Char, code}
use Prim.Native.String.{String as Text, [] as done, ◌∷◌ as cons}
use sudoku_desktop.Prelude.{
  ℕ, ◌+◌, ◌-◌, ◌*◌, ◌^◌, Bool, true, false, ◌&&◌, List, [], ◌∷◌, Option, none, some, String, str_eq,
  if◌then◌else◌, leb, ltb, ◌==◌, text_append, itoa, trim_space, to_lower,
}
use sudoku_desktop.Failure.{Result, ok, err, Failure, new_error}

-- `windowsPowerShellOutput`
abbrev pub PowerShell : Type 0
PowerShell = String → Result String

-- strings.ReplaceAll(s, "'", "''")
unfoldable pub double_quotes : Text → Text
double_quotes done = done
double_quotes (cons c s) =
    let rest = double_quotes s in if code c == 39 then cons "'" (cons "'" rest) else cons c rest

-- `strings.Join`
unfoldable pub join : String → List String → String
join sep [] = ""
join sep (s ∷ []) = s
join sep (s ∷ s' ∷ ss) = text_append s (text_append sep (join sep (s' ∷ ss)))

abbrev is_digit : ℕ → Bool
is_digit c = leb 48 c && leb c 57

unfoldable leading_digits : Text → Text
leading_digits done = done
leading_digits (cons c s) =
    let rest = leading_digits s in if is_digit (code c) then cons c rest else done

-- The leftmost match of `\d+`
unfoldable first_digits : Text → Text
unfolding leading_digits
first_digits done = done
first_digits (cons c s) =
    let rest = first_digits s in if is_digit (code c) then leading_digits (cons c s) else rest

unfoldable value_from : ℕ → Text → ℕ
value_from n done = n
value_from n (cons c s) = value_from (n * 10 + (code c - 48)) s

-- `parseFirstInt`; `strconv.Atoi` refuses what is no 64-bit `int`.
unfoldable pub parse_first_int : String → Result ℕ
unfolding first_digits value_from
parse_first_int raw =
    let m = first_digits raw in
    if str_eq m ""
    then err (new_error "integer not found")
    else if ltb (value_from 0 m) (2 ^ 63)
    then ok (value_from 0 m)
    else err (
        new_error (text_append "strconv.Atoi: parsing \"" (text_append m "\": value out of range")))

-- The text before the first tab and, if there is one, the text behind it: `strings.SplitN`
unfoldable pub split_tab : Text → Text × Option Text
split_tab done = (done, none)
split_tab (cons c s) =
    let rest = split_tab s in if code c == 9 then (done, some s) else (cons c rest.0, rest.1)

-- An interface by its number and its name, in a printed line.
unfoldable pub numbered : String × Option String → Result (ℕ × String)
unfolding parse_first_int trim_space
numbered (number, name) = elim (parse_first_int number) [
  | err e ↦ err e
  | ok idx ↦ ok (idx, elim name [ none ↦ "" | some alias ↦ trim_space alias ])
]

abbrev read_interface : String → Result String → Result (ℕ × String)
read_interface missing (err e) = err e
read_interface missing (ok output) =
    let raw = trim_space output in
    if str_eq raw "" then err (new_error missing) else numbered (split_tab raw)

-- `windowsInterfaceIndexByIPv4`
unfoldable pub windows_interface_index_by_ipv4 : PowerShell → String → Result (ℕ × String)
unfolding double_quotes join numbered split_tab trim_space
windows_interface_index_by_ipv4 shell ipv4 =
    let ip = trim_space ipv4 in
    if str_eq ip ""
    then err (new_error "empty tun ipv4")
    else read_interface "tun interface by ipv4 not found" (
        shell (
          join "; " (
            text_append "$ip = '" (text_append (double_quotes ip) "'")
            ∷ "$addr = Get-NetIPAddress -AddressFamily IPv4 -IPAddress $ip -ErrorAction SilentlyContinue | Select-Object -First 1"
            ∷ "if ($addr -eq $null) { '' } else {"
            ∷ "  $ifx = [int]$addr.InterfaceIndex"
            ∷ "  $ad = (Get-NetAdapter -InterfaceIndex $ifx -ErrorAction SilentlyContinue | Select-Object -First 1)"
            ∷ "  if ($ad -eq $null -or $ad.Status -ne 'Up') { '' } else {"
            ∷ "  $alias = $ad.Name"
            ∷ "  if (-not $alias) { $alias = (Get-NetIPInterface -AddressFamily IPv4 -InterfaceIndex $ifx -ErrorAction SilentlyContinue | Select-Object -First 1 -ExpandProperty InterfaceAlias) }"
            ∷ "  \"${ifx}`t${alias}\""
            ∷ "  }"
            ∷ "}"
            ∷ [])))

-- What the script of `windowsInterfaceIndex` does with the name.
abbrev pub interface_query : List String
interface_query =
    "$a = Get-NetAdapter -ErrorAction SilentlyContinue | Where-Object { $_.Name -eq $name -and $_.Status -eq 'Up' } | Select-Object -First 1"
    ∷ "if ($a -ne $null -and ($a.InterfaceDescription -match '(?i)wintun|wireguard|hev')) { [int]$a.ifIndex } else {"
    ∷ "  $ipif = Get-NetIPInterface -AddressFamily IPv4 -InterfaceAlias $name -ErrorAction SilentlyContinue | Select-Object -First 1"
    ∷ "  if ($ipif -eq $null) { '' } else { [int]$ipif.InterfaceIndex }" ∷ "}" ∷ []

-- The script that asks for an interface by its name.
unfoldable pub interface_script : String → String
unfolding double_quotes join
interface_script name =
    join "; " (text_append "$name = '" (text_append (double_quotes name) "'") ∷ interface_query)

-- `windowsInterfaceIndex`
unfoldable pub windows_interface_index : PowerShell → String → Result ℕ
unfolding interface_script trim_space
windows_interface_index shell name =
    let name' = trim_space name in
    if str_eq name' ""
    then err (new_error "empty interface name")
    else elim (shell (interface_script name')) [
      | err e ↦ err e
      | ok output ↦ parse_first_int output
    ]

-- `windowsLikelyTunInterfaceIndex`
unfoldable pub windows_likely_tun_interface_index : PowerShell → String → Result (ℕ × String)
unfolding double_quotes join numbered split_tab trim_space to_lower
windows_likely_tun_interface_index shell preferred =
    let name = to_lower (trim_space preferred) in
    read_interface "likely tun interface not found" (
      shell (
        join "; " (
          text_append "$pref = '" (text_append (double_quotes name) "'")
          ∷ "$cands = Get-NetAdapter -ErrorAction SilentlyContinue | Where-Object { $_.Status -eq 'Up' -and (($_.Name -match '(?i)wintun|sudoku|hev') -or ($_.InterfaceDescription -match '(?i)wintun|wireguard|hev') -or ($pref -and $_.Name -eq $pref)) }"
          ∷ "$sel = $null"
          ∷ "if ($pref) { $sel = $cands | Where-Object { $_.Name -eq $pref } | Select-Object -First 1 }"
          ∷ "if ($sel -eq $null) { $sel = $cands | Sort-Object ifIndex -Descending | Select-Object -First 1 }"
          ∷ "if ($sel -eq $null) { '' } else { \"$($sel.ifIndex)`t$($sel.Name)\" }"
          ∷ [])))

-- The gateway and the number of the interface in a printed line.
unfoldable pub gateway_of : String → Result (String × ℕ)
unfolding split_tab trim_space parse_first_int
gateway_of raw =
    let gw = trim_space (split_tab raw).0 in
    if str_eq gw ""
    then err (new_error "windows default gateway not found")
    else elim (parse_first_int (elim (split_tab raw).1 [ none ↦ raw | some rest ↦ rest ])) [
      | err e ↦ err e
      | ok idx ↦ ok (gw, idx)
    ]

-- `windowsPreferredDefaultRouteIPv4`
unfoldable pub windows_preferred_default_route_ipv4 : PowerShell → ℕ → Result (String × ℕ)
unfolding join gateway_of trim_space itoa
windows_preferred_default_route_ipv4 shell exclude =
    elim (shell (
      join "; " (
        text_append "$exclude = " (itoa exclude)
        ∷ "$routes = Get-NetRoute -AddressFamily IPv4 -DestinationPrefix '0.0.0.0/0' -ErrorAction SilentlyContinue"
        ∷ "if ($exclude -gt 0) { $routes = $routes | Where-Object { $_.InterfaceIndex -ne $exclude } }"
        ∷ "$sel = $routes | Where-Object { $_.NextHop -and $_.NextHop -ne '0.0.0.0' } | Sort-Object RouteMetric,InterfaceMetric | Select-Object -First 1"
        ∷ "if ($sel -eq $null) { $sel = $routes | Sort-Object RouteMetric,InterfaceMetric | Select-Object -First 1 }"
        ∷ "if ($sel -eq $null) { '' } else { \"$($sel.NextHop)`t$([int]$sel.InterfaceIndex)\" }"
        ∷ []))) [
          | err e ↦ err e
          | ok output ↦
              let raw = trim_space output in
              if str_eq raw ""
              then err (new_error "windows default route not found")
              else gateway_of raw
        ]
