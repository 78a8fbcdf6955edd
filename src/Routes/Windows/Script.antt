-- ===== src/Routes/Windows/Script.antt =====
-- internal/core/routes.go, `buildWindowsRouteScript`: the text of the script. `net.ParseIP` with the text
-- of the address that it reads is a parameter.
use sudoku_desktop.Prelude.{
  ℕ, Bool, List, [], ◌∷◌, ◌++◌, Option, none, some, String, str_eq, if◌then◌else◌, text_append,
  itoa, trim_space,
}
use sudoku_desktop.Routes.Windows.{double_quotes, join}

-- Where the caller knew no physical route, the script looks for one.
abbrev fallback_lines : List String
fallback_lines =
    "if (-not $gw4 -or -not $if4 -or $if4 -le 0) {"
    ∷ "  $default4 = Get-NetRoute -AddressFamily IPv4 -DestinationPrefix '0.0.0.0/0' -ErrorAction SilentlyContinue | Where-Object { $_.InterfaceIndex -ne $tunIf -and $_.NextHop -and $_.NextHop -ne '0.0.0.0' } | Sort-Object RouteMetric,InterfaceMetric | Select-Object -First 1"
    ∷ "  if ($default4 -eq $null) { $default4 = Get-NetRoute -AddressFamily IPv4 -DestinationPrefix '0.0.0.0/0' -ErrorAction SilentlyContinue | Where-Object { $_.InterfaceIndex -ne $tunIf } | Sort-Object RouteMetric,InterfaceMetric | Select-Object -First 1 }"
    ∷ "  if ($default4 -ne $null) { $gw4 = $default4.NextHop; $if4 = [int]$default4.InterfaceIndex }"
    ∷ "}" ∷ []

-- The functions that add and remove a route and the file that keeps the settings of DNS.
abbrev function_lines : List String
function_lines =
    "$physMetric = 5000" ∷ "" ∷ "function Add-RoutePrefix($prefix, $ifIndex, $gw) {" ∷ "  try {"
    ∷ "    if (-not $prefix -or -not $ifIndex -or $ifIndex -le 0 -or -not $gw) { return }"
    ∷ "    New-NetRoute -DestinationPrefix $prefix -InterfaceIndex $ifIndex -NextHop $gw -PolicyStore ActiveStore -ErrorAction Stop | Out-Null"
    ∷ "  } catch { }" ∷ "}" ∷ "function Remove-RoutePrefix($prefix, $ifIndex, $gw) {" ∷ "  try {"
    ∷ "    if (-not $prefix -or -not $ifIndex -or $ifIndex -le 0 -or -not $gw) { return }"
    ∷ "    Remove-NetRoute -DestinationPrefix $prefix -InterfaceIndex $ifIndex -NextHop $gw -PolicyStore ActiveStore -Confirm:$false -ErrorAction Stop"
    ∷ "  } catch { }" ∷ "}" ∷ "" ∷ "$dnsBackup = ''"
    ∷ "if ($dnsBackupName) { $dnsBackup = Join-Path $env:TEMP $dnsBackupName }" ∷ "" ∷ []

-- What the script does to start.
abbrev start_lines : List String
start_lines =
    "if ($op -eq 'start') {"
    ∷ "  foreach ($sip in $serverIPs) { Add-RoutePrefix ($sip + '/32') $if4 $gw4 }"
    ∷ "  if ($mapDNSEnabled -and $mapDNS) {"
    ∷ "    $prev4 = @((Get-DnsClientServerAddress -InterfaceIndex $tunIf -AddressFamily IPv4 -ErrorAction SilentlyContinue).ServerAddresses)"
    ∷ "    if ($dnsBackup) {" ∷ "      $tunAuto = $null; $tunMetric = $null"
    ∷ "      $physAuto = $null; $physMetric0 = $null"
    ∷ "      $tunIfInfo = Get-NetIPInterface -InterfaceIndex $tunIf -AddressFamily IPv4 -ErrorAction SilentlyContinue | Select-Object -First 1"
    ∷ "      if ($tunIfInfo -ne $null) { $tunAuto = $tunIfInfo.AutomaticMetric; $tunMetric = [int]$tunIfInfo.InterfaceMetric }"
    ∷ "      $physIfInfo = $null"
    ∷ "      if ($if4 -gt 0) { $physIfInfo = Get-NetIPInterface -InterfaceIndex $if4 -AddressFamily IPv4 -ErrorAction SilentlyContinue | Select-Object -First 1 }"
    ∷ "      if ($physIfInfo -ne $null) { $physAuto = $physIfInfo.AutomaticMetric; $physMetric0 = [int]$physIfInfo.InterfaceMetric }"
    ∷ "      $backupOk = $false" ∷ "      try {"
    ∷ "        @{ v4 = $prev4; metrics = @{ tun = @{ auto = $tunAuto; metric = $tunMetric }; phys = @{ auto = $physAuto; metric = $physMetric0 } } } | ConvertTo-Json -Compress | Set-Content -Path $dnsBackup -Encoding ASCII"
    ∷ "        $backupOk = $true" ∷ "      } catch { $backupOk = $false }" ∷ "    }"
    ∷ "    # Set-DnsClientServerAddress has no -AddressFamily parameter on Windows PowerShell 5.1."
    ∷ "    Set-DnsClientServerAddress -InterfaceIndex $tunIf -ServerAddresses @($mapDNS) -ErrorAction SilentlyContinue | Out-Null"
    ∷ "    try { Clear-DnsClientCache | Out-Null } catch { }"
    ∷ "    # Ensure Windows prefers the tunnel for the default route (metrics are restored on stop)."
    ∷ "    if ($backupOk) {"
    ∷ "      try { Set-NetIPInterface -InterfaceIndex $tunIf -AutomaticMetric Disabled -InterfaceMetric 1 -ErrorAction SilentlyContinue | Out-Null } catch { }"
    ∷ "      try { if ($if4 -gt 0) { Set-NetIPInterface -InterfaceIndex $if4 -AutomaticMetric Disabled -InterfaceMetric $physMetric -ErrorAction SilentlyContinue | Out-Null } } catch { }"
    ∷ "    }" ∷ "  }"
    ∷ "  # Add a low-metric default route to the tunnel interface (ActiveStore only)."
    ∷ "  try { Get-NetRoute -AddressFamily IPv4 -DestinationPrefix '0.0.0.0/0' -InterfaceIndex $tunIf -PolicyStore ActiveStore -ErrorAction SilentlyContinue | Remove-NetRoute -Confirm:$false -ErrorAction SilentlyContinue } catch { }"
    ∷ "  try { New-NetRoute -AddressFamily IPv4 -DestinationPrefix '0.0.0.0/0' -InterfaceIndex $tunIf -NextHop '0.0.0.0' -RouteMetric 1 -PolicyStore ActiveStore -ErrorAction Stop | Out-Null } catch {"
    ∷ "    $out4 = & route.exe add 0.0.0.0 mask 0.0.0.0 0.0.0.0 metric 1 if $tunIf 2>&1"
    ∷ "    if ($LASTEXITCODE -ne 0) { throw ('route.exe add default route failed: ' + ($out4 | Out-String).Trim()) }"
    ∷ "  }"
    ∷ "  $best4 = Get-NetRoute -AddressFamily IPv4 -DestinationPrefix '0.0.0.0/0' -ErrorAction SilentlyContinue | Sort-Object @{Expression={ [int]$_.RouteMetric + [int]$_.InterfaceMetric }},RouteMetric,InterfaceMetric | Select-Object -First 1"
    ∷ "  if ($best4 -eq $null) { throw 'windows default route not found after tun switch' }"
    ∷ "  if ([int]$best4.InterfaceIndex -ne $tunIf) { throw ('windows default route still not on tun interface: expected=' + $tunIf + ' got=' + [int]$best4.InterfaceIndex) }"
    ∷ "  # Keep a physical default route for core-bypass sockets (IP_UNICAST_IF)."
    ∷ "  try { if ($if4 -gt 0 -and $gw4) { New-NetRoute -DestinationPrefix '0.0.0.0/0' -InterfaceIndex $if4 -NextHop $gw4 -RouteMetric $physMetric -PolicyStore ActiveStore -ErrorAction Stop | Out-Null } } catch { }"
    ∷ "  if ($blockQUIC) {"
    ∷ "    if (-not (Get-NetFirewallRule -DisplayName $fwRule -ErrorAction SilentlyContinue)) {"
    ∷ "      New-NetFirewallRule -DisplayName $fwRule -Direction Outbound -Action Block -Protocol UDP -RemotePort 443 -Profile Any | Out-Null"
    ∷ "    }" ∷ "  }" ∷ []

-- What it does to stop.
abbrev stop_lines : List String
stop_lines =
    "} else {" ∷ "  if ($dnsBackup -and (Test-Path $dnsBackup)) {" ∷ "    $json = $null"
    ∷ "    try { $json = (Get-Content $dnsBackup -Raw | ConvertFrom-Json) } catch { $json = $null }"
    ∷ "    if ($json -ne $null) {" ∷ "      $p4 = @($json.v4)"
    ∷ "      $all = @($p4 | Where-Object { $_ } | Select-Object -Unique)"
    ∷ "      if ($all.Count -eq 0) { Set-DnsClientServerAddress -InterfaceIndex $tunIf -ResetServerAddresses -ErrorAction SilentlyContinue | Out-Null } else { Set-DnsClientServerAddress -InterfaceIndex $tunIf -ServerAddresses $all -ErrorAction SilentlyContinue | Out-Null }"
    ∷ "      # Restore interface metrics if we changed them during start." ∷ "      try {"
    ∷ "        $m = $json.metrics" ∷ "        if ($m -ne $null) {"
    ∷ "          if ($m.tun -ne $null) {"
    ∷ "            if ($m.tun.auto -ne $null -and [bool]$m.tun.auto) {"
    ∷ "              Set-NetIPInterface -InterfaceIndex $tunIf -AutomaticMetric Enabled -ErrorAction SilentlyContinue | Out-Null"
    ∷ "            } elseif ($m.tun.metric -ne $null) {"
    ∷ "              Set-NetIPInterface -InterfaceIndex $tunIf -AutomaticMetric Disabled -InterfaceMetric ([int]$m.tun.metric) -ErrorAction SilentlyContinue | Out-Null"
    ∷ "            }" ∷ "          }" ∷ "          if ($m.phys -ne $null -and $if4 -gt 0) {"
    ∷ "            if ($m.phys.auto -ne $null -and [bool]$m.phys.auto) {"
    ∷ "              Set-NetIPInterface -InterfaceIndex $if4 -AutomaticMetric Enabled -ErrorAction SilentlyContinue | Out-Null"
    ∷ "            } elseif ($m.phys.metric -ne $null) {"
    ∷ "              Set-NetIPInterface -InterfaceIndex $if4 -AutomaticMetric Disabled -InterfaceMetric ([int]$m.phys.metric) -ErrorAction SilentlyContinue | Out-Null"
    ∷ "            }" ∷ "          }" ∷ "        }" ∷ "      } catch { }" ∷ "    } else {"
    ∷ "      Set-DnsClientServerAddress -InterfaceIndex $tunIf -ResetServerAddresses -ErrorAction SilentlyContinue | Out-Null"
    ∷ "    }" ∷ "    Remove-Item $dnsBackup -Force -ErrorAction SilentlyContinue | Out-Null"
    ∷ "  } elseif ($mapDNSEnabled) {"
    ∷ "    Set-DnsClientServerAddress -InterfaceIndex $tunIf -ResetServerAddresses -ErrorAction SilentlyContinue | Out-Null"
    ∷ "    # Best-effort metric restore when we don't have a backup."
    ∷ "    try { Set-NetIPInterface -InterfaceIndex $tunIf -AutomaticMetric Enabled -ErrorAction SilentlyContinue | Out-Null } catch { }"
    ∷ "    try { if ($if4 -gt 0) { Set-NetIPInterface -InterfaceIndex $if4 -AutomaticMetric Enabled -ErrorAction SilentlyContinue | Out-Null } } catch { }"
    ∷ "  }" ∷ "  # Always attempt to restore interface auto-metric on stop."
    ∷ "  try { Set-NetIPInterface -InterfaceIndex $tunIf -AutomaticMetric Enabled -ErrorAction SilentlyContinue | Out-Null } catch { }"
    ∷ "  try { if ($if4 -gt 0) { Set-NetIPInterface -InterfaceIndex $if4 -AutomaticMetric Enabled -ErrorAction SilentlyContinue | Out-Null } } catch { }"
    ∷ "  try { Clear-DnsClientCache | Out-Null } catch { }"
    ∷ "  # Remove the tunnel default route (ActiveStore only)."
    ∷ "  try { Get-NetRoute -AddressFamily IPv4 -DestinationPrefix '0.0.0.0/0' -InterfaceIndex $tunIf -PolicyStore ActiveStore -ErrorAction SilentlyContinue | Remove-NetRoute -Confirm:$false -ErrorAction SilentlyContinue } catch { }"
    ∷ "  # Safety: ensure a non-tunnel IPv4 default route exists after stop."
    ∷ "  $best4After = Get-NetRoute -AddressFamily IPv4 -DestinationPrefix '0.0.0.0/0' -ErrorAction SilentlyContinue | Where-Object { [int]$_.InterfaceIndex -ne $tunIf } | Sort-Object @{Expression={ [int]$_.RouteMetric + [int]$_.InterfaceMetric }},RouteMetric,InterfaceMetric | Select-Object -First 1"
    ∷ "  if ($best4After -eq $null -and $if4 -gt 0 -and $gw4) {"
    ∷ "    try { New-NetRoute -AddressFamily IPv4 -DestinationPrefix '0.0.0.0/0' -InterfaceIndex $if4 -NextHop $gw4 -RouteMetric 25 -PolicyStore ActiveStore -ErrorAction Stop | Out-Null } catch { }"
    ∷ "    $best4After = Get-NetRoute -AddressFamily IPv4 -DestinationPrefix '0.0.0.0/0' -ErrorAction SilentlyContinue | Where-Object { [int]$_.InterfaceIndex -ne $tunIf } | Sort-Object @{Expression={ [int]$_.RouteMetric + [int]$_.InterfaceMetric }},RouteMetric,InterfaceMetric | Select-Object -First 1"
    ∷ "  }"
    ∷ "  if ($best4After -eq $null) { throw 'windows restore default route failed after tun stop' }"
    ∷ "  foreach ($sip in $serverIPs) { Remove-RoutePrefix ($sip + '/32') $if4 $gw4 }"
    ∷ "  if (Get-NetFirewallRule -DisplayName $fwRule -ErrorAction SilentlyContinue) {"
    ∷ "    Remove-NetFirewallRule -DisplayName $fwRule | Out-Null" ∷ "  }" ∷ "}" ∷ []

-- What the script is told.
pub record Script : Type 0 where
  pub start : Bool
  pub server_ips : List String
  pub firewall_rule : String
  pub block_quic : Bool
  pub tun_if_index : ℕ
  pub default_gw4 : String
  pub default_if4 : ℕ
  pub map_dns_enabled : Bool
  pub map_dns_address : String
  pub dns_backup_name : String

-- The name of the firewall's rule
abbrev pub default_firewall_rule : String
default_firewall_rule = "4x4-sudoku Block QUIC (UDP/443)"

-- A variable that is set to a quoted text.
unfoldable pub assign_text : String → String → String
unfolding double_quotes
assign_text name value =
    text_append name (text_append " = '" (text_append (double_quotes value) "'"))

abbrev assign_flag : String → Bool → String
assign_flag name b = text_append name (if b then " = $true" else " = $false")

unfoldable quoted_ips : (String → Option String) → List String → List String
unfolding trim_space
quoted_ips parse_ip [] = []
quoted_ips parse_ip (ip ∷ ips) =
    let rest = quoted_ips parse_ip ips in
    elim (parse_ip (trim_space ip)) [
      | none ↦ rest
      | some parsed ↦ text_append "'" (text_append parsed "'") ∷ rest
    ]

unfoldable pub rule_name : String → String
unfolding trim_space
rule_name rule = if str_eq (trim_space rule) "" then default_firewall_rule else trim_space rule

-- The lines that set the variables of the script, with the search for the physical route.
unfoldable pub head_lines : (String → Option String) → Script → List String
unfolding assign_text quoted_ips rule_name join itoa trim_space
head_lines parse_ip s =
    text_append "$op = '" (text_append (if s.start then "start" else "stop") "'")
    ∷ text_append "$tunIf = " (itoa s.tun_if_index)
    ∷ assign_text "$gw4" (trim_space s.default_gw4)
    ∷ text_append "$if4 = " (itoa s.default_if4)
    ∷ (fallback_lines
        ++ (text_append "$serverIPs = @("
              (text_append (join "," (quoted_ips parse_ip s.server_ips)) ")")
            ∷ assign_text "$fwRule" (rule_name s.firewall_rule)
            ∷ assign_flag "$blockQUIC" s.block_quic
            ∷ assign_flag "$mapDNSEnabled" s.map_dns_enabled
            ∷ assign_text "$mapDNS" (trim_space s.map_dns_address)
            ∷ assign_text "$dnsBackupName" (trim_space s.dns_backup_name)
            ∷ []))

-- `buildWindowsRouteScript`
unfoldable pub build_windows_route_script : (String → Option String) → Script → String
unfolding head_lines join
build_windows_route_script parse_ip s =
    join "\r\n" (head_lines parse_ip s ++ (function_lines ++ (start_lines ++ stop_lines)))
