-- ===== src/Routes/Windows/Resolve.antt =====
-- internal/core/routes.go, `windowsResolveTunInterfaceIndex`: the search for the tunnel's interface, over
-- what the rounds of its loop meet. A round waits 350 milliseconds before the next.
use sudoku_desktop.Prelude.{
  ℕ, zero, suc, ◌+◌, Option, none, some, String, str_eq, if◌then◌else◌, ltb, ◌==◌, trim_space,
}
use sudoku_desktop.Failure.{Result, ok, err, Failure, new_error, wrap}
use sudoku_desktop.Config.{TunSettings}
use sudoku_desktop.Routes.Windows.{
  PowerShell, windows_interface_index_by_ipv4, windows_interface_index,
  windows_likely_tun_interface_index,
}

-- A round: the context's error at its start, what PowerShell prints for the first question and for the
-- others, the milliseconds since the call when it looks at the deadline, and the context's error if
-- that ends its wait.
pub record Round : Type 0 where
  pub cancelled : Option Failure
  pub first : PowerShell
  pub later : PowerShell
  pub now : ℕ
  pub woken : Option Failure

-- An interface, or the last error.
pub data Search : Type 0 where
  found : ℕ → String → Search
  missed : Option Failure → Search

unfoldable pub positive : Result (ℕ × String) → Option Failure → Search
positive (err e) last = missed (some e)
positive (ok (idx, alias)) last = if ltb 0 idx then found idx alias else missed last

unfoldable pub by_ipv4 : PowerShell → String → Option Failure → Search
unfolding positive
by_ipv4 shell ip last =
    if str_eq ip "" then missed last else positive (windows_interface_index_by_ipv4 shell ip) last

-- An interface of the right name counts once it has the address.
unfoldable pub confirm : ℕ → String → Result (ℕ × String) → Option Failure → Search
unfolding trim_space
confirm idx alias (err e) last = missed (some e)
confirm idx alias (ok (idx2, alias2)) last =
    if idx2 == idx
    then found idx (if str_eq (trim_space alias2) "" then alias else trim_space alias2)
    else missed last

unfoldable pub by_name : PowerShell → String → String → Option Failure → Search
unfolding confirm trim_space
by_name shell name ip last = elim (windows_interface_index shell name) [
  | err e ↦ missed (some e)
  | ok idx ↦
      if ltb 0 idx
      then if str_eq ip ""
        then found idx (trim_space name)
        else confirm idx (trim_space name) (windows_interface_index_by_ipv4 shell ip) last
      else missed last
]

unfoldable pub by_guess : PowerShell → String → String → Option Failure → Search
unfolding positive
by_guess shell name ip last =
    if str_eq ip ""
    then positive (windows_likely_tun_interface_index shell name) last
    else missed last

abbrev pub or_else : Search → (Option Failure → Search) → Search
or_else (found idx alias) next = found idx alias
or_else (missed last) next = next last

-- The questions of one round.
unfoldable pub search_round : Round → TunSettings → Option Failure → Search
unfolding by_ipv4 by_name by_guess trim_space
search_round r tun last =
    let ip = trim_space tun.ipv4 in
    or_else (by_ipv4 r.first ip last) (λ e.
      or_else (by_name r.later tun.interface_name ip e)
        (λ e'. by_guess r.later tun.interface_name ip e'))

abbrev pub resolve_failed : Option Failure → Failure
resolve_failed (some e) = wrap "resolve windows tun interface index failed: " e
resolve_failed none = new_error "resolve windows tun interface index failed"

-- The timeout that `setupRoutesWindows` gives
abbrev pub resolve_timeout : ℕ
resolve_timeout = 10000

-- `windowsResolveTunInterfaceIndex` from the k-th round on, for so many rounds.
unfoldable pub resolve_from :
    ℕ → (ℕ → Round) → ℕ → TunSettings → Option Failure → Option (Result (ℕ × String))
unfolding search_round
resolve_from zero rounds k tun last = none
resolve_from (suc fuel) rounds k tun last = elim ((rounds k).cancelled) [
  | some e ↦ some (err e)
  | none ↦ elim (search_round (rounds k) tun last) [
    | found idx alias ↦ some (ok (idx, alias))
    | missed last' ↦
        if ltb resolve_timeout (rounds k).now
        then some (err (resolve_failed last'))
        else elim ((rounds k).woken) [
          | some e ↦ some (err e)
          | none ↦ resolve_from fuel rounds (k + 1) tun last'
        ]
  ]
]

-- At 350 milliseconds a round the thirtieth is past the deadline.
unfoldable pub windows_resolve_tun_interface_index :
    (ℕ → Round) → TunSettings → Option (Result (ℕ × String))
unfolding resolve_from
windows_resolve_tun_interface_index rounds tun = resolve_from 30 rounds 0 tun none
