-- ===== src/Routes/Windows/Found.antt =====
-- internal/core/routes.go, `windowsResolveTunInterfaceIndex`: that the search ends and what it finds.
use sudoku_desktop.Prelude.{
  true, false, ℕ, zero, suc, ◌+◌, ◌*◌, ◌<◌, ◌≤◌, ◌≡◌, refl, sym, ◌∙◌, subst, ◌≢◌, ◌⊎◌, inl, inr,
  Bool-cases, Option, none, some, String, str_eq, if◌then◌else◌, ltb, ltb→lt, ltb→le, ◌==◌, ==_iff,
  trim_space, eq_iff, arith,
}
use sudoku_desktop.Failure.{Result, ok, err, Failure}
use sudoku_desktop.Config.{TunSettings}
use sudoku_desktop.Routes.Windows.{
  PowerShell, windows_interface_index_by_ipv4, windows_interface_index,
  windows_likely_tun_interface_index,
}
use sudoku_desktop.Routes.Windows.Resolve.{
  Round, Search, found, missed, positive, by_ipv4, confirm, by_name, by_guess, or_else,
  search_round, resolve_failed, resolve_timeout, resolve_from, windows_resolve_tun_interface_index,
}

-- What holds of the interface that a search found, if it found one.
abbrev OnFound : (ℕ → Type 0) → Search → Type 0
OnFound P (found idx alias) = P idx
OnFound P (missed last) = Unit {0}

-- PowerShell said that the interface has the address.
abbrev Has : PowerShell → String → ℕ → Type 0
Has shell ip idx = (alias : String) × (windows_interface_index_by_ipv4 shell ip ≡ ok (idx, alias))

-- A number that PowerShell said in the round to be that of the interface with the address, if an
-- address is configured.
abbrev pub Fits : TunSettings → Round → ℕ → Type 0
Fits tun r idx =
    let ip = trim_space tun.ipv4 in (0 < idx) × (ip ≢ "" → Has r.first ip idx ⊎ Has r.later ip idx)

or_else-OnFound :
    (P : ℕ → Type 0) (s : Search) (next : Option Failure → Search)
    → OnFound P s
    → ((e : Option Failure) → OnFound P (next e))
    → OnFound P (or_else s next)
or_else-OnFound P (found idx alias) next h k = h
or_else-OnFound P (missed last) next h k = k last

positive-OnFound :
    (P : ℕ → Type 0) (r : Result (ℕ × String)) (last : Option Failure)
    → ((idx : ℕ) (alias : String) → r ≡ ok (idx, alias) → 0 < idx → P idx)
    → OnFound P (positive r last)
unfolding positive
positive-OnFound P (err e) last h = tt
positive-OnFound P (ok (idx, alias)) last h = elim (Bool-cases (ltb 0 idx)) [
  | inl above ↦ rw above (h idx alias refl (ltb→lt 0 idx above))
  | inr below ↦ rw below tt
]

module _ (tun : TunSettings) (r : Round) where
  by_ipv4-Fits :
      (last : Option Failure) → OnFound (Fits tun r) (by_ipv4 r.first (trim_space tun.ipv4) last)
  unfolding by_ipv4
  by_ipv4-Fits last = elim (Bool-cases (str_eq (trim_space tun.ipv4) "")) [
    | inl bare ↦ rw bare tt
    | inr given ↦ rw given (
        positive-OnFound (Fits tun r)
          (windows_interface_index_by_ipv4 r.first (trim_space tun.ipv4)) last
          (λ idx alias h above. (above, λ ne. inl (alias, h))))
  ]

  confirm-Fits :
      (idx : ℕ) (alias : String) (res : Result (ℕ × String)) (last : Option Failure)
      → 0 < idx
      → windows_interface_index_by_ipv4 r.later (trim_space tun.ipv4) ≡ res
      → OnFound (Fits tun r) (confirm idx alias res last)
  unfolding confirm
  confirm-Fits idx alias (err e) last above h = tt
  confirm-Fits idx alias (ok (idx2, alias2)) last above h = elim (Bool-cases (idx2 == idx)) [
    | inl same ↦ rw same (
      above,
      λ ne.
          inr (
            subst (λ i. Has r.later (trim_space tun.ipv4) i) ((==_iff idx2 idx).0 same)
              (alias2, h)),
    )
    | inr differs ↦ rw differs tt
  ]

  by_name-Fits :
      (last : Option Failure)
      → OnFound (Fits tun r) (by_name r.later tun.interface_name (trim_space tun.ipv4) last)
  unfolding by_name
  by_name-Fits last = go (windows_interface_index r.later tun.interface_name)
    where
      go :
          (res : Result ℕ)
          → OnFound (Fits tun r) (elim res [
            | err e ↦ missed (some e)
            | ok idx ↦
                if ltb 0 idx
                then if str_eq (trim_space tun.ipv4) ""
                  then found idx (trim_space tun.interface_name)
                  else confirm idx
                      (trim_space tun.interface_name)
                      (windows_interface_index_by_ipv4 r.later (trim_space tun.ipv4))
                      last
                else missed last
          ])
      go (err e) = tt
      go (ok idx) = elim (Bool-cases (ltb 0 idx)) [
        | inl above ↦ rw above (elim (Bool-cases (str_eq (trim_space tun.ipv4) "")) [
          | inl bare ↦
              rw bare
                (ltb→lt 0 idx above, λ ne. absurd (ne ((eq_iff (trim_space tun.ipv4) "").0 bare)))
          | inr given ↦ rw given (confirm-Fits idx _ _ last (ltb→lt 0 idx above) refl)
        ])
        | inr below ↦ rw below tt
      ]

  by_guess-Fits :
      (last : Option Failure)
      → OnFound (Fits tun r) (by_guess r.later tun.interface_name (trim_space tun.ipv4) last)
  unfolding by_guess
  by_guess-Fits last = elim (Bool-cases (str_eq (trim_space tun.ipv4) "")) [
    | inl bare ↦ rw bare (
        positive-OnFound (Fits tun r)
          (windows_likely_tun_interface_index r.later tun.interface_name) last
          (λ idx alias h above.
            (above, λ ne. absurd (ne ((eq_iff (trim_space tun.ipv4) "").0 bare)))))
    | inr given ↦ rw given tt
  ]

  search_round-Fits : (last : Option Failure) → OnFound (Fits tun r) (search_round r tun last)
  unfolding search_round
  search_round-Fits last =
      or_else-OnFound (Fits tun r) _ _ (by_ipv4-Fits last)
        (λ e. or_else-OnFound (Fits tun r) _ _ (by_name-Fits e) (λ e'. by_guess-Fits e'))

-- In the round PowerShell named no interface that has the configured address.
abbrev pub Lacks : TunSettings → Round → Type 0
Lacks tun r =
    let ip = trim_space tun.ipv4 in
    ip ≢ ""
    → (idx : ℕ) (alias : String) → windows_interface_index_by_ipv4 r.first ip ≡ ok (idx, alias)
    → idx ≡ 0

-- The search goes on after the round.
abbrev pub GoesOn : TunSettings → Round → Type 0
GoesOn tun r = (r.cancelled ≡ none) × Lacks tun r × ((r.now ≤ resolve_timeout) × (r.woken ≡ none))

abbrev pub Reaches : (ℕ → Round) → TunSettings → ℕ → Type 0
Reaches rounds tun i = (j : ℕ) → j < i → GoesOn tun (rounds j)

-- An interface that fits in a round that is reached; or an error in such a round: the context's at its
-- start, or, where no interface has the address, that of its wait or of the deadline.
abbrev pub IsResolved : (ℕ → Round) → TunSettings → Result (ℕ × String) → Type 0
IsResolved rounds tun (ok (idx, alias)) =
    (i : ℕ) × Reaches rounds tun i × ((rounds i).cancelled ≡ none) × Fits tun (rounds i) idx
IsResolved rounds tun (err e) =
    (i : ℕ) × Reaches rounds tun i
    × (((rounds i).cancelled ≡ some e)
        ⊎ (Lacks tun (rounds i)
            × (((rounds i).woken ≡ some e) ⊎ (resolve_timeout < (rounds i).now))))

abbrev Ends : (ℕ → Round) → TunSettings → Option (Result (ℕ × String)) → Type 0
Ends rounds tun o = (r : Result (ℕ × String)) × (o ≡ some r) × IsResolved rounds tun r

eq_text : (s t : String) → s ≢ t → str_eq s t ≡ false
eq_text s t ne = elim (Bool-cases (str_eq s t)) [
  | inl same ↦ absurd (ne ((eq_iff s t).0 same))
  | inr other ↦ other
]

-- A round in which PowerShell names the interface with the address finds it.
search_round-found :
    (tun : TunSettings) (r : Round) (last : Option Failure) (idx : ℕ) (alias : String)
    → trim_space tun.ipv4 ≢ ""
    → windows_interface_index_by_ipv4 r.first (trim_space tun.ipv4) ≡ ok (idx, alias)
    → ltb 0 idx ≡ true
    → search_round r tun last ≡ found idx alias
unfolding search_round by_ipv4 positive
search_round-found tun r last idx alias ne h above =
    rw (eq_text (trim_space tun.ipv4) "" ne, h, above) refl

search_round-Lacks :
    (tun : TunSettings) (r : Round) (last last' : Option Failure)
    → search_round r tun last ≡ missed last'
    → Lacks tun r
search_round-Lacks tun r last last' e ne idx alias h = elim (Bool-cases (ltb 0 idx)) [
  | inl above ↦ cc (sym (search_round-found tun r last idx alias ne h above) ∙ e)
  | inr below ↦ let low = ltb→le 0 idx below in omega (arith, low)
]

Reaches-next :
    (rounds : ℕ → Round) (tun : TunSettings) (k : ℕ)
    → Reaches rounds tun k
    → GoesOn tun (rounds k)
    → Reaches rounds tun (k + 1)
Reaches-next rounds tun k before on j below = elim (Bool-cases (j == k)) [
  | inl same ↦ subst (λ i. GoesOn tun (rounds i)) (sym ((==_iff j k).0 same)) on
  | inr other ↦ before j (ground (arith, other, below))
]

module _ (rounds : ℕ → Round) (tun : TunSettings) (ticks : (i : ℕ) → i * 350 ≤ (rounds i).now) where
  after_wait-Ends :
      (fuel k : ℕ) (last : Option Failure) (w : Option Failure)
      → (rounds k).woken ≡ w
      → Reaches rounds tun k
      → Lacks tun (rounds k)
      → (w ≡ none → Ends rounds tun (resolve_from fuel rounds (k + 1) tun last))
      → Ends rounds tun
          (elim w [ some e ↦ some (err e) | none ↦ resolve_from fuel rounds (k + 1) tun last ])
  after_wait-Ends fuel k last (some e) h reached lacks later_on =
      (err e, refl, (k, reached, inr (lacks, inl h)))
  after_wait-Ends fuel k last none h reached lacks later_on = later_on refl

  after_search-Ends :
      (fuel k : ℕ) (given : Option Failure) (s : Search)
      → search_round (rounds k) tun given ≡ s
      → OnFound (Fits tun (rounds k)) s
      → Reaches rounds tun k
      → (rounds k).cancelled ≡ none
      → ((last : Option Failure)
          → GoesOn tun (rounds k)
          → Ends rounds tun (resolve_from fuel rounds (k + 1) tun last))
      → Ends rounds tun (elim s [
        | found idx alias ↦ some (ok (idx, alias))
        | missed last ↦
            if ltb resolve_timeout (rounds k).now
            then some (err (resolve_failed last))
            else elim ((rounds k).woken) [
              | some e ↦ some (err e)
              | none ↦ resolve_from fuel rounds (k + 1) tun last
            ]
      ])
  after_search-Ends fuel k given (found idx alias) e fits reached free later_on =
      (ok (idx, alias), refl, (k, reached, free, fits))
  after_search-Ends fuel k given (missed last) e fits reached free later_on =
      let lacks = search_round-Lacks tun (rounds k) given last e in
      elim (Bool-cases (ltb resolve_timeout (rounds k).now)) [
        | inl late ↦
            rw late
              (err (resolve_failed last), refl, (k, reached, inr (lacks, inr (ltb→lt _ _ late))))
        | inr early ↦ rw early (
            after_wait-Ends fuel k last ((rounds k).woken) refl reached lacks
              (λ asleep. later_on last (free, lacks, (ltb→le _ _ early, asleep))))
      ]

  at_start-Ends :
      (o : Option (Result (ℕ × String))) (k : ℕ) (c : Option Failure)
      → (rounds k).cancelled ≡ c
      → Reaches rounds tun k
      → (c ≡ none → Ends rounds tun o)
      → Ends rounds tun (elim c [ some e ↦ some (err e) | none ↦ o ])
  at_start-Ends o k (some e) h reached later_on = (err e, refl, (k, reached, inl h))
  at_start-Ends o k none h reached later_on = later_on refl

  -- The round with the number 29 is past the deadline.
  resolve_from-Ends :
      (fuel k : ℕ) (last : Option Failure)
      → 30 ≤ k + fuel
      → k < 30
      → Reaches rounds tun k
      → Ends rounds tun (resolve_from fuel rounds k tun last)
  unfolding resolve_from
  resolve_from-Ends zero k last enough below reached = absurd (omega arith)
  resolve_from-Ends (suc fuel) k last enough below reached =
      at_start-Ends _ k ((rounds k).cancelled) refl reached (λ free.
        after_search-Ends fuel k last (search_round (rounds k) tun last) refl
          (search_round-Fits tun (rounds k) last) reached free
          (λ last' on.
            let tick = ticks k in
            let early = on.2.0 in
            resolve_from-Ends fuel (k + 1) last' (omega arith) (omega arith)
              (Reaches-next rounds tun k reached on)))

-- If each round of the search for the tunnel's interface takes 350 milliseconds at least, the search
-- ends within thirty rounds, and in the first round that ends it. An interface that it returns has a
-- number above 0, and where an address is configured for the tunnel, PowerShell said in that round that
-- the interface of that number has it. An error is the context's, or comes where more than ten seconds
-- have passed; at the deadline or where the context ends the wait, PowerShell named no interface with
-- the configured address, neither when the round began nor when one before it did.
pub windows_resolve_tun_interface_index-IsResolved :
    (rounds : ℕ → Round) (tun : TunSettings)
    → ((i : ℕ) → i * 350 ≤ (rounds i).now)
    → (r : Result (ℕ × String)) × (windows_resolve_tun_interface_index rounds tun ≡ some r)
      × IsResolved rounds tun r
unfolding windows_resolve_tun_interface_index
windows_resolve_tun_interface_index-IsResolved rounds tun ticks =
    resolve_from-Ends rounds tun ticks 30 0 none (omega arith) (omega arith)
      (λ j below. absurd (omega (arith, below)))
