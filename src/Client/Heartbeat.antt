-- ===== src/Client/Heartbeat.antt =====
-- internal/core/tun.go, `pingLoop`: when the app gives a silent helper up.
use sudoku_desktop.Prelude.{
  ℕ, ◌+◌, ◌<◌, ◌≡◌, refl, ap, sym, subst, Bool, true, false, List, [], ◌∷◌, ◌++◌, if◌then◌else◌,
  leb, ◌↔◌, arith,
}

-- `helperPingMisses`
abbrev pub helper_ping_misses : ℕ
helper_ping_misses = 3

-- `pingLoop`, over whether each ping was answered, with the misses in a row: whether it closes the
-- connection
unfoldable pub ping_loop : ℕ → List Bool → Bool
ping_loop miss [] = false
ping_loop miss (answered ∷ rest) =
    let fresh = ping_loop 0 rest in
    let more = ping_loop (miss + 1) rest in
    if answered then fresh else if leb helper_ping_misses (miss + 1) then true else more

-- Somewhere three pings in a row were missed.
abbrev pub ThreeMissed : List Bool → Type 0
ThreeMissed rs =
    (before : List Bool) × (after : List Bool) × (rs ≡ before ++ (false ∷ false ∷ false ∷ after))

later : (r : Bool) (rs : List Bool) → ThreeMissed rs → ThreeMissed (r ∷ rs)
later r rs (before, after, e) = (r ∷ before, after, ap (λ l. r ∷ l) e)

-- Found from a number of misses on: at once, by those that are left to miss, or later.
ping_loop_sound :
    (rs : List Bool)
    → ((ping_loop 0 rs ≡ true) → ThreeMissed rs)
      × ((ping_loop 1 rs ≡ true) → ThreeMissed (false ∷ rs))
      × ((ping_loop 2 rs ≡ true) → ThreeMissed (false ∷ false ∷ rs))
unfolding ping_loop
ping_loop_sound [] = ((λ h. cc h), (λ h. cc h), (λ h. cc h))
ping_loop_sound (true ∷ rs) =
    let (zero_on, one_on, two_on) = ping_loop_sound rs in
    (
      (λ h. later true rs (zero_on h)),
      (λ h. later false (true ∷ rs) (later true rs (zero_on h))),
      (λ h. later false (false ∷ true ∷ rs) (later false (true ∷ rs) (later true rs (zero_on h)))),
    )
ping_loop_sound (false ∷ rs) =
    let (zero_on, one_on, two_on) = ping_loop_sound rs in (one_on, two_on, (λ h. ([], rs, refl)))

ping_loop_complete :
    (before after : List Bool) (miss : ℕ)
    → miss < helper_ping_misses
    → ping_loop miss (before ++ (false ∷ false ∷ false ∷ after)) ≡ true
unfolding ping_loop
ping_loop_complete [] after miss h = ground arith
ping_loop_complete (true ∷ before) after miss h = ping_loop_complete before after 0 (omega arith)
ping_loop_complete (false ∷ before) after miss h =
    ground (arith, ping_loop_complete before after (miss + 1))

-- The heartbeat closes the connection exactly if three pings in a row were missed.
pub ping_loop_iff : (rs : List Bool) → (ping_loop 0 rs ≡ true) ↔ ThreeMissed rs
ping_loop_iff rs = (
  (ping_loop_sound rs).0,
  λ (before, after, e).
      subst (λ l. ping_loop 0 l ≡ true) (sym e) (ping_loop_complete before after 0 (omega arith)),
)
