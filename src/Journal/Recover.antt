-- ===== src/Journal/Recover.antt =====
-- journal.go, `recoverStaleJournal`, and guard.go, `RunGuard`: what the guard process or the next
-- launch undoes from the journal of an app that died. Log lines are left out.
use sudoku_desktop.Prelude.{
  ℕ, zero, suc, ◌+◌, ◌<◌, ◌≡◌, refl, ap, ◌∙◌, Bool, true, false, not, ◌&&◌, List, [], ◌∷◌, Option,
  none, some, String, ltb, ◌==◌, str_eq, ◌≢◌, ◌↔◌, eq_iff, subst, if◌then◌else◌, arith, to_lower,
  contains, inl, inr, Bool-cases, any, get_elem?, ==_iff,
}
use sudoku_desktop.Failure.{Failure}
use sudoku_desktop.SystemProxy.{Snapshot}
use sudoku_desktop.Journal.{Child, JournalFile, Disk, absent, unreadable, holds}

-- The operating system, as the recovering process finds it: its own process, `processAlive`,
-- `processCommand` (the command line, and on Windows the path of the executable alone),
-- `restoreSystemProxy`, and whether `os.Remove` succeeds.
pub record Machine : Type 0 where
  pub pid : ℕ
  pub alive : ℕ → Bool
  pub command : ℕ → String
  pub restore : Snapshot → ℕ → Option Failure
  pub removable : Bool

-- What a recovery did.
pub record Outcome : Type 0 where
  pub recovered : Bool
  pub killed : List ℕ
  pub restored : Option (Snapshot × ℕ × Option Failure)
  pub disk : Disk

-- `_ = os.Remove(path)`
abbrev remove_file : Machine → Disk → Disk
remove_file m d = if m.removable then absent else d

abbrev nothing_done : Disk → Outcome
nothing_done d = record { recovered = false; killed = []; restored = none; disk = d }

-- What `processCommand` tells of the process holds the name that the journal recorded.
abbrev pub is_leftover : Machine → Child → Bool
is_leftover m c =
    not (str_eq (m.command c.pid) "") && contains (to_lower (m.command c.pid)) (to_lower c.name)

-- The processes that are killed.
unfoldable pub leftovers : Machine → List Child → List ℕ
leftovers m [] = []
leftovers m (c ∷ cs) = let rest = leftovers m cs in if is_leftover m c then c.pid ∷ rest else rest

-- `if port == 0 { port = ProxyPort }`
abbrev pub port_of : JournalFile → ℕ
port_of f = if f.proxy_port == 0 then 10233 else f.proxy_port

-- `f.AppPID > 0 && f.AppPID != os.Getpid() && processAlive(f.AppPID)`
abbrev pub owner_alive : Machine → JournalFile → Bool
owner_alive m f = ltb 0 f.app_pid && not (f.app_pid == m.pid) && m.alive f.app_pid

-- `recoverStaleJournal`
unfoldable pub recover_stale_journal : Machine → Disk → Outcome
unfolding leftovers
recover_stale_journal m absent = nothing_done absent
recover_stale_journal m unreadable = nothing_done (remove_file m unreadable)
recover_stale_journal m (holds f) = if owner_alive m f then nothing_done (holds f) else record {
  recovered = true;
  killed = leftovers m f.children;
  restored = elim f.system_proxy [
    | none ↦ none
    | some s ↦ some (s, port_of f, m.restore s (port_of f))
  ];
  disk = remove_file m (holds f);
}

-- The loop of `RunGuard`: `alive` says whether the parent is alive at each look, 500 ms apart, and
-- `fuel` bounds the looks. It gives the number of looks after which the parent was gone.
pub wait_parent : (ℕ → Bool) → ℕ → ℕ → Option ℕ
wait_parent alive zero i = none
wait_parent alive (suc fuel) i = elim (alive i) [
  | true ↦ wait_parent alive fuel (suc i)
  | false ↦ some i
]

-- `RunGuard`: `disk` is what stands at the path at each look.
pub run_guard : Machine → (ℕ → Bool) → (ℕ → Disk) → ℕ → ℕ → Option Outcome
unfolding wait_parent recover_stale_journal
run_guard m alive disk fuel parent =
    if parent == 0 then some (nothing_done (disk 0)) else elim (wait_parent alive fuel 0) [
      | none ↦ none
      | some i ↦ some (recover_stale_journal m (disk (suc i)))
    ]

-- A process that is killed belongs to an entry of the list that is a leftover.
killed_child :
    (m : Machine) (cs : List Child) (p : ℕ)
    → any (λ q. q == p) (leftovers m cs) ≡ true
    → (i : ℕ) × (c : Child) × (get_elem? cs i ≡ some c) × (c.pid ≡ p) × (is_leftover m c ≡ true)
unfolding leftovers
killed_child m [] p h = cc
killed_child m (c ∷ cs) p h = elim (Bool-cases (is_leftover m c)) [
  | inr skipped ↦ next (killed_child m cs p (rw (skipped, leftovers) at h))
  | inl taken ↦ elim (Bool-cases (c.pid == p)) [
    | inl here ↦ (0, c, refl, (==_iff c.pid p).0 here, taken)
    | inr later ↦ next (killed_child m cs p (rw (taken, leftovers, later) at h))
  ]
]
  where
    next :
        ((i : ℕ) × (d : Child) × (get_elem? cs i ≡ some d) × (d.pid ≡ p) × (is_leftover m d ≡ true))
        → (i : ℕ) × (d : Child) × (get_elem? (c ∷ cs) i ≡ some d)
          × (d.pid ≡ p)
          × (is_leftover m d ≡ true)
    next (i, d, at, same, left) = (suc i, d, at, same, left)

-- A leftover of the list is killed.
leftover_killed :
    (m : Machine) (cs : List Child) (i : ℕ) (c : Child)
    → get_elem? cs i ≡ some c
    → is_leftover m c ≡ true
    → any (λ q. q == c.pid) (leftovers m cs) ≡ true
unfolding leftovers
leftover_killed m [] i c at left = cc
leftover_killed m (d ∷ cs) zero c at left =
    let e : d ≡ c = cc in rw e (rw (left, leftovers) (rw ((==_iff c.pid c.pid).1 refl)))
leftover_killed m (d ∷ cs) (suc i) c at left = ground (arith, leftover_killed m cs i c at left)

recover_up :
    (m : Machine) (f : JournalFile)
    → owner_alive m f ≡ true
    → recover_stale_journal m (holds f) ≡ nothing_done (holds f)
unfolding recover_stale_journal
recover_up m f up = rw up

recover_gone :
    (m : Machine) (f : JournalFile)
    → owner_alive m f ≡ false
    → (recover_stale_journal m (holds f)).killed ≡ leftovers m f.children
unfolding recover_stale_journal
recover_gone m f gone = rw gone

-- The same in the terms of the code's own tests.
pub recovery_kills :
    (m : Machine) (f : JournalFile)
    → ((p : ℕ)
        → any (λ q. q == p) (recover_stale_journal m (holds f)).killed ≡ true
        → (owner_alive m f ≡ false)
          × (i : ℕ) × (c : Child) × (get_elem? f.children i ≡ some c)
          × (c.pid ≡ p)
          × (is_leftover m c ≡ true))
      × ((i : ℕ) (c : Child)
          → owner_alive m f ≡ false
          → get_elem? f.children i ≡ some c
          → is_leftover m c ≡ true
          → any (λ q. q == c.pid) (recover_stale_journal m (holds f)).killed ≡ true)
      × (owner_alive m f ≡ true → (recover_stale_journal m (holds f)).disk ≡ holds f)
recovery_kills m f = (only, every, λ up. ap (λ o. o.disk) (recover_up m f up))
  where
    only :
        (p : ℕ)
        → any (λ q. q == p) (recover_stale_journal m (holds f)).killed ≡ true
        → (owner_alive m f ≡ false)
          × (i : ℕ) × (c : Child) × (get_elem? f.children i ≡ some c)
          × (c.pid ≡ p)
          × (is_leftover m c ≡ true)
    only p h = elim (Bool-cases (owner_alive m f)) [
      | inl up ↦ cc (rw (recover_up m f up) at h)
      | inr gone ↦
          let (i, c, at, same, left) =
            killed_child m f.children p (rw (recover_gone m f gone) at h) in
          (gone, i, c, at, same, left)
    ]

    every :
        (i : ℕ) (c : Child)
        → owner_alive m f ≡ false
        → get_elem? f.children i ≡ some c
        → is_leftover m c ≡ true
        → any (λ q. q == c.pid) (recover_stale_journal m (holds f)).killed ≡ true
    every i c gone at left = rw (recover_gone m f gone) (leftover_killed m f.children i c at left)

wait_parent-first :
    (alive : ℕ → Bool) (fuel i n : ℕ)
    → ((j : ℕ) → j < n → alive (i + j) ≡ true)
    → alive (i + n) ≡ false
    → n < fuel
    → wait_parent alive fuel i ≡ some (i + n)
unfolding wait_parent
wait_parent-first alive zero i n up down h = absurd (omega arith)
wait_parent-first alive (suc fuel) i zero up down h =
    let at : i + 0 ≡ i = omega arith in rw (at, rw at at down, wait_parent)
wait_parent-first alive (suc fuel) i (suc n) up down h =
    let at : i + 0 ≡ i = omega arith in
    let shift = λ (j : ℕ). let e : suc i + j ≡ i + suc j = omega arith in e in
    rw (rw at at (up 0 (omega arith)), wait_parent, ← shift n)
      (wait_parent-first alive fuel (suc i) n (λ j lt. rw shift (up (suc j) (omega arith)))
        (rw shift down) (omega arith))

-- If the parent is alive at the first n looks of the guard and gone at the next, the guard waits no
-- longer, and replays once what the journal holds after the pause that follows.
pub run_guard-replays :
    (m : Machine) (alive : ℕ → Bool) (disk : ℕ → Disk) (fuel parent n : ℕ)
    → 0 < parent
    → ((j : ℕ) → j < n → alive j ≡ true)
    → alive n ≡ false
    → n < fuel
    → run_guard m alive disk fuel parent ≡ some (recover_stale_journal m (disk (suc n)))
unfolding run_guard
run_guard-replays m alive disk fuel zero n h up down enough = elim h [ ]
run_guard-replays m alive disk fuel (suc parent) n h up down enough =
    let met : wait_parent alive fuel 0 ≡ some n =
      wait_parent-first alive fuel 0 n (λ j lt. let at : 0 + j ≡ j = omega arith in rw at (up j lt))
        (let at : 0 + n ≡ n = omega arith in rw at down) enough
      ∙ (let at : 0 + n ≡ n = omega arith in rw at) in
    ground (arith, met)

-- The system tells a command for the process of an entry, and that holds the recorded name, ignoring
-- case.
abbrev pub IsOurs : Machine → Child → Type 0
IsOurs m c =
    (m.command c.pid ≢ "") × (contains (to_lower (m.command c.pid)) (to_lower c.name) ≡ true)

-- A process other than the one that recovers owns the journal and is alive.
abbrev pub IsOwned : Machine → JournalFile → Type 0
IsOwned m f = (0 < f.app_pid) × (f.app_pid ≢ m.pid) × (m.alive f.app_pid ≡ true)

is_leftover_iff : (m : Machine) (c : Child) → (is_leftover m c ≡ true) ↔ IsOurs m c
is_leftover_iff m c = (
  λ h. (λ e. ground (arith, h, eq_iff (m.command c.pid) "", e), ground (arith, h)),
  λ h. ground (arith, h.0, h.1, eq_iff (m.command c.pid) ""),
)

owner_alive_iff : (m : Machine) (f : JournalFile) → (owner_alive m f ≡ true) ↔ IsOwned m f
owner_alive_iff m f = (
  λ h. (ground (arith, h), λ e. ground (arith, h, e), ground (arith, h)),
  λ h. ground (arith, h.0, h.1, h.2),
)

-- A recovery kills exactly the processes that an entry of the journal names and whose command, as the
-- system tells it, holds the recorded name, ignoring case; it kills none where another process than the
-- recovering one owns the journal and is alive, and then leaves the file as it is.
pub recover_kills :
    (m : Machine) (f : JournalFile)
    → ((p : ℕ)
        → (any (λ q. q == p) (recover_stale_journal m (holds f)).killed ≡ true) ↔ (
            ¬ IsOwned m f
            × ((i : ℕ) × (c : Child) × (get_elem? f.children i ≡ some c)
                × (c.pid ≡ p)
                × IsOurs m c)))
      × (IsOwned m f → (recover_stale_journal m (holds f)).disk ≡ holds f)
recover_kills m f =
    (λ p. (only p, every p), λ own. (recovery_kills m f).2 ((owner_alive_iff m f).1 own))
  where
    not_owned : ¬ IsOwned m f → owner_alive m f ≡ false
    not_owned free = elim (Bool-cases (owner_alive m f)) [
      | inl up ↦ absurd (free ((owner_alive_iff m f).0 up))
      | inr gone ↦ gone
    ]

    only :
        (p : ℕ)
        → any (λ q. q == p) (recover_stale_journal m (holds f)).killed ≡ true
        → ¬ IsOwned m f
          × ((i : ℕ) × (c : Child) × (get_elem? f.children i ≡ some c) × (c.pid ≡ p) × IsOurs m c)
    only p h =
        let (gone, i, c, at, same, left) = (recovery_kills m f).0 p h in
        (
          λ own. cc ((owner_alive_iff m f).1 own, gone),
          (i, c, at, same, (is_leftover_iff m c).0 left),
        )

    every :
        (p : ℕ)
        → ¬ IsOwned m f
          × ((i : ℕ) × (c : Child) × (get_elem? f.children i ≡ some c) × (c.pid ≡ p) × IsOurs m c)
        → any (λ q. q == p) (recover_stale_journal m (holds f)).killed ≡ true
    every p (free, (i, c, at, same, ours)) =
        subst (λ n. any (λ q. q == n) (recover_stale_journal m (holds f)).killed ≡ true) same
          ((recovery_kills m f).1 i c (not_owned free) at ((is_leftover_iff m c).1 ours))
