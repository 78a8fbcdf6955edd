-- ===== src/LogRing/Newest.antt =====
-- The ring holds the newest entries of everything that was logged, and `GetLogs` reads them.
use mathlib.Core.List.{append-nil, append_assoc}
use native.Mathlib.Nat.{mod-eq_of_lt}
use sudoku_desktop.Prelude.{
  ℕ, zero, suc, ◌+◌, ◌-◌, ◌%◌, ◌^◌, ◌<◌, ◌≤◌, ◌≡◌, refl, ◌∙◌, sym, ap, subst, inl, inr, List, [],
  ◌∷◌, ◌++◌, some, String, ltb, Bool-cases, length, get_elem?, set, take, keep, min, arith, ltb→lt,
  ltb→le, length-append, length-set, get_elem?-set_self, get_elem?-set_ne, get_elem?-append_left,
  get_elem?-append_last, ℤ, trim_space, to_lower,
}
use sudoku_desktop.LogRing.{
  LogEntry, Ring, empty, append_log, collect, get_logs, wanted, take_wanted, clamp_limit, stamp,
  next_seq, log_ring_size,
}

-- The slot that `GetLogs` reads in round `i`.
abbrev slot : ℕ → ℕ → ℕ → ℕ
slot head n i = (head + n - 1 - i) % n

-- `hist` is all that was logged, newest first.
pub record Holds (b : Ring) (hist : List LogEntry) : Type 0 where
  pub size : length b.logs ≡ min log_ring_size (length hist)
  pub head_lt : b.log_head < log_ring_size
  pub head_zero : length b.logs < log_ring_size → b.log_head ≡ 0
  pub slots :
      (i : ℕ)
      → i < length b.logs
      → get_elem? b.logs (slot b.log_head (length b.logs) i) ≡ get_elem? hist i

Holds-empty : Holds empty []
Holds-empty = record {
  size = omega arith;
  head_lt = omega arith;
  head_zero = λ h. refl;
  slots = λ i h. elim h [ ];
}

slot_zero : (n i : ℕ) → i < n → slot 0 n i ≡ n - 1 - i
slot_zero n i h = let fits : 0 + n - 1 - i < n = omega arith in mod-eq_of_lt fits ∙ omega arith

module _ (logs : List LogEntry) (e : LogEntry) (hist : List LogEntry) where
  -- An append below the ring size: slot 0 is never passed.
  slots-append :
      ((i : ℕ) → i < length logs → get_elem? logs (slot 0 (length logs) i) ≡ get_elem? hist i)
      → (i : ℕ) → i < length logs + 1
      → get_elem? (logs ++ e ∷ []) (slot 0 (length logs + 1) i) ≡ get_elem? (e ∷ hist) i
  slots-append old zero h =
      rw (slot_zero (length logs + 1) 0 h) (get_elem?-append_last logs e _ (omega arith))
  slots-append old (suc i) h = rw (slot_zero (length logs + 1) (suc i) h) (
      get_elem?-append_left logs (e ∷ []) _ (omega arith)
      ∙ (let i_lt : i < length logs = omega arith in
          let at : length logs + 1 - 1 - suc i ≡ slot 0 (length logs) i =
            rw (slot_zero (length logs) i i_lt) (omega arith) in
          rw at (old i i_lt)))

  -- An overwrite of the oldest slot.
  slots-set :
      (head : ℕ)
      → head < log_ring_size
      → length logs ≡ log_ring_size
      → ((i : ℕ)
          → i < log_ring_size
          → get_elem? logs (slot head log_ring_size i) ≡ get_elem? hist i)
      → (i : ℕ) → i < log_ring_size
      → get_elem? (set logs head e) (slot ((head + 1) % log_ring_size) log_ring_size i)
        ≡ get_elem? (e ∷ hist) i
  slots-set head hl full old zero h =
      let at : slot ((head + 1) % log_ring_size) log_ring_size 0 ≡ head = omega arith in
      rw at (get_elem?-set_self logs head e (omega arith))
  slots-set head hl full old (suc i) h =
      let at : slot ((head + 1) % log_ring_size) log_ring_size (suc i) ≡ slot head log_ring_size i =
        omega arith in
      rw at (
        get_elem?-set_ne logs head (slot head log_ring_size i) e (omega arith)
        ∙ old i (omega arith))

append_log-Holds :
    (b : Ring) (e : LogEntry) (hist : List LogEntry)
    → Holds b hist
    → Holds (append_log b e) (stamp (next_seq b) e ∷ hist)
unfolding append_log
append_log-Holds b e hist h = elim (Bool-cases (ltb (length b.logs) log_ring_size)) [
  | inl room ↦
      let below : length b.logs < log_ring_size = ltb→lt _ _ room in
      let at_zero = h.head_zero below in
      let e' = stamp (next_seq b) e in
      let longer = length-append b.logs (e' ∷ []) in
      let n' : length (b.logs ++ e' ∷ []) ≡ length b.logs + 1 = omega (arith, longer) in
      let old = rw at_zero at h.slots in
      rw room (record {
        size = omega (arith, longer, h.size);
        head_lt = h.head_lt;
        head_zero = λ _. at_zero;
        slots = λ i lt. rw (n', at_zero) (slots-append b.logs e' hist old i (rw n' at lt));
      })
  | inr full ↦
      let above : log_ring_size ≤ length b.logs = ltb→le _ _ full in
      let e' = stamp (next_seq b) e in
      let same : length b.logs ≡ log_ring_size = omega (arith, h.size) in
      let n' : length (set b.logs b.log_head e') ≡ log_ring_size =
        length-set b.logs b.log_head e' ∙ same in
      let old = rw same at h.slots in
      rw full (record {
        size = omega (arith, n', h.size);
        head_lt = omega arith;
        head_zero = λ lt. absurd (omega (arith, n'));
        slots =
            λ i lt. rw n' (slots-set b.logs e' hist b.log_head h.head_lt same old i (rw n' at lt));
      })
]

-- Everything that `appendLog` was given, stamped, newest first.
abbrev pub newest_first : ℕ → List LogEntry → List LogEntry → List LogEntry
newest_first seq hist [] = hist
newest_first seq hist (e ∷ es) =
    let seq' = (seq + 1) % 2 ^ 64 in newest_first seq' (stamp seq' e ∷ hist) es

-- A run of `appendLog`.
abbrev pub append_all : Ring → List LogEntry → Ring
append_all b [] = b
append_all b (e ∷ es) = append_all (append_log b e) es

log_seq-append_log : (b : Ring) (e : LogEntry) → (append_log b e).log_seq ≡ next_seq b
unfolding append_log
log_seq-append_log b e = ground arith

append_all-Holds :
    (es : List LogEntry) (b : Ring) (hist : List LogEntry)
    → Holds b hist
    → Holds (append_all b es) (newest_first b.log_seq hist es)
append_all-Holds [] b hist h = h
append_all-Holds (e ∷ es) b hist h =
    subst
      (λ seq.
        Holds (append_all (append_log b e) es) (newest_first seq (stamp (next_seq b) e ∷ hist) es))
      (log_seq-append_log b e)
      (append_all-Holds es (append_log b e) _ (append_log-Holds b e hist h))

-- One entry more of the filtered list, as the loop appends it.
take-keep_cons :
    (level : String) (limit : ℕ) (e : LogEntry) (es out : List LogEntry)
    → length out < limit
    → take_wanted level e out
        ++ take (limit - length (take_wanted level e out)) (keep (wanted level) es)
      ≡ out ++ take (limit - length out) (keep (wanted level) (e ∷ es))
take-keep_cons level limit e es out h = elim (Bool-cases (wanted level e)) [
  | inr skipped ↦ rw skipped
  | inl taken ↦
      let fuel : limit - length out ≡ suc (limit - (length out + 1)) = omega arith in
      let n : length (out ++ e ∷ []) ≡ length out + 1 = omega (arith, length-append out (e ∷ [])) in
      rw (taken, fuel, n) (append_assoc out (e ∷ []) _)
]

-- What the loop of `GetLogs` adds to `out`, from round `i` on.
module _ (b : Ring) (level : String) (limit : ℕ) where
  abbrev Reads : ℕ → ℕ → List LogEntry → Type 0
  Reads rounds i hist =
      (j : ℕ)
      → j < rounds
      → get_elem? b.logs (slot b.log_head (length b.logs) (i + j)) ≡ get_elem? hist j

  Reads-tail :
      (rounds i : ℕ) (e : LogEntry) (hist : List LogEntry)
      → Reads (suc rounds) i (e ∷ hist)
      → Reads rounds (suc i) hist
  Reads-tail rounds i e hist old j h =
      let at : suc i + j ≡ i + suc j = omega arith in rw at (old (suc j) (omega arith))

  Reads-head :
      (rounds i : ℕ) (e : LogEntry) (hist : List LogEntry)
      → Reads (suc rounds) i (e ∷ hist)
      → get_elem? b.logs (slot b.log_head (length b.logs) i) ≡ some e
  Reads-head rounds i e hist old =
      let at : i + 0 ≡ i = omega arith in rw at at (old 0 (omega arith))

  collect-eq :
      (rounds i : ℕ) (out hist : List LogEntry)
      → Reads rounds i hist
      → rounds ≤ length hist
      → collect b level limit rounds i out
        ≡ some (out ++ take (limit - length out) (keep (wanted level) (take rounds hist)))
  unfolding collect
  collect-eq zero i out hist slots enough =
      elim (limit - length out) as (λ n. some out ≡ some (out ++ take n [])) [
        | zero ↦ ap some (sym (append-nil out))
        | suc n ↦ ap some (sym (append-nil out))
      ]
  collect-eq (suc rounds) i out [] slots enough = absurd (omega arith)
  collect-eq (suc rounds) i out (e ∷ hist) slots enough =
      elim (Bool-cases (ltb (length out) limit)) [
        | inr done ↦
            let none_left : limit - length out ≡ 0 = omega (arith, ltb→le _ _ done) in
            rw (done, collect, none_left) (ap some (sym (append-nil out)))
        | inl room ↦
            rw (room, collect, Reads-head rounds i e hist slots)
              (collect-eq rounds (suc i) (take_wanted level e out) hist
                  (Reads-tail rounds i e hist slots) (omega arith)
                ∙ ap some (take-keep_cons level limit e (take rounds hist) out (ltb→lt _ _ room)))
      ]

take-min {ℓ} : {A : Type ℓ} (n : ℕ) (xs : List A) → take (min n (length xs)) xs ≡ take n xs
take-min zero xs = let z : min 0 (length xs) ≡ 0 = omega arith in rw z
take-min (suc n) [] = let z : min (suc n) 0 ≡ 0 = omega arith in rw z
take-min (suc n) (x ∷ xs) =
    let s : min (suc n) (suc (length xs)) ≡ suc (min n (length xs)) = omega arith in
    rw s (ap (◌∷◌ x) (take-min n xs))

get_logs-eq :
    (b : Ring) (hist : List LogEntry) (level : String) (limit : ℤ)
    → Holds b hist
    → get_logs b level limit
      ≡ some (
          take
            (clamp_limit limit)
            (keep (wanted (to_lower (trim_space level))) (take log_ring_size hist)))
unfolding get_logs
get_logs-eq b hist level limit h =
    collect-eq b (to_lower (trim_space level)) (clamp_limit limit) (length b.logs) 0 [] hist
      (λ j lt. let at : 0 + j ≡ j = omega arith in rw at (h.slots j lt)) (omega (arith, h.size))
    ∙ (let all : clamp_limit limit - 0 ≡ clamp_limit limit = omega arith in
        rw (all, h.size, take-min))

-- After any run of `appendLog` on the empty ring `GetLogs` does not fail, and returns, newest first,
-- the first `limit` entries of the asked level among the newest 5000 that were logged: no entry is
-- lost, repeated or moved, whether or not the ring has wrapped round.
pub get_logs-append_all :
    (es : List LogEntry) (level : String) (limit : ℤ)
    → get_logs (append_all empty es) level limit
      ≡ some (
          take (clamp_limit limit) (
            keep
              (wanted (to_lower (trim_space level)))
              (take log_ring_size (newest_first 0 [] es))))
get_logs-append_all es level limit =
    get_logs-eq (append_all empty es) (newest_first 0 [] es) level limit
      (append_all-Holds es empty [] Holds-empty)
