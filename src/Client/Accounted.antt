-- ===== src/Client/Accounted.antt =====
-- internal/core/tun.go, `callOn`, `readLoop`: each call comes back once.
use sudoku_desktop.Prelude.{
  ℕ, ◌+◌, ◌^◌, ◌<◌, ◌≤◌, length, ◌≡◌, refl, ap, Bool, true, false, ◌&&◌, List, [], ◌∷◌, ◌++◌,
  Bool-cases, inl, inr, leb, ltb, map, count_id, count_id-append, count_id-keep, count_id_pos,
  arith,
}
use sudoku_desktop.Client.{
  Outcome, disconnected, send_failed, Client, new_tun_client, settle, call_on, lose, attach,
  mark_closing, report_event, outcome_of, Event, attached, called, answered, timed_out, told, ended,
  closed, on_link, run_link, waits, expired, without, next_call_id,
}

abbrev pub ids : List (ℕ × Outcome) → List ℕ
ids [] = []
ids (r ∷ rs) = r.0 ∷ ids rs

-- The number was given to a call.
abbrev pub is_issued : ℕ → Client → Bool
is_issued n c = ltb 0 n && leb n c.next_id

abbrev pub once : Bool → ℕ
once true = 1
once false = 0

-- The times that a call waits or came back: once for each call that was made.
abbrev Accounted : Client → ℕ → Type 0
Accounted c n = count_id n c.pending + count_id n (ids c.returned) ≡ once (is_issued n c)

ids-append : (rs ss : List (ℕ × Outcome)) → ids (rs ++ ss) ≡ ids rs ++ ids ss
ids-append [] ss = refl
ids-append (r ∷ rs) ss = ap (λ l. r.0 ∷ l) (ids-append rs ss)

count_id-ids :
    (n : ℕ) (rs ss : List (ℕ × Outcome))
    → count_id n (ids (rs ++ ss)) ≡ count_id n (ids rs) + count_id n (ids ss)
count_id-ids n rs ss = rw (ids-append rs ss) (count_id-append n (ids rs) (ids ss))

ids-map : (o : Outcome) (is : List ℕ) → ids (map (λ i. (i, o)) is) ≡ is
ids-map o [] = refl
ids-map o (i ∷ is) = ap (λ l. i ∷ l) (ids-map o is)

once-le-one : (b : Bool) → once b ≤ 1
once-le-one true = omega arith
once-le-one false = omega arith

settle-Accounted :
    (id : ℕ) (o : Outcome) (c : Client) (n : ℕ)
    → Accounted c n
    → Accounted c id
    → Accounted (settle id o c) n
unfolding settle count_id
settle-Accounted id o c n h k = elim (Bool-cases (waits id c)) [
  | inr not_waiting ↦ simp not_waiting h
  | inl waiting ↦ simp waiting (
      ground (
        arith,
        count_id-keep n id c.pending,
        count_id-ids n c.returned ((id, o) ∷ []),
        count_id_pos id c.pending waiting,
        once-le-one (is_issued id c),
        h,
        k,
      ))
]

register : Client → Client
register c = record c {
  next_id = next_call_id c;
  pending = next_call_id c ∷ without (next_call_id c) c.pending;
}

register-Accounted :
    (c : Client) (n : ℕ)
    → c.next_id + 1 < 2 ^ 64
    → Accounted c n
    → Accounted c (c.next_id + 1)
    → Accounted (register c) n
unfolding register count_id
register-Accounted c n room h k =
    let fresh : next_call_id c ≡ c.next_id + 1 = omega (arith, room) in
    rw fresh (ground (arith, count_id-keep n (c.next_id + 1) c.pending, h, k))

call_on-Accounted :
    (sent : Bool) (c : Client) (n : ℕ)
    → c.next_id + 1 < 2 ^ 64
    → ((k : ℕ) → Accounted c k)
    → Accounted (call_on sent c) n
unfolding call_on register
call_on-Accounted true c n room h = register-Accounted c n room (h n) (h (c.next_id + 1))
call_on-Accounted false c n room h =
    settle-Accounted (next_call_id c) send_failed (register c) n
      (register-Accounted c n room (h n) (h (c.next_id + 1)))
      (register-Accounted c (next_call_id c) room (h (next_call_id c)) (h (c.next_id + 1)))

lose-Accounted : (ic : ℕ) (c : Client) (n : ℕ) → Accounted c n → Accounted (lose ic c) n
unfolding lose count_id
lose-Accounted ic c n h = ground (
  arith,
  count_id-ids n c.returned (map (λ i. (i, disconnected)) c.pending),
  ap (count_id n) (ids-map disconnected c.pending),
  h,
)

on_link-Accounted :
    (e : Event) (c : Client)
    → c.next_id + 1 < 2 ^ 64
    → ((n : ℕ) → Accounted c n)
    → (n : ℕ) → Accounted (on_link e c) n
unfolding on_link attach report_event mark_closing
on_link-Accounted (attached ic) c room h n = h n
on_link-Accounted (called sent) c room h n = call_on-Accounted sent c n room h
on_link-Accounted (answered id good error) c room h n =
    settle-Accounted id (outcome_of good error) c n (h n) (h id)
on_link-Accounted (timed_out id) c room h n = settle-Accounted id expired c n (h n) (h id)
on_link-Accounted (told event text) c room h n = h n
on_link-Accounted (ended ic) c room h n = lose-Accounted ic c n (h n)
on_link-Accounted closed c room h n = h n

on_link-next_id :
    (e : Event) (c : Client) → c.next_id + 1 < 2 ^ 64 → (on_link e c).next_id ≤ c.next_id + 1
unfolding on_link attach report_event mark_closing call_on settle lose
on_link-next_id (attached ic) c room = omega arith
on_link-next_id (called true) c room = omega (arith, room)
on_link-next_id (called false) c room = ground (arith, room)
on_link-next_id (answered id good error) c room = ground arith
on_link-next_id (timed_out id) c room = ground arith
on_link-next_id (told event text) c room = omega arith
on_link-next_id (ended ic) c room = ground arith
on_link-next_id closed c room = omega arith

run_link-Accounted :
    (es : List Event) (c : Client)
    → c.next_id + length es < 2 ^ 64
    → ((n : ℕ) → Accounted c n)
    → (n : ℕ) → Accounted (run_link es c) n
unfolding run_link
run_link-Accounted [] c room h n = h n
run_link-Accounted (e ∷ es) c room h n =
    let one : c.next_id + 1 < 2 ^ 64 = omega (arith, room) in
    let more = on_link-next_id e c one in
    run_link-Accounted es (on_link e c) (omega (arith, room, more)) (on_link-Accounted e c one h) n

new-Accounted : (n : ℕ) → Accounted new_tun_client n
unfolding count_id
new-Accounted n = ground arith

-- Whatever happens on the link, in whatever order, as long as fewer than 2^64 things do: every call that
-- was made waits or has come back, and that exactly once, under a number of its own, and no other call
-- has; and once a connection ends, every call that was made has come back.
pub run_link-once :
    (es : List Event) (ic n : ℕ)
    → length es < 2 ^ 64
    → let c = run_link es new_tun_client in
      (count_id n c.pending + count_id n (ids c.returned) ≡ once (is_issued n c))
      × (count_id n (ids (lose ic c).returned) ≡ once (is_issued n c))
unfolding lose count_id
run_link-once es ic n few =
    let c = run_link es new_tun_client in
    let h = run_link-Accounted es new_tun_client (omega (arith, few)) new-Accounted n in
    (h, ground (arith, lose-Accounted ic c n h))
