-- ===== src/Usage/Split.antt =====
-- stats.go, `accumulateConnections`: no byte is lost between the direct and the proxied counters.
use sudoku_desktop.Prelude.{
  ℕ, ◌+◌, ◌%◌, ◌^◌, ◌≡◌, refl, ap, ◌∙◌, Bool-cases, inl, inr, List, [], ◌∷◌, String, Option, none,
  some, str_eq, if◌then◌else◌, ltb, ◌-◌, length, arith,
}
use sudoku_desktop.Usage.{
  Connection, ConnSnap, TrafficAcc, deltas, snap_of, counter_delta, count, count_all,
  accumulate_connections, is_direct, conn_direction,
}

-- What a map holds for a connection.
abbrev pub known : String → List (String × ConnSnap) → Option ConnSnap
known id [] = none
known id (e ∷ es) = if str_eq e.0 id then some e.1 else known id es

-- How far a counter that stood at the first number has come: a lower one has begun anew.
abbrev pub grown : ℕ → ℕ → ℕ
grown last now = if ltb now last then now else now - last

-- What the connections of one poll sent, and what they received, since the poll before: all of a
-- connection that was not seen then.
abbrev pub sent : List (String × ConnSnap) → List Connection → ℕ
sent prev [] = 0
sent prev (c ∷ cs) =
    elim (known c.id prev) [ none ↦ c.upload | some p ↦ grown p.up c.upload ] + sent prev cs

abbrev pub received : List (String × ConnSnap) → List Connection → ℕ
received prev [] = 0
received prev (c ∷ cs) =
    elim (known c.id prev) [ none ↦ c.download | some p ↦ grown p.down c.download ]
    + received prev cs

-- The counters of the last connection of a poll that has the identifier.
abbrev pub latest : String → List Connection → Option ConnSnap → Option ConnSnap
latest id [] found = found
latest id (c ∷ cs) found =
    latest id cs
      (if str_eq c.id id then some (record { up = c.upload; down = c.download }) else found)

snap_of-known : (id : String) (prev : List (String × ConnSnap)) → snap_of id prev ≡ known id prev
unfolding snap_of
snap_of-known id [] = refl
snap_of-known id (e ∷ es) = ground (arith, snap_of-known id es)

deltas-grown :
    (prev : List (String × ConnSnap)) (c : Connection)
    → ((deltas prev c).0
        ≡ elim (known c.id prev) [ none ↦ c.upload | some p ↦ grown p.up c.upload ])
      × ((deltas prev c).1
          ≡ elim (known c.id prev) [ none ↦ c.download | some p ↦ grown p.down c.download ])
unfolding deltas counter_delta
deltas-grown prev c =
    (ground (arith, snap_of-known c.id prev), ground (arith, snap_of-known c.id prev))

known-count :
    (prev : List (String × ConnSnap)) (c : Connection) (a : TrafficAcc) (id : String)
    → known id (count prev c a).prev ≡ (
        if str_eq c.id id
        then some (record { up = c.upload; down = c.download })
        else known id a.prev)
unfolding count
known-count prev c a id = ground arith

known-count_all :
    (prev : List (String × ConnSnap)) (cs : List Connection) (a : TrafficAcc) (id : String)
    → known id (count_all prev cs a).prev ≡ latest id cs (known id a.prev)
unfolding count_all
known-count_all prev [] a id = refl
known-count_all prev (c ∷ cs) a id =
    known-count_all prev cs (count prev c a) id ∙ ap (latest id cs) (known-count prev c a id)

mod_step : (x y a s : ℕ) → (((x + a) % 2 ^ 64 + y) + s) % 2 ^ 64 ≡ ((x + y) + (a + s)) % 2 ^ 64
mod_step x y a s = omega arith

mod_step_right :
    (x y a s : ℕ) → ((x + (y + a) % 2 ^ 64) + s) % 2 ^ 64 ≡ ((x + y) + (a + s)) % 2 ^ 64
mod_step_right x y a s = omega arith

count_step :
    (prev : List (String × ConnSnap)) (c : Connection) (a : TrafficAcc) (s : ℕ)
    → ((((count prev c a).dir_tx + (count prev c a).prx_tx) + s) % 2 ^ 64
        ≡ ((a.dir_tx + a.prx_tx) + ((deltas prev c).0 + s)) % 2 ^ 64)
      × ((((count prev c a).dir_rx + (count prev c a).prx_rx) + s) % 2 ^ 64
          ≡ ((a.dir_rx + a.prx_rx) + ((deltas prev c).1 + s)) % 2 ^ 64)
      × ((count prev c a).dir_conns + (count prev c a).prx_conns ≡ (a.dir_conns + a.prx_conns) + 1)
unfolding count
count_step prev c a s = elim (Bool-cases (is_direct (conn_direction c.chains))) [
  | inl direct ↦ simp direct (
    mod_step a.dir_tx a.prx_tx (deltas prev c).0 s,
    mod_step a.dir_rx a.prx_rx (deltas prev c).1 s,
    omega arith,
  )
  | inr other ↦ simp other (
    mod_step_right a.dir_tx a.prx_tx (deltas prev c).0 s,
    mod_step_right a.dir_rx a.prx_rx (deltas prev c).1 s,
    omega arith,
  )
]

count_all-conserves :
    (prev : List (String × ConnSnap)) (cs : List Connection) (a : TrafficAcc)
    → (((count_all prev cs a).dir_tx + (count_all prev cs a).prx_tx) % 2 ^ 64
        ≡ ((a.dir_tx + a.prx_tx) + sent prev cs) % 2 ^ 64)
      × (((count_all prev cs a).dir_rx + (count_all prev cs a).prx_rx) % 2 ^ 64
          ≡ ((a.dir_rx + a.prx_rx) + received prev cs) % 2 ^ 64)
      × ((count_all prev cs a).dir_conns + (count_all prev cs a).prx_conns
          ≡ (a.dir_conns + a.prx_conns) + length cs)
unfolding count_all
count_all-conserves prev [] a = (omega arith, omega arith, omega arith)
count_all-conserves prev (c ∷ cs) a =
    let (tx, rx, n) = count_all-conserves prev cs (count prev c a) in
    let step_tx = (count_step prev c a (sent prev cs)).0 in
    let step_rx = (count_step prev c a (received prev cs)).1 in
    let step_n = (count_step prev c a 0).2 in
    let (up, down) = deltas-grown prev c in
    (
      tx ∙ step_tx ∙ ap (λ d. ((a.dir_tx + a.prx_tx) + (d + sent prev cs)) % 2 ^ 64) up,
      rx ∙ step_rx ∙ ap (λ d. ((a.dir_rx + a.prx_rx) + (d + received prev cs)) % 2 ^ 64) down,
      omega (arith, n, step_n),
    )

-- After one poll the direct and the proxied bytes together, sent and received, have grown by exactly
-- what the connections of the poll sent and received since the poll before (modulo 2^64, as the
-- counters are), the direct and the proxied connections together are those of the poll, and the counters
-- that the next poll is compared with are those of the last connections of this one.
pub accumulate-conserves :
    (cs : List Connection) (a : TrafficAcc)
    → (((accumulate_connections cs a).dir_tx + (accumulate_connections cs a).prx_tx) % 2 ^ 64
        ≡ ((a.dir_tx + a.prx_tx) + sent a.prev cs) % 2 ^ 64)
      × (((accumulate_connections cs a).dir_rx + (accumulate_connections cs a).prx_rx) % 2 ^ 64
          ≡ ((a.dir_rx + a.prx_rx) + received a.prev cs) % 2 ^ 64)
      × ((accumulate_connections cs a).dir_conns + (accumulate_connections cs a).prx_conns
          ≡ length cs)
      × ((accumulate_connections cs a).conns ≡ length cs)
      × ((id : String) → known id (accumulate_connections cs a).prev ≡ latest id cs none)
unfolding accumulate_connections
accumulate-conserves cs a =
    let fresh = record a { dir_conns = 0; prx_conns = 0; prev = [] } in
    let (tx, rx, n) = count_all-conserves a.prev cs fresh in
    (tx, rx, omega (arith, n), refl, λ id. known-count_all a.prev cs fresh id)
