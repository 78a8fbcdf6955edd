-- ===== src/Client/Tests.antt =====
-- The theorems on the client's link, on concrete runs.
use sudoku_desktop.Prelude.{◌≡◌, refl, true, false, [], ◌∷◌, List, Bool, arith}
use sudoku_desktop.Client.{
  attached, called, answered, timed_out, told, new_tun_client, run_link, lose, Event,
}
use sudoku_desktop.Client.Accounted.{run_link-once, once, is_issued, ids}
use sudoku_desktop.Prelude.{count_id, ℕ, ◌+◌, ◌↔◌}
use sudoku_desktop.Client.Heartbeat.{ping_loop, ping_loop_iff, ThreeMissed}
use sudoku_desktop.Client.Launch.{Hello}

abbrev events : List Event
events =
    attached 7
    ∷ called true
    ∷ called true
    ∷ called false
    ∷ answered 1 false "no route"
    ∷ told "log" "up"
    ∷ answered 1 true ""
    ∷ timed_out 2
    ∷ called true
    ∷ []

run_link-once_example :
    let c = run_link events new_tun_client in
    (count_id 4 c.pending + count_id 4 (ids c.returned) ≡ once (is_issued 4 c))
    × (count_id 4 (ids (lose 7 c).returned) ≡ once (is_issued 4 c))
run_link-once_example = run_link-once events 7 4 (omega arith)

abbrev pings : List Bool
pings = true ∷ false ∷ false ∷ true ∷ false ∷ false ∷ false ∷ true ∷ []

ping_loop_iff_example : (ping_loop 0 pings ≡ true) ↔ ThreeMissed pings
ping_loop_iff_example = ping_loop_iff pings

closes : ping_loop 0 pings ≡ true
unfolding ping_loop
closes = refl

abbrev stranger : Hello
stranger = record {
  conn = 1;
  readable = true;
  op = "hello";
  ver = 1;
  token = "guess";
  acknowledged = true;
}

abbrev helper : Hello
helper = record stranger { conn = 2; token = "t0ken" }

abbrev hellos : List Hello
hellos = stranger ∷ helper ∷ []

abbrev pieces : List (List ℕ)
pieces = (1 ∷ 2 ∷ []) ∷ (3 ∷ 4 ∷ 5 ∷ []) ∷ (6 ∷ []) ∷ []
