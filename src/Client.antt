-- ===== src/Client.antt =====
-- internal/core/tun.go: the app's end of the link to the tunnel helper, as `mu` guards it: the
-- connection, the calls that wait for a reply, and what was reported of the link. `returned` holds the
-- calls that came back and how. That a call is entered and sent is one step, and of a reply and the end
-- of the wait the first decides. The status that a reply carries is left out.
pub mod Accounted
pub mod Heartbeat
pub mod Launch
mod Tests
use sudoku_desktop.Prelude.{
  ℕ, ◌+◌, ◌%◌, ◌^◌, Bool, true, false, not, List, [], ◌∷◌, ◌++◌, any, keep, Option, none, some,
  String, str_eq, if◌then◌else◌, ◌==◌, map,
}

-- How `callOn` ends.
pub data Outcome : Type 0 where
  replied : Outcome
  refused : String → Outcome
  send_failed disconnected expired : Outcome

-- `tunClient`; connections are numbered.
pub record Client : Type 0 where
  pub conn : Option ℕ
  pub closing : Bool
  pub next_id : ℕ
  pub pending : List ℕ
  pub returned : List (ℕ × Outcome)
  pub events : List (String × String)

-- `newTunClient`
abbrev pub new_tun_client : Client
new_tun_client = record {
  conn = none;
  closing = false;
  next_id = 0;
  pending = [];
  returned = [];
  events = [];
}

-- `delete(c.pending, id)`
abbrev pub without : ℕ → List ℕ → List ℕ
without id ids = keep (λ i. not (i == id)) ids

abbrev pub waits : ℕ → Client → Bool
waits id c = any (λ i. i == id) c.pending

-- A call that waits comes back; one that came back before is left alone.
unfoldable pub settle : ℕ → Outcome → Client → Client
settle id o c =
    if waits id c
    then record c { pending = without id c.pending; returned = c.returned ++ (id, o) ∷ [] }
    else c

-- `c.nextID++`, on a `uint64`
abbrev pub next_call_id : Client → ℕ
next_call_id c = (c.next_id + 1) % 2 ^ 64

-- `callOn`, up to its wait; a send may fail. A number that still waits is overwritten in the map.
unfoldable pub call_on : Bool → Client → Client
unfolding settle
call_on sent c =
    let c' = record c {
      next_id = next_call_id c;
      pending = next_call_id c ∷ without (next_call_id c) c.pending;
    } in
    if sent then c' else settle (next_call_id c) send_failed c'

-- What a reply means for its call.
unfoldable pub outcome_of : Bool → String → Outcome
outcome_of ok error =
    if ok then replied else refused (if str_eq error "" then "unknown helper error" else error)

-- `attach`
unfoldable pub attach : ℕ → Client → Client
attach ic c = record c { conn = some ic; closing = false }

abbrev same_conn : ℕ → Option ℕ → Bool
same_conn ic none = false
same_conn ic (some i) = i == ic

-- `readLoop`, at a message that is an event
unfoldable pub report_event : String → String → Client → Client
report_event event text c = record c { events = c.events ++ (event, text) ∷ [] }

-- `readLoop`, at the end of its connection
unfoldable pub lose : ℕ → Client → Client
unfolding report_event
lose ic c =
    let c' = record c {
      conn = if same_conn ic c.conn then none else c.conn;
      returned = c.returned ++ map (λ i. (i, disconnected)) c.pending;
      pending = [];
    } in
    if c.closing then c' else report_event "exit" "connection to the tunnel helper was lost" c'

-- `Shutdown`, its first step
unfoldable pub mark_closing : Client → Client
mark_closing c = record c { closing = true }

-- What happens on the link: a connection, a call with the success of its send, a reply with its
-- fields, a call whose context ends, an event, the end of a connection, and a shutdown.
pub data Event : Type 0 where
  attached : ℕ → Event
  called : Bool → Event
  answered : ℕ → Bool → String → Event
  timed_out : ℕ → Event
  told : String → String → Event
  ended : ℕ → Event
  closed : Event

unfoldable pub on_link : Event → Client → Client
unfolding attach call_on settle outcome_of report_event lose mark_closing
on_link (attached ic) c = attach ic c
on_link (called sent) c = call_on sent c
on_link (answered id ok error) c = settle id (outcome_of ok error) c
on_link (timed_out id) c = settle id expired c
on_link (told event text) c = report_event event text c
on_link (ended ic) c = lose ic c
on_link closed c = mark_closing c

unfoldable pub run_link : List Event → Client → Client
unfolding on_link
run_link [] c = c
run_link (e ∷ es) c = run_link es (on_link e c)
