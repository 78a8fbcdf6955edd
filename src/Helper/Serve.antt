-- ===== src/Helper/Serve.antt =====
-- internal/core/helper_server.go, `serve`, `handle`: the reader, the worker with its queue of eight
-- jobs, the watchdog, and the end of the process. A send to a connection that is gone does nothing;
-- `sent` holds what was handed to the connection.
use sudoku_desktop.Prelude.{
  ℕ, zero, suc, ◌+◌, ◌*◌, ◌-◌, Bool, true, false, not, ◌&&◌, ◌⊎◌, inl, inr, List, [], ◌∷◌, ◌++◌,
  Option, none, some, String, str_eq, if◌then◌else◌, ltb, leb, length,
}
use sudoku_desktop.Failure.{Failure}
use sudoku_desktop.Plan.{TunPlan}
use sudoku_desktop.Helper.{Helper, Env, TunStatus}
use sudoku_desktop.Helper.Steps.{teardown, status}
use sudoku_desktop.Helper.Up.{UpError, up, boot}

-- `ipcMsg`, from the app
pub record Request : Type 0 where
  pub id : ℕ
  pub op : String
  pub plan : Option TunPlan

pub data ReplyError : Type 0 where
  of_up : UpError → ReplyError
  of_down : Failure → ReplyError
  unknown_op : String → ReplyError
  helper_busy : ReplyError

-- `ipcMsg`, to the app: `ok` with its data, or an error
pub record Reply : Type 0 where
  pub id : ℕ
  pub outcome : ReplyError ⊎ Option TunStatus

abbrev up_outcome : UpError ⊎ TunStatus → ReplyError ⊎ Option TunStatus
up_outcome (inl e) = inl (of_up e)
up_outcome (inr st) = inr (some st)

abbrev down_outcome : Option Failure → ReplyError ⊎ Option TunStatus
down_outcome none = inr none
down_outcome (some e) = inl (of_down e)

-- `handle`
unfoldable pub handle : Env → Request → Helper → Helper × Reply
unfolding up teardown status
handle env m h =
    let raised = up env m.plan h in
    let lowered = teardown env h in
    if str_eq m.op "up"
    then (raised.0, record { id = m.id; outcome = up_outcome raised.1 })
    else if str_eq m.op "down"
    then (lowered.0, record { id = m.id; outcome = down_outcome lowered.1 })
    else if str_eq m.op "status"
    then (h, record { id = m.id; outcome = inr (some (status env h)) })
    else (h, record { id = m.id; outcome = inl (unknown_op m.op) })

-- The process: `queue` is the channel of jobs, `busy` the job that the worker handles, `received` the
-- identifiers of the requests that were read, and `quit` the reason to stop.
pub record Server : Type 0 where
  pub helper : Helper
  pub queue : List Request
  pub busy : Option Request
  pub reading : Bool
  pub last_seen : ℕ
  pub quit : Option String
  pub received : List ℕ
  pub sent : List Reply

abbrev pub queue_size : ℕ
queue_size = 8

abbrev pub send : Reply → Server → Server
send r s = record s { sent = s.sent ++ r ∷ [] }

-- `notify`: the first reason counts.
abbrev pub notify : String → Server → Server
notify reason s = elim s.quit [ none ↦ record s { quit = some reason } | some r ↦ s ]

abbrev pub pong : Request → Reply
pong m = record { id = m.id; outcome = inr none }

-- The reader, at one message
unfoldable pub receive : ℕ → Request → Server → Server
receive now m s =
    let s' = record s { last_seen = now; received = s.received ++ m.id ∷ [] } in
    if str_eq m.op "ping"
    then send (pong m) s'
    else if str_eq m.op "quit"
    then notify "quit requested" (record (send (pong m) s') { reading = false })
    else if leb queue_size (length s.queue)
    then send (record { id = m.id; outcome = inl helper_busy }) s'
    else record s' { queue = s.queue ++ m ∷ [] }

-- The worker takes the next job.
unfoldable pub take_job : Server → Server
take_job s = elim s.busy [
  | some m ↦ s
  | none ↦ elim s.queue [ [] ↦ s | m ∷ ms ↦ record s { busy = some m; queue = ms } ]
]

unfoldable pub finish_of : Env → Option Request → Server → Server
unfolding handle
finish_of env none s = s
finish_of env (some m) s =
    let out = handle env m s.helper in send out.1 (record s { busy = none; helper = out.0 })

-- The worker ends its job.
unfoldable pub finish_job : Env → Server → Server
unfolding finish_of
finish_job env s = finish_of env s.busy s

abbrev pub second : ℕ
second = 1000000000

-- `helperIdleTimeout`
abbrev pub helper_idle_timeout : ℕ
helper_idle_timeout = 10

-- One tick of the watchdog: why the helper stops, if it does
unfoldable pub watch : ℕ → ℕ → ℕ → Bool → Option String
watch now last_seen parent_pid parent_alive =
    if ltb (helper_idle_timeout * second) (now - last_seen)
    then some "app stopped responding"
    else if ltb 0 parent_pid && not parent_alive
    then some "app process is gone"
    else none

-- What the process sees: a message while the reader runs, the end of the connection, the worker's
-- progress, a tick.
pub data Event : Type 0 where
  message : ℕ → Request → Event
  lost : Event
  took : Event
  finished : Env → Event
  tick : ℕ → ℕ → Bool → Event

-- A message is seen only while the reader runs.
unfoldable pub read_message : Bool → ℕ → Request → Server → Server
unfolding receive
read_message true now m s = receive now m s
read_message false now m s = s

unfoldable pub on_event : Event → Server → Server
unfolding read_message take_job finish_job watch
on_event (message now m) s = read_message s.reading now m s
on_event lost s =
    if s.reading then notify "connection to app lost" (record s { reading = false }) else s
on_event took s = take_job s
on_event (finished env) s = finish_job env s
on_event (tick now pid alive) s = elim (watch now s.last_seen pid alive) [
  | none ↦ s
  | some reason ↦ notify reason s
]

unfoldable pub run_events : List Event → Server → Server
unfolding on_event
run_events [] s = s
run_events (e ∷ es) s = run_events es (on_event e s)

-- The worker after `close(jobs)`: it ends its job, and then those of the queue.
unfoldable pub drain : Env → List Request → Server → Server
unfolding finish_job
drain env [] s = finish_job env s
drain env (m ∷ ms) s = drain env ms (record (finish_job env s) { busy = some m })

-- The end of the process: with an exit code, or by the panic of a send to the closed channel.
pub data End : Type 0 where
  exited : Server → ℕ → End
  panicked : End

abbrev pub ponged : Request → Server → Server
ponged m s = send (pong m) (record s { received = s.received ++ m.id ∷ [] })

-- The reader after `close(jobs)`, at the messages that come until the process ends: it goes on
-- answering pings and a quit, and sends any other request to the closed channel.
unfoldable pub read_closed : Bool → List Request → Server → Option Server
read_closed false ms s = some s
read_closed true [] s = some s
read_closed true (m ∷ ms) s =
    let more = read_closed true ms (ponged m s) in
    if str_eq m.op "ping"
    then more
    else if str_eq m.op "quit"
    then some (record (ponged m s) { reading = false })
    else none

unfoldable pub finish_serve : Env → Option Server → End
unfolding drain teardown
finish_serve env none = panicked
finish_serve env (some s) =
    let s' = record (drain env s.queue s) { queue = [] } in
    let (h, r) = teardown env s'.helper in
    exited (record s' { helper = h }) (elim r [ none ↦ 0 | some e ↦ 1 ])

-- The end of `serve`, with the messages that arrive once the channel is closed
unfoldable pub shut_down : Env → List Request → Server → End
unfolding read_closed finish_serve
shut_down env late s = finish_serve env (read_closed s.reading late s)

-- A helper that was just connected
abbrev pub started : ℕ → Server
started now = record {
  helper = boot;
  queue = [];
  busy = none;
  reading = true;
  last_seen = now;
  quit = none;
  received = [];
  sent = [];
}

-- The watchdog at each second from `now` on, for so many ticks: when it stops the helper
unfoldable pub watch_for : ℕ → ℕ → ℕ → ℕ → Bool → Option ℕ
unfolding watch
watch_for zero now last_seen pid alive = none
watch_for (suc ticks) now last_seen pid alive =
    let rest = watch_for ticks (now + second) last_seen pid alive in
    elim (watch (now + second) last_seen pid alive) [
      | none ↦ rest
      | some reason ↦ some (now + second)
    ]
