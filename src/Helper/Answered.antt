-- ===== src/Helper/Answered.antt =====
-- internal/core/helper_server.go, `serve`: each request is answered once, and the process ends.
use sudoku_desktop.Prelude.{
  count_id, count_id-append, ℕ, ◌+◌, ◌≤◌, ◌≡◌, refl, Bool, true, false, List, [], ◌∷◌, ◌++◌, Option,
  none, some, inl, inr, ◌⊎◌, Bool-cases, str_eq, eq_iff, sym, ◌∙◌, length, ap, length-append, arith,
}
use sudoku_desktop.Helper.{Helper, Env}
use sudoku_desktop.Helper.Serve.{
  Request, Reply, Server, queue_size, handle, receive, read_message, take_job, finish_of, exited,
  panicked, read_closed, finish_serve, ponged, finish_job, Event, message, lost, took, finished,
  tick, on_event, run_events, drain, shut_down, started, pong, helper_busy,
}

abbrev pub reply_ids : List Reply → List ℕ
reply_ids [] = []
reply_ids (r ∷ rs) = r.id ∷ reply_ids rs

abbrev pub request_ids : List Request → List ℕ
request_ids [] = []
request_ids (m ∷ ms) = m.id ∷ request_ids ms

abbrev busy_ids : Option Request → List ℕ
busy_ids none = []
busy_ids (some m) = m.id ∷ []

reply_ids-append :
    (rs : List Reply) (r : Reply) → reply_ids (rs ++ r ∷ []) ≡ reply_ids rs ++ r.id ∷ []
reply_ids-append [] r = refl
reply_ids-append (x ∷ rs) r = ap (λ l. x.id ∷ l) (reply_ids-append rs r)

request_ids-append :
    (ms : List Request) (m : Request) → request_ids (ms ++ m ∷ []) ≡ request_ids ms ++ m.id ∷ []
request_ids-append [] m = refl
request_ids-append (x ∷ ms) m = ap (λ l. x.id ∷ l) (request_ids-append ms m)

-- The requests with an identifier that wait: in the queue or with the worker.
abbrev waiting : ℕ → Server → ℕ
waiting n s = count_id n (request_ids s.queue) + count_id n (busy_ids s.busy)

-- Each request that was read is answered or waits, and the queue has no more than eight.
record IsFair (s : Server) : Type 0 where
  pub fair : (n : ℕ) → count_id n s.received ≡ count_id n (reply_ids s.sent) + waiting n s
  pub few : length s.queue ≤ queue_size

replied :
    (n : ℕ) (rs : List Reply) (r : Reply)
    → count_id n (reply_ids (rs ++ r ∷ [])) ≡ count_id n (reply_ids rs) + count_id n (r.id ∷ [])
replied n rs r = rw (reply_ids-append rs r) (count_id-append n (reply_ids rs) (r.id ∷ []))

queued :
    (n : ℕ) (ms : List Request) (m : Request)
    → count_id n (request_ids (ms ++ m ∷ [])) ≡ count_id n (request_ids ms) + count_id n (m.id ∷ [])
queued n ms m = rw (request_ids-append ms m) (count_id-append n (request_ids ms) (m.id ∷ []))

receive-fair :
    (now : ℕ) (m : Request) (s : Server) (n : ℕ)
    → count_id n s.received ≡ count_id n (reply_ids s.sent) + waiting n s
    → let s' = receive now m s in
      count_id n s'.received ≡ count_id n (reply_ids s'.sent) + waiting n s'
unfolding receive
receive-fair now m s n h =
    let in_sum = count_id-append n s.received (m.id ∷ []) in
    let answered = replied n s.sent in
    let busy_reply : Reply = record { id = m.id; outcome = inl helper_busy } in
    ground (arith, in_sum, answered (pong m), answered busy_reply, queued n s.queue m, h)

receive-few :
    (now : ℕ) (m : Request) (s : Server)
    → length s.queue ≤ queue_size
    → length (receive now m s).queue ≤ queue_size
unfolding receive
receive-few now m s h = ground (arith, length-append s.queue (m ∷ []))

take_job-IsFair : (s : Server) → IsFair s → IsFair (take_job s)
unfolding take_job count_id
take_job-IsFair s f = record { fair = λ n. ground (arith, f.fair n); few = ground (arith, f.few) }

handle-id : (env : Env) (m : Request) (h : Helper) → (handle env m h).1.id ≡ m.id
unfolding handle
handle-id env m h = ground arith

-- Ending a job answers it, and changes nothing of what is read or queued.
record IsFinished (s s' : Server) : Type 0 where
  pub received : s'.received ≡ s.received
  pub queue : s'.queue ≡ s.queue
  pub busy : s'.busy ≡ none
  pub sent :
      (n : ℕ)
      → count_id n (reply_ids s'.sent)
        ≡ count_id n (reply_ids s.sent) + count_id n (busy_ids s.busy)

finish_of-IsFinished :
    (env : Env) (o : Option Request) (s : Server) → s.busy ≡ o → IsFinished s (finish_of env o s)
unfolding finish_of count_id
finish_of-IsFinished env none s e = record {
  received = refl;
  queue = refl;
  busy = e;
  sent = λ n. omega (arith, ap (λ o. count_id n (busy_ids o)) e);
}
finish_of-IsFinished env (some m) s e = record {
  received = refl;
  queue = refl;
  busy = refl;
  sent = λ n.
      let answer = (handle env m s.helper).1 in
      omega (
        arith,
        replied n s.sent answer,
        ap (λ i. count_id n (i ∷ [])) (handle-id env m s.helper),
        ap (λ o. count_id n (busy_ids o)) e,
      );
}

finish_job-IsFinished : (env : Env) (s : Server) → IsFinished s (finish_job env s)
unfolding finish_job
finish_job-IsFinished env s = finish_of-IsFinished env s.busy s refl

finish_job-IsFair : (env : Env) (s : Server) → IsFair s → IsFair (finish_job env s)
unfolding count_id
finish_job-IsFair env s f =
    let q = finish_job-IsFinished env s in
    record {
      fair = λ n. omega (
        arith,
        f.fair n,
        q.sent n,
        ap (count_id n) q.received,
        ap (λ l. count_id n (request_ids l)) q.queue,
        ap (λ o. count_id n (busy_ids o)) q.busy,
      );
      few = omega (arith, f.few, ap length q.queue);
    }

read_message-IsFair :
    (on : Bool) (now : ℕ) (m : Request) (s : Server) → IsFair s → IsFair (read_message on now m s)
unfolding read_message
read_message-IsFair true now m s f = record {
  fair = λ n. receive-fair now m s n (f.fair n);
  few = receive-few now m s f.few;
}
read_message-IsFair false now m s f = f

on_event-IsFair : (e : Event) (s : Server) → IsFair s → IsFair (on_event e s)
unfolding on_event
on_event-IsFair (message now m) s f = read_message-IsFair s.reading now m s f
on_event-IsFair lost s f = record { fair = λ n. ground (arith, f.fair n); few = ground arith }
on_event-IsFair took s f = take_job-IsFair s f
on_event-IsFair (finished env) s f = finish_job-IsFair env s f
on_event-IsFair (tick now pid alive) s f = record {
  fair = λ n. ground (arith, f.fair n);
  few = ground arith;
}

run_events-IsFair : (es : List Event) (s : Server) → IsFair s → IsFair (run_events es s)
unfolding run_events
run_events-IsFair [] s f = f
run_events-IsFair (e ∷ es) s f = run_events-IsFair es (on_event e s) (on_event-IsFair e s f)

-- Draining the jobs answers those that wait.
drain-fair :
    (env : Env) (ms : List Request) (s : Server)
    → ((n : ℕ)
        → count_id n s.received
          ≡ count_id n (reply_ids s.sent)
            + (count_id n (request_ids ms) + count_id n (busy_ids s.busy)))
    → (n : ℕ) → count_id n (drain env ms s).received ≡ count_id n (reply_ids (drain env ms s).sent)
unfolding drain count_id
drain-fair env [] s f n =
    let q = finish_job-IsFinished env s in omega (arith, f n, q.sent n, ap (count_id n) q.received)
drain-fair env (m ∷ ms) s f n =
    let q = finish_job-IsFinished env s in
    drain-fair env ms (record (finish_job env s) { busy = some m })
      (λ k. omega (arith, f k, q.sent k, ap (count_id k) q.received)) n

-- Pings arrive, and whatever comes behind a quit is not read.
abbrev pub AreIdle : List Request → Type 0
AreIdle [] = Unit
AreIdle (m ∷ ms) = ((str_eq m.op "ping" ≡ true) × AreIdle ms) ⊎ (str_eq m.op "quit" ≡ true)

-- The reader has ended, or reads nothing that is for the worker.
abbrev pub AreHarmless : Bool → List Request → Type 0
AreHarmless on late = (on ≡ false) ⊎ AreIdle late

ponged-IsFair : (m : Request) (s : Server) → IsFair s → IsFair (ponged m s)
ponged-IsFair m s f = record {
  fair = λ n.
      let in_sum = count_id-append n s.received (m.id ∷ []) in
      let sum = replied n s.sent (pong m) in omega (arith, in_sum, sum, f.fair n);
  few = f.few;
}

-- The reader gets to the end and is fair, if nothing is for the worker, and else sends to the closed
-- channel.
abbrev Ended : Bool → List Request → Option Server → Type 0
Ended on ms none = ¬ AreHarmless on ms
Ended on ms (some s) = AreHarmless on ms × IsFair s

read_closed-Ended :
    (on : Bool) (ms : List Request) (s : Server) → IsFair s → Ended on ms (read_closed on ms s)
unfolding read_closed
read_closed-Ended false ms s f = (inl refl, f)
read_closed-Ended true [] s f = (inr tt, f)
read_closed-Ended true (m ∷ ms) s f = elim (Bool-cases (str_eq m.op "ping")) [
  | inl ping ↦ rw ping (
      more (read_closed true ms (ponged m s))
        (read_closed-Ended true ms (ponged m s) (ponged-IsFair m s f)) ping)
  | inr other ↦ elim (Bool-cases (str_eq m.op "quit")) [
    | inl leave ↦
        rw (other, leave)
          (inr (inr leave), record { fair = (ponged-IsFair m s f).fair; few = f.few })
    | inr job ↦ rw (other, job) (λ h. refuse other job h)
  ]
]
  where
    two_ops : str_eq m.op "quit" ≡ true → str_eq m.op "ping" ≡ true → ⊥
    two_ops leave ping =
        let same = (eq_iff m.op "quit").0 leave in
        let clash : true ≡ false = sym ping ∙ ap (λ o. str_eq o "ping") same in cc clash

    more : (o : Option Server) → Ended true ms o → str_eq m.op "ping" ≡ true → Ended true (m ∷ ms) o
    more none no_more ping = λ h. elim h [
      | inl stopped ↦ cc stopped
      | inr (inl (p, idle)) ↦ no_more (inr idle)
      | inr (inr leave) ↦ absurd (two_ops leave ping)
    ]
    more (some x) (inl stopped, g) ping = cc stopped
    more (some x) (inr idle, g) ping = (inr (inl (ping, idle)), g)

    refuse : str_eq m.op "ping" ≡ false → str_eq m.op "quit" ≡ false → AreHarmless true (m ∷ ms) → ⊥
    refuse other job (inl stopped) = cc stopped
    refuse other job (inr (inl (ping, idle))) = cc (ping, other)
    refuse other job (inr (inr leave)) = cc (leave, job)

finish_serve-ends :
    (env : Env) (late : List Request) (on : Bool) (o : Option Server)
    → Ended on late o
    → (AreHarmless on late
        → (s' : Server) × (code : ℕ) × (finish_serve env o ≡ exited s' code)
          × ((n : ℕ) → count_id n s'.received ≡ count_id n (reply_ids s'.sent)))
      × (¬ AreHarmless on late → finish_serve env o ≡ panicked)
unfolding finish_serve count_id
finish_serve-ends env late on none refused = (λ h. absurd (refused h), λ h. refl)
finish_serve-ends env late on (some s) (harmless, f) =
    (λ h. (_, _, refl, λ n. drain-fair env s.queue s f.fair n), λ h. absurd (h harmless))

-- Whatever the app sends and when, however the worker gets on and for whatever reason the helper stops:
-- if its reader has ended by then, or reads nothing but pings and a quit while the process ends, the
-- process exits, and each request that was read has been answered exactly as often as it was read; and
-- otherwise the process panics. No more than eight requests ever wait in the queue.
pub shut_down-answers :
    (env : Env) (now : ℕ) (es : List Event) (late : List Request)
    → let s = run_events es (started now) in
      (AreHarmless s.reading late
        → (s' : Server) × (code : ℕ) × (shut_down env late s ≡ exited s' code)
          × ((n : ℕ) → count_id n s'.received ≡ count_id n (reply_ids s'.sent)))
      × (¬ AreHarmless s.reading late → shut_down env late s ≡ panicked)
      × (length s.queue ≤ queue_size)
unfolding shut_down count_id
shut_down-answers env now es late =
    let s = run_events es (started now) in
    let f = run_events-IsFair es (started now) (record { fair = λ m. refl; few = omega arith }) in
    let out =
      finish_serve-ends env late s.reading (read_closed s.reading late s)
        (read_closed-Ended s.reading late s f) in
    (out.0, out.1, f.few)
