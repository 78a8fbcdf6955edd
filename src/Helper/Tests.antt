-- ===== src/Helper/Tests.antt =====
-- helper_server.go: a machine on which everything works, and one on which the tunnel comes up, fails
-- its check and cannot be taken down.
use sudoku_desktop.Prelude.{
  count_id, ℕ, ◌≤◌, ◌≡◌, refl, true, false, [], ◌∷◌, none, some, length, arith, List, to_lower,
}
use sudoku_desktop.Failure.{ok, new_error}
use sudoku_desktop.Plan.Validate.{
  validate_tun_plan, check_device, is_interface_name, check_map_dns, check_targets, check_servers,
  server_host, is_host_name, check_urls,
}
use sudoku_desktop.Routes.{RouteContext, new_context}
use mathlib.Core.List.{Memᴰ}
use sudoku_desktop.Helper.{Helper, Env, Session, System}
use sudoku_desktop.Helper.Steps.{teardown}
use sudoku_desktop.Helper.Up.{Operation, bring, take_down, restart, run, boot, new_session}
use sudoku_desktop.Helper.Covered.{Covered}
use sudoku_desktop.Helper.Journalled.{run-Covered, on, untouched, after, killed_in}
use sudoku_desktop.Helper.Serve.{
  Request, Event, message, took, finished, lost, run_events, started, shut_down, queue_size, Server,
  exited, panicked,
}
use sudoku_desktop.Helper.Answered.{reply_ids, AreHarmless, shut_down-answers}
use sudoku_desktop.Helper.Idle.{StopsWithin, watch_for-stops}
use sudoku_desktop.Examples.{net, plan}

abbrev recorded : RouteContext
recorded = record new_context { server_ips = "1.2.3.4" ∷ [] }

abbrev env : Env
env = record {
  goos = "linux";
  pid = 900;
  now = 1;
  net = net;
  make_dirs = none;
  install_hev = none;
  resolve = λ names. "1.2.3.4" ∷ [];
  has_iptables = true;
  split_dns = none;
  write_hev_config = none;
  start_hev = ok 901;
  save = λ i. none;
  cancelled = none;
  hev_exited = false;
  hev_tail = "";
  actual_interface = "";
  prepare_routes = λ p. ok recorded;
  run_routes = λ rc. none;
  rollback = λ rc. none;
  proxy_ready = none;
  proxy_path = none;
  dns_check = none;
  tear_down = λ k rc tun. none;
  stop_hev = none;
  remove_journal = none;
  process_alive = λ pid. false;
  process_command = λ pid. "";
}

-- The check of the proxy fails, and no attempt restores the routes.
abbrev broken : Env
broken = record env {
  proxy_ready = some (new_error "refused");
  tear_down = λ k rc tun. some (new_error "busy");
}

abbrev troubled : List Operation
troubled = bring broken (some plan) ∷ restart ∷ bring env (some plan) ∷ take_down env ∷ []

-- The state before the last change of the first operation is one in which the helper may be killed.
abbrev halfway : System
halfway = elim (run (bring broken (some plan) ∷ []) (on boot.system)).passed [
  | [] ↦ boot.system
  | y ∷ ys ↦ y
]

killed_halfway : Memᴰ halfway (run (bring broken (some plan) ∷ []) (on boot.system)).passed
unfolding run validate_tun_plan check_device is_interface_name to_lower check_map_dns check_targets
    check_servers server_host is_host_name check_urls
killed_halfway = Memᴰ.head refl

run-Covered_example : Covered (run troubled (on halfway)).system
run-Covered_example = run-Covered (
    after troubled
      (killed_in (bring broken (some plan) ∷ []) untouched ((λ i. refl), tt) killed_halfway)
      ((λ i. refl), (tt, ((λ i. refl), (tt, tt)))))

-- The helper that was killed with its routes set left them, with the journal, for the next one.
left_over : (run (bring broken (some plan) ∷ restart ∷ []) boot).system.changed ≡ some recorded
unfolding run validate_tun_plan check_device is_interface_name to_lower check_map_dns check_targets
    check_servers server_host is_host_name check_urls
left_over = refl

cleared : (run troubled boot).system ≡ boot.system
unfolding run validate_tun_plan check_device is_interface_name to_lower check_map_dns check_targets
    check_servers server_host is_host_name check_urls
cleared = refl

abbrev raised : Helper
raised = record {
  sess = some (record (new_session plan) { routes = some recorded });
  system = record { journal = boot.system.journal; hev = some 901; changed = none };
  passed = [];
}

abbrev raised_session : Session
raised_session = record (new_session plan) { routes = some recorded }

kept : (teardown broken raised).0.system ≡ raised.system
unfolding teardown
kept = refl

abbrev request : ℕ → Request
request id = record { id = id; op = "status"; plan = none }

abbrev events : List Event
events = message 1 (request 1) ∷ took ∷ message 2 (request 2) ∷ finished env ∷ lost ∷ []

shut_down-answers_example :
    let s = run_events events (started 0) in
    (AreHarmless s.reading []
      → (s' : Server) × (code : ℕ) × (shut_down env [] s ≡ exited s' code)
        × ((n : ℕ) → count_id n s'.received ≡ count_id n (reply_ids s'.sent)))
    × (¬ AreHarmless s.reading [] → shut_down env [] s ≡ panicked)
    × (length s.queue ≤ queue_size)
shut_down-answers_example = shut_down-answers env 0 events []

-- A request that is read once the watchdog has stopped the helper ends it at once.
panics : shut_down env (request 3 ∷ []) (run_events [] (started 0)) ≡ panicked
unfolding shut_down run_events
panics = refl

watch_for-stops_example : StopsWithin 11 5000000000 0 1
watch_for-stops_example = watch_for-stops 5000000000 0 1 (omega arith)
