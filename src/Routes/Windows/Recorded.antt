-- ===== src/Routes/Windows/Recorded.antt =====
-- internal/core/routes.go, `setupRoutesWindows`: what is recorded before a script runs and what is left
-- at the end.
use mathlib.Core.List.{Memᴰ}
use sudoku_desktop.Prelude.{
  ℕ, ◌*◌, ◌≤◌, ◌≡◌, refl, Bool, true, false, not, ◌&&◌, List, [], ◌∷◌, Option, none, some, String,
  str_eq, if◌then◌else◌, trim_space,
}
use sudoku_desktop.Failure.{Result, ok, err, Failure, wrap}
use sudoku_desktop.Config.{TunSettings}
use sudoku_desktop.Routes.{RouteContext, RoutePlan, first_context, route_settings}
use sudoku_desktop.Routes.Windows.{windows_preferred_default_route_ipv4}
use sudoku_desktop.Routes.Windows.Script.{Script, build_windows_route_script, default_firewall_rule}
use sudoku_desktop.Routes.Windows.Found.{windows_resolve_tun_interface_index-IsResolved}
use sudoku_desktop.Routes.Windows.Setup.{
  WindowsMachine, Act, noted, ran, SetupResult, overrides_dns, windows_dns_backup_file,
  rollback_failed, windows_context, start_script, stop_script, tear_down_windows, refused,
  after_script, change_windows, with_interface, set_up_windows,
}

-- The stop script is about the same addresses, firewall rule, interface, route and file of saved
-- settings as the given script, and restores the resolver if that one changes it.
abbrev pub Answers : Script → Script → Type 0
Answers s t =
    (t.start ≡ false)
    × (t.server_ips ≡ s.server_ips)
    × (t.firewall_rule ≡ s.firewall_rule)
    × (t.tun_if_index ≡ s.tun_if_index)
    × (t.default_gw4 ≡ s.default_gw4)
    × (t.default_if4 ≡ s.default_if4)
    × (t.dns_backup_name ≡ s.dns_backup_name)
    × ((s.map_dns_enabled && not (str_eq s.map_dns_address "")) ≡ true → t.map_dns_enabled ≡ true)

-- Before each start script a context was recorded whose stop script answers it. The last act is first.
abbrev pub AreRecorded : TunSettings → List Act → Type 0
AreRecorded tun [] = Unit
AreRecorded tun (noted c e ∷ acts) = AreRecorded tun acts
AreRecorded tun (ran s e ∷ acts) =
    (s.start ≡ true → (c : RouteContext) × Memᴰ (noted c none) acts × Answers s (stop_script c tun))
    × AreRecorded tun acts

-- Whether a start script ran and no stop script since then without an error.
abbrev pub leaves : List Act → Bool
leaves [] = false
leaves (noted c e ∷ acts) = leaves acts
leaves (ran s none ∷ acts) = s.start
leaves (ran s (some e) ∷ acts) = if s.start then true else leaves acts

abbrev pub is_given : Option RouteContext → Bool
is_given none = false
is_given (some c) = true

abbrev pub IsUndoable : TunSettings → SetupResult → Type 0
IsUndoable tun o =
    AreRecorded tun o.acts
    × (leaves o.acts ≡ is_given o.context)
    × (o.error ≡ none → leaves o.acts ≡ true)
    × ((c : RouteContext) → o.context ≡ some c → Memᴰ (noted c none) o.acts)

refused-IsUndoable : (tun : TunSettings) (e : Failure) → IsUndoable tun (refused e [])
refused-IsUndoable tun e = (tt, refl, λ h. cc h, λ c h. cc h)

rule_kept :
    (block : Bool)
    → let rule = if block then default_firewall_rule else "" in
      (if str_eq rule "" then default_firewall_rule else rule) ≡ default_firewall_rule
rule_kept true = refl
rule_kept false = refl

file_named :
    (on : Bool)
    → on ≡ true
    → not (str_eq (trim_space (if on then windows_dns_backup_file else "")) "") ≡ true
unfolding trim_space
file_named true h = refl
file_named false h = cc h

start_script-Answers :
    (plan : RoutePlan) (at : ℕ × String) (route : String × ℕ)
    → let tun = route_settings plan in
      let ctx = windows_context (first_context plan) tun at route in
      Answers (start_script ctx tun) (stop_script ctx tun)
unfolding start_script stop_script windows_context first_context
start_script-Answers plan at route =
    let tun = route_settings plan in
    (refl, refl, rule_kept tun.block_quic, refl, refl, refl, refl, file_named (overrides_dns tun))

module _ (m : WindowsMachine) (ctx : RouteContext) (tun : TunSettings) where
  started : Option Failure → List Act
  started e = ran (start_script ctx tun) e ∷ noted ctx none ∷ []

  AreRecorded-started :
      (e : Option Failure)
      → Answers (start_script ctx tun) (stop_script ctx tun)
      → AreRecorded tun (started e)
  unfolding started
  AreRecorded-started e answers = (λ h. (ctx, Memᴰ.head refl, answers), tt)

  rolled_back-IsUndoable :
      (e : Failure) (r : Option Failure)
      → Answers (start_script ctx tun) (stop_script ctx tun)
      → IsUndoable tun (elim r [
        | none ↦ refused e (ran (stop_script ctx tun) none ∷ started (some e))
        | some e' ↦ record {
          context = some ctx;
          error = some (rollback_failed e e');
          acts = ran (stop_script ctx tun) (some e') ∷ started (some e);
        }
      ])
  unfolding started start_script stop_script
  rolled_back-IsUndoable e none answers =
      ((λ h. cc h, AreRecorded-started (some e) answers), refl, λ h. cc h, λ c h. cc h)
  rolled_back-IsUndoable e (some e') answers = (
    (λ h. cc h, AreRecorded-started (some e) answers),
    refl,
    λ h. refl,
    λ c h. Memᴰ.tail (Memᴰ.tail (Memᴰ.head (cc h))),
  )

  after_script-IsUndoable :
      (e : Option Failure)
      → Answers (start_script ctx tun) (stop_script ctx tun)
      → IsUndoable tun (after_script m ctx tun e (started e))
  unfolding after_script started start_script
  after_script-IsUndoable none answers =
      (AreRecorded-started none answers, refl, λ h. refl, λ c h. Memᴰ.tail (Memᴰ.head (cc h)))
  after_script-IsUndoable (some e) answers =
      rolled_back-IsUndoable e (tear_down_windows m ctx tun) answers

  change_windows-IsUndoable :
      Answers (start_script ctx tun) (stop_script ctx tun)
      → IsUndoable tun (change_windows m ctx tun)
  unfolding change_windows started
  change_windows-IsUndoable answers = after_note (m.prepared ctx)
    where
      result : Option Failure
      result = m.run_script (build_windows_route_script m.parse_ip (start_script ctx tun))

      after_note :
          (p : Option Failure)
          → IsUndoable tun (elim p [
            | some e ↦ refused (wrap "prepare windows route recovery: " e) (noted ctx (some e) ∷ [])
            | none ↦ after_script m ctx tun result (started result)
          ])
      after_note (some e) = (tt, refl, λ h. cc h, λ c h. cc h)
      after_note none = after_script-IsUndoable result answers

module _ (m : WindowsMachine) (plan : RoutePlan) (at : ℕ × String) where
  allowed-IsUndoable :
      (route : String × ℕ) (c : Option Failure)
      → let tun = route_settings plan in
        IsUndoable tun (elim c [
          | some e ↦ refused e []
          | none ↦ change_windows m (windows_context (first_context plan) tun at route) tun
        ])
  allowed-IsUndoable route (some e) = refused-IsUndoable (route_settings plan) e
  allowed-IsUndoable route none =
      change_windows-IsUndoable m _ (route_settings plan) (start_script-Answers plan at route)

  with_interface-IsUndoable :
      IsUndoable
        (route_settings plan)
        (with_interface m (first_context plan) (route_settings plan) at)
  unfolding with_interface
  with_interface-IsUndoable = at_route (windows_preferred_default_route_ipv4 m.shell at.0)
    where
      at_route :
          (r : Result (String × ℕ))
          → let tun = route_settings plan in
            IsUndoable tun (elim r [
              | err e ↦ refused e []
              | ok route ↦ elim (m.cancelled) [
                | some e ↦ refused e []
                | none ↦ change_windows m (windows_context (first_context plan) tun at route) tun
              ]
            ])
      at_route (err e) = refused-IsUndoable (route_settings plan) e
      at_route (ok route) = allowed-IsUndoable route (m.cancelled)

-- If each round of the search for the tunnel's interface takes 350 milliseconds at least, the setup of
-- the routes on Windows comes to an end. Before it runs its start script it has recorded, without an
-- error, a context whose stop script is about the same addresses, firewall rule, interface, route and
-- file of saved settings, and which restores the resolver if the start script changes it. It gives a
-- context exactly if the start script ran and was not undone by a stop script without an error, it then
-- gives the recorded one, and without an error it gives a context.
pub set_up_windows-IsUndoable :
    (m : WindowsMachine) (plan : RoutePlan)
    → ((i : ℕ) → i * 350 ≤ (m.rounds i).now)
    → (o : SetupResult) × (set_up_windows m (first_context plan) (route_settings plan) ≡ some o)
      × IsUndoable (route_settings plan) o
unfolding set_up_windows
set_up_windows-IsUndoable m plan ticks =
    let tun = route_settings plan in
    let (r, ended, good) = windows_resolve_tun_interface_index-IsResolved m.rounds tun ticks in
    rw (ended, set_up_windows) (resolved r)
  where
    resolved :
        (r : Result (ℕ × String))
        → let tun = route_settings plan in
          (o : SetupResult) × ((elim r [
            | err e ↦ some (refused e [])
            | ok at ↦ some (with_interface m (first_context plan) tun at)
          ])
            ≡ some o)
          × IsUndoable tun o
    resolved (err e) = (refused e [], refl, refused-IsUndoable (route_settings plan) e)
    resolved (ok at) = (_, refl, with_interface-IsUndoable m plan at)
