-- ===== src/Plan/Tests.antt =====
-- helper_proto.go on a concrete plan.
use sudoku_desktop.Prelude.{◌≡◌, ◌↔◌, none, some}
use sudoku_desktop.Plan.Validate.{validate_tun_plan}
use sudoku_desktop.Plan.Validate.Sound.{IsPlausible, validate_tun_plan_iff}
use sudoku_desktop.Examples.{net, plan}

validate_tun_plan_iff_example : (validate_tun_plan net (some plan) ≡ none) ↔ IsPlausible net plan
validate_tun_plan_iff_example = validate_tun_plan_iff net plan
