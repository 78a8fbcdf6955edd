-- ===== src/Forwards/Tests.antt =====
-- portforward.go: a rule whose target is edited while its forward runs.
use sudoku_desktop.Prelude.{true, List, [], ◌∷◌}
use sudoku_desktop.Config.{PortForwardRule}

abbrev rule : PortForwardRule
rule = record {
  id = "f1";
  name = "ssh";
  listen = "127.0.0.1:2222";
  target = "a:22";
  enabled = true;
}

abbrev edited : List PortForwardRule
edited = record rule { target = "b:22" } ∷ []
