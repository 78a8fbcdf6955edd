-- ===== src/Config/Tests.antt =====
-- store.go on a concrete configuration.
use sudoku_desktop.Prelude.{◌≡◌, refl, false, arith, eq_iff, trim_space, hex_encode}
use sudoku_desktop.Config.Normalize.{normalize_config, is_blank, random_secret}
use sudoku_desktop.Config.Normalize.Stable.{KnowsModes, IsSound, normalize_config_idem}
use sudoku_desktop.Config.Normalize.Valid.{IsValid, normalize_config-IsValid}
use sudoku_desktop.Examples.{platform, draws, cfg}

platform-KnowsModes : KnowsModes platform
platform-KnowsModes = record {
  stable = λ m m' h. ground (arith, eq_iff m "prefer_ascii", eq_iff m "prefer_entropy", h);
  fallback = refl;
}

platform-IsSound : IsSound platform
unfolding trim_space
platform-IsSound = record {
  modes = platform-KnowsModes;
  workspace = refl;
  sudoku_binary = refl;
  hev_binary = refl;
}

secret_drawn : is_blank (random_secret draws.secret) ≡ false
unfolding trim_space random_secret hex_encode
secret_drawn = refl

normalize_config_idem_example :
    normalize_config platform draws (normalize_config platform draws cfg)
    ≡ normalize_config platform draws cfg
normalize_config_idem_example =
    normalize_config_idem platform draws draws cfg platform-IsSound secret_drawn

normalize_config-IsValid_example : IsValid (normalize_config platform draws cfg)
normalize_config-IsValid_example = normalize_config-IsValid platform draws cfg
