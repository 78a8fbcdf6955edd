-- ===== src/Prelude/Digits.antt =====
-- What the code uses of Go's `strconv` and `encoding/hex` to print numbers.
use Prim.Native.Nat.{ℕ, zero, suc, ◌/◌, ◌%◌}
use Prim.Native.String.{String, ◌++◌}
use mathlib.Core.List.{List, [], ◌∷◌}
use sudoku_desktop.Prelude.Tests.{ltb, if◌then◌else◌}

unfoldable pub digit_in : String → ℕ → String
digit_in String.[] d = ""
digit_in (String.◌∷◌ c s) zero = String.◌∷◌ c String.[]
digit_in (String.◌∷◌ c s) (suc d) = digit_in s d

unfoldable pub digits_in_base : String → ℕ → ℕ → ℕ → String → String
unfolding digit_in
digits_in_base ds base zero n out = out
digits_in_base ds base (suc fuel) n out =
    let out' = digit_in ds (n % base) ++ out in
    let rest = digits_in_base ds base fuel (n / base) out' in if ltb n base then out' else rest

-- `strconv.FormatUint(n, 36)` of a number below 2^64, which has at most 13 such digits.
unfoldable pub format_base36 : ℕ → String
unfolding digits_in_base
format_base36 n = digits_in_base "0123456789abcdefghijklmnopqrstuvwxyz" 36 13 n ""

-- `strconv.Itoa` of a number below 2^64, which has at most 20 digits.
unfoldable pub itoa : ℕ → String
unfolding digits_in_base
itoa n = digits_in_base "0123456789" 10 20 n ""

-- `hex.EncodeToString`
unfoldable pub hex_encode : List ℕ → String
unfolding digit_in
hex_encode [] = ""
hex_encode (b ∷ bs) =
    digit_in "0123456789abcdef" (b / 16) ++ digit_in "0123456789abcdef" (b % 16) ++ hex_encode bs
