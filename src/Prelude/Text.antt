-- ===== src/Prelude/Text.antt =====
-- What the code uses of Go's package `strings`, on texts of Unicode code points.
use Prim.Native.Nat.{ℕ}
use Prim.Native.Char.{Char, code}
use Prim.Native.String.{String, [], ◌∷◌}
use mathlib.Core.Path.{◌≡◌, refl}
use mathlib.Core.Option.{Option, none, some}
use mathlib.Core.Bool.{Bool, false, ◌&&◌, ◌||◌}
use text.Mathlib.Text.{starts_with}
use sudoku_desktop.Prelude.Tests.{leb, ◌==◌, str_eq, if◌then◌else◌}

-- `unicode.IsSpace`
unfoldable pub is_space : ℕ → Bool
is_space c =
    (leb 9 c && leb c 13)
    || c == 32
    || c == 0x85
    || c == 0xA0
    || c == 0x1680
    || (leb 0x2000 c && leb c 0x200A)
    || c == 0x2028
    || c == 0x2029
    || c == 0x202F
    || c == 0x205F
    || c == 0x3000

unfoldable pub trim_left : String → String
unfolding is_space
trim_left [] = []
trim_left (c ∷ s) = let rest = trim_left s in if is_space (code c) then rest else c ∷ s

-- A run of spaces is dropped where nothing but spaces follows it.
unfoldable pub trim_right : String → String
unfolding is_space
trim_right [] = []
trim_right (c ∷ s) =
    let rest = trim_right s in if str_eq rest [] && is_space (code c) then [] else c ∷ rest

-- `strings.CutPrefix`
unfoldable pub cut_prefix : String → String → Option String
cut_prefix [] s = some s
cut_prefix (c ∷ p) [] = none
cut_prefix (c ∷ p) (d ∷ s) = let rest = cut_prefix p s in if code c == code d then rest else none

-- `strings.TrimSpace`
unfoldable pub trim_space : String → String
unfolding trim_left trim_right
trim_space s = trim_right (trim_left s)

lower_in : String → String → Char → Char
lower_in (u ∷ us) (l ∷ ls) c = if code c == code u then l else lower_in us ls c
lower_in _ _ c = c

-- `unicode.ToLower` on ASCII and on the two other code points whose lower case is ASCII. The rest
-- are left as they are: the code compares what it lowers with ASCII words.
abbrev lower_char : Char → Char
lower_char = lower_in "ABCDEFGHIJKLMNOPQRSTUVWXYZİK" "abcdefghijklmnopqrstuvwxyzik"

-- `strings.ToLower`
unfoldable pub to_lower : String → String
unfolding lower_in
to_lower [] = []
to_lower (c ∷ s) = lower_char c ∷ to_lower s

-- `strings.HasPrefix`
abbrev pub has_prefix : String → String → Bool
has_prefix = starts_with

-- `strings.Contains(s, ".")`, for a single character
unfoldable pub contains_char : ℕ → String → Bool
contains_char n [] = false
contains_char n (c ∷ s) = code c == n || contains_char n s

-- `strings.Contains`
unfoldable pub contains : String → String → Bool
contains [] sub = starts_with [] sub
contains (c ∷ s) sub = starts_with (c ∷ s) sub || contains s sub

trims : trim_space " \t pac\n " ≡ "pac"
unfolding trim_space
trims = refl

lowers : to_lower "GLObal" ≡ "global"
unfolding to_lower
lowers = refl
