-- ===== src/Prelude/Trim.antt =====
-- `strings.TrimSpace` leaves a trimmed text alone; `strings.CutPrefix` finds what a text was put before.
use Prim.Native.Char.{code}
use Prim.Native.String.{String, ◌++◌}
use mathlib.Core.Option.{some}
use text.Mathlib.TextLemmas.{cons-append, nil-append}
use mathlib.Core.Path.{◌≡◌, refl, ap, ◌∙◌}
use mathlib.Core.Bool.{◌&&◌}
use mathlib.Core.Logic.{inl, inr}
use native.Mathlib.Omega.{arith}
use sudoku_desktop.Prelude.Tests.{Bool-cases, str_eq}
use sudoku_desktop.Prelude.Text.{is_space, trim_left, trim_right, trim_space, cut_prefix}

trim_right_idem : (s : String) → trim_right (trim_right s) ≡ trim_right s
unfolding trim_right
trim_right_idem String.[] = refl
trim_right_idem (String.◌∷◌ c s) =
    elim (Bool-cases (str_eq (trim_right s) String.[] && is_space (code c))) [
      | inl blank ↦ rw blank refl
      | inr kept ↦ rw (kept, trim_right_idem s, kept) refl
    ]

trim_left_right : (s : String) → trim_left (trim_right (trim_left s)) ≡ trim_right (trim_left s)
unfolding trim_left trim_right
trim_left_right String.[] = refl
trim_left_right (String.◌∷◌ c s) = ground (arith, trim_left_right s)

pub trim_space_idem : (s : String) → trim_space (trim_space s) ≡ trim_space s
unfolding trim_space
trim_space_idem s = ap trim_right (trim_left_right s) ∙ trim_right_idem (trim_left s)

pub cut_prefix-append : (p s : String) → cut_prefix p (p ++ s) ≡ some s
unfolding cut_prefix
cut_prefix-append String.[] s = ap some (nil-append s)
cut_prefix-append (String.◌∷◌ c p) s = rw (cons-append) (ground (arith, cut_prefix-append p s))
