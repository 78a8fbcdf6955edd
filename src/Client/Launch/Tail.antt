-- ===== src/Client/Launch/Tail.antt =====
-- internal/core/tun.go, `cappedBuffer`: it holds the end of all that was flatten.
use sudoku_desktop.Prelude.{
  ℕ, zero, suc, ◌+◌, ◌-◌, ◌≤◌, ◌≡◌, refl, sym, ap, ◌∙◌, List, [], ◌∷◌, ◌++◌, Bool-cases, inl, inr,
  false, ltb, ltb→le, length, drop, length-drop, length-append, flatten, arith,
}
use mathlib.Core.List.{append_assoc, append-nil}
use sudoku_desktop.Client.Launch.{write, write_all}

nothing_over : (bound n : ℕ) → ltb bound n ≡ false → 0 ≡ n - bound
nothing_over bound n h = omega (arith, ltb→le bound n h)

module _ {ℓ} {A : Type ℓ} where
  -- The last elements, at most `bound` of them.
  unfoldable pub last : ℕ → List A → List A
  last bound xs = drop (length xs - bound) xs

  drop-append : (n : ℕ) (xs ys : List A) → n ≤ length xs → drop n xs ++ ys ≡ drop n (xs ++ ys)
  drop-append zero xs ys h = refl
  drop-append (suc n) [] ys h = absurd (omega arith)
  drop-append (suc n) (x ∷ xs) ys h = drop-append n xs ys (omega arith)

  drop-nil : (n : ℕ) → ◌≡◌ {A = List A} (drop n []) []
  drop-nil zero = refl
  drop-nil (suc n) = refl

  drop-drop : (m n : ℕ) (xs : List A) → drop m (drop n xs) ≡ drop (n + m) xs
  drop-drop m zero xs = ap (λ (k : ℕ). drop k xs) (omega arith)
  drop-drop m (suc n) [] = drop-nil m ∙ sym (drop-nil (suc n + m))
  drop-drop m (suc n) (x ∷ xs) =
      let step : suc (n + m) ≡ suc n + m = omega arith in
      drop-drop m n xs ∙ ap (λ (k : ℕ). drop k (x ∷ xs)) step

  write-eq-last : (bound : ℕ) (b p : List A) → write bound b p ≡ last bound (b ++ p)
  unfolding write last
  write-eq-last bound b p = elim (Bool-cases (ltb bound (length (b ++ p)))) [
    | inl long ↦ rw long refl
    | inr short ↦
        rw short (ap (λ (k : ℕ). drop k (b ++ p)) (nothing_over bound (length (b ++ p)) short))
  ]

  last-append : (bound : ℕ) (xs p : List A) → last bound (last bound xs ++ p) ≡ last bound (xs ++ p)
  unfolding last
  last-append bound xs p =
      let d = length xs - bound in
      let all = xs ++ p in
      let joined : drop d xs ++ p ≡ drop d all = drop-append d xs p (omega arith) in
      let shorter : d + (length (drop d all) - bound) ≡ length all - bound =
        omega (arith, length-drop d all, length-append xs p) in
      ap (λ l. drop (length l - bound) l) joined
      ∙ drop-drop (length (drop d all) - bound) d all
      ∙ ap (λ (k : ℕ). drop k all) shorter

  write_all-from :
      (bound : ℕ) (xs : List A) (ps : List (List A))
      → write_all bound (last bound xs) ps ≡ last bound (xs ++ flatten ps)
  unfolding write_all flatten
  write_all-from bound xs [] = ap (last bound) (sym (append-nil xs))
  write_all-from bound xs (p ∷ ps) =
      ap (λ b. write_all bound b ps)
        (write-eq-last bound (last bound xs) p ∙ last-append bound xs p)
      ∙ write_all-from bound (xs ++ p) ps
      ∙ ap (last bound) (append_assoc xs p (flatten ps))

-- After any writes the buffer holds the last of all that was written, and no more than its bound.
write_all-last {ℓ} :
    {A : Type ℓ} (bound : ℕ) (ps : List (List A))
    → (write_all bound [] ps ≡ last bound (flatten ps)) × (length (write_all bound [] ps) ≤ bound)
unfolding last
write_all-last bound ps =
    let whole : write_all bound [] ps ≡ last bound (flatten ps) =
      ap (λ b. write_all bound b ps) (sym (drop-nil (0 - bound))) ∙ write_all-from bound [] ps in
    (whole, omega (arith, ap length whole, length-drop (length (flatten ps) - bound) (flatten ps)))
