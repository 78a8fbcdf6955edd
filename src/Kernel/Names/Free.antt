-- ===== src/Kernel/Names/Free.antt =====
-- internal/core/runtime_config.go, `nodeProxyNames`: the search for a free name ends.
use Prim.Native.Char.{code}
use Prim.Native.Nat.{◌/◌, ◌%◌, ◌*◌, ◌-◌, ◌^◌}
use text.Mathlib.TextLemmas.{cons-append, nil-append, append-nil, append_cancel_left, nil≢cons}
use native.Mathlib.Omega.{pow_step}
use sudoku_desktop.Prelude.{
  ℕ, zero, suc, ◌+◌, ◌≤◌, ◌<◌, ◌≡◌, ◌≢◌, refl, sym, ap, subst, ◌∙◌, true, false, not, Bool-cases,
  inl, inr, List, [], ◌∷◌, Option, none, some, String, text_append, str_eq, eq_iff, ltb, itoa,
  digits_in_base, digit_in, length, keep, arith,
}
use sudoku_desktop.Kernel.Names.{is_taken, candidate, free_name}

-- The number that a text of decimal digits stands for, behind those that were read
value : String → ℕ → ℕ
value String.[] a = a
value (String.◌∷◌ c s) a = value s (a * 10 + (code c - 48))

value-digit :
    (d : ℕ) (out : String) (a : ℕ)
    → d < 10
    → value (text_append (digit_in "0123456789" d) out) a ≡ value out (a * 10 + d)
unfolding value digit_in
value-digit zero out a h = rw (cons-append, nil-append) refl
value-digit (suc zero) out a h = rw (cons-append, nil-append) refl
value-digit (suc (suc zero)) out a h = rw (cons-append, nil-append) refl
value-digit (suc (suc (suc zero))) out a h = rw (cons-append, nil-append) refl
value-digit (suc (suc (suc (suc zero)))) out a h = rw (cons-append, nil-append) refl
value-digit (suc (suc (suc (suc (suc zero))))) out a h = rw (cons-append, nil-append) refl
value-digit (suc (suc (suc (suc (suc (suc zero)))))) out a h = rw (cons-append, nil-append) refl
value-digit (suc (suc (suc (suc (suc (suc (suc zero))))))) out a h =
    rw (cons-append, nil-append) refl
value-digit (suc (suc (suc (suc (suc (suc (suc (suc zero)))))))) out a h =
    rw (cons-append, nil-append) refl
value-digit (suc (suc (suc (suc (suc (suc (suc (suc (suc zero))))))))) out a h =
    rw (cons-append, nil-append) refl
value-digit (suc (suc (suc (suc (suc (suc (suc (suc (suc (suc d)))))))))) out a h =
    absurd (omega (arith, h))

tenth : (n t : ℕ) → n < 10 * t → n / 10 < t
tenth n t h = omega (arith, h)

value-digits_in_base :
    (fuel n : ℕ) (out : String)
    → n < 10 ^ fuel
    → value (digits_in_base "0123456789" 10 fuel n out) 0 ≡ value out n
unfolding digits_in_base
value-digits_in_base zero n out h = ap (value out) (omega (arith, h))
value-digits_in_base (suc fuel) n out h =
    let out' = text_append (digit_in "0123456789" (n % 10)) out in
    let digit = λ (a : ℕ). value-digit (n % 10) out a (omega arith) in
    elim (Bool-cases (ltb n 10)) [
      | inl small ↦ rw small (digit 0 ∙ ap (value out) (ground (arith, small)))
      | inr big ↦ rw big (
          value-digits_in_base fuel (n / 10) out' (tenth n (10 ^ fuel) (rw (pow_step 10 fuel) at h))
          ∙ digit (n / 10)
          ∙ ap (value out) (omega arith))
    ]

itoa_inj : (m n : ℕ) → m < 10 ^ 20 → n < 10 ^ 20 → itoa m ≡ itoa n → m ≡ n
unfolding itoa value
itoa_inj m n hm hn e =
    sym (value-digits_in_base 20 m "" hm) ∙ ap (λ s. value s 0) e ∙ value-digits_in_base 20 n "" hn

hash_inj : (s t : String) → text_append "#" s ≡ text_append "#" t → s ≡ t
hash_inj s t e = append_cancel_left "#" s t e

longer : (name s : String) → name ≢ text_append name (text_append "#" s)
longer name s e =
    nil≢cons
      (append_cancel_left name "" (text_append "#" s) (append-nil name ∙ e) ∙ cons-append "#" "" s)

candidate_inj :
    (name : String) (i j : ℕ)
    → i < 10 ^ 19
    → j < 10 ^ 19
    → candidate name i ≡ candidate name j
    → i ≡ j
candidate_inj name zero zero hi hj e = refl
candidate_inj name zero (suc j) hi hj e = absurd (longer name (itoa (j + 2)) e)
candidate_inj name (suc i) zero hi hj e = absurd (longer name (itoa (i + 2)) (sym e))
candidate_inj name (suc i) (suc j) hi hj e =
    let same : i + 2 ≡ j + 2 =
      itoa_inj (i + 2) (j + 2) (omega (arith, hi)) (omega (arith, hj))
        (hash_inj _ _ (append_cancel_left name _ _ e)) in
    omega (arith, same)

abbrev others : String → List String → List String
others x taken = keep (λ t. not (str_eq t x)) taken

length-others_le : (x : String) (taken : List String) → length (others x taken) ≤ length taken
length-others_le x [] = omega arith
length-others_le x (t ∷ ts) = ground (arith, length-others_le x ts)

length-others_lt :
    (x : String) (taken : List String)
    → is_taken taken x ≡ true
    → length (others x taken) < length taken
length-others_lt x [] h = cc h
length-others_lt x (t ∷ ts) h = elim (Bool-cases (str_eq t x)) [
  | inl here ↦ simp here (omega (arith, length-others_le x ts))
  | inr later ↦ simp later (omega (arith, length-others_lt x ts (rw later at h)))
]

is_taken-others :
    (x y : String) (taken : List String)
    → str_eq x y ≡ false
    → is_taken taken y ≡ true
    → is_taken (others x taken) y ≡ true
is_taken-others x y [] ne h = cc h
is_taken-others x y (t ∷ ts) ne h =
    ground (arith, is_taken-others x y ts ne, eq_iff t x, eq_iff t y, eq_iff x y, ne, h)

at_round :
    (taken : List String) (name : String) (m n : ℕ)
    → m ≡ n
    → is_taken taken (candidate name m) ≡ true
    → is_taken taken (candidate name n) ≡ true
at_round taken name m n e h = subst (λ (r : ℕ). is_taken taken (candidate name r) ≡ true) e h

apart :
    (name : String) (k i : ℕ)
    → suc k + i < 10 ^ 19
    → str_eq (candidate name k) (candidate name (suc k + i)) ≡ false
apart name k i small = elim (Bool-cases (str_eq (candidate name k) (candidate name (suc k + i)))) [
  | inr other ↦ other
  | inl same ↦
      let e =
        candidate_inj name k (suc k + i) (omega (arith, small)) small
          ((eq_iff (candidate name k) (candidate name (suc k + i))).0 same) in
      absurd (omega (arith, e))
]

-- As many different candidates are taken as there are names at least.
crowded :
    (name : String) (n k : ℕ) (taken : List String)
    → k + n < 10 ^ 19
    → ((i : ℕ) → i < n → is_taken taken (candidate name (k + i)) ≡ true)
    → n ≤ length taken
crowded name zero k taken small all = omega arith
crowded name (suc n) k taken small all =
    let x = candidate name k in
    let here = at_round taken name (k + 0) k (omega arith) (all 0 (omega arith)) in
    let fewer = crowded name n (suc k) (others x taken) (omega (arith, small)) (λ i h.
      is_taken-others x (candidate name (suc k + i)) taken
        (apart name k i (omega (arith, small, h)))
        (at_round taken name (k + suc i) (suc k + i) (omega arith)
          (all (suc i) (omega (arith, h))))) in
    omega (arith, fewer, length-others_lt x taken here)

free_name-none :
    (fuel : ℕ) (taken : List String) (name : String) (k : ℕ)
    → free_name fuel taken name k ≡ none
    → (i : ℕ) → i < fuel
    → is_taken taken (candidate name (k + i)) ≡ true
unfolding free_name
free_name-none zero taken name k e i h = absurd (omega (arith, h))
free_name-none (suc fuel) taken name k e zero h =
    elim (Bool-cases (is_taken taken (candidate name k))) [
      | inr free ↦ cc (rw free at e)
      | inl taken_k ↦ at_round taken name k (k + 0) (omega arith) taken_k
    ]
free_name-none (suc fuel) taken name k e (suc i) h =
    elim (Bool-cases (is_taken taken (candidate name k))) [
      | inr free ↦ cc (rw free at e)
      | inl taken_k ↦
          at_round taken name (suc k + i) (k + suc i) (omega arith)
            (free_name-none fuel taken name (suc k) (rw taken_k at e) i (omega (arith, h)))
    ]

pub free_name-some :
    (fuel : ℕ) (taken : List String) (name u : String) (k : ℕ)
    → free_name fuel taken name k ≡ some u
    → is_taken taken u ≡ false
unfolding free_name
free_name-some zero taken name u k e = cc e
free_name-some (suc fuel) taken name u k e = elim (Bool-cases (is_taken taken (candidate name k))) [
  | inr free ↦ cc (rw free at e, free)
  | inl taken_k ↦ free_name-some fuel taken name u (suc k) (rw taken_k at e)
]

-- A round more than there are names taken is enough.
pub free_name_found :
    (taken : List String) (name : String)
    → length taken < 10 ^ 18
    → (u : String) × (free_name (suc (length taken)) taken name 0 ≡ some u)
free_name_found taken name few = go (free_name (suc (length taken)) taken name 0) refl
  where
    go :
        (o : Option String)
        → free_name (suc (length taken)) taken name 0 ≡ o
        → (u : String) × (free_name (suc (length taken)) taken name 0 ≡ some u)
    go (some u) e = (u, e)
    go none e =
        let full =
          crowded name (suc (length taken)) 0 taken (omega (arith, few))
            (free_name-none (suc (length taken)) taken name 0 e) in
        absurd (omega (arith, full))
