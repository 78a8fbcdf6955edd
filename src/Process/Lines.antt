-- ===== src/Process/Lines.antt =====
-- internal/core/process.go, `lineWriter`: the lines do not depend on how the bytes come.
use mathlib.Core.List.{append_assoc, append-nil}
use sudoku_desktop.Prelude.{
  ℕ, zero, suc, ◌+◌, ◌≤◌, ◌<◌, ◌≡◌, refl, sym, ap, subst, ◌∙◌, false, Bool-cases, inl, inr, List,
  [], ◌∷◌, ◌++◌, Option, none, some, if◌then◌else◌, not, ◌==◌, length, length-append, flatten, keep,
  map, arith,
}
use sudoku_desktop.Process.{
  Bytes, LineWriter, max_line_bytes, trim_cr, emit, cut_line, drain, release, write, flush,
  write_all, new_writer,
}

-- The first byte of the first line
grow : ℕ → List Bytes × Bytes → List Bytes × Bytes
grow c ([], r) = ([], c ∷ r)
grow c (l ∷ ls, r) = ((c ∷ l) ∷ ls, r)

-- The lines that are ended by a line break, and the rest
pub split : Bytes → List Bytes × Bytes
unfolding grow
split [] = ([], [])
split (c ∷ s) = let (ls, r) = split s in if c == 10 then ([] ∷ ls, r) else grow c (ls, r)

emit_all : List Bytes → List Bytes → List Bytes
emit_all [] out = out
emit_all (l ∷ ls) out = emit_all ls (emit l out)

-- What a cut says of the lines
Agrees : Bytes → Option (Bytes × Bytes) → Type 0
Agrees s none = split s ≡ ([], s)
Agrees s (some (a, b)) = (split s ≡ (a ∷ (split b).0, (split b).1)) × (length b < length s)

cut_line-step :
    (c : ℕ) (s : Bytes) (o : Option (Bytes × Bytes))
    → Agrees s o
    → Agrees
        (c ∷ s)
        (if c == 10 then some ([], s) else elim o [ none ↦ none | some (a, b) ↦ some (c ∷ a, b) ])
unfolding Agrees split
cut_line-step c s o h = elim (Bool-cases (c == 10)) [
  | inl break ↦ rw (break, Agrees) (rw (break, split) refl, omega arith)
  | inr other ↦ rw other (inside o h other)
]
  where
    inside :
        (o' : Option (Bytes × Bytes))
        → Agrees s o'
        → (c == 10) ≡ false
        → Agrees (c ∷ s) (
            let out : Option (Bytes × Bytes) = elim o' [
              | none ↦ none
              | some (a, b) ↦ some (c ∷ a, b)
            ] in
            out)
    inside none k other = rw (split, other) (ap (grow c) k)
    inside (some (a, b)) (k, short) other =
        (rw (split, other) (ap (grow c) k), omega (arith, short))

cut_line-Agrees : (s : Bytes) → Agrees s (cut_line s)
unfolding cut_line Agrees split
cut_line-Agrees [] = refl
cut_line-Agrees (c ∷ s) = cut_line-step c s (cut_line s) (cut_line-Agrees s)

-- A writer that holds what was split
split_writer : List Bytes → List Bytes × Bytes → LineWriter
unfolding emit_all
split_writer lines p = record { buf = p.1; lines = emit_all p.0 lines }

-- What was split, and more behind it
glue : List Bytes × Bytes → Bytes → List Bytes × Bytes
glue p ys = (p.0 ++ (split (p.1 ++ ys)).0, (split (p.1 ++ ys)).1)

grow-glue :
    (c : ℕ) (p : List Bytes × Bytes) (ys : Bytes)
    → (c == 10) ≡ false
    → grow c (glue p ys) ≡ glue (grow c p) ys
unfolding grow glue split
grow-glue c ([], r) ys other = rw (split, other) refl
grow-glue c (l ∷ ls, r) ys other = refl

split-append : (xs ys : Bytes) → split (xs ++ ys) ≡ glue (split xs) ys
unfolding split glue
split-append [] ys = refl
split-append (c ∷ xs) ys = elim (Bool-cases (c == 10)) [
  | inl break ↦ rw break (ap (λ p. ([] ∷ p.0, p.1)) (split-append xs ys))
  | inr other ↦ rw other (ap (grow c) (split-append xs ys) ∙ grow-glue c (split xs) ys other)
]

emit_all-append : (xs ys out : List Bytes) → emit_all (xs ++ ys) out ≡ emit_all ys (emit_all xs out)
unfolding emit_all
emit_all-append [] ys out = refl
emit_all-append (x ∷ xs) ys out = emit_all-append xs ys (emit x out)

-- The lines that are not empty, without the carriage returns at their ends
pub shown : List Bytes → List Bytes
shown ls = keep (λ l. not (length l == 0)) (map trim_cr ls)

emit_all-shown : (ls out : List Bytes) → emit_all ls out ≡ out ++ shown ls
unfolding emit_all emit shown
emit_all-shown [] out = sym (append-nil out)
emit_all-shown (l ∷ ls) out = elim (Bool-cases (length (trim_cr l) == 0)) [
  | inl empty ↦ rw empty (emit_all-shown ls out)
  | inr text ↦
      rw text
        (emit_all-shown ls (out ++ trim_cr l ∷ []) ∙ append_assoc out (trim_cr l ∷ []) (shown ls))
]

drain-split :
    (fuel : ℕ) (w : LineWriter)
    → length w.buf < fuel
    → drain fuel w ≡ split_writer w.lines (split w.buf)
unfolding drain split_writer emit_all Agrees
drain-split zero w h = absurd (omega (arith, h))
drain-split (suc fuel) w h = go (drain-split fuel) (cut_line w.buf) (cut_line-Agrees w.buf)
  where
    go :
        ((v : LineWriter) → length v.buf < fuel → drain fuel v ≡ split_writer v.lines (split v.buf))
        → (o : Option (Bytes × Bytes)) → Agrees w.buf o
        → (let out : LineWriter = elim o [
          | none ↦ w
          | some (a, b) ↦ drain fuel (record { buf = b; lines = emit a w.lines })
        ] in
            out)
          ≡ split_writer w.lines (split w.buf)
    go later none k = ap (split_writer w.lines) (sym k)
    go later (some (a, b)) k =
        let (same, short) = k in
        later (record { buf = b; lines = emit a w.lines }) (omega (arith, short, h))
        ∙ ap (split_writer w.lines) (sym same)

-- The writer once the bytes have come
holding : Bytes → LineWriter
holding t = split_writer [] (split t)

release-short : (w : LineWriter) → length w.buf ≤ max_line_bytes → release w ≡ w
unfolding release
release-short w h = ground (arith, h)

glued :
    (p : List Bytes × Bytes) (ys : Bytes)
    → split_writer (emit_all p.0 []) (split (p.1 ++ ys)) ≡ split_writer [] (glue p ys)
unfolding split_writer glue
glued p ys =
    ap (λ l. record { buf = (split (p.1 ++ ys)).1; lines = l })
      (sym (emit_all-append p.0 (split (p.1 ++ ys)).0 []))

write-holding :
    (t p : Bytes)
    → length (split (t ++ p)).1 ≤ max_line_bytes
    → write p (holding t) ≡ holding (t ++ p)
unfolding write holding split_writer
write-holding t p short =
    let held = (split t).1 ++ p in
    let w : LineWriter = record { buf = held; lines = emit_all (split t).0 [] } in
    let drained : drain (suc (length held)) w ≡ holding (t ++ p) =
      drain-split (suc (length held)) w (omega arith)
      ∙ glued (split t) p
      ∙ ap (split_writer []) (sym (split-append t p)) in
    ap release drained ∙ release-short (holding (t ++ p)) short

-- Nowhere in the text have more bytes come since the last line break than a line may hold.
pub IsShort : Bytes → Type 0
IsShort whole = (t u : Bytes) → whole ≡ t ++ u → length (split t).1 ≤ max_line_bytes

write_all-holding :
    (t : Bytes) (ps : List Bytes)
    → IsShort (t ++ flatten ps)
    → write_all ps (holding t) ≡ holding (t ++ flatten ps)
unfolding write_all flatten IsShort
write_all-holding t [] short = ap holding (sym (append-nil t))
write_all-holding t (p ∷ ps) short =
    let same = append_assoc t p (flatten ps) in
    ap (write_all ps) (write-holding t p (short (t ++ p) (flatten ps) (sym same)))
    ∙ write_all-holding (t ++ p) ps (subst IsShort (sym same) short)
    ∙ ap holding same

flush-lines :
    (b : Bytes) (ls : List Bytes) → (flush (record { buf = b; lines = ls })).lines ≡ emit b ls
unfolding flush emit trim_cr
flush-lines [] ls = refl
flush-lines (c ∷ b) ls = ground arith

flush-holding : (t : Bytes) → (flush (holding t)).lines ≡ shown ((split t).0 ++ (split t).1 ∷ [])
unfolding holding split_writer emit_all
flush-holding t =
    flush-lines (split t).1 (emit_all (split t).0 [])
    ∙ sym (emit_all-append (split t).0 ((split t).1 ∷ []) [])
    ∙ emit_all-shown ((split t).0 ++ (split t).1 ∷ []) []

-- In whatever pieces the output of a process comes, its lines are given once each and in order: those of the
-- whole text, without the carriage returns at their ends, but for the empty ones; the last needs no line
-- break. No line is to be longer than 64 KiB.
pub write_all-flush :
    (ps : List Bytes)
    → IsShort (flatten ps)
    → (flush (write_all ps new_writer)).lines
      ≡ shown ((split (flatten ps)).0 ++ (split (flatten ps)).1 ∷ [])
unfolding holding split_writer split emit_all
write_all-flush ps short =
    ap (λ w. (flush w).lines) (write_all-holding [] ps short) ∙ flush-holding (flatten ps)

length-grow : (c : ℕ) (p : List Bytes × Bytes) → length (grow c p).1 ≤ length p.1 + 1
unfolding grow
length-grow c ([], r) = omega arith
length-grow c (l ∷ ls, r) = omega arith

-- A text that is short as a whole is.
length-split : (t : Bytes) → length (split t).1 ≤ length t
unfolding split
length-split [] = omega arith
length-split (c ∷ s) = elim (Bool-cases (c == 10)) [
  | inl break ↦ rw break (omega (arith, length-split s))
  | inr other ↦ rw other (omega (arith, length-split s, length-grow c (split s)))
]

pub within-IsShort : (whole : Bytes) → length whole ≤ max_line_bytes → IsShort whole
unfolding IsShort
within-IsShort whole h t u e = omega (arith, h, length-split t, ap length e, length-append t u)
