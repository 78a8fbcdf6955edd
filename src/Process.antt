-- ===== src/Process.antt =====
-- internal/core/process.go, `lineWriter`: the lines of a process's output.
pub mod Lines
mod Tests
use sudoku_desktop.Prelude.{
  ℕ, zero, suc, Bool, true, false, List, [], ◌∷◌, ◌++◌, Option, none, some, String, if◌then◌else◌,
  ltb, ◌==◌, length,
}

abbrev pub Bytes : Type 0
Bytes = List ℕ

-- `lineWriter`, with the lines that it gave to `onLine`
pub record LineWriter : Type 0 where
  pub buf : Bytes
  pub lines : List Bytes

-- `maxLineBytes`
abbrev pub max_line_bytes : ℕ
max_line_bytes = 65536

-- `bytes.TrimRight(b, "\\r")`
unfoldable pub trim_cr : Bytes → Bytes
trim_cr [] = []
trim_cr (c ∷ s) =
    let rest = trim_cr s in
    if c == 13 then (if length rest == 0 then [] else c ∷ rest) else c ∷ rest

-- `emit`
unfoldable pub emit : Bytes → List Bytes → List Bytes
unfolding trim_cr
emit b lines = if length (trim_cr b) == 0 then lines else lines ++ trim_cr b ∷ []

-- The text before the first line break, and the text behind it
unfoldable pub cut_line : Bytes → Option (Bytes × Bytes)
cut_line [] = none
cut_line (c ∷ s) =
    let later = cut_line s in
    if c == 10 then some ([], s) else elim later [ none ↦ none | some (a, b) ↦ some (c ∷ a, b) ]

-- The loop of `Write`, which takes at most a round for each byte that is held, and one
unfoldable pub drain : ℕ → LineWriter → LineWriter
unfolding cut_line emit
drain zero w = w
drain (suc fuel) w = elim (cut_line w.buf) [
  | none ↦ w
  | some (a, b) ↦ drain fuel (record { buf = b; lines = emit a w.lines })
]

-- The end of `Write`: a line that is too long is given in parts.
unfoldable pub release : LineWriter → LineWriter
unfolding emit
release w =
    if ltb max_line_bytes (length w.buf) then record { buf = []; lines = emit w.buf w.lines } else w

-- `Write`
unfoldable pub write : Bytes → LineWriter → LineWriter
unfolding drain release
write p w = let w' = record w { buf = w.buf ++ p } in release (drain (suc (length w'.buf)) w')

-- `flush`
unfoldable pub flush : LineWriter → LineWriter
unfolding emit
flush w = if ltb 0 (length w.buf) then record { buf = []; lines = emit w.buf w.lines } else w

unfoldable pub write_all : List Bytes → LineWriter → LineWriter
unfolding write
write_all [] w = w
write_all (p ∷ ps) w = write_all ps (write p w)

abbrev pub new_writer : LineWriter
new_writer = record { buf = []; lines = [] }
