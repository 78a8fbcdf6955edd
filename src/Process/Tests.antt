-- ===== src/Process/Tests.antt =====
-- The output of a process, in pieces.
use sudoku_desktop.Prelude.{◌≡◌, refl, List, [], ◌∷◌, ◌++◌, flatten, arith}
use sudoku_desktop.Process.{
  Bytes, trim_cr, emit, cut_line, drain, release, write, flush, write_all, new_writer,
}
use sudoku_desktop.Process.Lines.{split, shown, within-IsShort, write_all-flush}

-- "ab", a line break after a carriage return, an empty line, "c"
abbrev pieces : List Bytes
pieces = (97 ∷ []) ∷ (98 ∷ 13 ∷ []) ∷ (10 ∷ 10 ∷ 99 ∷ []) ∷ []

gives : (flush (write_all pieces new_writer)).lines ≡ (97 ∷ 98 ∷ []) ∷ (99 ∷ []) ∷ []
unfolding flush write_all write drain release emit cut_line trim_cr
gives = refl

write_all-flush_example :
    (flush (write_all pieces new_writer)).lines
    ≡ shown ((split (flatten pieces)).0 ++ (split (flatten pieces)).1 ∷ [])
unfolding flatten
write_all-flush_example = write_all-flush pieces (within-IsShort (flatten pieces) (omega arith))
