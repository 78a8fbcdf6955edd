-- ===== src/Routes/Shell.antt =====
-- internal/core/command_runner.go, `shellQuote`, `shellJoin`: the words of a command line.
use Prim.Native.Char.{Char, code}
use Prim.Native.String.{String, [], ◌∷◌, ◌++◌}
use sudoku_desktop.Prelude.{
  ℕ, ◌≡◌, refl, Bool, true, false, Bool-cases, inl, inr, not, ◌&&◌, ◌||◌, Option, none, some,
  if◌then◌else◌, ◌==◌, ==_iff, arith, ap, sym, ◌∙◌, ◌≢◌,
}
use mathlib.Core.List.{List}
use text.Mathlib.TextEquality.{Char-path}
use text.Mathlib.TextLemmas.{cons-append}

-- The characters for which `shellQuote` puts quotes round a value.
unfoldable pub is_listed : ℕ → Bool
is_listed c =
    c == 32
    || c == 9
    || c == 10
    || c == 39
    || c == 34
    || c == 92
    || c == 36
    || c == 38
    || c == 59
    || c == 124
    || c == 60
    || c == 62
    || c == 42
    || c == 63
    || c == 40
    || c == 41
    || c == 91
    || c == 93
    || c == 123
    || c == 125
    || c == 33

-- `strings.ContainsAny`
unfoldable pub contains_any : (ℕ → Bool) → String → Bool
contains_any p [] = false
contains_any p (c ∷ s) = p (code c) || contains_any p s

-- strings.ReplaceAll(value, "'", `'"'"'`)
unfoldable pub escape : String → String
escape [] = []
escape (c ∷ s) =
    let rest = escape s in if code c == 39 then "'" ∷ "\"" ∷ "'" ∷ "\"" ∷ "'" ∷ rest else c ∷ rest

-- `shellQuote`
unfoldable pub shell_quote : String → String
unfolding escape contains_any is_listed
shell_quote [] = "''"
shell_quote (c ∷ s) =
    if contains_any is_listed (c ∷ s) then "'" ∷ (escape (c ∷ s) ++ "'") else c ∷ s

-- `shellJoin`
unfoldable pub shell_join : List String → String
unfolding shell_quote
shell_join List.[] = ""
shell_join (List.◌∷◌ a List.[]) = shell_quote a
shell_join (List.◌∷◌ a (List.◌∷◌ b rest)) = shell_quote a ++ " " ++ shell_join (List.◌∷◌ b rest)

-- How a POSIX shell reads one word (2.2 Quoting): outside quotes, between single ones, between
-- double ones.
pub data Mode : Type 0 where
  bare single double : Mode

-- Outside quotes these end the word or start an expansion.
unfoldable pub is_special : ℕ → Bool
is_special c =
    c == 32
    || c == 9
    || c == 10
    || c == 92
    || c == 36
    || c == 96
    || c == 38
    || c == 59
    || c == 124
    || c == 60
    || c == 62
    || c == 42
    || c == 63
    || c == 40
    || c == 41
    || c == 91

abbrev pub push : Char → Option String → Option String
push c none = none
push c (some s) = some (c ∷ s)

-- The word that a text is read as, or nothing if the text is not one literal word.
unfoldable pub read : Mode → String → Option String
unfolding is_special
read bare [] = some []
read bare (c ∷ s) =
    let quoted = read single s in
    let doubled = read double s in
    let rest = read bare s in
    if code c == 39
    then quoted
    else if code c == 34
    then doubled
    else if is_special (code c)
    then none
    else push c rest
read single [] = none
read single (c ∷ s) =
    let rest = read bare s in let more = read single s in if code c == 39 then rest else push c more
read double [] = none
read double (c ∷ s) =
    let rest = read bare s in
    let more = read double s in
    if code c == 34
    then rest
    else if code c == 36 || code c == 96 || code c == 92
    then none
    else push c more

-- At the start of a word a tilde is expanded and a number sign starts a comment.
unfoldable pub read_word : String → Option String
unfolding read
read_word [] = none
read_word (c ∷ s) =
    let word = read bare (c ∷ s) in if code c == 126 || code c == 35 then none else word

-- A value without a backquote that does not start with a tilde or a number sign.
unfoldable pub is_harmless : String → Bool
unfolding contains_any
is_harmless [] = true
is_harmless (c ∷ s) =
    not (contains_any (λ n. n == 96) (c ∷ s)) && not (code c == 126 || code c == 35)

five_append :
    (a b c d e : Char) (s t : String) → (a ∷ b ∷ c ∷ d ∷ e ∷ s) ++ t ≡ a ∷ b ∷ c ∷ d ∷ e ∷ (s ++ t)
five_append a b c d e s t = simp cons-append

read-escape : (s : String) → read single (escape s ++ "'") ≡ some s
unfolding read escape
read-escape [] = refl
read-escape (c ∷ s) = elim (Bool-cases (code c == 39)) [
  | inl quote ↦
      let same : ◌≡◌ {A = Char} "'" c = Char-path "'" c (sym ((==_iff (code c) 39).0 quote)) in
      rw quote (
        ap (read single) (five_append "'" "\"" "'" "\"" "'" (escape s) "'")
        ∙ ap (push "'") (read-escape s)
        ∙ ap (λ d. some (d ∷ s)) same)
  | inr other ↦ rw (other, cons-append) (simp other (ap (push c) (read-escape s)))
]

read_unlisted :
    (s : String)
    → contains_any is_listed s ≡ false
    → read bare s ≡ (if contains_any (λ n. n == 96) s then none else some s)
unfolding read contains_any is_listed
read_unlisted [] h = refl
read_unlisted (c ∷ s) h = ground (arith, read_unlisted s)

read_word_quoted : (s : String) → read_word ("'" ∷ (escape s ++ "'")) ≡ some s
unfolding read_word read
read_word_quoted s = read-escape s

read_word_bare :
    (s : String)
    → contains_any is_listed s ≡ false
    → s ≢ ""
    → read_word s ≡ (if is_harmless s then some s else none)
unfolding read_word is_harmless
read_word_bare [] clear e = absurd (e refl)
read_word_bare (c ∷ s) clear e = ground (arith, read_unlisted (c ∷ s) clear)

shell_quote_listed :
    (s : String) → contains_any is_listed s ≡ true → shell_quote s ≡ "'" ∷ (escape s ++ "'")
unfolding shell_quote contains_any
shell_quote_listed [] h = cc
shell_quote_listed (c ∷ s) h = rw h

-- `shellQuote` makes of a value one word that the shell reads back as that value, if the value holds
-- a character for which it is quoted, or else no backquote and neither a tilde nor a number sign in
-- front. Any other value comes through unquoted as something that is not a literal word.
pub read_word-shell_quote :
    (s : String)
    → read_word (shell_quote s)
      ≡ (if contains_any is_listed s || is_harmless s then some s else none)
unfolding shell_quote read_word read contains_any is_harmless
read_word-shell_quote [] = refl
read_word-shell_quote (c ∷ s) = elim (Bool-cases (contains_any is_listed (c ∷ s))) [
  | inl listed ↦ rw (shell_quote_listed (c ∷ s) listed, listed) (read_word_quoted (c ∷ s))
  | inr clear ↦ rw clear (read_word_bare (c ∷ s) clear (λ e. cc e))
]
