-- ===== src/Routes/Windows/Quote.antt =====
-- internal/core/routes.go, the scripts for PowerShell: how a text that is put between quotes is read.
use Prim.Native.Char.{Char, code}
use Prim.Native.String.{String as Text, [] as done, ◌∷◌ as cons}
use text.Mathlib.TextLemmas.{cons-append, nil-append, append_assoc}
use text.Mathlib.TextEquality.{Char-path}
use sudoku_desktop.Prelude.{
  ℕ, ◌≡◌, refl, sym, ap, ◌∙◌, Bool, true, false, not, ◌||◌, ◌&&◌, cut_prefix-append, Bool-cases,
  inl, inr, Option, none, some, String, if◌then◌else◌, ◌==◌, ==_iff, leb, text_append, trim_left,
  trim_right, cut_prefix, trim_space, str_eq, is_space, arith,
}
use sudoku_desktop.Plan.{TunPlan}
use sudoku_desktop.Plan.Validate.{Net, validate_tun_plan, every_char, is_host_char}
use sudoku_desktop.Plan.Validate.Sound.{validate_tun_plan_iff}
use sudoku_desktop.Routes.Windows.{double_quotes, join, interface_query, interface_script}

abbrev is_typographic : ℕ → Bool
is_typographic c = leb 0x2018 c && leb c 0x201B

-- What PowerShell takes for a single quote: the typographic ones as well.
abbrev is_quote : ℕ → Bool
is_quote c = c == 39 || is_typographic c

abbrev push : Char → Option (Text × Text) → Option (Text × Text)
push c none = none
push c (some (s, rest)) = some (cons c s, rest)

-- How PowerShell reads a text behind its opening quote: what the text says and what follows it. Two
-- quotes in a row stand for one; whether the last character was a quote is noted.
unfoldable read_literal : Bool → Text → Option (Text × Text)
read_literal false done = none
read_literal true done = some (done, done)
read_literal false (cons c s) =
    let ended = read_literal true s in
    let more = read_literal false s in if is_quote (code c) then ended else push c more
read_literal true (cons c s) =
    let more = read_literal false s in
    if is_quote (code c) then push c more else some (done, cons c s)

abbrev read_opened : Option Text → Option (Text × Text)
read_opened none = none
read_opened (some s) = read_literal false s

-- What a script sets a variable to, and what follows.
unfoldable pub read_assignment : String → String → Option (String × String)
unfolding read_literal cut_prefix
read_assignment name script = read_opened (cut_prefix (text_append name " = '") script)

-- No character is a typographic quote.
abbrev pub is_plain : String → Bool
is_plain s = every_char (λ c. not (is_typographic c)) s

double_quotes-append :
    (c : Char) (s t : Text)
    → (code c == 39) ≡ true
    → text_append (double_quotes (cons c s)) t
      ≡ cons "'" (cons "'" (text_append (double_quotes s) t))
unfolding double_quotes
double_quotes-append c s t quote = rw quote (simp cons-append)

read_literal_double :
    (s t : Text)
    → is_plain s ≡ true
    → read_literal true t ≡ some (done, t)
    → read_literal false (text_append (double_quotes s) (cons "'" t)) ≡ some (s, t)
unfolding read_literal double_quotes
read_literal_double done t plain ends = rw (nil-append (cons "'" t)) ends
read_literal_double (cons c s) t plain ends =
    let later : is_plain s ≡ true = ground arith in
    elim (Bool-cases (code c == 39)) [
      | inl quote ↦
          let same : ◌≡◌ {A = Char} "'" c = Char-path "'" c (sym ((==_iff (code c) 39).0 quote)) in
          ap (read_literal false) (double_quotes-append c s (cons "'" t) quote)
          ∙ ap (push "'") (read_literal_double s t later ends)
          ∙ ap (λ d. some (cons d s, t)) same
      | inr other ↦
          let typed : is_typographic (code c) ≡ false = ground arith in
          rw (other, cons-append)
            (simp (other, typed) (ap (push c) (read_literal_double s t later ends)))
    ]

every_char-trim_left :
    (p : ℕ → Bool) (s : Text) → every_char p s ≡ true → every_char p (trim_left s) ≡ true
unfolding trim_left
every_char-trim_left p done h = refl
every_char-trim_left p (cons c s) h = ground (arith, every_char-trim_left p s)

every_char-trim_right :
    (p : ℕ → Bool) (s : Text) → every_char p s ≡ true → every_char p (trim_right s) ≡ true
unfolding trim_right
every_char-trim_right p done h = refl
every_char-trim_right p (cons c s) h =
    let later = every_char-trim_right p s (ground arith) in
    elim (Bool-cases (str_eq (trim_right s) done && is_space (code c))) [
      | inl blank ↦ rw blank refl
      | inr kept ↦ rw kept (ground arith)
    ]

is_plain-trim_space : (s : String) → is_plain s ≡ true → is_plain (trim_space s) ≡ true
unfolding trim_space
is_plain-trim_space s h =
    let p : ℕ → Bool = λ c. not (is_typographic c) in
    every_char-trim_right p (trim_left s) (every_char-trim_left p s h)

is_plain-name :
    (s : String) → every_char (λ c. is_host_char c || c == 32) s ≡ true → is_plain s ≡ true
is_plain-name done h = refl
is_plain-name (cons c s) h = ground (arith, is_plain-name s)

quoted-append :
    (p d r : Text)
    → text_append (text_append p (text_append d "'")) r ≡ text_append p (text_append d (cons "'" r))
quoted-append p d r =
    append_assoc p (text_append d "'") r
    ∙ ap (text_append p) (
        append_assoc d "'" r
        ∙ ap (text_append d) (cons-append "'" "" r ∙ ap (cons "'") (nil-append r)))

-- A text without typographic quotes, with its quotes doubled, is read back, whatever follows the
-- closing quote, if that does not start with a quote.
read_assignment-quoted :
    (name v t : String)
    → is_plain v ≡ true
    → read_literal true t ≡ some (done, t)
    → read_assignment name
        (text_append (text_append name " = '") (text_append (double_quotes v) (cons "'" t)))
      ≡ some (v, t)
unfolding read_assignment
read_assignment-quoted name v t plain ends =
    ap read_opened (cut_prefix-append (text_append name " = '") _)
    ∙ read_literal_double v t plain ends

read_interface_script :
    (name : String)
    → is_plain name ≡ true
    → read_assignment "$name" (interface_script name)
      ≡ some (name, text_append "; " (join "; " interface_query))
unfolding interface_script join read_literal
read_interface_script name plain =
    ap (read_assignment "$name") (quoted-append "$name = '" (double_quotes name) _)
    ∙ read_assignment-quoted "$name" name _ plain refl

-- If the helper accepts a plan, PowerShell reads the name of the plan's interface in the script of
-- `windowsInterfaceIndex` as that name, and what follows is the script's own.
pub read_interface_script-validated :
    (net : Net) (p : TunPlan)
    → validate_tun_plan net (some p) ≡ none
    → let name = trim_space p.tun.interface_name in
      read_assignment "$name" (interface_script name)
      ≡ some (name, text_append "; " (join "; " interface_query))
read_interface_script-validated net p accepted =
    let sound = (validate_tun_plan_iff net p).0 accepted in
    let name = p.tun.interface_name in
    read_interface_script (trim_space name)
      (is_plain-trim_space name (is_plain-name name sound.device.0.0))
