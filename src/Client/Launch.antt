-- ===== src/Client/Launch.antt =====
-- internal/core/tun.go, `Ensure`: which connection is taken for the helper's, and what is told of a
-- launch that failed; `cappedBuffer`; lifecycle.go, `lastLine`.
pub mod Tail
use Prim.Native.Char.{code}
use sudoku_desktop.Prelude.{
  ℕ, ◌+◌, ◌-◌, Bool, true, false, not, ◌&&◌, ◌||◌, List, [], ◌∷◌, ◌++◌, Option, none, some, String,
  text_append, str_eq, if◌then◌else◌, ◌==◌, ltb, length, drop, to_lower, contains, trim_space,
}

-- What comes over a connection that was accepted: whether a line could be read, its fields, and
-- whether the acknowledgement could be sent.
pub record Hello : Type 0 where
  pub conn : ℕ
  pub readable : Bool
  pub op : String
  pub ver : ℕ
  pub token : String
  pub acknowledged : Bool

-- `ipcVersion`
abbrev pub ipc_version : ℕ
ipc_version = 1

unfoldable pub is_helper : String → Hello → Bool
is_helper token h =
    h.readable && str_eq h.op "hello" && h.ver == ipc_version && str_eq h.token token

-- The loop that accepts connections: the first that says the token, and can be told so.
unfoldable pub accept_helper : String → List Hello → Option ℕ
unfolding is_helper
accept_helper token [] = none
accept_helper token (h ∷ hs) =
    let rest = accept_helper token hs in
    if not (is_helper token h) then rest else if not h.acknowledged then rest else some h.conn

-- The text behind the last line break, if there is one
unfoldable pub after_break : String → Option String
after_break String.[] = none
after_break (String.◌∷◌ c s) = elim (after_break s) [
  | some rest ↦ some rest
  | none ↦ if code c == 10 then some s else none
]

-- `lastLine`
unfoldable pub last_line : String → String
unfolding after_break trim_space
last_line s = elim (after_break (trim_space s)) [
  | none ↦ trim_space s
  | some rest ↦ trim_space rest
]

-- `isSudoReject`
unfoldable pub is_sudo_reject : String → Bool
unfolding to_lower contains
is_sudo_reject msg =
    let l = to_lower msg in
    contains l "incorrect password"
    || contains l "no password was provided"
    || contains l "sorry, try again"
    || contains l "a password is required"

-- `isAuthCancel`
unfoldable pub is_auth_cancel : String → Bool
unfolding to_lower contains
is_auth_cancel msg =
    let l = to_lower msg in
    contains l "user canceled"
    || contains l "user cancelled"
    || contains l "-128"
    || contains l "dismissed"
    || contains l "canceled by the user"
    || contains l "operation was canceled"

pub data LaunchError : Type 0 where
  auth_cancelled bad_password : LaunchError
  not_started : String → LaunchError

abbrev or_text : String → String → String
or_text a b = if str_eq a "" then b else a

-- `launchError`, given what the launcher wrote and its error, with whether the password is forgotten
unfoldable pub launch_error : String → String → LaunchError × Bool
unfolding is_auth_cancel is_sudo_reject last_line trim_space
launch_error stderr err =
    let msg = trim_space stderr in
    if is_auth_cancel msg
    then (auth_cancelled, false)
    else if is_sudo_reject msg
    then (bad_password, true)
    else (
      not_started (
          text_append "could not start the tunnel helper: "
            (last_line (or_text (or_text msg err) "the helper exited before connecting"))),
      false,
    )

-- `Write` of `cappedBuffer`
unfoldable pub write {ℓ} : {A : Type ℓ} → ℕ → List A → List A → List A
write bound b p =
    let all = b ++ p in if ltb bound (length all) then drop (length all - bound) all else all

unfoldable pub write_all {ℓ} : {A : Type ℓ} → ℕ → List A → List (List A) → List A
unfolding write
write_all bound b [] = b
write_all bound b (p ∷ ps) = write_all bound (write bound b p) ps
