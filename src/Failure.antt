-- ===== src/Failure.antt =====
-- Go's `error`, by what `errors.Is` tells apart in the code and by its text.
use sudoku_desktop.Prelude.{String, text_append}

pub data Kind : Type 0 where
  admin_required admin_bad_password start_cancelled other : Kind

pub record Failure : Type 0 where
  pub kind : Kind
  pub text : String

pub data Result {ℓ} (A : Type ℓ) : Type ℓ where
  ok : A → Result A
  err : Failure → Result A

-- `ErrAdminRequired`, `ErrStartCancelled`
abbrev pub err_admin_required : Failure
err_admin_required = record {
  kind = Kind.admin_required;
  text = "administrator privileges required";
}

abbrev pub err_start_cancelled : Failure
err_start_cancelled = record { kind = Kind.start_cancelled; text = "start cancelled" }

-- `errors.New`
abbrev pub new_error : String → Failure
new_error text = record { kind = Kind.other; text = text }

-- `fmt.Errorf(prefix + "%w", err)`
unfoldable pub wrap : String → Failure → Failure
wrap prefix e = record { kind = e.kind; text = text_append prefix e.text }
