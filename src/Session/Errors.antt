-- ===== src/Session/Errors.antt =====
-- The errors that crates/kraai-runtime/src/api.rs answers requests with. The field violations of
-- a settings error are left out: no request to a session has one.
use kraai.Base.Utf8.{Bytes}
use kraai.Base.Results.{Result}

pub data RuntimeErrorKind : Type 0 where
  invalid_argument not_found conflict validation unavailable internal : RuntimeErrorKind

pub record RuntimeError : Type 0 where
  pub kind : RuntimeErrorKind
  pub message : Bytes

abbrev pub RuntimeResult : Type 0 → Type 0
RuntimeResult A = Result A RuntimeError

abbrev pub failure : RuntimeErrorKind → Bytes → RuntimeError
failure k m = record { kind = k; message = m }
