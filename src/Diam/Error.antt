-- ===== src/Diam/Error.antt =====
-- Error values, and diam/message_error.go: `MessageError`. `no_error` is a nil error.
use go_diameter.Prelude.{ℕ, String, Bool, true, false, Option, none, some}
use go_diameter.Diam.Avp.{Avp}

-- The errors that callers tell apart, text that they only print, and a wrapper (`%w`).
-- `message` is a `*MessageError`: its result code, Failed-AVP, fatality and cause.
pub data Err : Type 0 where
  no_error short_write unexpected_peer : Err
  no_common_application no_common_security : Err
  missing_origin_host missing_origin_realm missing_application : Err
  text : String → Err
  wrapped : String → Err → Err
  failed_result_code : ℕ → Err
  message : ℕ → Option Avp → Bool → Err → Err

pub record MessageError : Type 0 where
  pub result_code : ℕ
  pub failed_avp : Option Avp
  pub fatal : Bool
  pub err : Err

-- `err != nil`.
abbrev pub is_error : Err → Bool
is_error no_error = false
is_error _ = true

-- A `*MessageError` as an `error`.
abbrev pub as_error : MessageError → Err
as_error e = message e.result_code e.failed_avp e.fatal e.err

-- `errors.As` for `*MessageError` and for `*ErrFailedResultCode`, along `Unwrap`.
unfoldable pub as_message_error : Err → Option MessageError
as_message_error (message c a f e) =
    some (record { result_code = c; failed_avp = a; fatal = f; err = e })
as_message_error (wrapped t e) = as_message_error e
as_message_error _ = none

unfoldable pub as_failed_result_code : Err → Option ℕ
as_failed_result_code (failed_result_code n) = some n
as_failed_result_code (wrapped t e) = as_failed_result_code e
as_failed_result_code (message c a f e) = as_failed_result_code e
as_failed_result_code _ = none

-- `errors.Is` for the two sentinels that select a CEA's Result-Code.
unfoldable pub is_no_common_application : Err → Bool
is_no_common_application no_common_application = true
is_no_common_application (wrapped t e) = is_no_common_application e
is_no_common_application (message c a f e) = is_no_common_application e
is_no_common_application _ = false

unfoldable pub is_no_common_security : Err → Bool
is_no_common_security no_common_security = true
is_no_common_security (wrapped t e) = is_no_common_security e
is_no_common_security (message c a f e) = is_no_common_security e
is_no_common_security _ = false
