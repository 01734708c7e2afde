-- ===== src/Base/Header.antt =====
-- diam/internal/base/header.go, and the command tests of validation.go.
use go_diameter.Prelude.{ℕ, Bool, false, not, ◌&&◌, ◌||◌, Option, none, some}
use go_diameter.Prelude.Tests.{◌==◌, if◌then◌else◌, maybe}
use go_diameter.Diam.Codes.{
  ProtocolErrorKind, capabilities_exchange, device_watchdog, disconnect_peer, invalid_hdr_bits,
  unsupported_version, invalid_message_length, invalid_dwa, invalid_dpa, cea_rejected,
}
use go_diameter.Diam.Error.{MessageError, text}
use go_diameter.Diam.Header.{
  Header, has_flag, request_flag, proxiable_flag, error_flag, retransmitted_flag,
}
use go_diameter.Diam.Message.{Message}

abbrev pub is_command_code : ℕ → Bool
is_command_code c = c == capabilities_exchange || c == device_watchdog || c == disconnect_peer

unfoldable pub is_command : Option Message → Bool
unfolding maybe
is_command m = maybe m false λ m. maybe m.header false λ h. is_command_code h.command_code

-- `AnswerErrorKind`, of a message that has a header.
unfoldable pub answer_error_kind : Header → ProtocolErrorKind
unfolding if◌then◌else◌
answer_error_kind h =
    if h.command_code == device_watchdog
    then invalid_dwa
    else if h.command_code == disconnect_peer
    then invalid_dpa
    else cea_rejected

unfoldable pub fatal_header_error : Option MessageError → Bool
unfolding maybe
fatal_header_error e = maybe e false λ e.
    e.fatal && (e.result_code == unsupported_version || e.result_code == invalid_message_length)

-- The flags that no base message carries: P without E, E on a request, T on an answer.
invalid_flags : ℕ → Bool
invalid_flags flags =
    (has_flag flags proxiable_flag && not (has_flag flags error_flag))
    || (has_flag flags request_flag && has_flag flags error_flag)
    || (not (has_flag flags request_flag) && has_flag flags retransmitted_flag)

header_error : Header → Option MessageError
unfolding invalid_flags if◌then◌else◌
header_error h =
    if not (is_command_code h.command_code)
    then none
    else if not (h.application_id == 0)
    then some (record {
      result_code = invalid_hdr_bits;
      failed_avp = none;
      fatal = false;
      err = text "base command requires Application-Id zero";
    })
    else if invalid_flags h.command_flags
    then some (record {
      result_code = invalid_hdr_bits;
      failed_avp = none;
      fatal = false;
      err = text "invalid base command flags";
    })
    else none

unfoldable pub validate_header : Option Message → Option MessageError
unfolding header_error maybe
validate_header m = maybe m none λ m. maybe m.header none header_error
