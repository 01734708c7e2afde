-- ===== src/Diam/Codes.antt =====
-- Command codes of diam/commands.go, result codes of diam/codes.go, the AVP codes of
-- diam/avp/codes.go that the base protocol reads, and the error kinds of diam/protocol_error.go.
use go_diameter.Prelude.{ℕ}

abbrev pub capabilities_exchange : ℕ
capabilities_exchange = 257

abbrev pub device_watchdog : ℕ
device_watchdog = 280

abbrev pub disconnect_peer : ℕ
disconnect_peer = 282

abbrev pub success : ℕ
success = 2001

abbrev pub command_unsupported : ℕ
command_unsupported = 3001

abbrev pub application_unsupported : ℕ
application_unsupported = 3007

abbrev pub invalid_hdr_bits : ℕ
invalid_hdr_bits = 3008

abbrev pub avp_unsupported : ℕ
avp_unsupported = 5001

abbrev pub invalid_avp_value : ℕ
invalid_avp_value = 5004

abbrev pub no_common_application : ℕ
no_common_application = 5010

abbrev pub unsupported_version : ℕ
unsupported_version = 5011

abbrev pub unable_to_comply : ℕ
unable_to_comply = 5012

abbrev pub invalid_avp_length : ℕ
invalid_avp_length = 5014

abbrev pub invalid_message_length : ℕ
invalid_message_length = 5015

abbrev pub no_common_security : ℕ
no_common_security = 5017

abbrev pub origin_host_code : ℕ
origin_host_code = 264

abbrev pub result_code_code : ℕ
result_code_code = 268

abbrev pub disconnect_cause_code : ℕ
disconnect_cause_code = 273

abbrev pub origin_realm_code : ℕ
origin_realm_code = 296

-- `ProtocolErrorKind`; `unclassified` is the empty string.
pub data ProtocolErrorKind : Type 0 where
  unclassified reply_failure malformed_message invalid_header unsupported_avp : ProtocolErrorKind
  invalid_request unsupported_command unsupported_application invalid_dwr : ProtocolErrorKind
  invalid_dwa rejected_dwa invalid_dpr invalid_dpa unexpected_message : ProtocolErrorKind
  handshake_state cer_rejected handshake_timeout cea_rejected : ProtocolErrorKind
  peer_rejected disconnect_timeout watchdog_timeout : ProtocolErrorKind

-- `ProtocolReplyStatus`.
pub data ReplyStatus : Type 0 where
  reply_none reply_queued reply_written reply_failed reply_unknown : ReplyStatus
