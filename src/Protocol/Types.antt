-- ===== src/Protocol/Types.antt =====
-- diam/internal/protocol/types.go: configuration, inputs, effects and notifications. A time is a
-- number of nanoseconds since a fixed instant, and a duration is a signed number of them.
use go_diameter.Prelude.{ℕ, String, Bool, false, ◌&&◌, Option, none, List, []}
use go_diameter.Prelude.Tests.{◌==◌}
use go_diameter.Prelude.Int.{ℤ, pos}
use go_diameter.Diam.Codes.{ProtocolErrorKind, unclassified, ReplyStatus, reply_none}
use go_diameter.Diam.Error.{Err, no_error, MessageError}
use go_diameter.Diam.Message.{Message, MessageMetadata, no_metadata}
use go_diameter.Base.Settings.{Settings, Address, Cer, Cea}
use go_diameter.Watchdog

-- `inst` is the source's `Instance`.
pub record Connection : Type 0 where
  pub inst : ℕ
  pub generation : ℕ

unfoldable pub same_connection : Connection → Connection → Bool
same_connection a b = a.inst == b.inst && a.generation == b.generation

pub data Role : Type 0 where
  responder initiator : Role

pub data Phase : Type 0 where
  pre_cer wait_cea opened closing closed retired : Phase

pub record Config : Type 0 where
  pub validate_requests : Bool
  pub reject_unknown_mandatory_avps : Bool
  pub connection : Connection
  pub role : Role
  pub local : Settings
  pub expected_host : List ℕ
  pub tls : Bool
  pub queue_writes : Bool
  pub hooks : Bool
  pub handshake_timeout : ℤ
  pub cer_interval : ℤ
  pub closing_timeout : ℤ
  pub max_retransmits : ℕ
  pub watchdog : Bool
  pub watchdog_interval : ℤ
  pub recovery : Bool
  pub candidate_deadline_owned_by_peer : Bool
  pub ignore_bound_headerless_input : Bool
  pub reader_owns_message_error_closure : Bool
  pub close_cer_on_invalid_header_bits_only : Bool
  pub local_disconnect_in_closing : Bool
  pub skip_dwr_grammar_after_hook : Bool
  pub keep_cer_deadline_after_transport_loss : Bool

pub record Reservation : Type 0 where
  pub token : ℕ
  pub hop : ℕ
  pub end_ : ℕ

pub data InputKind : Type 0 where
  start receive continue activate reject_candidate release_admission : InputKind
  reserve_result write_result frozen timer_expired disconnect unhandled : InputKind
  abort transport_lost retire stop_supervision begin_cer : InputKind

-- `unknown_stage` is any value above `SkippedStage`.
pub data WriteStage : Type 0 where
  queue_stage written_stage skipped_stage unknown_stage : WriteStage

-- `TimerKind` is an index of the timer array; `timer_count` bounds it.
abbrev pub handshake_timer : ℕ
handshake_timer = 0

abbrev pub retry_timer : ℕ
retry_timer = 1

abbrev pub watchdog_timer : ℕ
watchdog_timer = 2

abbrev pub closing_timer : ℕ
closing_timer = 3

abbrev pub receiver_disconnect_timer : ℕ
receiver_disconnect_timer = 4

abbrev pub timer_count : ℕ
timer_count = 5

pub record Input : Type 0 where
  pub defer_cer : Bool
  pub recovery : Bool
  pub refresh_local_addresses : Bool
  pub local_addresses : List Address
  pub kind : InputKind
  pub connection : Connection
  pub at : ℕ
  pub sequence : ℕ
  pub after_receive : ℕ
  pub token : ℕ
  pub message : Option Message
  pub error : Option MessageError
  pub error_input : Bool
  pub err : Err
  pub reservation : Reservation
  pub stage : WriteStage
  pub bytes : ℕ
  pub expected_bytes : ℕ
  pub reply_code : ℕ
  pub result_code : ℕ
  pub cause : ℕ
  pub timer : ℕ
  pub interval : ℤ
  pub timeout : ℤ
  pub in_flight : Bool
  pub transport_closed : Bool
  pub has_handler : Bool
  pub unhandled : Bool
  pub ownership : ℕ

abbrev pub no_reservation : Reservation
no_reservation = record { token = 0; hop = 0; end_ = 0 }

-- `Input{}`.
abbrev pub no_input : Input
no_input = record {
  defer_cer = false;
  recovery = false;
  refresh_local_addresses = false;
  local_addresses = [];
  kind = InputKind.start;
  connection = record { inst = 0; generation = 0 };
  at = 0;
  sequence = 0;
  after_receive = 0;
  token = 0;
  message = none;
  error = none;
  error_input = false;
  err = no_error;
  reservation = no_reservation;
  stage = queue_stage;
  bytes = 0;
  expected_bytes = 0;
  reply_code = 0;
  result_code = 0;
  cause = 0;
  timer = 0;
  interval = pos 0;
  timeout = pos 0;
  in_flight = false;
  transport_closed = false;
  has_handler = false;
  unhandled = false;
  ownership = 0;
}

pub data EffectKind : Type 0 where
  reserve_ids release_ids send publish validated_cer run_hook handshake_ready : EffectKind
  admit hold discard notify arm_timer stop_timer freeze_admission close : EffectKind
  cancel_send complete_request peer_disconnect_decision : EffectKind

pub data NoticeKind : Type 0 where
  protocol_notice handshake_notice disconnect_notice peer_disconnect_notice : NoticeKind
  watchdog_notice : NoticeKind

pub data Outcome : Type 0 where
  completed timed_out connection_closed cancelled not_open already_pending : Outcome

-- handshake_result.go: `HandshakeResult`. Values are immutable here, so its deep copies are values.
pub record HandshakeResult : Type 0 where
  pub err : Err
  pub cea : Option Cea

abbrev pub no_handshake : HandshakeResult
no_handshake = record { err = no_error; cea = none }

pub record Notification : Type 0 where
  pub cause_error : Err
  pub reply_error : Err
  pub diagnostic : String
  pub kind : NoticeKind
  pub protocol : ProtocolErrorKind
  pub result_code : ℕ
  pub reply_code : ℕ
  pub cause : ℕ
  pub reply : ReplyStatus
  pub closing : Bool
  pub outcome : Outcome
  pub watchdog : Option Watchdog.State
  pub message : MessageMetadata
  pub handshake : HandshakeResult

-- `Notification{}`.
abbrev pub no_notice : Notification
no_notice = record {
  cause_error = no_error;
  reply_error = no_error;
  diagnostic = "";
  kind = protocol_notice;
  protocol = unclassified;
  result_code = 0;
  reply_code = 0;
  cause = 0;
  reply = reply_none;
  closing = false;
  outcome = completed;
  watchdog = none;
  message = no_metadata;
  handshake = no_handshake;
}

pub record Capabilities : Type 0 where
  pub local : Settings
  pub cer : Option Cer
  pub cea : Option Cea
  pub local_applications : Option (List ℕ)
  pub remote_applications : List ℕ
  pub common_applications : List ℕ
  pub parsed_applications : List ℕ
  pub host : List ℕ
  pub realm : List ℕ
  pub tls : Bool

pub record TimerSnapshot : Type 0 where
  pub token : ℕ
  pub deadline : ℕ

abbrev pub no_timer : TimerSnapshot
no_timer = record { token = 0; deadline = 0 }
