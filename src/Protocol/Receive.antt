-- ===== src/Protocol/Receive.antt =====
-- diam/internal/protocol/receive.go: a message from the peer.
use go_diameter.Prelude.{ℕ, Bool, true, false, not, ◌&&◌, ◌||◌, Option, none, some, List, []}
use go_diameter.Prelude.Tests.{◌==◌, if◌then◌else◌, maybe, is_some}
use go_diameter.Prelude.Maps.{insert}
use go_diameter.Diam.Avp.{Avp}
use go_diameter.Diam.Codes.{
  ProtocolErrorKind, capabilities_exchange, success, command_unsupported, application_unsupported,
  invalid_hdr_bits, unclassified, malformed_message, unexpected_message, invalid_header,
  invalid_dwr, reply_failure, unsupported_command, unsupported_application,
}
use go_diameter.Diam.Error.{Err, text, is_error, as_error, MessageError}
use go_diameter.Diam.Header.{Header, is_request}
use go_diameter.Diam.Message.{Message, metadata}
use go_diameter.Base.Header.{validate_header, fatal_header_error, is_command}
use go_diameter.Base.Interface.{Base}
use go_diameter.Base.Request.{supports_application, validate_request, failed_list}
use go_diameter.Base.Settings.{RequestError, checked}
use go_diameter.Watchdog
use go_diameter.Protocol.Types.{EffectKind, Role, Input, Notification, no_notice}
use go_diameter.Protocol.Core.{Core, St, upd, next_token, token, effect, emit}
use go_diameter.Protocol.Send.{notify, discard, amend, mark_answer_hook, send, cause_of}
use go_diameter.Protocol.Ending.{
  fail, reject, failed_rejection, latch_terminal, is_pre_cer, is_open, is_closing, is_protocol_code,
  has_command,
}
use go_diameter.Protocol.Identity.{bound}
use go_diameter.Protocol.Watch.{valid_activity, discard_cause}

abbrev pub is_initiator : Role → Bool
is_initiator Role.initiator = true
is_initiator _ = false

abbrev pub error_code : Option MessageError → ℕ
error_code e = maybe e 0 λ e. e.result_code

abbrev pub is_fatal : Option MessageError → Bool
is_fatal e = maybe e false λ e. e.fatal

-- `base.ValidateRequest` with the connection's applications and policies.
abbrev pub request_rejection :
    Base → Core → Message → Header → Option MessageError → Option RequestError
request_rejection b c m h e =
    validate_request b m h c.caps.local_applications c.cfg.validate_requests
      c.cfg.reject_unknown_mandatory_avps e

-- `c.pauseHook(es, in)`, for the message `m` of the input.
unfoldable pub pause_hook : Input → Message → St → St
pause_hook inp m s0 =
    let t = next_token s0.core in
    let s = token s0 in
    let repeated = is_open s.core.phase && has_command (some m) capabilities_exchange in
    let saved =
      upd
        (λ c. record c {
          continuations =
              insert t (record { input = inp; repeated_cer = repeated }) c.continuations;
        })
        s in
    let owned =
      if is_pre_cer s.core.phase
      then upd (λ c. record c { passive_responder = false; hook_token = t }) saved
      else saved in
    emit (record (effect owned.core EffectKind.run_hook) { token = t; message = some m }) owned

-- `c.dwr(es, in)`, for the message `m` of the input.
unfoldable pub dwr : Base → Input → Message → St → St
dwr b inp m s =
    let (parsed, err) = b.parse_dwr m in
    let other = text "DWR Origin-Host does not match the admitted peer" in
    if is_error err
    then discard_cause inp invalid_dwr err s
    else if not (bound b s.core m false)
    then discard_cause inp invalid_dwr other s
    else checked (b.build_dwa m s.core.cfg.local) (λ failed. fail inp reply_failure success s)
        (λ answer.
          mark_answer_hook (send b answer none true false false none (some m) (valid_activity s)))

-- `c.requestError(es, in, r, diagnostic...)`; no diagnostic is the empty one.
unfoldable pub request_error : Base → Input → Message → RequestError → Bool → St → St
request_error b inp m r unhandled s =
    let terminal = is_pre_cer s.core.phase in
    let n : Notification = record no_notice {
      protocol = r.kind;
      result_code = r.code;
      closing = terminal;
      message = metadata (some m);
      diagnostic =
          if terminal && has_command (some m) capabilities_exchange
          then "reject-cer"
          else if unhandled
          then "unhandled"
          else "";
    } in
    if is_closing s.core.phase
    then discard inp r.kind r.code s
    else checked (b.build_error_answer m s.core.cfg.local r.code r.failed (is_protocol_code r.code))
        (λ err.
          if unhandled
          then amend (λ n. record n { diagnostic = "unhandled" })
              (failed_rejection inp r.kind r.code err s)
          else failed_rejection inp r.kind r.code err s)
        (λ answer. send b answer none true terminal false (some n) none (latch_terminal terminal s))

-- `c.unhandled(es, in)`.
unfoldable pub unhandled : Base → Input → St → St
unhandled b inp s =
    let dropped = discard inp unclassified 0 s in
    if not (is_open s.core.phase) || not s.core.ready
    then dropped
    else maybe inp.message dropped λ m. maybe m.header dropped λ h.
      if not (is_request h)
      then discard inp unexpected_message 0 s
      else if not (supports_application s.core.caps.local_applications h.application_id)
      then request_error b inp m
          (record { kind = unsupported_application; code = application_unsupported; failed = [] })
          true s
      else request_error b inp m
          (record { kind = unsupported_command; code = command_unsupported; failed = [] }) true s

-- The answering part of `externalMessageError`, for an error `me` and its notice.
unfoldable pub answer_external :
    Base → Input → Message → MessageError → Err → List Avp → Notification → St → St
answer_external b inp m me cause failed n s =
    let own =
      if s.core.cfg.close_cer_on_invalid_header_bits_only
      then has_command (some m) capabilities_exchange && me.result_code == invalid_hdr_bits
      else has_command (some m) capabilities_exchange && is_some (validate_header (some m)) in
    let closing = record n { closing = true; diagnostic = "external-reject-cer" } in
    let notice = if own then closing else n in
    checked
      (b.build_error_answer m s.core.cfg.local me.result_code failed
        (is_protocol_code me.result_code))
      (λ err.
        amend (λ f. record f { cause_error = err; diagnostic = "external-message-error" })
          (failed_rejection inp n.protocol me.result_code err s))
      (λ answer. send b answer none true own false (some notice) none (latch_terminal own s))

-- `c.externalMessageError(es, in, kind, originalFatal)`, for the message `m` of the input.
unfoldable pub external_message_error : Base → Input → Message → ProtocolErrorKind → Bool → St → St
external_message_error b inp m kind original_fatal s =
    let n : Notification = record no_notice {
      protocol = kind;
      message = metadata (some m);
      closing = original_fatal;
      diagnostic = "external-message-error";
      result_code = error_code inp.error;
      cause_error = cause_of inp.error;
    } in
    let dropped = emit (notify s.core n) (emit (effect s.core EffectKind.discard) s) in
    if is_closing s.core.phase
    then dropped
    else maybe m.header dropped λ h.
      if not (is_request h)
      then dropped
      else maybe inp.error dropped λ me.
        let direct = answer_external b inp m me (as_error me) (failed_list me.failed_avp) n s in
        if is_command (some m) || me.fatal
        then direct
        else maybe (request_rejection b s.core m h (some me)) direct λ r.
          answer_external b inp m
            (record { result_code = r.code; failed_avp = none; fatal = false; err = as_error me })
            (as_error me) r.failed (record n { protocol = r.kind; result_code = r.code }) s

-- `c.messageError(es, in, originalFatal)`, for the message, header and error of the input.
unfoldable pub message_error : Base → Input → Message → Header → MessageError → Bool → St → St
message_error b inp m h me original_fatal s =
    let kind =
      if is_some (validate_header (some m)) && not (fatal_header_error (some me))
      then invalid_header
      else malformed_message in
    let rejected = reject b inp m kind me s in
    if (s.core.passive_responder && inp.error_input)
      || (s.core.cfg.reader_owns_message_error_closure
          && (is_open s.core.phase || is_closing s.core.phase))
    then external_message_error b inp m kind original_fatal s
    else if is_closing s.core.phase
    then amend (λ n. record n { closing = original_fatal }) (discard inp kind me.result_code s)
    else if not (is_request h)
    then (if me.fatal then fail inp kind me.result_code s else discard inp kind me.result_code s)
    else if is_command (some m) || me.fatal
    then rejected
    else maybe (request_rejection b s.core m h (some me)) rejected
        (λ r. request_error b inp m r false s)

abbrev pub is_reopen : Watchdog.State → Bool
is_reopen Watchdog.reopen = true
is_reopen _ = false

-- `Admit`: the message goes on to the application.
unfoldable pub admit : Message → ℕ → St → St
admit m ownership s =
    emit (record (effect s.core EffectKind.admit) { message = some m; ownership = ownership }) s

-- The end of `receive`: a message that is no base command.
unfoldable pub receive_application : Base → Input → Message → Header → St → St
receive_application b inp m h s =
    let credited =
      if supports_application s.core.caps.local_applications h.application_id
      then valid_activity s
      else s in
    let active = valid_activity s in
    if s.core.cfg.watchdog && is_reopen s.core.wd.state
    then discard inp unclassified 0 s
    else if inp.unhandled && is_request h
    then unhandled b inp credited
    else if active.core.cfg.watchdog && is_reopen active.core.wd.state
    then discard inp unclassified 0 active
    else admit m inp.ownership active
