-- ===== src/Protocol/Dispatch.antt =====
-- diam/internal/protocol/receive.go: `receive`, from its first guard to the message's handler.
use go_diameter.Prelude.{ℕ, Bool, true, false, not, ◌&&◌, ◌||◌, none, some}
use go_diameter.Prelude.Tests.{◌==◌, if◌then◌else◌, maybe, is_some}
use go_diameter.Prelude.Lists.{length}
use go_diameter.Diam.Codes.{
  capabilities_exchange, device_watchdog, disconnect_peer, unclassified, malformed_message,
  handshake_state, unexpected_message, invalid_request,
}
use go_diameter.Diam.Error.{MessageError}
use go_diameter.Diam.Header.{Header, is_request}
use go_diameter.Diam.Message.{Message}
use go_diameter.Base.Header.{validate_header, fatal_header_error, answer_error_kind}
use go_diameter.Base.Interface.{Base}
use go_diameter.Protocol.Types.{EffectKind, Input}
use go_diameter.Protocol.Core.{St, effect, emit}
use go_diameter.Protocol.Send.{discard, amend}
use go_diameter.Protocol.Ending.{fail, reject, is_pre_cer, is_wait_cea, is_open, is_closing}
use go_diameter.Protocol.Identity.{bound}
use go_diameter.Protocol.Watch.{activity, valid_activity, dwa}
use go_diameter.Protocol.Closing.{dpr, dpa, closing_allowed, mark_release}
use go_diameter.Protocol.Handshake.{candidate, cea}
use go_diameter.Protocol.Receive.{
  is_initiator, error_code, is_fatal, request_rejection, pause_hook, dwr, request_error,
  message_error, external_message_error, receive_application, admit,
}

-- An answer to a base command that the core does not own goes to a registered handler.
unfoldable pub admit_handled : Input → Message → St → St
admit_handled inp m s =
    if not inp.has_handler then discard inp unexpected_message 0 s else admit m 0 s

-- The switch on the base commands.
unfoldable pub receive_base : Base → Input → Message → Header → St → St
receive_base b inp m h s =
    if h.command_code == device_watchdog
    then (if is_request h
        then (if s.core.cfg.hooks then pause_hook inp m s else dwr b inp m s)
        else admit_handled inp m s)
    else if h.command_code == disconnect_peer
    then (if is_request h then dpr b inp m s else dpa b inp m s)
    else if h.command_code == capabilities_exchange
    then admit_handled inp m s
    else receive_application b inp m h s

unfoldable pub receive_command : Base → Input → Message → Header → St → St
receive_command b inp m h s =
    if h.application_id == 0 then receive_base b inp m h s else receive_application b inp m h s

-- A genuine CER, before or without the frontend's hook.
unfoldable pub receive_cer : Base → Input → Message → St → St
receive_cer b inp m s = if s.core.cfg.hooks then pause_hook inp m s else candidate b inp m s

-- `ReleaseDispatch` for everything but CER and the base DPR, at the first effect of the call.
unfoldable pub release_for : Header → ℕ → St → St
release_for h start s =
    if not (h.command_code == capabilities_exchange)
      && not (h.application_id == 0 && (h.command_code == disconnect_peer && is_request h))
    then mark_release start s
    else s

-- An invalid answer is discarded.
unfoldable pub discard_answer : Input → Header → MessageError → St → St
discard_answer inp h err s =
    let dropped =
      discard (record inp { error = some err }) (answer_error_kind h) err.result_code s in
    if s.core.passive_responder
    then amend (λ n. record n { diagnostic = "external-invalid-base" }) dropped
    else dropped

-- From the grammar check on; `start` is where the call's effects begin.
unfoldable pub receive_checked : Base → Input → Message → Header → ℕ → St → St
receive_checked b inp m h start s =
    maybe (b.validate_message m)
      (maybe (request_rejection b s.core m h none)
        (if is_pre_cer s.core.phase
          then receive_cer b inp m s
          else release_for h start (receive_command b inp m h s))
        (λ r. request_error b inp m r false s))
      (λ err.
        if not (is_request h)
        then discard_answer inp h err s
        else reject b inp m invalid_request err s)

-- A CER on an open connection.
unfoldable pub repeated_cer : Base → Input → Message → Header → St → St
repeated_cer b inp m h s =
    let valid =
      not (is_some inp.error)
      && (not (is_some (b.validate_message m))
          && (not (is_some (request_rejection b s.core m h none)) && bound b s.core m true)) in
    let credited = if valid then valid_activity s else s in
    if s.core.passive_responder
      && (s.core.passive_cer && (not (is_some inp.error) && not inp.error_input))
    then discard inp unclassified 0 s
    else if credited.core.cfg.hooks && (not (is_some inp.error) && not inp.error_input)
    then pause_hook inp m credited
    else discard inp unexpected_message 0 credited

-- The answer to a CER that has been answered already.
unfoldable pub duplicate_cea : Input → Header → St → St
duplicate_cea inp h s =
    let same =
      maybe s.core.completed_cea false
        λ own. own.hop_by_hop_id == h.hop_by_hop_id && own.end_to_end_id == h.end_to_end_id in
    amend (λ n. record n { diagnostic = if same then "duplicate-cea" else "cea-correlation" })
      (discard inp unexpected_message 0 s)

-- The input with the header's own error in place of a body's; the decoder's fatality stays.
unfoldable pub with_header_error : Input → Message → Input
with_header_error inp m = maybe (validate_header (some m)) inp λ e.
    if fatal_header_error inp.error
    then inp
    else record inp { error = some (record e { fatal = is_fatal inp.error }) }

-- From the receipt's activity on, for the input that carries the header's error.
unfoldable pub receive_active : Base → Input → Message → Header → Bool → ℕ → St → St
receive_active b inp m h original_fatal start s =
    let is_cer =
      h.command_code == capabilities_exchange && (is_request h && h.application_id == 0) in
    if is_open s.core.phase
      && (is_cer
          && (not (is_some (validate_header (some m)))
              && (not (fatal_header_error inp.error) && not (is_fatal inp.error))))
    then repeated_cer b inp m h s
    else maybe inp.error
        (if inp.error_input
          then discard inp malformed_message 0 s
          else if is_open s.core.phase
              && (s.core.cfg.watchdog && (h.command_code == device_watchdog && not (is_request h)))
          then mark_release start (dwa b inp m s)
          else receive_checked b inp m h start s)
        (λ me. message_error b inp m h me original_fatal s)

-- From the admission gate on.
unfoldable pub receive_gated : Base → Input → Message → Header → St → St
receive_gated b inp m h s =
    let active = activity inp s in
    let is_cea =
      h.command_code == capabilities_exchange && (h.application_id == 0 && not (is_request h)) in
    if not inp.error_input
      && (is_open s.core.phase
          && (is_initiator s.core.cfg.role && (is_cea && not (is_some inp.error))))
    then duplicate_cea inp h active
    else receive_active b (with_header_error inp m) m h (is_fatal inp.error) (length s.out) active

-- The code that a message refused in the current handshake state is reported with.
abbrev refusal_code : Input → Message → ℕ
refusal_code inp m = maybe inp.error (error_code (validate_header (some m))) (λ e. e.result_code)

-- A message that has a header.
unfoldable pub receive_message : Base → Input → Message → Header → St → St
receive_message b inp m h s =
    let is_cer_request = h.command_code == capabilities_exchange && is_request h in
    let pre_admission =
      is_pre_cer s.core.phase
      || (is_closing s.core.phase && (s.core.passive_responder && not s.core.passive_present)) in
    if is_wait_cea s.core.phase || (is_pre_cer s.core.phase && is_initiator s.core.cfg.role)
    then (if h.command_code == capabilities_exchange
          && (h.application_id == 0 && not (is_request h))
        then cea b inp m s
        else fail inp handshake_state (error_code inp.error) s)
    else if pre_admission && (not is_cer_request || not (s.core.candidate_token == 0))
    then fail inp handshake_state (refusal_code inp m) s
    else receive_gated b inp m h s

-- A nil or headerless message.
unfoldable pub receive_headerless : Base → Input → St → St
receive_headerless b inp s =
    let malformed = fail inp malformed_message 0 s in
    if s.core.cfg.ignore_bound_headerless_input
    then (if not (is_pre_cer s.core.phase)
          || (is_initiator s.core.cfg.role || not (s.core.candidate_token == 0))
        then s
        else fail inp handshake_state (error_code inp.error) s)
    else if s.core.passive_responder && (s.core.passive_present && inp.error_input)
    then maybe inp.message malformed
        (λ m. external_message_error b inp m malformed_message (is_fatal inp.error) s)
    else malformed

-- `Hold`: the runner keeps the input and replays it.
unfoldable pub hold : Input → St → St
hold inp s = emit (record (effect s.core EffectKind.hold) { input = some inp }) s

-- The message of the input, if it has a header.
unfoldable pub receive_unheld : Base → Input → St → St
receive_unheld b inp s =
    maybe inp.message (receive_headerless b inp s)
      λ m. maybe m.header (receive_headerless b inp s) λ h. receive_message b inp m h s

unfoldable pub receive_live : Base → Input → St → St
receive_live b inp s =
    if s.core.terminal || (is_closing s.core.phase && not (closing_allowed inp))
    then discard inp unclassified 0 s
    else if not (s.core.hook_token == 0) || (is_open s.core.phase && not s.core.ready)
    then hold inp s
    else receive_unheld b inp s

-- `c.receive(es, in)`.
unfoldable pub receive : Base → Input → St → St
receive b inp s =
    if s.core.passive_responder && (inp.error_input && inp.transport_closed)
    then discard inp unclassified 0 s
    else if s.core.passive_responder
        && (inp.error_input && (not (is_some inp.message) && is_closing s.core.phase))
    then fail inp malformed_message 0 s
    else receive_live b inp s
