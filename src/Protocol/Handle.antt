-- ===== src/Protocol/Handle.antt =====
-- diam/internal/protocol/core.go: `HandleInto`, and `New`.
use go_diameter.Prelude.{ℕ, Bool, true, false, not, ◌&&◌, ◌||◌, none, some, List, ◌+◌}
use go_diameter.Prelude.Tests.{◌==◌, ltb, leb, if◌then◌else◌, maybe}
use go_diameter.Prelude.Lists.{length, get_elem?}
use go_diameter.Prelude.Maps.{lookup, remove}
use go_diameter.Diam.Codes.{
  capabilities_exchange, device_watchdog, handshake_state, malformed_message, invalid_header,
  unexpected_message, invalid_dwr, cer_rejected, invalid_hdr_bits,
}
use go_diameter.Diam.Header.{Header, is_request}
use go_diameter.Diam.Message.{Message, metadata}
use go_diameter.Base.Interface.{Base}
use go_diameter.Base.Settings.{checked}
use go_diameter.Protocol.Types.{
  EffectKind, Phase, Input, InputKind, no_input, Notification, no_notice, handshake_notice, Outcome,
  handshake_timer, watchdog_timer, same_connection,
}
use go_diameter.Protocol.Core.{Continuation, St, Effect, upd, effect, emit, is_over}
use go_diameter.Protocol.Send.{arm, stop, notify, discard, reserve, send}
use go_diameter.Protocol.Ending.{
  terminate, fail, reject, failed_rejection, is_pre_cer, is_wait_cea, is_open, is_closed,
}
use go_diameter.Protocol.Watch.{watchdog_up}
use go_diameter.Protocol.Timers.{expire}
use go_diameter.Protocol.Closing.{disconnect, freeze}
use go_diameter.Protocol.Handshake.{candidate, activate}
use go_diameter.Protocol.Results.{reserved, write_result}
use go_diameter.Protocol.Receive.{dwr, unhandled, is_initiator}
use go_diameter.Protocol.Dispatch.{receive}

-- `case Start`.
unfoldable pub start : Input → St → St
start inp s0 =
    let s = upd (λ c. record c { started = true }) s0 in
    let armed = arm handshake_timer inp.at s.core.cfg.handshake_timeout s in
    if s0.core.started || not (is_pre_cer s0.core.phase)
    then s0
    else if is_initiator s.core.cfg.role && inp.defer_cer
    then upd (λ c. record c { phase = Phase.wait_cea; cer_deferred = true }) s
    else if is_initiator s.core.cfg.role
    then reserve capabilities_exchange
        (upd (λ c. record c { phase = Phase.wait_cea; handshake_pending = true }) armed)
    else armed

-- `case BeginCER`.
unfoldable pub begin_cer : Input → St → St
begin_cer inp s =
    if not s.core.cer_deferred || not (is_wait_cea s.core.phase)
    then s
    else reserve capabilities_exchange (
        arm handshake_timer inp.at s.core.cfg.handshake_timeout
          (upd (λ c. record c { cer_deferred = false }) s))

-- `case StopSupervision`.
unfoldable pub stop_supervision : St → St
stop_supervision s = stop watchdog_timer (
    upd
      (λ c. record c {
        cfg = record c.cfg { watchdog = false };
        wd = record c.wd { pending = false };
        wd_next = none;
      })
      s)

-- `len(es) == start+1 && es[start].Kind == Hold`.
abbrev is_hold : EffectKind → Bool
is_hold EffectKind.hold = true
is_hold _ = false

abbrev held : ℕ → List Effect → Bool
held start es = length es == start + 1 && maybe (get_elem? es start) false (λ e. is_hold e.kind)

-- The bookkeeping of `case Receive`, and the watchdog expiry that waited for this receipt.
unfoldable pub received : Base → Input → St → St
received b inp s =
    let seen =
      if ltb s.core.received_sequence inp.sequence
      then upd (λ c. record c { received_sequence = inp.sequence }) s
      else s in
    maybe seen.core.deferred_expiry seen λ pending.
      if leb pending.after_receive seen.core.received_sequence
      then expire b pending (upd (λ c. record c { deferred_expiry = none }) seen)
      else seen

unfoldable pub handle_receive : Base → Input → St → St
handle_receive b inp s =
    let done = receive b inp s in if held (length s.out) done.out then done else received b inp done

-- Hooks cannot turn their continuation into another exchange.
abbrev same_exchange : Header → Header → Bool
same_exchange h original =
    h.command_code == original.command_code
    && (h.application_id == original.application_id
        && (same_bool (is_request h) (is_request original)
            && (h.hop_by_hop_id == original.hop_by_hop_id
                && h.end_to_end_id == original.end_to_end_id)))
  where
    same_bool : Bool → Bool → Bool
    same_bool true x = x
    same_bool false x = not x

-- `case Continue` behind the hook's message, with the saved input and both headers.
unfoldable pub continue_with : Base → Input → Bool → Message → Header → Header → St → St
continue_with b saved repeated m h original s =
    let is_dwr = original.command_code == device_watchdog in
    if not (same_exchange h original)
    then fail saved invalid_header invalid_hdr_bits s
    else if repeated
    then discard saved unexpected_message 0 s
    else if is_dwr && s.core.cfg.skip_dwr_grammar_after_hook
    then dwr b saved m s
    else maybe (b.validate_message m) (if is_dwr then dwr b saved m s else candidate b saved m s)
        (λ err.
          if original.command_code == capabilities_exchange
          then reject b saved m cer_rejected err s
          else discard saved invalid_dwr err.result_code s)

-- A paused message has a header, which `pauseHook` has read.
unfoldable pub resume : Base → Input → Continuation → St → St
resume b inp pending s =
    let failed = fail inp malformed_message 0 s in
    let message = maybe inp.message pending.input.message (λ m. some m) in
    let original = maybe pending.input.message none (λ m. m.header) in
    let saved = record pending.input { message = message } in
    if inp.transport_closed
    then terminate Phase.closed s
    else maybe message failed λ m.
      maybe m.header failed
        λ h. maybe original failed λ o. continue_with b saved pending.repeated_cer m h o s

-- `case Continue`.
unfoldable pub continue : Base → Input → St → St
continue b inp s0 = maybe (lookup inp.token s0.core.continuations) s0 λ pending.
    let s =
      upd
        (λ c. record c {
          continuations = remove inp.token c.continuations;
          hook_token = if c.hook_token == inp.token then 0 else c.hook_token;
        })
        s0 in
    resume b inp pending s

-- `case RejectCandidate`.
unfoldable pub reject_candidate : Base → Input → St → St
reject_candidate b inp s0 =
    let s = upd (λ c. record c { candidate_token = 0; terminal = true }) s0 in
    if s0.core.candidate_token == 0 || not (inp.token == s0.core.candidate_token)
    then s0
    else if inp.result_code == 0
    then terminate Phase.closed s0
    else maybe s.core.cer s λ m.
      let n : Notification = record no_notice {
        protocol = cer_rejected;
        result_code = inp.result_code;
        closing = true;
        message = metadata (some m);
      } in
      checked (b.build_cea m s.core.cfg.local inp.result_code)
        (λ err.
          failed_rejection (record inp { message = some m }) cer_rejected inp.result_code err s)
        (λ answer. send b answer none true true false (some n) none s)

-- `case ReleaseAdmission`.
unfoldable pub release_admission : Input → St → St
release_admission inp s0 =
    let s = upd (λ c. record c { ready = true; handshake_pending = false }) s0 in
    if not (is_open s0.core.phase)
      || (inp.token == 0
          || (not (inp.token == s0.core.admission)
              || (s0.core.ready || not s0.core.callback_ready)))
    then s0
    else watchdog_up inp (emit (notify s.core (record no_notice { kind = handshake_notice })) s)

-- `case TransportLost`.
unfoldable pub transport_lost : St → St
transport_lost s =
    if s.core.cfg.keep_cer_deadline_after_transport_loss && is_wait_cea s.core.phase
    then s
    else terminate Phase.closed s

-- The switch on the input's kind.
unfoldable pub handle_kind : Base → InputKind → Input → St → St
handle_kind b InputKind.start inp s = start inp s
handle_kind b InputKind.begin_cer inp s = begin_cer inp s
handle_kind b InputKind.stop_supervision inp s = stop_supervision s
handle_kind b InputKind.retire inp s = terminate Phase.retired s
handle_kind b InputKind.abort inp s =
    terminate Phase.closed (upd (λ c. record c { close_outcome = Outcome.cancelled }) s)
handle_kind b InputKind.transport_lost inp s = transport_lost s
handle_kind b InputKind.receive inp s = handle_receive b inp s
handle_kind b InputKind.continue inp s = continue b inp s
handle_kind b InputKind.activate inp s = activate b inp s
handle_kind b InputKind.reject_candidate inp s = reject_candidate b inp s
handle_kind b InputKind.release_admission inp s = release_admission inp s
handle_kind b InputKind.disconnect inp s = disconnect inp s
handle_kind b InputKind.frozen inp s = freeze b inp s
handle_kind b InputKind.unhandled inp s = unhandled b inp s
handle_kind b InputKind.timer_expired inp s = expire b inp s
handle_kind b InputKind.reserve_result inp s = reserved b inp s
handle_kind b InputKind.write_result inp s = write_result inp s

-- The late return of a CER's hook, on a connection that the handshake timeout closed.
unfoldable pub late_return : Input → St → St
late_return inp s0 =
    let s = upd (λ c. record c { late_cer_token = 0; late_cer = no_input }) s0 in
    let closed = emit (effect s.core EffectKind.close) s in
    if inp.transport_closed
    then s
    else emit
        (notify s.core (record no_notice {
          protocol = handshake_state;
          closing = true;
          message = metadata s0.core.late_cer.message;
          diagnostic = "late-cer";
        }))
        closed

unfoldable pub refresh_addresses : Input → St → St
refresh_addresses inp s =
    if inp.refresh_local_addresses
      && (is_pre_cer s.core.phase || (s.core.passive_responder && inp.error_input))
    then upd
        (λ c. record c {
          cfg = record c.cfg {
            local = record c.cfg.local { host_ip_addresses = inp.local_addresses };
          };
          caps = record c.caps {
            local = record c.caps.local { host_ip_addresses = inp.local_addresses };
          };
        })
        s
    else s

abbrev pub is_result : InputKind → Bool
is_result InputKind.reserve_result = true
is_result InputKind.write_result = true
is_result _ = false

abbrev is_continue : InputKind → Bool
is_continue InputKind.continue = true
is_continue _ = false

-- `c.HandleInto(in, dst)`: the state carries `dst` as its effects so far.
unfoldable pub handle : Base → Input → St → St
handle b inp s =
    if not (same_connection inp.connection s.core.cfg.connection)
    then s
    else if is_result inp.kind
    then handle_kind b inp.kind inp s
    else if is_closed s.core.phase
        && (is_continue inp.kind
            && (inp.token == s.core.late_cer_token && not (s.core.late_cer_token == 0)))
    then late_return inp s
    else if is_over s.core.phase
    then s
    else handle_kind b inp.kind inp (refresh_addresses inp s)
