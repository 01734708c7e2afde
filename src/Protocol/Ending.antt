-- ===== src/Protocol/Ending.antt =====
-- diam/internal/protocol/core.go: ending a connection, and rejecting a request with an answer.
use go_diameter.Prelude.{ℕ, Bool, true, false, not, ◌&&◌, ◌||◌, Option, none, some, List, [], ◌∷◌}
use go_diameter.Prelude.Tests.{◌==◌, leb, ltb, if◌then◌else◌, maybe, is_some}
use go_diameter.Prelude.Lists.{sort}
use go_diameter.Prelude.Maps.{lookup, keys}
use go_diameter.Diam.Codes.{
  ProtocolErrorKind, handshake_timeout, disconnect_timeout, watchdog_timeout, reply_failure,
  reply_failed, capabilities_exchange, device_watchdog, disconnect_peer,
}
use go_diameter.Diam.Error.{Err, MessageError, as_error}
use go_diameter.Diam.Message.{Message, metadata}
use go_diameter.Base.Header.{validate_header}
use go_diameter.Base.Interface.{Base}
use go_diameter.Base.Request.{failed_list}
use go_diameter.Base.Settings.{checked}
use go_diameter.Watchdog
use go_diameter.Protocol.Types.{
  EffectKind, Phase, Input, Notification, no_notice, handshake_notice, disconnect_notice, Outcome,
  handshake_timer, retry_timer, watchdog_timer, closing_timer, receiver_disconnect_timer,
}
use go_diameter.Protocol.Core.{St, upd, effect, emit, set_control}
use go_diameter.Protocol.Send.{stop, notify, discard, amend, release, send, control_at}

abbrev pub is_initial : Watchdog.State → Bool
is_initial Watchdog.initial = true
is_initial _ = false

-- The watchdog's part of `terminate`.
abbrev disconnected : Bool → Watchdog.Machine → Watchdog.Machine
disconnected watched m =
    if watched && not (is_initial m.state)
    then record ((Watchdog.step m Watchdog.connection_down).0) { pending = false }
    else m

-- The assignments at the head of `terminate`.
unfoldable pub reset_for : Phase → St → St
reset_for phase s =
    upd
      (λ c. record c {
        phase = phase;
        early_dpa = none;
        candidate_token = 0;
        hook_token = 0;
        admission = 0;
        ready = false;
        callback_ready = false;
        continuations = [];
        cer = none;
        wd_next = none;
        deferred_expiry = none;
        wd = disconnected c.cfg.watchdog c.wd;
      })
      s

unfoldable pub stop_all : St → St
stop_all s =
    stop receiver_disconnect_timer
      (stop closing_timer (stop watchdog_timer (stop retry_timer (stop handshake_timer s))))

-- The second loop of `terminate`, at one command.
unfoldable pub drop_control : ℕ → St → St
drop_control command s =
    maybe (control_at s.core command) s
      λ p. release p (set_control p (λ r. record r { logical = false }) s)

-- The last loop of `terminate`.
unfoldable pub cancel_sends : List ℕ → St → St
cancel_sends [] s = s
cancel_sends (t ∷ ts) s =
    cancel_sends ts (emit (record (effect s.core EffectKind.cancel_send) { token = t }) s)

unfoldable pub finish_handshake : St → St
finish_handshake s =
    if s.core.handshake_pending
    then emit
        (notify s.core
          (record no_notice { kind = handshake_notice; outcome = s.core.close_outcome }))
        (upd (λ c. record c { handshake_pending = false }) s)
    else s

unfoldable pub finish_disconnect : St → St
finish_disconnect s =
    if s.core.disconnect_waiting
    then emit
        (record (notify s.core
          (record no_notice { kind = disconnect_notice; outcome = s.core.close_outcome })) {
            token = s.core.disconnect_token;
          })
        (upd (λ c. record c { disconnect_waiting = false }) s)
    else s

abbrev pub is_closed : Phase → Bool
is_closed Phase.closed = true
is_closed _ = false

unfoldable pub emit_close : Phase → St → St
emit_close phase s = if is_closed phase then emit (effect s.core EffectKind.close) s else s

unfoldable pub terminate : Phase → St → St
terminate phase s =
    let dropped = drop_control disconnect_peer (
      drop_control device_watchdog
        (drop_control capabilities_exchange (stop_all (reset_for phase s)))) in
    finish_disconnect (
      finish_handshake
        (emit_close phase (cancel_sends (sort (keys dropped.core.operations)) dropped)))

abbrev is_disconnect_timeout : ProtocolErrorKind → Bool
is_disconnect_timeout disconnect_timeout = true
is_disconnect_timeout _ = false

abbrev is_handshake_timeout : ProtocolErrorKind → Bool
is_handshake_timeout handshake_timeout = true
is_handshake_timeout _ = false

abbrev is_timeout : ProtocolErrorKind → Bool
is_timeout handshake_timeout = true
is_timeout disconnect_timeout = true
is_timeout watchdog_timeout = true
is_timeout _ = false

abbrev is_reply_failure : ProtocolErrorKind → Bool
is_reply_failure reply_failure = true
is_reply_failure _ = false

abbrev pub has_command : Option Message → ℕ → Bool
has_command m command = maybe m false λ m. maybe m.header false λ h. h.command_code == command

-- A CER whose hook is still running when the handshake times out is kept for its late return.
unfoldable pub keep_late_cer : ProtocolErrorKind → St → St
keep_late_cer kind s =
    if is_handshake_timeout kind && not (s.core.hook_token == 0)
    then maybe (lookup s.core.hook_token s.core.continuations) s (λ saved.
      if has_command saved.input.message capabilities_exchange
      then upd (λ c. record c { late_cer_token = c.hook_token; late_cer = saved.input }) s
      else s)
    else s

unfoldable pub note_timeout : ProtocolErrorKind → St → St
note_timeout kind s =
    if is_timeout kind then upd (λ c. record c { close_outcome = Outcome.timed_out }) s else s

-- The notification of `fail`.
abbrev failure_notice : Input → ProtocolErrorKind → ℕ → Bool → Notification
failure_notice inp kind code local_timeout =
    let n : Notification = record no_notice {
      protocol = kind;
      result_code = code;
      closing = true;
      message = metadata inp.message;
      cause_error = maybe inp.error inp.err as_error;
      diagnostic = if local_timeout then "local-disconnect" else "";
    } in
    if is_reply_failure kind
    then record n { result_code = 0; reply_code = code; reply = reply_failed }
    else n

-- `c.fail(es, in, kind, code)`.
unfoldable pub fail : Input → ProtocolErrorKind → ℕ → St → St
fail inp kind code s =
    let local_timeout =
      is_disconnect_timeout kind
      && (s.core.close_local || inp.timer == receiver_disconnect_timer) in
    let frame = maybe (control_at s.core disconnect_peer) none (λ p. (s.core.cells p).frame) in
    let ended = terminate Phase.closed (note_timeout kind (keep_late_cer kind s)) in
    emit
      (record (notify ended.core (failure_notice inp kind code local_timeout)) {
        message = if local_timeout then frame else none;
      })
      ended

abbrev pub is_pre_cer : Phase → Bool
is_pre_cer Phase.pre_cer = true
is_pre_cer _ = false

abbrev pub is_wait_cea : Phase → Bool
is_wait_cea Phase.wait_cea = true
is_wait_cea _ = false

abbrev pub is_open : Phase → Bool
is_open Phase.opened = true
is_open _ = false

abbrev pub is_closing : Phase → Bool
is_closing Phase.closing = true
is_closing _ = false

-- `c.failedRejection(es, in, kind, code, err)`.
unfoldable pub failed_rejection : Input → ProtocolErrorKind → ℕ → Err → St → St
failed_rejection inp kind code err s =
    let initial_cer = is_pre_cer s.core.phase && has_command inp.message capabilities_exchange in
    let ended = terminate Phase.closed s in
    emit
      (notify ended.core (record no_notice {
        protocol = kind;
        result_code = code;
        reply = reply_failed;
        reply_code = code;
        closing = true;
        message = metadata inp.message;
        reply_error = err;
        diagnostic = if initial_cer then "reject-cer" else "";
      }))
      ended

-- `code >= 3000 && code < 4000`.
abbrev pub is_protocol_code : ℕ → Bool
is_protocol_code code = leb 3000 code && ltb code 4000

-- `c.terminal = true`, where `b` says so.
unfoldable pub latch_terminal : Bool → St → St
latch_terminal b s = if b then upd (λ c. record c { terminal = true }) s else s

-- `c.reject(es, in, kind, me)`, for the message `m` of the input.
unfoldable pub reject : Base → Input → Message → ProtocolErrorKind → MessageError → St → St
reject b inp m kind me s =
    let protocol_error = is_protocol_code me.result_code in
    let bad_cer =
      has_command (some m) capabilities_exchange && is_some (validate_header (some m)) in
    let terminal = is_pre_cer s.core.phase || me.fatal || bad_cer in
    let bad_header = is_some (validate_header (some m)) in
    let noted =
      has_command (some m) capabilities_exchange && (is_pre_cer s.core.phase || bad_header) in
    let n : Notification = record no_notice {
      protocol = kind;
      result_code = me.result_code;
      closing = terminal;
      message = metadata (some m);
      cause_error = as_error me;
      diagnostic = if noted then "reject-cer" else "";
    } in
    if is_closing s.core.phase
    then amend (λ n. record n { cause_error = as_error me }) (discard inp kind me.result_code s)
    else checked
        (b.build_error_answer m s.core.cfg.local me.result_code (failed_list me.failed_avp)
          protocol_error)
        (λ err.
          amend (λ n. record n { cause_error = as_error me })
            (failed_rejection inp kind me.result_code err s))
        (λ answer. send b answer none true terminal false (some n) none (latch_terminal terminal s))
