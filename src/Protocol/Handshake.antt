-- ===== src/Protocol/Handshake.antt =====
-- diam/internal/protocol/handshake.go: the capabilities exchange; and core.go's `Snapshot`.
use go_diameter.Prelude.{ℕ, true, false, not, ◌&&◌, ◌||◌, Option, none, some, List, [], ◌∷◌, ◌++◌}
use go_diameter.Prelude.Tests.{◌==◌, if◌then◌else◌, maybe, is_some}
use go_diameter.Diam.Avp.{Avp}
use go_diameter.Diam.Codes.{
  capabilities_exchange, device_watchdog, disconnect_peer, success, unable_to_comply,
  no_common_application, no_common_security, unexpected_message, cea_rejected, cer_rejected,
  invalid_header, reply_failure,
}
use go_diameter.Diam.Error.{
  Err, text, unexpected_peer, is_error, as_error, as_message_error, as_failed_result_code,
  is_no_common_application, is_no_common_security,
}
use go_diameter.Diam.Message.{Message, metadata}
use go_diameter.Base.Header.{validate_header, answer_error_kind, fatal_header_error}
use go_diameter.Base.Interface.{Base}
use go_diameter.Base.Request.{elements}
use go_diameter.Base.Settings.{Settings, Cer, Cea, checked}
use go_diameter.Watchdog
use go_diameter.Protocol.Types.{
  EffectKind, Phase, Input, Notification, no_notice, handshake_timer, retry_timer,
}
use go_diameter.Protocol.Core.{
  Core, St, ControlSnapshot, Snapshot, Effect, upd, next_token, token, effect, emit,
}
use go_diameter.Protocol.Send.{stop, discard, amend, settle, send, matches, control_at, control_of}
use go_diameter.Protocol.Ending.{fail, reject, failed_rejection, latch_terminal, is_pre_cer}
use go_diameter.Protocol.Identity.{equal_identity, negotiate}
use go_diameter.Protocol.Watch.{consumed}

abbrev control_snapshot : Core → ℕ → List ControlSnapshot
control_snapshot c command = maybe (control_of c command) [] λ r.
    record {
      command = command;
      reservation = r.reservation;
      logical = r.logical;
      answered = r.answered;
      writers = r.writers;
    }
    ∷ []

-- `c.Snapshot()`.
unfoldable pub snapshot : Core → Snapshot
snapshot c = record {
  phase = c.phase;
  candidate = c.candidate_token;
  admission = c.admission;
  ready = c.ready;
  frozen = c.frozen;
  capabilities = c.caps;
  wd = c.wd;
  timers = c.timers;
  controls =
      control_snapshot c capabilities_exchange
      ++ (control_snapshot c device_watchdog ++ control_snapshot c disconnect_peer);
  peer_cause = c.peer_cause;
  peer_dpr = c.peer_dpr;
  handshake = c.handshake;
}

-- An effect that names a token and carries a snapshot.
abbrev with_snapshot : EffectKind → ℕ → Core → Effect
with_snapshot kind t c = record (effect c kind) { token = t; snapshot = some (snapshot c) }

-- The settings that `AdvertisedApplicationIDs` reads of a parsed offer.
abbrev offer : Settings → Option (List Avp) → Option (List Avp) → Option (List Avp) → Settings
offer zero_settings auth acct vendor = record zero_settings {
  auth_application_id = auth;
  acct_application_id = acct;
  vendor_specific_application_id = vendor;
}

-- `base.Settings{}`.
abbrev no_settings : Settings
no_settings = record {
  origin_host = [];
  origin_realm = [];
  vendor_id = 0;
  product_name = [];
  origin_state_id = 0;
  firmware_revision = 0;
  host_ip_addresses = [];
  supported_vendor_id = [];
  acct_application_id = none;
  auth_application_id = none;
  vendor_specific_application_id = none;
  inband_security_id = 0;
  applications = [];
}

-- `c.rejectCER(es, in, err)`, for the message `m` of the input.
unfoldable pub reject_cer : Base → Input → Message → Err → St → St
reject_cer b inp m err s =
    let code =
      if is_no_common_security err
      then no_common_security
      else if is_no_common_application err
      then no_common_application
      else unable_to_comply in
    let n : Notification = record no_notice {
      protocol = cer_rejected;
      result_code = code;
      reply_code = code;
      closing = true;
      message = metadata (some m);
      cause_error = err;
    } in
    maybe (as_message_error err)
      (checked (b.build_cea m s.core.cfg.local code)
        (λ failed. failed_rejection inp cer_rejected code failed s)
        (λ answer. send b answer none true true false (some n) none (latch_terminal true s)))
      (λ me. reject b inp m cer_rejected me s)

-- What `candidate` records of a validated CER.
unfoldable pub adopt_cer : Base → Message → Cer → St → St
adopt_cer b m parsed s =
    let offered =
      offer no_settings parsed.auth_application_id parsed.acct_application_id
        parsed.vendor_specific_application_id in
    let negotiated =
      negotiate parsed.origin_host parsed.origin_realm
        (elements (b.advertised_application_ids offered))
        (upd
          (λ c. record c {
            caps = record c.caps { cer = some parsed; parsed_applications = parsed.app_id };
          })
          s) in
    upd (λ c. record c { candidate_token = next_token negotiated.core; cer = some m })
      (token negotiated)

-- `c.candidate(es, in)`, for the message `m` of the input.
unfoldable pub candidate : Base → Input → Message → St → St
candidate b inp m s0 =
    let s = upd (λ c. record c { passive_responder = false }) s0 in
    let (parsed, err) = b.parse_cer m s.core.cfg.tls s.core.caps.local_applications in
    let adopted = adopt_cer b m parsed s in
    let validated =
      with_snapshot EffectKind.validated_cer adopted.core.candidate_token adopted.core in
    let expected = s.core.cfg.expected_host in
    let other_host =
      not (equal_identity expected []) && not (equal_identity expected parsed.origin_host) in
    if is_error err
    then reject_cer b inp m err s
    else if other_host
    then reject_cer b inp m (text "unexpected remote host") s
    else if s.core.cfg.candidate_deadline_owned_by_peer
    then emit validated (stop handshake_timer adopted)
    else emit validated adopted

-- Opening the connection under a fresh admission token, and publishing it.
unfoldable pub grant : St → St
grant s =
    upd
      (λ c. record c {
        phase = Phase.opened;
        handshake_pending = true;
        admission = next_token s.core;
      })
      (token s)

unfoldable pub publish : St → St
publish s = emit (with_snapshot EffectKind.publish s.core.admission s.core) s

-- `c.activate(es, in)` behind its guard: the candidate is taken,
unfoldable pub take_candidate : Input → St → St
take_candidate inp s =
    if inp.recovery
    then upd (λ c. record c { candidate_token = 0; wd = record c.wd { state = Watchdog.down } }) s
    else upd (λ c. record c { candidate_token = 0 }) s

-- and the CER that `candidate` kept is answered.
unfoldable pub answer_candidate : Base → Input → St → St
answer_candidate b inp s = maybe s.core.cer s λ m.
    checked (b.build_cea m s.core.cfg.local success)
      (λ err. fail (record inp { message = some m; err = err }) reply_failure success s)
      (λ answer. send b answer none true false true none (some m) s)

unfoldable pub open_candidate : Base → Input → St → St
open_candidate b inp s =
    answer_candidate b inp (publish (stop handshake_timer (grant (take_candidate inp s))))

unfoldable pub activate : Base → Input → St → St
activate b inp s =
    if not (is_pre_cer s.core.phase)
      || (s.core.candidate_token == 0 || not (inp.token == s.core.candidate_token))
    then s
    else open_candidate b inp s

-- `c.handshakeReady()`, appended.
unfoldable pub handshake_ready : St → St
handshake_ready s =
    let ready = upd (λ c. record c { callback_ready = true }) s in
    emit (with_snapshot EffectKind.handshake_ready ready.core.admission ready.core) ready

unfoldable pub set_handshake : Err → Option Cea → St → St
set_handshake err cea s = upd (λ c. record c { handshake = record { err = err; cea = cea } }) s

-- The success path of `cea`, for the control at `p`: the exchange is closed,
unfoldable pub close_exchange : Message → ℕ → St → St
close_exchange m p s =
    stop retry_timer (stop handshake_timer (settle p (emit (consumed s.core m) s)))

-- and the peer's capabilities are recorded, before the connection opens and is published.
unfoldable pub adopt_cea : Base → Message → Cea → St → St
adopt_cea b m parsed s =
    let offered =
      offer no_settings parsed.auth_application_id parsed.acct_application_id
        parsed.vendor_specific_application_id in
    negotiate parsed.origin_host parsed.origin_realm
      (elements (b.advertised_application_ids offered))
      (upd
        (λ c. record c {
          caps = record c.caps { cea = some parsed; parsed_applications = parsed.app_id };
          completed_cea = m.header;
        })
        s)

unfoldable pub accept_cea : Base → Message → Cea → ℕ → St → St
accept_cea b m parsed p s =
    handshake_ready (publish (grant (adopt_cea b m parsed (close_exchange m p s))))

-- `cea` behind its correlation, for the control at `p`.
unfoldable pub correlated_cea : Base → Input → Message → ℕ → St → St
correlated_cea b inp m p s0 =
    let (parsed, err) = b.parse_cea m s0.core.caps.local_applications in
    let s = set_handshake err (some parsed) s0 in
    let code =
      maybe (as_failed_result_code err) (maybe (as_message_error err) 0 (λ e. e.result_code))
        (λ n. n) in
    let expected = s.core.cfg.expected_host in
    if is_error err
    then fail inp cea_rejected code s
    else if not (equal_identity expected []) && not (equal_identity expected parsed.origin_host)
    then fail inp cea_rejected 0 (set_handshake unexpected_peer (some parsed) s)
    else accept_cea b m parsed p s

-- `c.cea(es, in)`, for the message `m` of the input.
unfoldable pub cea : Base → Input → Message → St → St
cea b inp m s =
    let fatal_input = maybe inp.error false (λ e. e.fatal) in
    let uncorrelated =
      if fatal_input && not s.core.cfg.reader_owns_message_error_closure
      then fail inp unexpected_message 0 s
      else amend (λ n. record n { closing = fatal_input }) (discard inp unexpected_message 0 s) in
    let invalid_kind =
      maybe m.header cea_rejected
        λ h. if is_some (validate_header (some m)) then invalid_header else answer_error_kind h in
    let correlated =
      maybe (control_at s.core capabilities_exchange) uncorrelated
        λ p. correlated_cea b inp m p s in
    if not (fatal_header_error inp.error)
      && not (matches (control_of s.core capabilities_exchange) (some m))
    then uncorrelated
    else maybe inp.error
        (maybe (b.validate_message m) correlated
          (λ e. fail inp invalid_kind e.result_code (set_handshake (as_error e) none s)))
        (λ e. fail inp cea_rejected e.result_code (set_handshake (as_error e) none s))
