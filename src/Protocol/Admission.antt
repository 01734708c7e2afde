-- ===== src/Protocol/Admission.antt =====
-- diam/internal/protocol/core.go, `New`; and admission.go: connections admitted by the frontend.
pub mod Laws
use go_diameter.Prelude.{
  ℕ, Bool, true, false, not, ◌&&◌, ◌||◌, Option, none, some, List, [], bit_and,
}
use go_diameter.Prelude.Tests.{◌==◌, if◌then◌else◌, maybe, is_some}
use go_diameter.Prelude.Int.{ℤ, pos, is_negative, is_below}
use go_diameter.Diam.Codes.{capabilities_exchange, invalid_avp_length}
use go_diameter.Diam.Error.{Err, text, no_error, is_error, MessageError}
use go_diameter.Diam.Header.{Header, is_request}
use go_diameter.Diam.Message.{Message}
use go_diameter.Base.Header.{validate_header, fatal_header_error, is_command}
use go_diameter.Base.Interface.{Base}
use go_diameter.Base.Settings.{Checked, ok, bad, checked}
use go_diameter.Watchdog
use go_diameter.Protocol.Types.{
  Config, Phase, Role, Input, no_input, no_handshake, no_reservation, no_timer, Outcome,
}
use go_diameter.Protocol.Core.{Core, Control, is_over}
use go_diameter.Protocol.Ending.{is_pre_cer, is_wait_cea, is_open, is_closing}
use go_diameter.Protocol.Identity.{negotiate}
use go_diameter.Protocol.Receive.{is_initiator, request_rejection}

-- `watchdog.MinimumTw`, six seconds in nanoseconds.
abbrev minimum_tw : ℕ
minimum_tw = 6_000_000_000

-- A cell of the store that no pointer names.
abbrev no_control : Control
no_control = record {
  command = 0;
  reservation = no_reservation;
  header = none;
  frame = none;
  logical = false;
  answered = false;
  released = false;
  written = false;
  writers = pos 0;
  attempts = 0;
}

-- The connection that `New` builds behind its checks.
unfoldable pub initial_core : Base → Config → Core
initial_core b cfg = record {
  handshake_pending = is_initiator cfg.role;
  callback_ready = false;
  continuations = [];
  close_outcome = Outcome.connection_closed;
  handshake = no_handshake;
  wd_next = none;
  received_sequence = 0;
  deferred_expiry = none;
  close_local = false;
  disconnect_waiting = false;
  peer_disconnect_selected = false;
  peer_cause = 0;
  peer_dpr = false;
  disconnect_token = 0;
  fence_token = 0;
  close_request = no_input;
  early_dpa = none;
  late_cer_token = 0;
  late_cer = no_input;
  cfg = cfg;
  phase = Phase.pre_cer;
  serial = 0;
  started = false;
  ready = false;
  terminal = false;
  frozen = false;
  cer_deferred = false;
  passive_responder = false;
  passive_cer = false;
  passive_watchdog = false;
  passive_present = false;
  candidate_token = 0;
  admission = 0;
  caps = record {
    local = cfg.local;
    cer = none;
    cea = none;
    local_applications = b.advertised_application_ids cfg.local;
    remote_applications = [];
    common_applications = [];
    parsed_applications = [];
    host = [];
    realm = [];
    tls = cfg.tls;
  };
  cer = none;
  completed_cea = none;
  hook_token = 0;
  timers = λ k. no_timer;
  reservations = [];
  controls = [];
  cells = λ p. no_control;
  next_cell = 0;
  operations = [];
  close_cause = 0;
  wd = record {
    state = if cfg.recovery then Watchdog.down else Watchdog.initial;
    pending = false;
    num_dwa = pos 0;
  };
}

-- `New(cfg)`. A role is one of the two that it accepts, and no settings hold the resolver that it
-- refuses.
unfoldable pub new : Base → Config → Checked Core
new b cfg =
    let invalid = b.validate_capabilities cfg.local in
    if cfg.connection.inst == 0
    then bad (text "protocol: invalid connection or role")
    else if is_negative cfg.handshake_timeout
        || (is_negative cfg.cer_interval || is_negative cfg.closing_timeout)
    then bad (text "protocol: negative timeout")
    else if cfg.watchdog && is_below cfg.watchdog_interval minimum_tw
    then bad (text "protocol: watchdog interval below minimum")
    else if is_error invalid
    then bad invalid
    else ok (initial_core b cfg)

pub record PeerClaims : Type 0 where
  pub host : List ℕ
  pub realm : List ℕ
  pub local_applications : Option (List ℕ)
  pub remote_applications : List ℕ
  pub cer : Bool

-- `c.ExternalAdmission()`.
abbrev pub external_admission : Core → Bool
external_admission c = c.passive_responder && c.passive_present

-- The claims are revoked: the capabilities exchange gates the connection again.
unfoldable pub revoke : Base → Core → Core
revoke b c =
    let phase = if is_open c.phase then Phase.pre_cer else c.phase in
    let gated = is_pre_cer phase in
    record c {
      passive_present = false;
      phase = phase;
      ready = if is_open c.phase then false else c.ready;
      caps = record c.caps {
        host = [];
        realm = [];
        remote_applications = [];
        common_applications = [];
        local_applications = if gated then b.advertised_application_ids c.cfg.local else none;
      };
      cfg = record c.cfg { watchdog = if gated then c.passive_watchdog else c.cfg.watchdog };
    }

-- The claims are live.
unfoldable pub adopt_claims : PeerClaims → Core → Core
adopt_claims peer c =
    let closing = is_closing c.phase in
    (negotiate peer.host peer.realm peer.remote_applications (record {
      out = [];
      core = record c {
        passive_present = true;
        passive_cer = peer.cer;
        phase = if closing then c.phase else Phase.opened;
        ready = if closing then c.ready else true;
        cfg = record c.cfg { watchdog = if closing then c.cfg.watchdog else false };
        caps = record c.caps { local_applications = peer.local_applications };
      };
    })).core

-- `c.RefreshAdmission(peer)`.
unfoldable pub refresh_admission : Base → Option PeerClaims → Core → Core
refresh_admission b peer c =
    if not c.passive_responder || is_over c.phase
    then c
    else maybe peer (revoke b c) (λ p. adopt_claims p c)

-- `NewAdmitted(cfg, peer)`.
unfoldable pub new_admitted : Base → Config → PeerClaims → Checked Core
new_admitted b cfg peer =
    checked (new b (record cfg { role = Role.responder })) (λ e. bad e)
      (λ c. ok (
        refresh_admission b (some peer)
          (record c { passive_responder = true; passive_watchdog = cfg.watchdog; started = true })))

abbrev is_cer : Header → Bool
is_cer h = h.command_code == capabilities_exchange && h.application_id == 0

-- `ValidateMessageError` for an error `me` and the header of the input's message `m`: whether the
-- error is answerable without a Failed-AVP.
abbrev answerable : Base → Core → Message → Header → MessageError → Bool
answerable b c m h me =
    let superseded =
      maybe (request_rejection b c m h (some me)) false (λ r. not (r.code == invalid_avp_length)) in
    external_admission c
    && ((is_cer h && not me.fatal)
        || ((is_some (validate_header (some m)) && not (fatal_header_error (some me)))
            || (not me.fatal && (not (is_command (some m)) && superseded))))

-- `c.ValidateMessageError(in)`.
unfoldable pub validate_message_error : Base → Input → Core → Err
validate_message_error b inp c =
    let requires = text "diameter result code requires Failed-AVP" in
    let nil_error = text "cannot answer a nil Diameter message error" in
    let exempt = maybe inp.message false λ m.
      maybe m.header true
        λ h. not (is_request h) || (is_cer h || is_some (validate_header (some m))) in
    if c.passive_responder && inp.transport_closed
    then no_error
    else if external_admission c && (is_closing c.phase && is_some inp.message)
    then no_error
    else maybe inp.error (if external_admission c && exempt then no_error else nil_error) (λ me.
      if is_wait_cea c.phase
        || (not (me.result_code == invalid_avp_length) || is_some me.failed_avp)
      then no_error
      else maybe inp.message no_error λ m. maybe m.header no_error λ h.
        if not (is_request h)
        then no_error
        else if answerable b c m h me
        then no_error
        else requires)
