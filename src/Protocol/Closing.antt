-- ===== src/Protocol/Closing.antt =====
-- diam/internal/protocol/closing.go: disconnecting from a peer, asked for by either side.
use go_diameter.Prelude.{ℕ, Bool, true, false, not, ◌&&◌, ◌||◌, none, some}
use go_diameter.Prelude.Tests.{◌==◌, leb, if◌then◌else◌, maybe}
use go_diameter.Prelude.Lists.{length, modify}
use go_diameter.Prelude.Int.{is_nonpositive, equals}
use go_diameter.Diam.Codes.{
  capabilities_exchange, device_watchdog, disconnect_peer, success, unable_to_comply, unclassified,
  invalid_dpr, invalid_dpa, reply_failure, unexpected_message, peer_rejected,
}
use go_diameter.Diam.Error.{text}
use go_diameter.Diam.Header.{is_request}
use go_diameter.Diam.Message.{Message, metadata}
use go_diameter.Base.Disconnect.{validate_dpr, validate_dpa}
use go_diameter.Base.Interface.{Base}
use go_diameter.Base.Settings.{checked}
use go_diameter.Protocol.Types.{
  EffectKind, Phase, Input, no_input, Notification, no_notice, disconnect_notice,
  peer_disconnect_notice, Outcome, watchdog_timer, closing_timer, receiver_disconnect_timer,
}
use go_diameter.Protocol.Core.{St, upd, next_token, token, effect, emit}
use go_diameter.Protocol.Send.{
  arm, stop, notify, discard, amend, reserve, settle, send, matches, control_at, control_of,
}
use go_diameter.Protocol.Ending.{terminate, fail, is_open, is_closing}
use go_diameter.Protocol.Identity.{bound}
use go_diameter.Protocol.Watch.{valid_activity, discard_cause}

-- The waiting caller of a local disconnect.
unfoldable pub await_disconnect : Bool → Input → St → St
await_disconnect local inp s =
    if local
    then upd (λ c. record c { disconnect_waiting = true; disconnect_token = inp.token }) s
    else s

-- `c.beginClosing(es, in, local)`.
unfoldable pub begin_closing : Input → Bool → St → St
begin_closing inp local s =
    let fence = next_token s.core in
    let closing =
      upd
        (λ c. record c {
          phase = Phase.closing;
          ready = false;
          close_local = local;
          close_request = inp;
          close_cause = inp.cause;
          fence_token = fence;
        })
        (token s) in
    let duration = if is_nonpositive inp.timeout then s.core.cfg.closing_timeout else inp.timeout in
    let waiting =
      arm closing_timer inp.at duration
        (stop watchdog_timer (await_disconnect local inp closing)) in
    emit (record (effect waiting.core EffectKind.freeze_admission) { token = fence }) waiting

-- `c.answerDPR(es, in, first)`, for the message `m` of the input.
unfoldable pub answer_dpr : Base → Input → Message → Bool → St → St
answer_dpr b inp m first s =
    let result = if inp.in_flight then unable_to_comply else success in
    let notice : Notification = record no_notice {
      kind = peer_disconnect_notice;
      cause = s.core.peer_cause;
      reply_code = result;
      message = metadata (some m);
    } in
    checked (b.build_dpa_result m s.core.cfg.local result) (λ err. fail inp reply_failure result s)
      (λ answer.
        if first
        then send b answer none true false false (some notice) (some m)
            (upd (λ c. record c { peer_disconnect_selected = true }) s)
        else send b answer none true false false none (some m) s)

-- `c.freeze(es, in)`. A request kept by `beginClosing` for a peer's DPR has its message.
unfoldable pub freeze : Base → Input → St → St
freeze b inp s =
    let frozen = upd (λ c. record c { frozen = true; fence_token = 0 }) s in
    let saved = record s.core.close_request { in_flight = inp.in_flight } in
    let cleared = upd (λ c. record c { close_request = no_input }) frozen in
    if not (is_closing s.core.phase) || (s.core.frozen || not (inp.token == s.core.fence_token))
    then s
    else if s.core.close_local
    then reserve disconnect_peer frozen
    else maybe saved.message cleared (λ m. answer_dpr b saved m true cleared)

-- `c.disconnect(es, in)`.
unfoldable pub disconnect : Input → St → St
disconnect inp s =
    let refused = λ (o : Outcome).
      emit (notify s.core (record no_notice { kind = disconnect_notice; outcome = o })) s in
    let taken =
      upd
        (λ c. record c {
          disconnect_waiting = true;
          disconnect_token = inp.token;
          close_cause = inp.cause;
        })
        s in
    if s.core.disconnect_waiting
    then refused Outcome.already_pending
    else if s.core.cfg.local_disconnect_in_closing
        && (is_closing s.core.phase
            && (s.core.frozen && (not s.core.close_local && leb inp.cause 2)))
    then reserve disconnect_peer (arm receiver_disconnect_timer inp.at inp.timeout taken)
    else if not (is_open s.core.phase) || not (leb inp.cause 2)
    then refused Outcome.not_open
    else begin_closing inp true s

-- `out[start].ReleaseDispatch = true` where the call appended anything.
unfoldable pub mark_release : ℕ → St → St
mark_release start s = record s {
  out = modify (λ e. record e { release_dispatch = true }) start s.out;
}

-- The first validated DPR decides on reconnect suppression.
unfoldable pub decide_peer : ℕ → St → St
decide_peer cause s =
    if s.core.peer_dpr
    then s
    else emit (record (effect s.core EffectKind.peer_disconnect_decision) { cause = cause })
        (upd (λ c. record c { peer_dpr = true; peer_cause = cause }) s)

-- `c.dpr(es, in)` behind its validation, for the message `m` of the input, whose cause is set.
unfoldable pub accept_dpr : Base → Input → Message → St → St
accept_dpr b inp m s =
    let decided = decide_peer inp.cause s in
    if not (is_closing decided.core.phase)
    then begin_closing inp false (valid_activity decided)
    else if not decided.core.frozen
    then discard inp unclassified 0 decided
    else answer_dpr b inp m (not decided.core.peer_disconnect_selected) decided

unfoldable pub dpr : Base → Input → Message → St → St
dpr b inp m s =
    checked (validate_dpr m) (λ err. discard_cause inp invalid_dpr err s)
      λ cause.
        if not (bound b s.core m false)
        then discard_cause inp invalid_dpr (text "DPR Origin-Host does not match the admitted peer")
            s
        else mark_release (length s.out) (accept_dpr b (record inp { cause = cause }) m s)

-- `c.completeDPA(es, in, result)`.
unfoldable pub complete_dpa : Input → ℕ → St → St
complete_dpa inp result s =
    let ended =
      terminate Phase.closed
        (upd (λ c. record c { early_dpa = none; disconnect_waiting = false }) s) in
    let told =
      emit
        (record (notify ended.core (record no_notice {
          kind = disconnect_notice;
          result_code = result;
          outcome = Outcome.completed;
        })) { token = ended.core.disconnect_token })
        ended in
    if result == success
    then told
    else emit
        (notify told.core (record no_notice {
          protocol = peer_rejected;
          result_code = result;
          closing = true;
          message = metadata inp.message;
        }))
        told

-- `c.dpa(es, in)` behind its checks, for the control at `p`.
unfoldable pub accept_dpa : Input → ℕ → ℕ → St → St
accept_dpa inp p result s =
    let settled = settle p s in
    let r = settled.core.cells p in
    if not s.core.cfg.queue_writes && (not r.written && not (equals r.writers 0))
    then upd (λ c. record c { early_dpa = some (record inp { result_code = result }) }) settled
    else complete_dpa inp result settled

-- `c.dpa(es, in)`, for the message `m` of the input.
unfoldable pub dpa : Base → Input → Message → St → St
dpa b inp m s =
    let dropped = discard inp unexpected_message 0 s in
    let uncorrelated = maybe (control_of s.core disconnect_peer) dropped λ r.
      if r.logical
      then amend (λ n. record n { diagnostic = "dpa-correlation" }) dropped
      else dropped in
    let other_host = amend (λ n. record n { diagnostic = "dpa-host" }) dropped in
    maybe (control_at s.core disconnect_peer) uncorrelated λ p.
      if not (matches (control_of s.core disconnect_peer) (some m))
      then uncorrelated
      else checked (validate_dpa m) (λ err. discard_cause inp invalid_dpa err s)
          (λ result. if not (bound b s.core m false) then other_host else accept_dpa inp p result s)

-- `c.closingAllowed(in)`.
unfoldable pub closing_allowed : Input → Bool
closing_allowed inp = maybe inp.message false λ m. maybe m.header false λ h.
    if h.application_id == 0 && h.command_code == disconnect_peer
    then true
    else if h.application_id == 0
        && (h.command_code == capabilities_exchange || h.command_code == device_watchdog)
    then false
    else not (is_request h) && not (inp.ownership == 0)
