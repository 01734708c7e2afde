-- ===== src/Examples/Engine.antt =====
-- The protocol core's theorems at concrete connections.
use go_diameter.Prelude.{refl, true, false, none, some, [], ◌∷◌, ◌≡◌, ◌≢◌, arith}
use go_diameter.Prelude.Tests.{if◌then◌else◌, maybe}
use go_diameter.Prelude.Lists.{get_elem?, contains, sort, All}
use go_diameter.Prelude.Maps.{lookup, keys}
use go_diameter.Diam.Header.{has_flag}
use go_diameter.Base.Header.{validate_header}
use go_diameter.Base.Request.{supports_application, validate_request}
use go_diameter.Protocol.Types.{EffectKind, InputKind, Phase, same_connection}
use go_diameter.Protocol.Core.{Core, St, Effect, effect, emit, is_over}
use go_diameter.Protocol.Watch.{activity, valid_activity}
use go_diameter.Protocol.Closing.{mark_release}
use go_diameter.Protocol.Receive.{receive_application, admit}
use go_diameter.Protocol.Ending.{
  terminate, fail, keep_late_cer, note_timeout, reset_for, stop_all, drop_control, cancel_sends,
  emit_close, finish_handshake, finish_disconnect,
}
use go_diameter.Protocol.Send.{stop, notify, control_at}
use go_diameter.Protocol.Dispatch.{
  receive_command, release_for, receive_checked, with_header_error, receive_active, receive_gated,
  receive_message, receive_unheld, receive_live, receive,
}
use go_diameter.Protocol.Results.{complete_queued_reply}
use go_diameter.Protocol.Handle.{received, handle_receive, handle_kind, refresh_addresses, handle}
use go_diameter.Protocol.Tracking.{armed}
use go_diameter.Protocol.Executor.{run, at_rest, run-armed, Admissible, handle_admits}
use go_diameter.Protocol.Over.{is_final, run-over}
use go_diameter.Protocol.Shutdown.{terminate_clears}
use go_diameter.Protocol.Replies.{handle-complete_queued_reply}
use go_diameter.Protocol.Admission.{initial_core, refresh_admission, revoke}
use go_diameter.Protocol.Admission.Laws.{revoked_admits}
use go_diameter.Examples.{
  lenient, request, fresh, open_core, waiting_core, start_input, expiry, receipt, written,
}

run-armed_example :
    armed 0 (run lenient (start_input ∷ expiry ∷ []) (at_rest fresh)).out (fresh.timers 0).token
    ≡ ((run lenient (start_input ∷ expiry ∷ []) (at_rest fresh)).core.timers 0).token
run-armed_example = run-armed lenient (start_input ∷ expiry ∷ []) fresh 0

-- The admission of the request on the open connection.
abbrev admission : Effect
unfolding effect open_core
admission = record (effect open_core EffectKind.admit) {
  message = some request;
  release_dispatch = true;
}

admission_first : get_elem? (handle lenient receipt (at_rest open_core)).out 0 ≡ some admission
unfolding handle handle_kind handle_receive refresh_addresses same_connection received receive
    receive_live receive_unheld receive_message receive_gated activity receive_active
    with_header_error validate_header receive_checked validate_request supports_application contains
    release_for mark_release receive_command receive_application valid_activity admit emit effect
    if◌then◌else◌ maybe open_core fresh initial_core admission has_flag
admission_first = refl

admission_kind : admission.kind ≡ EffectKind.admit
unfolding effect admission
admission_kind = refl

handle_admits_example : (receipt.kind ≡ InputKind.receive) × Admissible open_core
handle_admits_example =
    handle_admits lenient receipt open_core 0 admission admission_first admission_kind

-- The open connection as one that the frontend admitted, and its end once the claims are gone.
abbrev claimed : Core
unfolding open_core
claimed = record open_core { passive_responder = true; passive_present = true }

abbrev closing_effect : Effect
unfolding effect claimed open_core fresh initial_core
closing_effect = effect claimed EffectKind.close

closing_first :
    get_elem? (handle lenient receipt (at_rest (refresh_admission lenient none claimed))).out 0
    ≡ some closing_effect
unfolding handle handle_kind handle_receive refresh_addresses same_connection received receive
    receive_live receive_unheld receive_message fail keep_late_cer note_timeout terminate reset_for
    stop_all stop drop_control cancel_sends emit_close finish_handshake finish_disconnect control_at
    lookup keys sort notify emit effect refresh_admission revoke has_flag if◌then◌else◌ maybe
    claimed open_core fresh initial_core closing_effect
closing_first = refl

not_closing : claimed.phase ≢ Phase.closing
unfolding claimed open_core
not_closing e = ground arith

claimed_passive : claimed.passive_responder ≡ true
unfolding claimed
claimed_passive = refl

revoked_admits_example : closing_effect.kind ≢ EffectKind.admit
revoked_admits_example =
    revoked_admits lenient receipt claimed 0 closing_effect claimed_passive not_closing
      closing_first

-- A closed connection.
abbrev closed_core : Core
unfolding fresh
closed_core = record fresh { phase = Phase.closed }

closed_over : is_over closed_core.phase ≡ true
unfolding closed_core
closed_over = refl

run-over_example :
    ((run lenient (start_input ∷ written ∷ []) (at_rest closed_core)).core.phase
      ≡ closed_core.phase)
    × ((run lenient (start_input ∷ written ∷ []) (at_rest closed_core)).core.timers
        ≡ closed_core.timers)
    × All
        (λ e. is_final e.kind ≡ true)
        (run lenient (start_input ∷ written ∷ []) (at_rest closed_core)).out
run-over_example = run-over lenient (start_input ∷ written ∷ []) closed_core closed_over

-- The handshake's timer, armed by the start, and the connection's end.
abbrev started : St
started = handle lenient start_input (at_rest fresh)

terminate_clears_example :
    ((terminate Phase.closed started).core.phase ≡ Phase.closed)
    × ((terminate Phase.closed started).core.ready ≡ false)
    × ((terminate Phase.closed started).core.admission ≡ 0)
    × ((terminate Phase.closed started).core.candidate_token ≡ 0)
    × ((terminate Phase.closed started).core.hook_token ≡ 0)
    × ((terminate Phase.closed started).core.continuations ≡ [])
    × ((terminate Phase.closed started).core.handshake_pending ≡ false)
    × ((terminate Phase.closed started).core.disconnect_waiting ≡ false)
    × (((terminate Phase.closed started).core.timers 0).token ≡ 0)
terminate_clears_example = terminate_clears Phase.closed started 0 (omega arith)

written_consumed : (complete_queued_reply written waiting_core).1 ≡ true
unfolding complete_queued_reply same_connection lookup if◌then◌else◌ maybe waiting_core open_core
    fresh initial_core
written_consumed = refl

handle-complete_queued_reply_example :
    handle lenient written (at_rest waiting_core)
    ≡ at_rest (complete_queued_reply written waiting_core).0
handle-complete_queued_reply_example =
    handle-complete_queued_reply lenient written waiting_core written_consumed
