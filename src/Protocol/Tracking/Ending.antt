-- ===== src/Protocol/Tracking/Ending.antt =====
-- diam/internal/protocol/core.go: terminating and rejecting, as the executor sees them.
use go_diameter.Prelude.{ℕ, refl, Bool, List, [], ◌∷◌}
use go_diameter.Diam.Codes.{ProtocolErrorKind}
use go_diameter.Diam.Error.{Err, MessageError}
use go_diameter.Diam.Message.{Message}
use go_diameter.Base.Interface.{Base}
use go_diameter.Protocol.Types.{Input, Phase}
use go_diameter.Protocol.Core.{St, effect}
use go_diameter.Protocol.Send.{notify}
use go_diameter.Protocol.Ending.{
  reset_for, stop_all, drop_control, cancel_sends, finish_handshake, finish_disconnect, emit_close,
  terminate, keep_late_cer, note_timeout, fail, failed_rejection, latch_terminal, reject,
}
use go_diameter.Protocol.Tracking.{
  View, Tracks, same-Tracks, emit-Tracks, if-Tracks, maybe-Tracks, checked-Tracks,
}
use go_diameter.Protocol.Tracking.Send.{
  set_control-Tracks, stop-Tracks, discard-Tracks, amend-Tracks, release-Tracks, send-Tracks,
}

module _ {v : View} where
  reset_for-Tracks : (p : Phase) (s : St) → Tracks v s → Tracks v (reset_for p s)
  unfolding reset_for
  reset_for-Tracks p s h = same-Tracks refl refl refl h

  stop_all-Tracks : (s : St) → Tracks v s → Tracks v (stop_all s)
  unfolding stop_all
  stop_all-Tracks s h =
      stop-Tracks _ _ (stop-Tracks _ _ (stop-Tracks _ _ (stop-Tracks _ _ (stop-Tracks _ s h))))

  drop_control-Tracks : (command : ℕ) (s : St) → Tracks v s → Tracks v (drop_control command s)
  unfolding drop_control
  drop_control-Tracks command s h =
      maybe-Tracks _ _ _ h (λ p _. release-Tracks p _ (set_control-Tracks p _ s h))

  cancel_sends-Tracks : (ts : List ℕ) (s : St) → Tracks v s → Tracks v (cancel_sends ts s)
  unfolding cancel_sends effect
  cancel_sends-Tracks [] s h = h
  cancel_sends-Tracks (t ∷ ts) s h = cancel_sends-Tracks ts _ (emit-Tracks _ s refl h.same h)

  finish_handshake-Tracks : (s : St) → Tracks v s → Tracks v (finish_handshake s)
  unfolding finish_handshake notify effect
  finish_handshake-Tracks s h =
      if-Tracks _ _ _ (λ _. emit-Tracks _ _ refl h.same (same-Tracks refl refl refl h)) (λ _. h)

  finish_disconnect-Tracks : (s : St) → Tracks v s → Tracks v (finish_disconnect s)
  unfolding finish_disconnect notify effect
  finish_disconnect-Tracks s h =
      if-Tracks _ _ _ (λ _. emit-Tracks _ _ refl h.same (same-Tracks refl refl refl h)) (λ _. h)

  emit_close-Tracks : (p : Phase) (s : St) → Tracks v s → Tracks v (emit_close p s)
  unfolding emit_close effect
  emit_close-Tracks p s h = if-Tracks _ _ _ (λ _. emit-Tracks _ s refl h.same h) (λ _. h)

  pub terminate-Tracks : (p : Phase) (s : St) → Tracks v s → Tracks v (terminate p s)
  unfolding terminate
  terminate-Tracks p s h = finish_disconnect-Tracks _ (
      finish_handshake-Tracks _ (
        emit_close-Tracks p _ (
          cancel_sends-Tracks _ _ (
            drop_control-Tracks _ _ (
              drop_control-Tracks _ _
                (drop_control-Tracks _ _ (stop_all-Tracks _ (reset_for-Tracks p s h))))))))

  keep_late_cer-Tracks :
      (k : ProtocolErrorKind) (s : St) → Tracks v s → Tracks v (keep_late_cer k s)
  unfolding keep_late_cer
  keep_late_cer-Tracks k s h =
      if-Tracks _ _ _
        (λ _.
          maybe-Tracks _ _ _ h
            (λ c _. if-Tracks _ _ _ (λ _. same-Tracks refl refl refl h) (λ _. h)))
        (λ _. h)

  note_timeout-Tracks : (k : ProtocolErrorKind) (s : St) → Tracks v s → Tracks v (note_timeout k s)
  unfolding note_timeout
  note_timeout-Tracks k s h = if-Tracks _ _ _ (λ _. same-Tracks refl refl refl h) (λ _. h)

  pub fail-Tracks :
      (inp : Input) (k : ProtocolErrorKind) (code : ℕ) (s : St)
      → Tracks v s
      → Tracks v (fail inp k code s)
  unfolding fail notify effect
  fail-Tracks inp k code s h =
      let t =
        terminate-Tracks Phase.closed _ (note_timeout-Tracks k _ (keep_late_cer-Tracks k s h)) in
      emit-Tracks _ _ refl t.same t

  pub failed_rejection-Tracks :
      (inp : Input) (k : ProtocolErrorKind) (code : ℕ) (e : Err) (s : St)
      → Tracks v s
      → Tracks v (failed_rejection inp k code e s)
  unfolding failed_rejection notify effect
  failed_rejection-Tracks inp k code e s h =
      let t = terminate-Tracks Phase.closed s h in emit-Tracks _ _ refl t.same t

  pub latch_terminal-Tracks : (b : Bool) (s : St) → Tracks v s → Tracks v (latch_terminal b s)
  unfolding latch_terminal
  latch_terminal-Tracks b s h = if-Tracks _ _ _ (λ _. same-Tracks refl refl refl h) (λ _. h)

  pub reject-Tracks :
      (b : Base) (inp : Input) (m : Message) (k : ProtocolErrorKind) (me : MessageError) (s : St)
      → Tracks v s
      → Tracks v (reject b inp m k me s)
  unfolding reject
  reject-Tracks b inp m k me s h =
      if-Tracks _ _ _ (λ _. amend-Tracks _ _ (discard-Tracks inp k _ s h))
        (λ _.
          checked-Tracks _ _ _ (λ e. amend-Tracks _ _ (failed_rejection-Tracks inp k _ e s h))
            (λ a. send-Tracks b a _ _ _ _ _ _ _ (latch_terminal-Tracks _ s h)))
