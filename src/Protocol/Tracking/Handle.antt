-- ===== src/Protocol/Tracking/Handle.antt =====
-- diam/internal/protocol/core.go: `HandleInto`, as the executor sees it.
use go_diameter.Prelude.{refl, Bool, true, false, not, ◌&&◌, ◌≡◌, ◌∙◌, ap, arith}
use go_diameter.Prelude.Tests.{if◌then◌else◌}
use go_diameter.Diam.Header.{Header}
use go_diameter.Diam.Message.{Message}
use go_diameter.Base.Interface.{Base}
use go_diameter.Protocol.Types.{Input, InputKind, Phase}
use go_diameter.Protocol.Core.{St, Continuation, is_over, effect}
use go_diameter.Protocol.Send.{notify}
use go_diameter.Protocol.Ending.{is_pre_cer, is_wait_cea, is_open}
use go_diameter.Protocol.Handle.{
  start, begin_cer, stop_supervision, received, handle_receive, continue_with, resume, continue,
  reject_candidate, release_admission, transport_lost, handle_kind, late_return, refresh_addresses,
  is_result, handle,
}
use go_diameter.Protocol.Timers.{expire_deadline, expire_retry, expire}
use go_diameter.Protocol.Tracking.{
  View, Tracks, same-Tracks, emit-Tracks, if-Tracks, maybe-Tracks, checked-Tracks,
}
use go_diameter.Protocol.Tracking.Send.{
  arm-Tracks, stop-Tracks, reserve-Tracks, discard-Tracks, send-Tracks,
}
use go_diameter.Protocol.Tracking.Ending.{
  terminate-Tracks, fail-Tracks, failed_rejection-Tracks, reject-Tracks,
}
use go_diameter.Protocol.Tracking.Watch.{watchdog_up-Tracks, watchdog_expired-Tracks}
use go_diameter.Protocol.Tracking.Closing.{disconnect-Tracks, freeze-Tracks}
use go_diameter.Protocol.Tracking.Handshake.{candidate-Tracks, activate-Tracks}
use go_diameter.Protocol.Tracking.Results.{reserved-Tracks, write_result-Tracks}
use go_diameter.Protocol.Tracking.Receive.{dwr-Tracks, unhandled-Tracks}
use go_diameter.Protocol.Tracking.Dispatch.{receive-Tracks}

refresh_addresses-phase :
    (inp : Input) (s : St) → s.core.phase ≡ (refresh_addresses inp s).core.phase
unfolding refresh_addresses if◌then◌else◌
refresh_addresses-phase inp s = ground arith

refresh_addresses-ready :
    (inp : Input) (s : St) → s.core.ready ≡ (refresh_addresses inp s).core.ready
unfolding refresh_addresses if◌then◌else◌
refresh_addresses-ready inp s = ground arith

is_result-receive : (k : InputKind) → is_result k ≡ true → ¬ (k ≡ InputKind.receive)
is_result-receive k p q = ground arith

module _ {v : View} where
  expire_deadline-Tracks : (inp : Input) (s : St) → Tracks v s → Tracks v (expire_deadline inp s)
  unfolding expire_deadline notify effect
  expire_deadline-Tracks inp s h =
      let t = terminate-Tracks Phase.closed s h in
      if-Tracks _ _ _ (λ _. emit-Tracks _ _ refl t.same t) (λ _. fail-Tracks inp _ 0 s h)

  expire_retry-Tracks :
      (b : Base) (inp : Input) (s : St) → Tracks v s → Tracks v (expire_retry b inp s)
  unfolding expire_retry
  expire_retry-Tracks b inp s h =
      let e = expire_deadline-Tracks inp s h in
      maybe-Tracks _ _ _ e (λ p _.
        if-Tracks _ _ _
          (λ _. maybe-Tracks _ _ _ e (λ f _. send-Tracks b f _ _ _ _ _ _ _ (stop-Tracks _ s h)))
          (λ _. e))

  expire-Tracks : (b : Base) (inp : Input) (s : St) → Tracks v s → Tracks v (expire b inp s)
  unfolding expire
  expire-Tracks b inp s h =
      if-Tracks _ _ _ (λ _. h)
        (λ _.
          if-Tracks _ _ _ (λ _. h)
            (λ _.
              if-Tracks _ _ _ (λ _. watchdog_expired-Tracks inp s h)
                (λ _.
                  if-Tracks _ _ _ (λ _. expire_retry-Tracks b inp s h)
                    (λ _. expire_deadline-Tracks inp s h))))

  start-Tracks : (inp : Input) (s : St) → Tracks v s → Tracks v (start inp s)
  unfolding start
  start-Tracks inp s h =
      let a = arm-Tracks _ _ _ _ (same-Tracks refl refl refl h) in
      if-Tracks _ _ _ (λ _. h)
        (λ _.
          if-Tracks _ _ _ (λ _. same-Tracks refl refl refl h)
            (λ _.
              if-Tracks _ _ _ (λ _. reserve-Tracks _ _ (same-Tracks refl refl refl a)) (λ _. a)))

  begin_cer-Tracks : (inp : Input) (s : St) → Tracks v s → Tracks v (begin_cer inp s)
  unfolding begin_cer
  begin_cer-Tracks inp s h =
      if-Tracks _ _ _ (λ _. h)
        (λ _. reserve-Tracks _ _ (arm-Tracks _ _ _ _ (same-Tracks refl refl refl h)))

  stop_supervision-Tracks : (s : St) → Tracks v s → Tracks v (stop_supervision s)
  unfolding stop_supervision
  stop_supervision-Tracks s h = stop-Tracks _ _ (same-Tracks refl refl refl h)

  received-Tracks : (b : Base) (inp : Input) (s : St) → Tracks v s → Tracks v (received b inp s)
  unfolding received
  received-Tracks b inp s h =
      let n = if-Tracks _ _ _ (λ _. same-Tracks refl refl refl h) (λ _. h) in
      maybe-Tracks _ _ _ n
        (λ p _. if-Tracks _ _ _ (λ _. expire-Tracks b p _ (same-Tracks refl refl refl n)) (λ _. n))

  handle_receive-Tracks :
      (b : Base) (inp : Input) (s : St)
      → (is_wait_cea s.core.phase ≡ false
          → is_pre_cer s.core.phase ≡ false
          → (is_open s.core.phase && not s.core.ready) ≡ false
          → v.Allowed)
      → Tracks v s
      → Tracks v (handle_receive b inp s)
  unfolding handle_receive
  handle_receive-Tracks b inp s a h =
      let r = receive-Tracks b inp s a h in
      if-Tracks _ _ _ (λ _. r) (λ _. received-Tracks b inp _ r)

  continue_with-Tracks :
      (b : Base) (inp : Input) (again : Bool) (m : Message) (g o : Header) (s : St)
      → Tracks v s
      → Tracks v (continue_with b inp again m g o s)
  unfolding continue_with
  continue_with-Tracks b inp again m g o s h =
      let d = dwr-Tracks b inp m s h in
      if-Tracks _ _ _ (λ _. fail-Tracks inp _ _ s h)
        (λ _.
          if-Tracks _ _ _ (λ _. discard-Tracks inp _ 0 s h)
            (λ _.
              if-Tracks _ _ _ (λ _. d)
                (λ _.
                  maybe-Tracks _ _ _ (if-Tracks _ _ _ (λ _. d) (λ _. candidate-Tracks b inp m s h))
                    (λ e _.
                      if-Tracks _ _ _ (λ _. reject-Tracks b inp m _ e s h)
                        (λ _. discard-Tracks inp _ _ s h)))))

  resume-Tracks :
      (b : Base) (inp : Input) (k : Continuation) (s : St)
      → Tracks v s
      → Tracks v (resume b inp k s)
  unfolding resume
  resume-Tracks b inp k s h =
      let f = fail-Tracks inp _ 0 s h in
      if-Tracks _ _ _ (λ _. terminate-Tracks _ s h)
        (λ _. maybe-Tracks _ _ _ f (λ m _.
          maybe-Tracks _ _ _ f
            (λ g _. maybe-Tracks _ _ _ f (λ o _. continue_with-Tracks b _ _ m g o s h))))

  continue-Tracks : (b : Base) (inp : Input) (s : St) → Tracks v s → Tracks v (continue b inp s)
  unfolding continue
  continue-Tracks b inp s h =
      maybe-Tracks _ _ _ h (λ k _. resume-Tracks b inp k _ (same-Tracks refl refl refl h))

  reject_candidate-Tracks :
      (b : Base) (inp : Input) (s : St) → Tracks v s → Tracks v (reject_candidate b inp s)
  unfolding reject_candidate
  reject_candidate-Tracks b inp s h =
      if-Tracks _ _ _ (λ _. h)
        (λ _.
          if-Tracks _ _ _ (λ _. terminate-Tracks _ s h)
            (λ _. maybe-Tracks _ _ _ (same-Tracks refl refl refl h) (λ m _.
              checked-Tracks _ _ _
                (λ e. failed_rejection-Tracks _ _ _ e _ (same-Tracks refl refl refl h))
                (λ a. send-Tracks b a _ _ _ _ _ _ _ (same-Tracks refl refl refl h)))))

  release_admission-Tracks :
      (inp : Input) (s : St) → Tracks v s → Tracks v (release_admission inp s)
  unfolding release_admission notify effect
  release_admission-Tracks inp s h =
      if-Tracks _ _ _ (λ _. h)
        (λ _. watchdog_up-Tracks inp _ (emit-Tracks _ _ refl h.same (same-Tracks refl refl refl h)))

  transport_lost-Tracks : (s : St) → Tracks v s → Tracks v (transport_lost s)
  unfolding transport_lost
  transport_lost-Tracks s h = if-Tracks _ _ _ (λ _. h) (λ _. terminate-Tracks _ s h)

  handle_kind-Tracks :
      (b : Base) (k : InputKind) (inp : Input) (s : St)
      → (is_wait_cea s.core.phase ≡ false
          → is_pre_cer s.core.phase ≡ false
          → (is_open s.core.phase && not s.core.ready) ≡ false
          → k ≡ InputKind.receive
          → v.Allowed)
      → Tracks v s
      → Tracks v (handle_kind b k inp s)
  unfolding handle_kind
  handle_kind-Tracks b InputKind.start inp s a h = start-Tracks inp s h
  handle_kind-Tracks b InputKind.begin_cer inp s a h = begin_cer-Tracks inp s h
  handle_kind-Tracks b InputKind.stop_supervision inp s a h = stop_supervision-Tracks s h
  handle_kind-Tracks b InputKind.retire inp s a h = terminate-Tracks _ s h
  handle_kind-Tracks b InputKind.abort inp s a h =
      terminate-Tracks _ _ (same-Tracks refl refl refl h)
  handle_kind-Tracks b InputKind.transport_lost inp s a h = transport_lost-Tracks s h
  handle_kind-Tracks b InputKind.receive inp s a h =
      handle_receive-Tracks b inp s (λ w p r. a w p r refl) h
  handle_kind-Tracks b InputKind.continue inp s a h = continue-Tracks b inp s h
  handle_kind-Tracks b InputKind.activate inp s a h = activate-Tracks b inp s h
  handle_kind-Tracks b InputKind.reject_candidate inp s a h = reject_candidate-Tracks b inp s h
  handle_kind-Tracks b InputKind.release_admission inp s a h = release_admission-Tracks inp s h
  handle_kind-Tracks b InputKind.disconnect inp s a h = disconnect-Tracks inp s h
  handle_kind-Tracks b InputKind.frozen inp s a h = freeze-Tracks b inp s h
  handle_kind-Tracks b InputKind.unhandled inp s a h = unhandled-Tracks b inp s h
  handle_kind-Tracks b InputKind.timer_expired inp s a h = expire-Tracks b inp s h
  handle_kind-Tracks b InputKind.reserve_result inp s a h = reserved-Tracks b inp s h
  handle_kind-Tracks b InputKind.write_result inp s a h = write_result-Tracks inp s h

  late_return-Tracks : (inp : Input) (s : St) → Tracks v s → Tracks v (late_return inp s)
  unfolding late_return notify effect
  late_return-Tracks inp s h =
      let t = same-Tracks refl refl refl h in
      if-Tracks _ _ _ (λ _. t) (λ _. emit-Tracks _ _ refl h.same (emit-Tracks _ _ refl h.same t))

  refresh_addresses-Tracks :
      (inp : Input) (s : St) → Tracks v s → Tracks v (refresh_addresses inp s)
  unfolding refresh_addresses
  refresh_addresses-Tracks inp s h = if-Tracks _ _ _ (λ _. same-Tracks refl refl refl h) (λ _. h)

  -- What a receipt's admission is held to: the phase is past the handshake, is ready if open, and is
  -- not over.
  pub handle-Tracks :
      (b : Base) (inp : Input) (s : St)
      → (is_wait_cea s.core.phase ≡ false
          → is_pre_cer s.core.phase ≡ false
          → (is_open s.core.phase && not s.core.ready) ≡ false
          → is_over s.core.phase ≡ false
          → inp.kind ≡ InputKind.receive
          → v.Allowed)
      → Tracks v s
      → Tracks v (handle b inp s)
  unfolding handle
  handle-Tracks b inp s a h =
      let f = refresh_addresses-phase inp s in
      let g = refresh_addresses-ready inp s in
      if-Tracks _ _ _ (λ _. h)
        (λ _.
          if-Tracks _ _ _
            (λ q.
              handle_kind-Tracks b inp.kind inp s
                (λ w p r e. absurd (is_result-receive inp.kind q e)) h)
            (λ _.
              if-Tracks _ _ _ (λ _. late_return-Tracks inp s h)
                (λ _.
                  if-Tracks _ _ _ (λ _. h)
                    (λ o.
                      handle_kind-Tracks b inp.kind inp _
                        (λ w p r e.
                          a (ap is_wait_cea f ∙ w) (ap is_pre_cer f ∙ p)
                            (ap (λ x. is_open x && not s.core.ready) f
                              ∙ ap (λ y. is_open (refresh_addresses inp s).core.phase && not y) g
                              ∙ r)
                            o e)
                        (refresh_addresses-Tracks inp s h)))))
