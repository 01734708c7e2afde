-- ===== src/Protocol/Tracking/Results.antt =====
-- diam/internal/protocol/control.go: reported results, as the executor sees them.
use go_diameter.Prelude.{ℕ, refl}
use go_diameter.Diam.Error.{Err}
use go_diameter.Base.Interface.{Base}
use go_diameter.Protocol.Types.{Input, Phase}
use go_diameter.Protocol.Core.{St, Operation, effect}
use go_diameter.Protocol.Send.{notify}
use go_diameter.Protocol.Results.{
  note_cer_error, new_control, start_request, reserved, finish_operation, failed_write,
  mark_reported, published_control, report_notice, report_handshake, report, succeeded_write,
  mark_written, settle_operation, conclude, operation_result, skipped_control, write_result,
}
use go_diameter.Protocol.Tracking.{
  View, Tracks, same-Tracks, emit-Tracks, if-Tracks, maybe-Tracks, checked-Tracks,
}
use go_diameter.Protocol.Tracking.Send.{set_control-Tracks, arm-Tracks, release-Tracks, send-Tracks}
use go_diameter.Protocol.Tracking.Ending.{terminate-Tracks}
use go_diameter.Protocol.Tracking.Watch.{watchdog_arm-Tracks, watchdog_published-Tracks}
use go_diameter.Protocol.Tracking.Closing.{complete_dpa-Tracks}
use go_diameter.Protocol.Tracking.Handshake.{set_handshake-Tracks, handshake_ready-Tracks}

module _ {v : View} where
  note_cer_error-Tracks :
      (command : ℕ) (e : Err) (s : St) → Tracks v s → Tracks v (note_cer_error command e s)
  unfolding note_cer_error
  note_cer_error-Tracks command e s h = if-Tracks _ _ _ (λ _. set_handshake-Tracks _ _ s h) (λ _. h)

  start_request-Tracks :
      (b : Base) (command : ℕ) (inp : Input) (s : St)
      → Tracks v s
      → Tracks v (start_request b command inp s)
  unfolding start_request new_control
  start_request-Tracks b command inp s h =
      checked-Tracks _ _ _
        (λ e.
          terminate-Tracks _ _ (note_cer_error-Tracks command e _ (same-Tracks refl refl refl h)))
        (λ m.
          send-Tracks b _ _ _ _ _ _ _ _ (set_control-Tracks _ _ _ (same-Tracks refl refl refl h)))

  pub reserved-Tracks : (b : Base) (inp : Input) (s : St) → Tracks v s → Tracks v (reserved b inp s)
  unfolding reserved effect
  reserved-Tracks b inp s h = maybe-Tracks _ _ _ h λ command _.
      if-Tracks _ _ _
        (λ _.
          if-Tracks _ _ _ (λ _. same-Tracks refl refl refl h)
            (λ _.
              terminate-Tracks _ _
                (note_cer_error-Tracks command _ _ (same-Tracks refl refl refl h))))
        (λ _.
          if-Tracks _ _ _ (λ _. emit-Tracks _ _ refl h.same (same-Tracks refl refl refl h))
            (λ _. start_request-Tracks b command inp _ (same-Tracks refl refl refl h)))

  finish_operation-Tracks :
      (t : ℕ) (op : Operation) (s : St) → Tracks v s → Tracks v (finish_operation t op s)
  unfolding finish_operation
  finish_operation-Tracks t op s h =
      maybe-Tracks _ _ _ (same-Tracks refl refl refl h)
        (λ p _. release-Tracks p _ (set_control-Tracks p _ _ (same-Tracks refl refl refl h)))

  failed_write-Tracks :
      (inp : Input) (op : Operation) (e : Err) (s : St)
      → Tracks v s
      → Tracks v (failed_write inp op e s)
  unfolding failed_write notify effect
  failed_write-Tracks inp op e s h =
      let n = if-Tracks _ _ _ (λ _. set_handshake-Tracks _ _ s h) (λ _. h) in
      let t = terminate-Tracks Phase.closed _ n in
      if-Tracks _ _ _ (λ _. emit-Tracks _ _ refl t.same t) (λ _. t)

  mark_reported-Tracks : (t : ℕ) (s : St) → Tracks v s → Tracks v (mark_reported t s)
  unfolding mark_reported
  mark_reported-Tracks t s h = maybe-Tracks _ _ _ h (λ op _. same-Tracks refl refl refl h)

  published_control-Tracks :
      (inp : Input) (p : ℕ) (s : St) → Tracks v s → Tracks v (published_control inp p s)
  unfolding published_control
  published_control-Tracks inp p s h =
      if-Tracks _ _ _ (λ _. h)
        (λ _.
          if-Tracks _ _ _ (λ _. watchdog_published-Tracks inp s h)
            (λ _. if-Tracks _ _ _ (λ _. arm-Tracks _ _ _ s h) (λ _. h)))

  report_notice-Tracks :
      (inp : Input) (op : Operation) (s : St) → Tracks v s → Tracks v (report_notice inp op s)
  unfolding report_notice notify effect
  report_notice-Tracks inp op s h = maybe-Tracks _ _ _ h (λ n _. emit-Tracks _ s refl h.same h)

  report_handshake-Tracks :
      (op : Operation) (s : St) → Tracks v s → Tracks v (report_handshake op s)
  unfolding report_handshake
  report_handshake-Tracks op s h = if-Tracks _ _ _ (λ _. handshake_ready-Tracks s h) (λ _. h)

  report-Tracks : (inp : Input) (op : Operation) (s : St) → Tracks v s → Tracks v (report inp op s)
  unfolding report
  report-Tracks inp op s h =
      let t =
        report_handshake-Tracks op _ (report_notice-Tracks inp op _ (mark_reported-Tracks _ s h)) in
      if-Tracks _ _ _ (λ _. h)
        (λ _. maybe-Tracks _ _ _ t (λ p _. published_control-Tracks inp p _ t))

  succeeded_write-Tracks :
      (inp : Input) (op : Operation) (s : St) → Tracks v s → Tracks v (succeeded_write inp op s)
  unfolding succeeded_write
  succeeded_write-Tracks inp op s h =
      let r =
        report-Tracks inp op _
          (if-Tracks _ _ _ (λ _. terminate-Tracks Phase.closed s h) (λ _. h)) in
      if-Tracks _ _ _ (λ _. maybe-Tracks _ _ _ r (λ i _. complete_dpa-Tracks i _ s h)) (λ _. r)

  mark_written-Tracks :
      (inp : Input) (op : Operation) (s : St) → Tracks v s → Tracks v (mark_written inp op s)
  unfolding mark_written
  mark_written-Tracks inp op s h =
      if-Tracks _ _ _ (λ _. maybe-Tracks _ _ _ h (λ p _. set_control-Tracks p _ s h)) (λ _. h)

  settle_operation-Tracks :
      (inp : Input) (op : Operation) (s : St) → Tracks v s → Tracks v (settle_operation inp op s)
  unfolding settle_operation
  settle_operation-Tracks inp op s h =
      if-Tracks _ _ _ (λ _. finish_operation-Tracks _ op s h) (λ _. same-Tracks refl refl refl h)

  conclude-Tracks :
      (inp : Input) (op : Operation) (e : Err) (s : St)
      → Tracks v s
      → Tracks v (conclude inp op e s)
  unfolding conclude
  conclude-Tracks inp op e s h =
      if-Tracks _ _ _ (λ _. h)
        (λ _.
          if-Tracks _ _ _ (λ _. failed_write-Tracks inp op e s h)
            (λ _. succeeded_write-Tracks inp op s h))

  operation_result-Tracks :
      (inp : Input) (op : Operation) (s : St) → Tracks v s → Tracks v (operation_result inp op s)
  unfolding operation_result
  operation_result-Tracks inp op s h =
      if-Tracks _ _ _ (λ _. h)
        (λ _.
          conclude-Tracks inp _ _ _
            (settle_operation-Tracks inp _ _ (mark_written-Tracks inp _ s h)))

  skipped_control-Tracks :
      (inp : Input) (p : ℕ) (s : St) → Tracks v s → Tracks v (skipped_control inp p s)
  unfolding skipped_control
  skipped_control-Tracks inp p s h =
      let r = release-Tracks p _ (set_control-Tracks p _ _ (same-Tracks refl refl refl h)) in
      if-Tracks _ _ _ (λ _. terminate-Tracks _ _ (set_handshake-Tracks _ _ _ r))
        (λ _.
          if-Tracks _ _ _
            (λ _.
              if-Tracks _ _ _ (λ _. watchdog_arm-Tracks _ _ _ (same-Tracks refl refl refl r))
                (λ _. same-Tracks refl refl refl r))
            (λ _. r))

  pub write_result-Tracks : (inp : Input) (s : St) → Tracks v s → Tracks v (write_result inp s)
  unfolding write_result
  write_result-Tracks inp s h =
      if-Tracks _ _ _ (λ _. h)
        (λ _. maybe-Tracks _ _ _ h (λ op _.
          if-Tracks _ _ _
            (λ _.
              maybe-Tracks _ _ _ (operation_result-Tracks inp op s h)
                (λ p _. skipped_control-Tracks inp p s h))
            (λ _. operation_result-Tracks inp op s h)))
