-- ===== src/Protocol/Tracking/Dispatch.antt =====
-- diam/internal/protocol/receive.go: the guards of a receipt, as the executor sees them.
use go_diameter.Prelude.{ℕ, refl, Bool, true, false, not, ◌&&◌, ◌≡◌, ◌∙◌, sym, ap, arith}
use go_diameter.Prelude.Tests.{if◌then◌else◌}
use go_diameter.Prelude.Int.{ℤ}
use go_diameter.Diam.Error.{MessageError}
use go_diameter.Diam.Header.{Header}
use go_diameter.Diam.Message.{Message}
use go_diameter.Base.Interface.{Base}
use go_diameter.Protocol.Types.{Input, Phase}
use go_diameter.Protocol.Core.{St, effect, emit, token}
use go_diameter.Protocol.Send.{arm, stop}
use go_diameter.Protocol.Ending.{is_pre_cer, is_wait_cea, is_open}
use go_diameter.Protocol.Watch.{activity, watchdog_arm}
use go_diameter.Protocol.Dispatch.{
  admit_handled, receive_base, receive_command, receive_cer, release_for, discard_answer,
  receive_checked, repeated_cer, duplicate_cea, receive_active, receive_gated, receive_message,
  receive_headerless, hold, receive_unheld, receive_live, receive,
}
use go_diameter.Protocol.Tracking.{View, Tracks, emit-Tracks, if-Tracks, maybe-Tracks}
use go_diameter.Protocol.Tracking.Send.{discard-Tracks, amend-Tracks}
use go_diameter.Protocol.Tracking.Ending.{fail-Tracks, reject-Tracks}
use go_diameter.Protocol.Tracking.Watch.{activity-Tracks, valid_activity-Tracks, dwa-Tracks}
use go_diameter.Protocol.Tracking.Closing.{mark_release-Tracks, dpr-Tracks, dpa-Tracks}
use go_diameter.Protocol.Tracking.Handshake.{candidate-Tracks, cea-Tracks}
use go_diameter.Protocol.Tracking.Receive.{
  pause_hook-Tracks, dwr-Tracks, request_error-Tracks, external_message_error-Tracks,
  message_error-Tracks, granted-Tracks, receive_application-Tracks,
}

phase-arm : (k at : ℕ) (d : ℤ) (s : St) → (arm k at d s).core.phase ≡ s.core.phase
unfolding arm token emit if◌then◌else◌
phase-arm k at d s = ground arith

phase-stop : (k : ℕ) (s : St) → (stop k s).core.phase ≡ s.core.phase
unfolding stop emit if◌then◌else◌
phase-stop k s = ground arith

phase-if :
    (b : Bool) (x y : St) (p : Phase)
    → x.core.phase ≡ p
    → y.core.phase ≡ p
    → (if b then x else y).core.phase ≡ p
unfolding if◌then◌else◌
phase-if true x y p hx hy = hx
phase-if false x y p hx hy = hy

phase-watchdog_arm : (at : ℕ) (d : ℤ) (s : St) → (watchdog_arm at d s).core.phase ≡ s.core.phase
unfolding watchdog_arm
phase-watchdog_arm at d s = phase-if _ _ _ _ (phase-stop _ s) (phase-arm _ at _ _ ∙ phase-stop _ s)

phase-activity : (inp : Input) (s : St) → (activity inp s).core.phase ≡ s.core.phase
unfolding activity
phase-activity inp s = phase-if _ _ _ _ refl (phase-watchdog_arm _ _ s)

module _ {v : View} where
  admit_handled-Tracks :
      (inp : Input) (m : Message) (s : St)
      → v.Allowed
      → Tracks v s
      → Tracks v (admit_handled inp m s)
  unfolding admit_handled
  admit_handled-Tracks inp m s a h =
      if-Tracks _ _ _ (λ _. discard-Tracks inp _ 0 s h) (λ _. granted-Tracks m 0 s a h)

  receive_base-Tracks :
      (b : Base) (inp : Input) (m : Message) (g : Header) (s : St)
      → v.Allowed
      → Tracks v s
      → Tracks v (receive_base b inp m g s)
  unfolding receive_base
  receive_base-Tracks b inp m g s a h =
      let u = admit_handled-Tracks inp m s a h in
      if-Tracks _ _ _
        (λ _.
          if-Tracks _ _ _
            (λ _. if-Tracks _ _ _ (λ _. pause_hook-Tracks inp m s h) (λ _. dwr-Tracks b inp m s h))
            (λ _. u))
        (λ _.
          if-Tracks _ _ _
            (λ _. if-Tracks _ _ _ (λ _. dpr-Tracks b inp m s h) (λ _. dpa-Tracks b inp m s h))
            (λ _. if-Tracks _ _ _ (λ _. u) (λ _. receive_application-Tracks b inp m g s a h)))

  receive_command-Tracks :
      (b : Base) (inp : Input) (m : Message) (g : Header) (s : St)
      → v.Allowed
      → Tracks v s
      → Tracks v (receive_command b inp m g s)
  unfolding receive_command
  receive_command-Tracks b inp m g s a h =
      if-Tracks _ _ _ (λ _. receive_base-Tracks b inp m g s a h)
        (λ _. receive_application-Tracks b inp m g s a h)

  receive_cer-Tracks :
      (b : Base) (inp : Input) (m : Message) (s : St)
      → Tracks v s
      → Tracks v (receive_cer b inp m s)
  unfolding receive_cer
  receive_cer-Tracks b inp m s h =
      if-Tracks _ _ _ (λ _. pause_hook-Tracks inp m s h) (λ _. candidate-Tracks b inp m s h)

  release_for-Tracks : (g : Header) (i : ℕ) (s : St) → Tracks v s → Tracks v (release_for g i s)
  unfolding release_for
  release_for-Tracks g i s h = if-Tracks _ _ _ (λ _. mark_release-Tracks i s h) (λ _. h)

  discard_answer-Tracks :
      (inp : Input) (g : Header) (e : MessageError) (s : St)
      → Tracks v s
      → Tracks v (discard_answer inp g e s)
  unfolding discard_answer
  discard_answer-Tracks inp g e s h =
      let d = discard-Tracks _ _ _ s h in if-Tracks _ _ _ (λ _. amend-Tracks _ _ d) (λ _. d)

  receive_checked-Tracks :
      (b : Base) (inp : Input) (m : Message) (g : Header) (i : ℕ) (s : St)
      → (is_pre_cer s.core.phase ≡ false → v.Allowed)
      → Tracks v s
      → Tracks v (receive_checked b inp m g i s)
  unfolding receive_checked
  receive_checked-Tracks b inp m g i s a h =
      maybe-Tracks _ _ _
        (maybe-Tracks _ _ _
          (if-Tracks _ _ _ (λ _. receive_cer-Tracks b inp m s h)
            (λ p. release_for-Tracks g i _ (receive_command-Tracks b inp m g s (a p) h)))
          (λ r _. request_error-Tracks b inp m r _ s h))
        (λ e _.
          if-Tracks _ _ _ (λ _. discard_answer-Tracks inp g e s h)
            (λ _. reject-Tracks b inp m _ e s h))

  repeated_cer-Tracks :
      (b : Base) (inp : Input) (m : Message) (g : Header) (s : St)
      → Tracks v s
      → Tracks v (repeated_cer b inp m g s)
  unfolding repeated_cer
  repeated_cer-Tracks b inp m g s h =
      let c = if-Tracks _ _ _ (λ _. valid_activity-Tracks s h) (λ _. h) in
      if-Tracks _ _ _ (λ _. discard-Tracks inp _ 0 s h)
        (λ _. if-Tracks _ _ _ (λ _. pause_hook-Tracks inp m _ c) (λ _. discard-Tracks inp _ 0 _ c))

  duplicate_cea-Tracks :
      (inp : Input) (g : Header) (s : St) → Tracks v s → Tracks v (duplicate_cea inp g s)
  unfolding duplicate_cea
  duplicate_cea-Tracks inp g s h = amend-Tracks _ _ (discard-Tracks inp _ 0 s h)

  receive_active-Tracks :
      (b : Base) (inp : Input) (m : Message) (g : Header) (fatal : Bool) (i : ℕ) (s : St)
      → (is_pre_cer s.core.phase ≡ false → v.Allowed)
      → Tracks v s
      → Tracks v (receive_active b inp m g fatal i s)
  unfolding receive_active
  receive_active-Tracks b inp m g fatal i s a h =
      if-Tracks _ _ _ (λ _. repeated_cer-Tracks b inp m g s h)
        (λ _.
          maybe-Tracks _ _ _
            (if-Tracks _ _ _ (λ _. discard-Tracks inp _ 0 s h)
              (λ _.
                if-Tracks _ _ _ (λ _. mark_release-Tracks i _ (dwa-Tracks b inp m s h))
                  (λ _. receive_checked-Tracks b inp m g i s a h)))
            (λ me _. message_error-Tracks b inp m g me fatal s h))

  receive_gated-Tracks :
      (b : Base) (inp : Input) (m : Message) (g : Header) (s : St)
      → (is_pre_cer s.core.phase ≡ false → v.Allowed)
      → Tracks v s
      → Tracks v (receive_gated b inp m g s)
  unfolding receive_gated
  receive_gated-Tracks b inp m g s a h =
      let t = activity-Tracks inp s h in
      if-Tracks _ _ _ (λ _. duplicate_cea-Tracks inp g _ t)
        (λ _.
          receive_active-Tracks b _ m g _ _ _
            (λ p. a (sym (ap is_pre_cer (phase-activity inp s)) ∙ p)) t)

  receive_message-Tracks :
      (b : Base) (inp : Input) (m : Message) (g : Header) (s : St)
      → (is_wait_cea s.core.phase ≡ false → is_pre_cer s.core.phase ≡ false → v.Allowed)
      → Tracks v s
      → Tracks v (receive_message b inp m g s)
  unfolding receive_message
  receive_message-Tracks b inp m g s a h =
      if-Tracks _ _ _
        (λ _. if-Tracks _ _ _ (λ _. cea-Tracks b inp m s h) (λ _. fail-Tracks inp _ _ s h))
        (λ w.
          if-Tracks _ _ _ (λ _. fail-Tracks inp _ _ s h)
            (λ _. receive_gated-Tracks b inp m g s (a (ground arith)) h))

  receive_headerless-Tracks :
      (b : Base) (inp : Input) (s : St) → Tracks v s → Tracks v (receive_headerless b inp s)
  unfolding receive_headerless
  receive_headerless-Tracks b inp s h =
      let f = fail-Tracks inp _ 0 s h in
      if-Tracks _ _ _ (λ _. if-Tracks _ _ _ (λ _. h) (λ _. fail-Tracks inp _ _ s h))
        (λ _.
          if-Tracks _ _ _
            (λ _. maybe-Tracks _ _ _ f (λ m _. external_message_error-Tracks b inp m _ _ s h))
            (λ _. f))

  hold-Tracks : (inp : Input) (s : St) → Tracks v s → Tracks v (hold inp s)
  unfolding hold effect
  hold-Tracks inp s h = emit-Tracks _ s refl h.same h

  receive_unheld-Tracks :
      (b : Base) (inp : Input) (s : St)
      → (is_wait_cea s.core.phase ≡ false → is_pre_cer s.core.phase ≡ false → v.Allowed)
      → Tracks v s
      → Tracks v (receive_unheld b inp s)
  unfolding receive_unheld
  receive_unheld-Tracks b inp s a h =
      let n = receive_headerless-Tracks b inp s h in
      maybe-Tracks _ _ _ n
        (λ m _. maybe-Tracks _ _ _ n (λ g _. receive_message-Tracks b inp m g s a h))

  -- The guards leave an admission to a connection that is past its handshake, and if open, ready.
  receive_live-Tracks :
      (b : Base) (inp : Input) (s : St)
      → (is_wait_cea s.core.phase ≡ false
          → is_pre_cer s.core.phase ≡ false
          → (is_open s.core.phase && not s.core.ready) ≡ false
          → v.Allowed)
      → Tracks v s
      → Tracks v (receive_live b inp s)
  unfolding receive_live
  receive_live-Tracks b inp s a h =
      if-Tracks _ _ _ (λ _. discard-Tracks inp _ 0 s h)
        (λ _.
          if-Tracks _ _ _ (λ _. hold-Tracks inp s h)
            (λ r. receive_unheld-Tracks b inp s (λ w p. a w p (ground arith)) h))

  pub receive-Tracks :
      (b : Base) (inp : Input) (s : St)
      → (is_wait_cea s.core.phase ≡ false
          → is_pre_cer s.core.phase ≡ false
          → (is_open s.core.phase && not s.core.ready) ≡ false
          → v.Allowed)
      → Tracks v s
      → Tracks v (receive b inp s)
  unfolding receive
  receive-Tracks b inp s a h =
      if-Tracks _ _ _ (λ _. discard-Tracks inp _ 0 s h)
        (λ _. if-Tracks _ _ _ (λ _. fail-Tracks inp _ 0 s h) (λ _. receive_live-Tracks b inp s a h))
