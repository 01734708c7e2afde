-- ===== src/Protocol/Tracking/Send.antt =====
-- diam/internal/protocol/core.go and control.go: timers, identifiers and writers, as the executor sees them.
use go_diameter.Prelude.{ℕ, ◌≡◌, refl, Bool, true, Option, ◌∙◌, arith, ◌⊎◌, inl, inr}
use go_diameter.Prelude.Tests.{◌==◌, if◌then◌else◌}
use go_diameter.Prelude.Int.{ℤ, is_nonpositive}
use go_diameter.Prelude.Maps.{update}
use go_diameter.Diam.Codes.{ProtocolErrorKind}
use go_diameter.Diam.Message.{Message}
use go_diameter.Base.Interface.{Base}
use go_diameter.Protocol.Types.{EffectKind, Input, Notification, TimerSnapshot}
use go_diameter.Protocol.Core.{Control, St, Effect, token, effect, emit, set_control}
use go_diameter.Protocol.Send.{
  is_unclassified, arm, stop, notify, discard, amend, mark_answer_hook, reserve, release, settle,
  send,
}
use go_diameter.Protocol.Tracking.{
  View, Tracks, same-Tracks, emit-Tracks, modify_last-Tracks, if-Tracks, maybe-Tracks, All-append,
  armed-append,
}

module _ {v : View} where
  pub token-Tracks : (s : St) → Tracks v s → Tracks v (token s)
  unfolding token
  token-Tracks s h = same-Tracks refl refl refl h

  pub set_control-Tracks :
      (p : ℕ) (f : Control → Control) (s : St) → Tracks v s → Tracks v (set_control p f s)
  unfolding set_control
  set_control-Tracks p f s h = same-Tracks refl refl refl h

  -- An effect on a timer together with the table entry that it announces.
  timer-Tracks :
      (e : Effect) (t : TimerSnapshot) (s : St)
      → e.connection ≡ v.conn
      → ((e.kind ≡ EffectKind.arm_timer) × (t.token ≡ e.token))
        ⊎ ((e.kind ≡ EffectKind.stop_timer)
            × (e.token ≡ (s.core.timers e.timer).token)
            × (t.token ≡ 0))
      → Tracks v s
      → Tracks v
          (record (emit e s) { core = record s.core { timers = update s.core.timers e.timer t } })
  unfolding emit update if◌then◌else◌
  timer-Tracks e t s c w h = record {
    same = h.same;
    named = All-append _ s.out e h.named c;
    gated = All-append _ s.out e h.gated (λ a. ground arith);
    mirror = λ k. armed-append k s.out e (v.start k) ∙ ground (arith, h.mirror k);
  }

  pub arm-Tracks : (k at : ℕ) (d : ℤ) (s : St) → Tracks v s → Tracks v (arm k at d s)
  unfolding arm effect token emit
  arm-Tracks k at d s h =
      if-Tracks (is_nonpositive d) _ _ (λ _. h)
        (λ _. timer-Tracks _ _ (token s) h.same (inl (refl, refl)) (token-Tracks s h))

  pub stop-Tracks : (k : ℕ) (s : St) → Tracks v s → Tracks v (stop k s)
  unfolding stop effect emit
  stop-Tracks k s h =
      if-Tracks ((s.core.timers k).token == 0) _ _ (λ _. h)
        (λ _. timer-Tracks _ _ s h.same (inr (refl, refl, refl)) h)

  -- A notification, and any effect that `effect` makes of a plain kind, is `emit-Tracks`.
  pub discard-Tracks :
      (inp : Input) (kind : ProtocolErrorKind) (code : ℕ) (s : St)
      → Tracks v s
      → Tracks v (discard inp kind code s)
  unfolding discard notify effect
  discard-Tracks inp kind code s h =
      let d = emit-Tracks (effect s.core EffectKind.discard) s refl h.same h in
      if-Tracks (is_unclassified kind) _ _ (λ _. d) (λ _. emit-Tracks _ _ refl h.same d)

  pub amend-Tracks : (f : Notification → Notification) (s : St) → Tracks v s → Tracks v (amend f s)
  unfolding amend
  amend-Tracks f s h = modify_last-Tracks _ s (λ e. refl) (λ e. refl) (λ e. refl) (λ e. refl) h

  pub mark_answer_hook-Tracks : (s : St) → Tracks v s → Tracks v (mark_answer_hook s)
  unfolding mark_answer_hook
  mark_answer_hook-Tracks s h =
      modify_last-Tracks _ s (λ e. refl) (λ e. refl) (λ e. refl) (λ e. refl) h

  pub reserve-Tracks : (command : ℕ) (s : St) → Tracks v s → Tracks v (reserve command s)
  unfolding reserve effect token
  reserve-Tracks command s h = emit-Tracks _ _ refl h.same (same-Tracks refl refl refl h)

  pub release-Tracks : (p : ℕ) (s : St) → Tracks v s → Tracks v (release p s)
  unfolding release effect set_control
  release-Tracks p s h =
      let marked = set_control-Tracks p (λ r. record r { released = true }) s h in
      if-Tracks _ _ _ (λ _. h)
        (λ _.
          emit-Tracks _ _ refl h.same
            (if-Tracks _ _ _ (λ _. same-Tracks refl refl refl marked) (λ _. marked)))

  pub settle-Tracks : (p : ℕ) (s : St) → Tracks v s → Tracks v (settle p s)
  unfolding settle
  settle-Tracks p s h = release-Tracks p _ (set_control-Tracks p _ s h)

  pub send-Tracks :
      (b : Base) (m : Message) (r : Option ℕ) (required close_after handshake : Bool)
      (notice : Option Notification) (source : Option Message) (s : St)
      → Tracks v s
      → Tracks v (send b m r required close_after handshake notice source s)
  unfolding send effect token
  send-Tracks b m r required close_after handshake notice source s h =
      let stored = same-Tracks refl refl refl (token-Tracks s h) in
      emit-Tracks _ _ refl h.same
        (maybe-Tracks r _ _ stored (λ p _. set_control-Tracks p _ _ stored))
