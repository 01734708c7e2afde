-- ===== src/Protocol/Tracking/Closing.antt =====
-- diam/internal/protocol/closing.go: disconnecting, as the executor sees it.
use go_diameter.Prelude.{ℕ, refl, Bool}
use go_diameter.Diam.Message.{Message}
use go_diameter.Base.Interface.{Base}
use go_diameter.Protocol.Types.{Input, Phase}
use go_diameter.Protocol.Core.{St, effect}
use go_diameter.Protocol.Send.{notify}
use go_diameter.Protocol.Closing.{
  await_disconnect, begin_closing, answer_dpr, freeze, disconnect, mark_release, decide_peer,
  accept_dpr, dpr, complete_dpa, accept_dpa, dpa,
}
use go_diameter.Protocol.Tracking.{
  View, Tracks, same-Tracks, emit-Tracks, if-Tracks, maybe-Tracks, checked-Tracks, modify-Tracks,
}
use go_diameter.Protocol.Tracking.Send.{
  token-Tracks, arm-Tracks, stop-Tracks, discard-Tracks, amend-Tracks, reserve-Tracks,
  settle-Tracks, send-Tracks,
}
use go_diameter.Protocol.Tracking.Ending.{fail-Tracks, terminate-Tracks}
use go_diameter.Protocol.Tracking.Watch.{valid_activity-Tracks, discard_cause-Tracks}

module _ {v : View} where
  await_disconnect-Tracks :
      (b : Bool) (inp : Input) (s : St) → Tracks v s → Tracks v (await_disconnect b inp s)
  unfolding await_disconnect
  await_disconnect-Tracks b inp s h = if-Tracks _ _ _ (λ _. same-Tracks refl refl refl h) (λ _. h)

  begin_closing-Tracks :
      (inp : Input) (local : Bool) (s : St) → Tracks v s → Tracks v (begin_closing inp local s)
  unfolding begin_closing effect
  begin_closing-Tracks inp local s h =
      let w = arm-Tracks _ inp.at _ _ (
        stop-Tracks _ _
          (await_disconnect-Tracks local inp _ (same-Tracks refl refl refl (token-Tracks s h)))) in
      emit-Tracks _ _ refl w.same w

  answer_dpr-Tracks :
      (b : Base) (inp : Input) (m : Message) (first : Bool) (s : St)
      → Tracks v s
      → Tracks v (answer_dpr b inp m first s)
  unfolding answer_dpr
  answer_dpr-Tracks b inp m first s h =
      checked-Tracks _ _ _ (λ e. fail-Tracks inp _ _ s h)
        (λ a.
          if-Tracks _ _ _ (λ _. send-Tracks b a _ _ _ _ _ _ _ (same-Tracks refl refl refl h))
            (λ _. send-Tracks b a _ _ _ _ _ _ s h))

  pub freeze-Tracks : (b : Base) (inp : Input) (s : St) → Tracks v s → Tracks v (freeze b inp s)
  unfolding freeze
  freeze-Tracks b inp s h =
      if-Tracks _ _ _ (λ _. h)
        (λ _.
          if-Tracks _ _ _ (λ _. reserve-Tracks _ _ (same-Tracks refl refl refl h))
            (λ _.
              maybe-Tracks _ _ _ (same-Tracks refl refl refl h)
                (λ m _. answer_dpr-Tracks b _ m _ _ (same-Tracks refl refl refl h))))

  pub disconnect-Tracks : (inp : Input) (s : St) → Tracks v s → Tracks v (disconnect inp s)
  unfolding disconnect notify effect
  disconnect-Tracks inp s h =
      if-Tracks _ _ _ (λ _. emit-Tracks _ s refl h.same h)
        (λ _.
          if-Tracks _ _ _
            (λ _. reserve-Tracks _ _ (arm-Tracks _ _ _ _ (same-Tracks refl refl refl h)))
            (λ _.
              if-Tracks _ _ _ (λ _. emit-Tracks _ s refl h.same h)
                (λ _. begin_closing-Tracks inp _ s h)))

  pub mark_release-Tracks : (i : ℕ) (s : St) → Tracks v s → Tracks v (mark_release i s)
  unfolding mark_release
  mark_release-Tracks i s h = modify-Tracks _ i s (λ e. refl) (λ e. refl) (λ e. refl) (λ e. refl) h

  decide_peer-Tracks : (cause : ℕ) (s : St) → Tracks v s → Tracks v (decide_peer cause s)
  unfolding decide_peer effect
  decide_peer-Tracks cause s h =
      if-Tracks _ _ _ (λ _. h) (λ _. emit-Tracks _ _ refl h.same (same-Tracks refl refl refl h))

  accept_dpr-Tracks :
      (b : Base) (inp : Input) (m : Message) (s : St) → Tracks v s → Tracks v (accept_dpr b inp m s)
  unfolding accept_dpr
  accept_dpr-Tracks b inp m s h =
      let d = decide_peer-Tracks inp.cause s h in
      if-Tracks _ _ _ (λ _. begin_closing-Tracks inp _ _ (valid_activity-Tracks _ d))
        (λ _.
          if-Tracks _ _ _ (λ _. discard-Tracks inp _ 0 _ d) (λ _. answer_dpr-Tracks b inp m _ _ d))

  pub dpr-Tracks :
      (b : Base) (inp : Input) (m : Message) (s : St) → Tracks v s → Tracks v (dpr b inp m s)
  unfolding dpr
  dpr-Tracks b inp m s h =
      checked-Tracks _ _ _ (λ e. discard_cause-Tracks inp _ e s h)
        (λ c.
          if-Tracks _ _ _ (λ _. discard_cause-Tracks inp _ _ s h)
            (λ _. mark_release-Tracks _ _ (accept_dpr-Tracks b _ m s h)))

  pub complete_dpa-Tracks :
      (inp : Input) (result : ℕ) (s : St) → Tracks v s → Tracks v (complete_dpa inp result s)
  unfolding complete_dpa notify effect
  complete_dpa-Tracks inp result s h =
      let e = terminate-Tracks Phase.closed _ (same-Tracks refl refl refl h) in
      let t = emit-Tracks _ _ refl e.same e in
      if-Tracks _ _ _ (λ _. t) (λ _. emit-Tracks _ _ refl t.same t)

  accept_dpa-Tracks :
      (inp : Input) (p result : ℕ) (s : St) → Tracks v s → Tracks v (accept_dpa inp p result s)
  unfolding accept_dpa
  accept_dpa-Tracks inp p result s h =
      let t = settle-Tracks p s h in
      if-Tracks _ _ _ (λ _. same-Tracks refl refl refl t) (λ _. complete_dpa-Tracks inp result _ t)

  pub dpa-Tracks :
      (b : Base) (inp : Input) (m : Message) (s : St) → Tracks v s → Tracks v (dpa b inp m s)
  unfolding dpa
  dpa-Tracks b inp m s h =
      let d = discard-Tracks inp _ 0 s h in
      let u = maybe-Tracks _ _ _ d (λ r _. if-Tracks _ _ _ (λ _. amend-Tracks _ _ d) (λ _. d)) in
      maybe-Tracks _ _ _ u (λ p _.
        if-Tracks _ _ _ (λ _. u)
          (λ _.
            checked-Tracks _ _ _ (λ e. discard_cause-Tracks inp _ e s h)
              (λ r.
                if-Tracks _ _ _ (λ _. amend-Tracks _ _ d) (λ _. accept_dpa-Tracks inp p r s h))))
