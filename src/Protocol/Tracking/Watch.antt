-- ===== src/Protocol/Tracking/Watch.antt =====
-- diam/internal/protocol/watchdog.go: the watchdog, as its executor sees it.
use go_diameter.Prelude.{ℕ, refl}
use go_diameter.Prelude.Int.{ℤ}
use go_diameter.Diam.Codes.{ProtocolErrorKind}
use go_diameter.Diam.Error.{Err}
use go_diameter.Diam.Message.{Message}
use go_diameter.Base.Interface.{Base}
use go_diameter.Protocol.Types.{Input}
use go_diameter.Protocol.Core.{St, effect}
use go_diameter.Protocol.Send.{notify}
use go_diameter.Protocol.Watch.{
  watchdog_arm, watchdog_up, watchdog_published, activity, valid_activity, watchdog_tick,
  watchdog_expired, consumed, consume_control, discard_cause, credit_dwa, answered_dwa, dwa,
}
use go_diameter.Protocol.Tracking.{View, Tracks, same-Tracks, emit-Tracks, if-Tracks, maybe-Tracks}
use go_diameter.Protocol.Tracking.Send.{
  set_control-Tracks, arm-Tracks, stop-Tracks, discard-Tracks, amend-Tracks, reserve-Tracks,
  settle-Tracks,
}
use go_diameter.Protocol.Tracking.Ending.{fail-Tracks}

module _ {v : View} where
  pub watchdog_arm-Tracks : (at : ℕ) (i : ℤ) (s : St) → Tracks v s → Tracks v (watchdog_arm at i s)
  unfolding watchdog_arm
  watchdog_arm-Tracks at i s h =
      let p = stop-Tracks _ s h in if-Tracks _ _ _ (λ _. p) (λ _. arm-Tracks _ at _ _ p)

  pub watchdog_up-Tracks : (inp : Input) (s : St) → Tracks v s → Tracks v (watchdog_up inp s)
  unfolding watchdog_up
  watchdog_up-Tracks inp s h =
      if-Tracks _ _ _ (λ _. h)
        (λ _.
          if-Tracks _ _ _ (λ _. reserve-Tracks _ _ (same-Tracks refl refl refl h))
            (λ _.
              if-Tracks _ _ _ (λ _. watchdog_arm-Tracks _ _ _ (same-Tracks refl refl refl h))
                (λ _. same-Tracks refl refl refl h)))

  pub watchdog_published-Tracks :
      (inp : Input) (s : St) → Tracks v s → Tracks v (watchdog_published inp s)
  unfolding watchdog_published notify effect
  watchdog_published-Tracks inp s h =
      if-Tracks _ _ _ (λ _. h)
        (λ _. maybe-Tracks _ _ _ h (λ next _.
          let a = watchdog_arm-Tracks inp.at inp.interval _ (same-Tracks refl refl refl h) in
          emit-Tracks _ _ refl a.same a))

  pub activity-Tracks : (inp : Input) (s : St) → Tracks v s → Tracks v (activity inp s)
  unfolding activity
  activity-Tracks inp s h = if-Tracks _ _ _ (λ _. h) (λ _. watchdog_arm-Tracks _ _ s h)

  pub valid_activity-Tracks : (s : St) → Tracks v s → Tracks v (valid_activity s)
  unfolding valid_activity notify effect
  valid_activity-Tracks s h =
      if-Tracks _ _ _ (λ _. h)
        (λ _.
          if-Tracks _ _ _ (λ _. emit-Tracks _ _ refl h.same (same-Tracks refl refl refl h))
            (λ _. same-Tracks refl refl refl h))

  watchdog_tick-Tracks : (inp : Input) (s : St) → Tracks v s → Tracks v (watchdog_tick inp s)
  unfolding watchdog_tick notify effect
  watchdog_tick-Tracks inp s h =
      let p = stop-Tracks _ s h in
      let n =
        if-Tracks _ _ _ (λ _. emit-Tracks _ _ refl p.same (same-Tracks refl refl refl p))
          (λ _. same-Tracks refl refl refl p) in
      if-Tracks _ _ _ (λ _. fail-Tracks inp _ 0 s h)
        (λ _.
          if-Tracks _ _ _ (λ _. reserve-Tracks _ _ (same-Tracks refl refl refl p))
            (λ _. if-Tracks _ _ _ (λ _. watchdog_arm-Tracks _ _ _ n) (λ _. n)))

  pub watchdog_expired-Tracks :
      (inp : Input) (s : St) → Tracks v s → Tracks v (watchdog_expired inp s)
  unfolding watchdog_expired
  watchdog_expired-Tracks inp s h =
      if-Tracks _ _ _ (λ _. h)
        (λ _.
          if-Tracks _ _ _ (λ _. same-Tracks refl refl refl h)
            (λ _.
              if-Tracks _ _ _ (λ _. watchdog_arm-Tracks _ _ s h)
                (λ _. watchdog_tick-Tracks inp s h)))

  consume_control-Tracks :
      (p : ℕ) (m : Message) (s : St) → Tracks v s → Tracks v (consume_control p m s)
  unfolding consume_control consumed effect
  consume_control-Tracks p m s h =
      if-Tracks _ _ _ (λ _. h) (λ _. emit-Tracks _ _ refl h.same (set_control-Tracks p _ s h))

  pub discard_cause-Tracks :
      (inp : Input) (k : ProtocolErrorKind) (e : Err) (s : St)
      → Tracks v s
      → Tracks v (discard_cause inp k e s)
  unfolding discard_cause
  discard_cause-Tracks inp k e s h = amend-Tracks _ _ (discard-Tracks inp k 0 s h)

  credit_dwa-Tracks : (p : ℕ) (m : Message) (s : St) → Tracks v s → Tracks v (credit_dwa p m s)
  unfolding credit_dwa notify effect
  credit_dwa-Tracks p m s h =
      let t = settle-Tracks p _ (consume_control-Tracks p m _ (same-Tracks refl refl refl h)) in
      let n = emit-Tracks _ _ refl t.same t in
      if-Tracks _ _ _ (λ _. emit-Tracks _ _ refl n.same n) (λ _. n)

  answered_dwa-Tracks :
      (b : Base) (inp : Input) (m : Message) (p : ℕ) (s : St)
      → Tracks v s
      → Tracks v (answered_dwa b inp m p s)
  unfolding answered_dwa
  answered_dwa-Tracks b inp m p s h =
      if-Tracks _ _ _ (λ _. discard_cause-Tracks inp _ _ s h)
        (λ _.
          if-Tracks _ _ _ (λ _. discard_cause-Tracks inp _ _ s h)
            (λ _.
              if-Tracks _ _ _
                (λ _. amend-Tracks _ _ (discard-Tracks inp _ _ _ (consume_control-Tracks p m s h)))
                (λ _.
                  if-Tracks _ _ _ (λ _. discard_cause-Tracks inp _ _ s h)
                    (λ _. credit_dwa-Tracks p m s h))))

  pub dwa-Tracks :
      (b : Base) (inp : Input) (m : Message) (s : St) → Tracks v s → Tracks v (dwa b inp m s)
  unfolding dwa
  dwa-Tracks b inp m s h =
      let u = amend-Tracks _ _ (discard-Tracks inp _ 0 s h) in
      maybe-Tracks _ _ _
        (if-Tracks _ _ _ (λ _. u)
          (λ _. maybe-Tracks _ _ _ u (λ p _. answered_dwa-Tracks b inp m p s h)))
        (λ e _. discard-Tracks _ _ _ s h)
