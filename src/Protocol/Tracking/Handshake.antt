-- ===== src/Protocol/Tracking/Handshake.antt =====
-- diam/internal/protocol/handshake.go: the capabilities exchange, as its executor sees it.
use go_diameter.Prelude.{ℕ, refl, false, Option, List}
use go_diameter.Diam.Error.{Err}
use go_diameter.Diam.Message.{Message}
use go_diameter.Base.Interface.{Base}
use go_diameter.Base.Settings.{Cer, Cea}
use go_diameter.Protocol.Types.{Input}
use go_diameter.Protocol.Core.{St, effect}
use go_diameter.Protocol.Identity.{negotiate}
use go_diameter.Protocol.Watch.{consumed}
use go_diameter.Protocol.Handshake.{
  reject_cer, adopt_cer, candidate, grant, publish, take_candidate, answer_candidate,
  open_candidate, activate, handshake_ready, set_handshake, close_exchange, adopt_cea, accept_cea,
  correlated_cea, cea,
}
use go_diameter.Protocol.Tracking.{
  View, Tracks, same-Tracks, emit-Tracks, if-Tracks, maybe-Tracks, checked-Tracks,
}
use go_diameter.Protocol.Tracking.Send.{
  token-Tracks, stop-Tracks, discard-Tracks, amend-Tracks, settle-Tracks, send-Tracks,
}
use go_diameter.Protocol.Tracking.Ending.{
  fail-Tracks, failed_rejection-Tracks, latch_terminal-Tracks, reject-Tracks,
}

module _ {v : View} where
  negotiate-Tracks :
      (host realm apps : List ℕ) (s : St) → Tracks v s → Tracks v (negotiate host realm apps s)
  unfolding negotiate
  negotiate-Tracks host realm apps s h = same-Tracks refl refl refl h

  reject_cer-Tracks :
      (b : Base) (inp : Input) (m : Message) (e : Err) (s : St)
      → Tracks v s
      → Tracks v (reject_cer b inp m e s)
  unfolding reject_cer
  reject_cer-Tracks b inp m e s h =
      maybe-Tracks _ _ _
        (checked-Tracks _ _ _ (λ f. failed_rejection-Tracks inp _ _ f s h)
          (λ a. send-Tracks b a _ _ _ _ _ _ _ (latch_terminal-Tracks _ s h)))
        (λ me _. reject-Tracks b inp m _ me s h)

  adopt_cer-Tracks :
      (b : Base) (m : Message) (c : Cer) (s : St) → Tracks v s → Tracks v (adopt_cer b m c s)
  unfolding adopt_cer
  adopt_cer-Tracks b m c s h =
      same-Tracks refl refl refl
        (token-Tracks _ (negotiate-Tracks _ _ _ _ (same-Tracks refl refl refl h)))

  pub candidate-Tracks :
      (b : Base) (inp : Input) (m : Message) (s : St) → Tracks v s → Tracks v (candidate b inp m s)
  unfolding candidate effect
  candidate-Tracks b inp m s h0 =
      let h : Tracks v (record s { core = record s.core { passive_responder = false } }) =
        same-Tracks refl refl refl h0 in
      let a = adopt_cer-Tracks b m _ _ h in
      if-Tracks _ _ _ (λ _. reject_cer-Tracks b inp m _ _ h)
        (λ _.
          if-Tracks _ _ _ (λ _. reject_cer-Tracks b inp m _ _ h)
            (λ _.
              if-Tracks _ _ _ (λ _. emit-Tracks _ _ refl a.same (stop-Tracks _ _ a))
                (λ _. emit-Tracks _ _ refl a.same a)))

  grant-Tracks : (s : St) → Tracks v s → Tracks v (grant s)
  unfolding grant
  grant-Tracks s h = same-Tracks refl refl refl (token-Tracks s h)

  publish-Tracks : (s : St) → Tracks v s → Tracks v (publish s)
  unfolding publish effect
  publish-Tracks s h = emit-Tracks _ s refl h.same h

  take_candidate-Tracks : (inp : Input) (s : St) → Tracks v s → Tracks v (take_candidate inp s)
  unfolding take_candidate
  take_candidate-Tracks inp s h =
      if-Tracks _ _ _ (λ _. same-Tracks refl refl refl h) (λ _. same-Tracks refl refl refl h)

  answer_candidate-Tracks :
      (b : Base) (inp : Input) (s : St) → Tracks v s → Tracks v (answer_candidate b inp s)
  unfolding answer_candidate
  answer_candidate-Tracks b inp s h = maybe-Tracks _ _ _ h (λ m _.
      checked-Tracks _ _ _ (λ f. fail-Tracks _ _ _ s h) (λ a. send-Tracks b a _ _ _ _ _ _ s h))

  open_candidate-Tracks :
      (b : Base) (inp : Input) (s : St) → Tracks v s → Tracks v (open_candidate b inp s)
  unfolding open_candidate
  open_candidate-Tracks b inp s h =
      answer_candidate-Tracks b inp _
        (publish-Tracks _ (stop-Tracks _ _ (grant-Tracks _ (take_candidate-Tracks inp s h))))

  pub activate-Tracks : (b : Base) (inp : Input) (s : St) → Tracks v s → Tracks v (activate b inp s)
  unfolding activate
  activate-Tracks b inp s h = if-Tracks _ _ _ (λ _. h) (λ _. open_candidate-Tracks b inp s h)

  pub handshake_ready-Tracks : (s : St) → Tracks v s → Tracks v (handshake_ready s)
  unfolding handshake_ready effect
  handshake_ready-Tracks s h = emit-Tracks _ _ refl h.same (same-Tracks refl refl refl h)

  pub set_handshake-Tracks :
      (e : Err) (c : Option Cea) (s : St) → Tracks v s → Tracks v (set_handshake e c s)
  unfolding set_handshake
  set_handshake-Tracks e c s h = same-Tracks refl refl refl h

  close_exchange-Tracks :
      (m : Message) (p : ℕ) (s : St) → Tracks v s → Tracks v (close_exchange m p s)
  unfolding close_exchange consumed effect
  close_exchange-Tracks m p s h =
      stop-Tracks _ _ (stop-Tracks _ _ (settle-Tracks p _ (emit-Tracks _ s refl h.same h)))

  adopt_cea-Tracks :
      (b : Base) (m : Message) (c : Cea) (s : St) → Tracks v s → Tracks v (adopt_cea b m c s)
  unfolding adopt_cea
  adopt_cea-Tracks b m c s h = negotiate-Tracks _ _ _ _ (same-Tracks refl refl refl h)

  accept_cea-Tracks :
      (b : Base) (m : Message) (c : Cea) (p : ℕ) (s : St)
      → Tracks v s
      → Tracks v (accept_cea b m c p s)
  unfolding accept_cea
  accept_cea-Tracks b m c p s h =
      handshake_ready-Tracks _ (
        publish-Tracks _
          (grant-Tracks _ (adopt_cea-Tracks b m c _ (close_exchange-Tracks m p s h))))

  correlated_cea-Tracks :
      (b : Base) (inp : Input) (m : Message) (p : ℕ) (s : St)
      → Tracks v s
      → Tracks v (correlated_cea b inp m p s)
  unfolding correlated_cea
  correlated_cea-Tracks b inp m p s h0 =
      let h = set_handshake-Tracks _ _ s h0 in
      if-Tracks _ _ _ (λ _. fail-Tracks inp _ _ _ h)
        (λ _.
          if-Tracks _ _ _ (λ _. fail-Tracks inp _ 0 _ (set_handshake-Tracks _ _ _ h))
            (λ _. accept_cea-Tracks b m _ p _ h))

  pub cea-Tracks :
      (b : Base) (inp : Input) (m : Message) (s : St) → Tracks v s → Tracks v (cea b inp m s)
  unfolding cea
  cea-Tracks b inp m s h =
      let u =
        if-Tracks _ _ _ (λ _. fail-Tracks inp _ 0 s h)
          (λ _. amend-Tracks _ _ (discard-Tracks inp _ 0 s h)) in
      if-Tracks _ _ _ (λ _. u)
        (λ _.
          maybe-Tracks _ _ _
            (maybe-Tracks _ _ _ (maybe-Tracks _ _ _ u (λ p _. correlated_cea-Tracks b inp m p s h))
              (λ e _. fail-Tracks inp _ _ _ (set_handshake-Tracks _ _ s h)))
            (λ e _. fail-Tracks inp _ _ _ (set_handshake-Tracks _ _ s h)))
