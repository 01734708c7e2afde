-- ===== src/Protocol/Tracking/Receive.antt =====
-- diam/internal/protocol/receive.go: answers and refusals, as the executor sees them.
use go_diameter.Prelude.{ℕ, refl, Bool, List}
use go_diameter.Diam.Avp.{Avp}
use go_diameter.Diam.Codes.{ProtocolErrorKind}
use go_diameter.Diam.Error.{Err, MessageError}
use go_diameter.Diam.Header.{Header}
use go_diameter.Diam.Message.{Message}
use go_diameter.Base.Interface.{Base}
use go_diameter.Base.Settings.{RequestError}
use go_diameter.Protocol.Types.{Input, Notification}
use go_diameter.Protocol.Core.{St, effect}
use go_diameter.Protocol.Send.{notify}
use go_diameter.Protocol.Receive.{
  pause_hook, dwr, request_error, unhandled, answer_external, external_message_error, message_error,
  admit, receive_application,
}
use go_diameter.Protocol.Tracking.{
  View, Tracks, same-Tracks, emit-Tracks, admit-Tracks, if-Tracks, maybe-Tracks, checked-Tracks,
}
use go_diameter.Protocol.Tracking.Send.{
  token-Tracks, discard-Tracks, amend-Tracks, mark_answer_hook-Tracks, send-Tracks,
}
use go_diameter.Protocol.Tracking.Ending.{
  fail-Tracks, failed_rejection-Tracks, latch_terminal-Tracks, reject-Tracks,
}
use go_diameter.Protocol.Tracking.Watch.{valid_activity-Tracks, discard_cause-Tracks}

module _ {v : View} where
  pub pause_hook-Tracks :
      (inp : Input) (m : Message) (s : St) → Tracks v s → Tracks v (pause_hook inp m s)
  unfolding pause_hook effect
  pause_hook-Tracks inp m s h =
      let t = token-Tracks s h in
      let o =
        if-Tracks _ _ _ (λ _. same-Tracks refl refl refl t) (λ _. same-Tracks refl refl refl t) in
      emit-Tracks _ _ refl o.same o

  pub dwr-Tracks :
      (b : Base) (inp : Input) (m : Message) (s : St) → Tracks v s → Tracks v (dwr b inp m s)
  unfolding dwr
  dwr-Tracks b inp m s h =
      if-Tracks _ _ _ (λ _. discard_cause-Tracks inp _ _ s h)
        (λ _.
          if-Tracks _ _ _ (λ _. discard_cause-Tracks inp _ _ s h)
            (λ _.
              checked-Tracks _ _ _ (λ e. fail-Tracks inp _ _ s h)
                (λ a.
                  mark_answer_hook-Tracks _
                    (send-Tracks b a _ _ _ _ _ _ _ (valid_activity-Tracks s h)))))

  pub request_error-Tracks :
      (b : Base) (inp : Input) (m : Message) (r : RequestError) (u : Bool) (s : St)
      → Tracks v s
      → Tracks v (request_error b inp m r u s)
  unfolding request_error
  request_error-Tracks b inp m r u s h =
      if-Tracks _ _ _ (λ _. discard-Tracks inp _ _ s h)
        (λ _.
          checked-Tracks _ _ _
            (λ e.
              if-Tracks _ _ _ (λ _. amend-Tracks _ _ (failed_rejection-Tracks inp _ _ e s h))
                (λ _. failed_rejection-Tracks inp _ _ e s h))
            (λ a. send-Tracks b a _ _ _ _ _ _ _ (latch_terminal-Tracks _ s h)))

  pub unhandled-Tracks :
      (b : Base) (inp : Input) (s : St) → Tracks v s → Tracks v (unhandled b inp s)
  unfolding unhandled
  unhandled-Tracks b inp s h =
      let d = discard-Tracks inp _ 0 s h in
      if-Tracks _ _ _ (λ _. d)
        (λ _. maybe-Tracks _ _ _ d (λ m _. maybe-Tracks _ _ _ d (λ g _.
          if-Tracks _ _ _ (λ _. discard-Tracks inp _ 0 s h)
            (λ _.
              if-Tracks _ _ _ (λ _. request_error-Tracks b inp m _ _ s h)
                (λ _. request_error-Tracks b inp m _ _ s h)))))

  answer_external-Tracks :
      (b : Base) (inp : Input) (m : Message) (me : MessageError) (cause : Err) (failed : List Avp)
      (n : Notification) (s : St)
      → Tracks v s
      → Tracks v (answer_external b inp m me cause failed n s)
  unfolding answer_external
  answer_external-Tracks b inp m me cause failed n s h =
      checked-Tracks _ _ _ (λ e. amend-Tracks _ _ (failed_rejection-Tracks inp _ _ e s h))
        (λ a. send-Tracks b a _ _ _ _ _ _ _ (latch_terminal-Tracks _ s h))

  pub external_message_error-Tracks :
      (b : Base) (inp : Input) (m : Message) (k : ProtocolErrorKind) (fatal : Bool) (s : St)
      → Tracks v s
      → Tracks v (external_message_error b inp m k fatal s)
  unfolding external_message_error notify effect
  external_message_error-Tracks b inp m k fatal s h =
      let d = emit-Tracks _ _ refl h.same (emit-Tracks _ _ refl h.same h) in
      if-Tracks _ _ _ (λ _. d)
        (λ _. maybe-Tracks _ _ _ d (λ g _.
          if-Tracks _ _ _ (λ _. d)
            (λ _. maybe-Tracks _ _ _ d (λ me _.
              let a = answer_external-Tracks b inp m me _ _ _ s h in
              if-Tracks _ _ _ (λ _. a)
                (λ _. maybe-Tracks _ _ _ a (λ r _. answer_external-Tracks b inp m _ _ _ _ s h))))))

  pub message_error-Tracks :
      (b : Base) (inp : Input) (m : Message) (g : Header) (me : MessageError) (fatal : Bool)
      (s : St)
      → Tracks v s
      → Tracks v (message_error b inp m g me fatal s)
  unfolding message_error
  message_error-Tracks b inp m g me fatal s h =
      let r = reject-Tracks b inp m _ me s h in
      let d = discard-Tracks inp _ _ s h in
      if-Tracks _ _ _ (λ _. external_message_error-Tracks b inp m _ fatal s h)
        (λ _.
          if-Tracks _ _ _ (λ _. amend-Tracks _ _ d)
            (λ _.
              if-Tracks _ _ _ (λ _. if-Tracks _ _ _ (λ _. fail-Tracks inp _ _ s h) (λ _. d))
                (λ _.
                  if-Tracks _ _ _ (λ _. r)
                    (λ _. maybe-Tracks _ _ _ r (λ x _. request_error-Tracks b inp m x _ s h)))))

  pub granted-Tracks :
      (m : Message) (o : ℕ) (s : St) → v.Allowed → Tracks v s → Tracks v (admit m o s)
  unfolding admit effect
  granted-Tracks m o s a h = admit-Tracks _ s refl h.same a h

  pub receive_application-Tracks :
      (b : Base) (inp : Input) (m : Message) (g : Header) (s : St)
      → v.Allowed
      → Tracks v s
      → Tracks v (receive_application b inp m g s)
  unfolding receive_application
  receive_application-Tracks b inp m g s a h =
      let t = valid_activity-Tracks s h in
      if-Tracks _ _ _ (λ _. discard-Tracks inp _ 0 s h)
        (λ _.
          if-Tracks _ _ _ (λ _. unhandled-Tracks b inp _ (if-Tracks _ _ _ (λ _. t) (λ _. h)))
            (λ _.
              if-Tracks _ _ _ (λ _. discard-Tracks inp _ 0 _ t) (λ _. granted-Tracks m _ _ a t)))
