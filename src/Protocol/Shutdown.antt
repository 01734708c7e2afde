-- ===== src/Protocol/Shutdown.antt =====
-- diam/internal/protocol/core.go, `terminate`: the fields that the end of a connection clears.
use go_diameter.Prelude.{
  ℕ, ◌<◌, refl, Bool, true, false, inl, inr, ◌≡◌, ◌∙◌, ap, List, [], ◌∷◌, arith,
}
use go_diameter.Prelude.Tests.{◌==◌, if◌then◌else◌, maybe, Option-cases}
use go_diameter.Prelude.Maps.{update}
use go_diameter.Protocol.Types.{Phase, TimerSnapshot, timer_count}
use go_diameter.Protocol.Core.{Core, Control, Effect, St, emit, set_control}
use go_diameter.Protocol.Send.{stop, release, control_at}
use go_diameter.Protocol.Ending.{
  reset_for, stop_all, drop_control, cancel_sends, finish_handshake, finish_disconnect, emit_close,
  terminate,
}

stop-token :
    (k j : ℕ) (s : St)
    → ((stop k s).core.timers j).token ≡ (if j == k then 0 else (s.core.timers j).token)
unfolding stop emit update if◌then◌else◌
stop-token k j s = ground arith

-- Every timer of the connection is stopped.
abbrev pub Stopped : (ℕ → TimerSnapshot) → Type 0
Stopped g = (k : ℕ) → k < timer_count → (g k).token ≡ 0

stop_all-Stopped : (s : St) → Stopped (stop_all s).core.timers
unfolding stop_all if◌then◌else◌
stop_all-Stopped s k h =
    let s0 = stop 0 s in
    let s1 = stop 1 s0 in
    let s2 = stop 2 s1 in
    let s3 = stop 3 s2 in
    ground (
      arith,
      stop-token 0 k s,
      stop-token 1 k s0,
      stop-token 2 k s1,
      stop-token 3 k s2,
      stop-token 4 k s3,
    )

-- What the head of `terminate` assigns, and the timers once they are stopped.
record Cleared (p : Phase) (c : Core) : Type 0 where
  phase : c.phase ≡ p
  ready : c.ready ≡ false
  admission : c.admission ≡ 0
  candidate : c.candidate_token ≡ 0
  hook : c.hook_token ≡ 0
  continuations : c.continuations ≡ []

reset_for-Cleared : (p : Phase) (s : St) → Cleared p (reset_for p s).core
unfolding reset_for
reset_for-Cleared p s = record {
  phase = refl;
  ready = refl;
  admission = refl;
  candidate = refl;
  hook = refl;
  continuations = refl;
}

-- A connection with nothing left to run.
record Ended (p : Phase) (s : St) : Type 0 where
  cleared : Cleared p s.core
  stopped : Stopped s.core.timers

module _ {p : Phase} where
  same-Cleared :
      {c d : Core}
      → d.phase ≡ c.phase
      → d.ready ≡ c.ready
      → d.admission ≡ c.admission
      → d.candidate_token ≡ c.candidate_token
      → d.hook_token ≡ c.hook_token
      → d.continuations ≡ c.continuations
      → Cleared p c
      → Cleared p d
  same-Cleared f r a t k n h = record {
    phase = f ∙ h.phase;
    ready = r ∙ h.ready;
    admission = a ∙ h.admission;
    candidate = t ∙ h.candidate;
    hook = k ∙ h.hook;
    continuations = n ∙ h.continuations;
  }

  if-Cleared :
      (b : Bool) (x y : St)
      → Cleared p x.core
      → Cleared p y.core
      → Cleared p (if b then x else y).core
  unfolding if◌then◌else◌
  if-Cleared true x y hx hy = hx
  if-Cleared false x y hx hy = hy

  stop-Cleared : (k : ℕ) (s : St) → Cleared p s.core → Cleared p (stop k s).core
  unfolding stop emit
  stop-Cleared k s h = if-Cleared _ _ _ h (same-Cleared refl refl refl refl refl refl h)

  stop_all-Cleared : (s : St) → Cleared p s.core → Cleared p (stop_all s).core
  unfolding stop_all
  stop_all-Cleared s h =
      stop-Cleared _ _ (stop-Cleared _ _ (stop-Cleared _ _ (stop-Cleared _ _ (stop-Cleared _ s h))))

  same-Ended :
      {s t : St}
      → (Cleared p s.core → Cleared p t.core)
      → t.core.timers ≡ s.core.timers
      → Ended p s
      → Ended p t
  same-Ended c t h = record {
    cleared = c h.cleared;
    stopped = λ k q. ap (λ g. (g k).token) t ∙ h.stopped k q;
  }

  if-Ended : (b : Bool) (x y : St) → Ended p x → Ended p y → Ended p (if b then x else y)
  unfolding if◌then◌else◌
  if-Ended true x y hx hy = hx
  if-Ended false x y hx hy = hy

  emit-Ended : (e : Effect) (s : St) → Ended p s → Ended p (emit e s)
  unfolding emit
  emit-Ended e s h = same-Ended (same-Cleared refl refl refl refl refl refl) refl h

  set_control-Ended :
      (i : ℕ) (f : Control → Control) (s : St) → Ended p s → Ended p (set_control i f s)
  unfolding set_control
  set_control-Ended i f s h = same-Ended (same-Cleared refl refl refl refl refl refl) refl h

  release-Ended : (i : ℕ) (s : St) → Ended p s → Ended p (release i s)
  unfolding release
  release-Ended i s h =
      let m = set_control-Ended i _ s h in
      if-Ended _ _ _ h (
        emit-Ended _ _
          (if-Ended _ _ _ (same-Ended (same-Cleared refl refl refl refl refl refl) refl m) m))

  drop_control-Ended : (command : ℕ) (s : St) → Ended p s → Ended p (drop_control command s)
  unfolding drop_control maybe
  drop_control-Ended command s h = elim (Option-cases (control_at s.core command)) [
    | inl n ↦ rw n h
    | inr (i, e) ↦ rw e (release-Ended i _ (set_control-Ended i _ s h))
  ]

  cancel_sends-Ended : (ts : List ℕ) (s : St) → Ended p s → Ended p (cancel_sends ts s)
  unfolding cancel_sends
  cancel_sends-Ended [] s h = h
  cancel_sends-Ended (t ∷ ts) s h = cancel_sends-Ended ts _ (emit-Ended _ s h)

  emit_close-Ended : (q : Phase) (s : St) → Ended p s → Ended p (emit_close q s)
  unfolding emit_close
  emit_close-Ended q s h = if-Ended _ _ _ (emit-Ended _ s h) h

  finish_handshake-Ended : (s : St) → Ended p s → Ended p (finish_handshake s)
  unfolding finish_handshake
  finish_handshake-Ended s h =
      if-Ended _ _ _
        (emit-Ended _ _ (same-Ended (same-Cleared refl refl refl refl refl refl) refl h)) h

  finish_disconnect-Ended : (s : St) → Ended p s → Ended p (finish_disconnect s)
  unfolding finish_disconnect
  finish_disconnect-Ended s h =
      if-Ended _ _ _
        (emit-Ended _ _ (same-Ended (same-Cleared refl refl refl refl refl refl) refl h)) h

terminate-Ended : (p : Phase) (s : St) → Ended p (terminate p s)
unfolding terminate
terminate-Ended p s =
    let r = stop_all-Cleared _ (reset_for-Cleared p s) in
    finish_disconnect-Ended _ (
      finish_handshake-Ended _ (
        emit_close-Ended p _ (
          cancel_sends-Ended _ _ (
            drop_control-Ended _ _ (
              drop_control-Ended _ _
                (drop_control-Ended _ _ (record { cleared = r; stopped = stop_all-Stopped _ })))))))

finish_disconnect-settled :
    (s : St)
    → ((finish_disconnect s).core.disconnect_waiting ≡ false)
      × ((finish_disconnect s).core.handshake_pending ≡ s.core.handshake_pending)
unfolding finish_disconnect emit if◌then◌else◌
finish_disconnect-settled s = ground arith

finish_handshake-settled : (s : St) → (finish_handshake s).core.handshake_pending ≡ false
unfolding finish_handshake emit if◌then◌else◌
finish_handshake-settled s = ground arith

terminate-settled :
    (p : Phase) (s : St)
    → ((terminate p s).core.disconnect_waiting ≡ false)
      × ((terminate p s).core.handshake_pending ≡ false)
unfolding terminate
terminate-settled p s =
    let d = finish_disconnect-settled (finish_handshake _) in
    (d.0, d.1 ∙ finish_handshake-settled _)

-- For every phase, state and timer: ending the connection in that phase leaves it there, not ready,
-- with no admission, candidate or hook token, no continuation to resume, no handshake or disconnect
-- that still owes its notification, and the timer stopped.
pub terminate_clears :
    (p : Phase) (s : St) (k : ℕ)
    → k < timer_count
    → ((terminate p s).core.phase ≡ p)
      × ((terminate p s).core.ready ≡ false)
      × ((terminate p s).core.admission ≡ 0)
      × ((terminate p s).core.candidate_token ≡ 0)
      × ((terminate p s).core.hook_token ≡ 0)
      × ((terminate p s).core.continuations ≡ [])
      × ((terminate p s).core.handshake_pending ≡ false)
      × ((terminate p s).core.disconnect_waiting ≡ false)
      × (((terminate p s).core.timers k).token ≡ 0)
terminate_clears p s k h =
    let e = terminate-Ended p s in
    let c = e.cleared in
    let d = terminate-settled p s in
    (c.phase, c.ready, c.admission, c.candidate, c.hook, c.continuations, d.1, d.0, e.stopped k h)
