-- ===== src/Protocol/Over.antt =====
-- diam/internal/protocol/core.go: inputs to a connection that is closed or retired.
use go_diameter.Prelude.{
  ℕ, refl, Bool, true, false, ◌≡◌, ◌∙◌, ap, Option, none, some, List, [], ◌∷◌, arith,
}
use go_diameter.Prelude.Tests.{if◌then◌else◌, maybe}
use go_diameter.Prelude.Lists.{All}
use go_diameter.Diam.Error.{Err}
use go_diameter.Base.Interface.{Base}
use go_diameter.Protocol.Types.{EffectKind, Phase, Input, TimerSnapshot, InputKind}
use go_diameter.Protocol.Core.{
  Core, Effect, Control, Operation, St, is_over, effect, emit, set_control,
}
use go_diameter.Protocol.Send.{notify, release}
use go_diameter.Protocol.Ending.{is_open, is_wait_cea}
use go_diameter.Protocol.Results.{
  reserved, finish_operation, mark_written, settle_operation, conclude, operation_result,
  skipped_control, write_result,
}
use go_diameter.Protocol.Handle.{is_result, handle_kind, late_return, handle}
use go_diameter.Protocol.Tracking.{All-append}
use go_diameter.Protocol.Executor.{run, at_rest}

-- What a connection that is over may still ask of its executor: to give identifiers back, and to
-- close and report the late return of a CER's hook.
abbrev pub is_final : EffectKind → Bool
is_final EffectKind.release_ids = true
is_final EffectKind.close = true
is_final EffectKind.notify = true
is_final _ = false

-- The phase and the timers are `p` and `g`, and every effect is a final one.
record Rests (p : Phase) (g : ℕ → TimerSnapshot) (s : St) : Type 0 where
  phase : s.core.phase ≡ p
  timers : s.core.timers ≡ g
  final : All (λ e. is_final e.kind ≡ true) s.out

over-waits : (p : Phase) → is_over p ≡ true → is_wait_cea p ≡ false
over-waits p h = ground arith

over-opens : (p : Phase) → is_over p ≡ true → is_open p ≡ false
over-opens p h = ground arith

module _ {p : Phase} {g : ℕ → TimerSnapshot} where
  same-Rests :
      {s t : St}
      → t.core.phase ≡ s.core.phase
      → t.core.timers ≡ s.core.timers
      → t.out ≡ s.out
      → Rests p g s
      → Rests p g t
  same-Rests f t o h = record { phase = f ∙ h.phase; timers = t ∙ h.timers; final = rw o h.final }

  emit-Rests : (e : Effect) (s : St) → is_final e.kind ≡ true → Rests p g s → Rests p g (emit e s)
  unfolding emit
  emit-Rests e s f h = record {
    phase = h.phase;
    timers = h.timers;
    final = All-append _ s.out e h.final f;
  }

  if-Rests :
      (b : Bool) (x y : St)
      → (b ≡ true → Rests p g x)
      → (b ≡ false → Rests p g y)
      → Rests p g (if b then x else y)
  unfolding if◌then◌else◌
  if-Rests true x y hx hy = hx refl
  if-Rests false x y hx hy = hy refl

  maybe-Rests :
      {A : Type 0} (o : Option A) (x : St) (f : A → St)
      → Rests p g x
      → ((a : A) → Rests p g (f a))
      → Rests p g (maybe o x f)
  unfolding maybe
  maybe-Rests none x f hx hf = hx
  maybe-Rests (some a) x f hx hf = hf a

  set_control-Rests :
      (i : ℕ) (f : Control → Control) (s : St) → Rests p g s → Rests p g (set_control i f s)
  unfolding set_control
  set_control-Rests i f s h = same-Rests refl refl refl h

  release-Rests : (i : ℕ) (s : St) → Rests p g s → Rests p g (release i s)
  unfolding release effect
  release-Rests i s h =
      let m = set_control-Rests i _ s h in
      if-Rests _ _ _ (λ _. h)
        (λ _. emit-Rests _ _ refl (if-Rests _ _ _ (λ _. same-Rests refl refl refl m) (λ _. m)))

  finish_operation-Rests :
      (t : ℕ) (op : Operation) (s : St) → Rests p g s → Rests p g (finish_operation t op s)
  unfolding finish_operation
  finish_operation-Rests t op s h =
      maybe-Rests _ _ _ (same-Rests refl refl refl h)
        (λ i. release-Rests i _ (set_control-Rests i _ _ (same-Rests refl refl refl h)))

  mark_written-Rests :
      (inp : Input) (op : Operation) (s : St) → Rests p g s → Rests p g (mark_written inp op s)
  unfolding mark_written
  mark_written-Rests inp op s h =
      if-Rests _ _ _ (λ _. maybe-Rests _ _ _ h (λ i. set_control-Rests i _ s h)) (λ _. h)

  settle_operation-Rests :
      (inp : Input) (op : Operation) (s : St) → Rests p g s → Rests p g (settle_operation inp op s)
  unfolding settle_operation
  settle_operation-Rests inp op s h =
      if-Rests _ _ _ (λ _. finish_operation-Rests _ op s h) (λ _. same-Rests refl refl refl h)

  late_return-Rests : (inp : Input) (s : St) → Rests p g s → Rests p g (late_return inp s)
  unfolding late_return notify effect
  late_return-Rests inp s h =
      let t = same-Rests refl refl refl h in
      if-Rests _ _ _ (λ _. t) (λ _. emit-Rests _ _ refl (emit-Rests _ _ refl t))

  module _ (over : is_over p ≡ true) where
    ended : (s : St) → Rests p g s → is_over s.core.phase ≡ true
    ended s h = ap is_over h.phase ∙ over

    conclude-Rests :
        (inp : Input) (op : Operation) (e : Err) (s : St)
        → Rests p g s
        → Rests p g (conclude inp op e s)
    unfolding conclude
    conclude-Rests inp op e s h = if-Rests _ _ _ (λ _. h) (λ f. ground (arith, ended s h))

    operation_result-Rests :
        (inp : Input) (op : Operation) (s : St)
        → Rests p g s
        → Rests p g (operation_result inp op s)
    unfolding operation_result
    operation_result-Rests inp op s h =
        if-Rests _ _ _ (λ _. h)
          (λ _.
            conclude-Rests inp _ _ _
              (settle_operation-Rests inp _ _ (mark_written-Rests inp _ s h)))

    skipped_control-Rests :
        (inp : Input) (i : ℕ) (s : St) → Rests p g s → Rests p g (skipped_control inp i s)
    unfolding skipped_control
    skipped_control-Rests inp i s h =
        let r = release-Rests i _ (set_control-Rests i _ _ (same-Rests refl refl refl h)) in
        if-Rests _ _ _ (λ q. absurd (ground (arith, over-waits _ (ended _ r))))
          (λ _.
            if-Rests _ _ _
              (λ _.
                if-Rests _ _ _ (λ q. absurd (ground (arith, over-opens _ (ended _ r))))
                  (λ _. same-Rests refl refl refl r))
              (λ _. r))

    write_result-Rests : (inp : Input) (s : St) → Rests p g s → Rests p g (write_result inp s)
    unfolding write_result
    write_result-Rests inp s h =
        if-Rests _ _ _ (λ _. h)
          (λ _. maybe-Rests _ _ _ h (λ op.
            if-Rests _ _ _
              (λ _.
                maybe-Rests _ _ _ (operation_result-Rests inp op s h)
                  (λ i. skipped_control-Rests inp i s h))
              (λ _. operation_result-Rests inp op s h)))

    reserved-Rests : (b : Base) (inp : Input) (s : St) → Rests p g s → Rests p g (reserved b inp s)
    unfolding reserved effect
    reserved-Rests b inp s h =
        let t = same-Rests refl refl refl h in
        maybe-Rests _ _ _ h λ command.
          if-Rests _ _ _ (λ _. if-Rests _ _ _ (λ _. t) (λ f. ground (arith, ended s h)))
            (λ _. if-Rests _ _ _ (λ _. emit-Rests _ _ refl t) (λ f. ground (arith, ended s h)))

    result-Rests :
        (b : Base) (k : InputKind) (inp : Input) (s : St)
        → is_result k ≡ true
        → Rests p g s
        → Rests p g (handle_kind b k inp s)
    unfolding handle_kind
    result-Rests b InputKind.reserve_result inp s q h = reserved-Rests b inp s h
    result-Rests b InputKind.write_result inp s q h = write_result-Rests inp s h
    result-Rests b _ inp s q h = absurd (ground arith)

    handle-Rests : (b : Base) (inp : Input) (s : St) → Rests p g s → Rests p g (handle b inp s)
    unfolding handle
    handle-Rests b inp s h =
        if-Rests _ _ _ (λ _. h)
          (λ _.
            if-Rests _ _ _ (λ q. result-Rests b inp.kind inp s q h)
              (λ _.
                if-Rests _ _ _ (λ _. late_return-Rests inp s h)
                  (λ _. if-Rests _ _ _ (λ _. h) (λ f. ground (arith, ended s h)))))

    run-Rests : (b : Base) (inps : List Input) (s : St) → Rests p g s → Rests p g (run b inps s)
    run-Rests b [] s h = h
    run-Rests b (inp ∷ inps) s h = run-Rests b inps _ (handle-Rests b inp s h)

-- For every base layer, inputs and connection that is closed or retired: the run leaves the phase
-- and all timers as they are, and asks the executor for nothing but to release identifiers, to
-- close the transport and to notify.
pub run-over :
    (b : Base) (inps : List Input) (c : Core)
    → is_over c.phase ≡ true
    → ((run b inps (at_rest c)).core.phase ≡ c.phase)
      × ((run b inps (at_rest c)).core.timers ≡ c.timers)
      × All (λ e. is_final e.kind ≡ true) (run b inps (at_rest c)).out
run-over b inps c over =
    let r : Rests c.phase c.timers (run b inps (at_rest c)) =
      run-Rests over b inps (at_rest c) (record { phase = refl; timers = refl; final = tt }) in
    (r.phase, r.timers, r.final)
