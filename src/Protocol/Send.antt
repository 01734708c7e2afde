-- ===== src/Protocol/Send.antt =====
-- diam/internal/protocol/core.go and control.go: timers, notifications, identifiers and writers.
use go_diameter.Prelude.{ℕ, ◌+◌, Bool, true, false, not, ◌&&◌, ◌||◌, Option, none, some}
use go_diameter.Prelude.Tests.{◌==◌, if◌then◌else◌, maybe}
use go_diameter.Prelude.Lists.{modify_last}
use go_diameter.Prelude.Int.{ℤ, increment, is_nonpositive, magnitude, equals}
use go_diameter.Prelude.Maps.{lookup, remove, insert, update}
use go_diameter.Diam.Codes.{ProtocolErrorKind, unclassified}
use go_diameter.Diam.Error.{Err, no_error, MessageError, as_error}
use go_diameter.Diam.Header.{is_request}
use go_diameter.Diam.Message.{Message, metadata, no_metadata}
use go_diameter.Base.Interface.{Base}
use go_diameter.Protocol.Types.{
  EffectKind, Notification, NoticeKind, handshake_notice, Input, TimerSnapshot, no_timer, no_notice,
  queue_stage, written_stage,
}
use go_diameter.Protocol.Core.{
  Core, St, Control, Operation, Effect, upd, next_token, token, effect, emit, set_control,
}

-- `c.timers[k] = t`.
set_timer : ℕ → TimerSnapshot → St → St
set_timer k t s = upd (λ c. record c { timers = update c.timers k t }) s

-- `c.arm(es, k, at, d)`.
unfoldable pub arm : ℕ → ℕ → ℤ → St → St
unfolding set_timer
arm k at d s =
    let t = next_token s.core in
    let deadline = at + magnitude d in
    let armed =
      set_timer k (record { token = t; deadline = deadline })
        (emit
          (record (effect s.core EffectKind.arm_timer) {
            timer = k;
            token = t;
            deadline = deadline;
          })
          (token s)) in
    if is_nonpositive d then s else armed

-- `c.stop(es, k)`.
unfoldable pub stop : ℕ → St → St
unfolding set_timer
stop k s =
    let t = (s.core.timers k).token in
    let stopped =
      set_timer k no_timer
        (emit (record (effect s.core EffectKind.stop_timer) { timer = k; token = t }) s) in
    if t == 0 then s else stopped

-- `c.notify(n)`.
abbrev is_handshake_notice : NoticeKind → Bool
is_handshake_notice handshake_notice = true
is_handshake_notice _ = false

unfoldable pub notify : Core → Notification → Effect
notify c n =
    let result = record n { handshake = c.handshake } in
    record (effect c EffectKind.notify) {
      notification = if is_handshake_notice n.kind then result else n;
    }

-- A `*MessageError` as the cause in a notification; nil stays nil.
abbrev pub cause_of : Option MessageError → Err
cause_of none = no_error
cause_of (some e) = as_error e

abbrev pub is_unclassified : ProtocolErrorKind → Bool
is_unclassified unclassified = true
is_unclassified _ = false

-- `c.discard(es, in, kind, code)`.
unfoldable pub discard : Input → ProtocolErrorKind → ℕ → St → St
discard inp kind code s =
    let dropped = emit (effect s.core EffectKind.discard) s in
    if is_unclassified kind
    then dropped
    else emit
        (notify s.core (record no_notice {
          protocol = kind;
          result_code = code;
          message = metadata inp.message;
          cause_error = cause_of inp.error;
        }))
        dropped

-- `es[len(es)-1].Notification... = ...`, by the function that changes the notification.
unfoldable pub amend : (Notification → Notification) → St → St
amend f s = record s { out = modify_last (λ e. record e { notification = f e.notification }) s.out }

-- `es[len(es)-1].AnswerHook = true`.
unfoldable pub mark_answer_hook : St → St
mark_answer_hook s = record s { out = modify_last (λ e. record e { answer_hook = true }) s.out }

-- `c.reserve(es, command)`.
unfoldable pub reserve : ℕ → St → St
reserve command s =
    let t = next_token s.core in
    emit (record (effect s.core EffectKind.reserve_ids) { command = command; token = t })
      (upd (λ c. record c { reservations = insert t command c.reservations }) (token s))

-- `c.release(es, r)`, for the control that `p` points to.
unfoldable pub release : ℕ → St → St
release p s =
    let r = s.core.cells p in
    let marked = set_control p (λ r. record r { released = true }) s in
    let forgotten = upd (λ c. record c { controls = remove r.command c.controls }) marked in
    let here = maybe (lookup r.command s.core.controls) false (λ q. q == p) in
    let dropped = if here then forgotten else marked in
    if r.logical || not (equals r.writers 0) || r.released
    then s
    else emit (record (effect s.core EffectKind.release_ids) { reservation = r.reservation })
        dropped

-- `c.settle(es, r)`.
unfoldable pub settle : ℕ → St → St
settle p s = release p (set_control p (λ r. record r { logical = false; answered = true }) s)

-- `c.send(es, m, r, required, closeAfter, handshake, notice, source...)`.
unfoldable pub send :
    Base → Message → Option ℕ → Bool → Bool → Bool → Option Notification → Option Message → St → St
send b m r required close_after handshake notice source s =
    let t = next_token s.core in
    let described = maybe notice no_metadata (λ n. n.message) in
    let op : Operation = record {
      control = r;
      message = maybe source described (λ x. metadata (some x));
      length = b.len m;
      required = required;
      close_after = close_after;
      handshake = handshake;
      reported = false;
      queued = false;
      notice = notice;
    } in
    let stored = upd (λ c. record c { operations = insert t op c.operations }) (token s) in
    let counted = maybe r stored λ p.
      set_control p (λ r. record r { writers = increment r.writers; attempts = r.attempts + 1 })
        stored in
    emit
      (record (effect s.core EffectKind.send) {
        token = t;
        message = some m;
        notification = maybe notice no_notice (λ n. n);
        required = required;
        close_after = close_after;
        stage = if s.core.cfg.queue_writes then queue_stage else written_stage;
      })
      counted

-- `c.matches(r, m)`.
unfoldable pub matches : Option Control → Option Message → Bool
matches r m = maybe r false λ r. maybe m false λ m. maybe m.header false λ h.
    maybe r.header false λ own.
      r.logical
      && (h.application_id == 0
          && (not (is_request h)
              && (h.command_code == r.command
                  && (h.hop_by_hop_id == own.hop_by_hop_id
                      && h.end_to_end_id == own.end_to_end_id))))

-- `c.controls[command]`, as a pointer and as the control that it points to.
unfoldable pub control_at : Core → ℕ → Option ℕ
control_at c command = lookup command c.controls

unfoldable pub control_of : Core → ℕ → Option Control
unfolding control_at
control_of c command = maybe (control_at c command) none (λ p. some (c.cells p))
