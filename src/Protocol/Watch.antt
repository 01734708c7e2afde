-- ===== src/Protocol/Watch.antt =====
-- diam/internal/protocol/watchdog.go: the watchdog of an open connection.
use go_diameter.Prelude.{ℕ, Bool, true, false, not, ◌&&◌, ◌||◌, none, some}
use go_diameter.Prelude.Tests.{◌==◌, ltb, if◌then◌else◌, maybe, is_some}
use go_diameter.Prelude.Int.{ℤ, is_nonpositive}
use go_diameter.Diam.Codes.{
  ProtocolErrorKind, device_watchdog, watchdog_timeout, invalid_dwa, unexpected_message,
  rejected_dwa, success,
}
use go_diameter.Diam.Error.{Err, text, is_error}
use go_diameter.Diam.Header.{has_flag, error_flag}
use go_diameter.Diam.Message.{Message, metadata}
use go_diameter.Base.Header.{fatal_header_error}
use go_diameter.Base.Interface.{Base}
use go_diameter.Watchdog
use go_diameter.Protocol.Types.{
  EffectKind, Input, Notification, no_notice, watchdog_notice, watchdog_timer,
}
use go_diameter.Protocol.Core.{Core, St, Effect, upd, effect, emit, set_control}
use go_diameter.Protocol.Send.{
  arm, stop, notify, discard, amend, reserve, settle, matches, control_at, control_of,
}
use go_diameter.Protocol.Ending.{fail, is_open}
use go_diameter.Protocol.Identity.{bound, equal_identity}

-- `c.watchdogArm(es, at, interval)`: the previous timer is stopped before the next is armed.
unfoldable pub watchdog_arm : ℕ → ℤ → St → St
watchdog_arm at interval s =
    let d = if is_nonpositive interval then s.core.cfg.watchdog_interval else interval in
    let stopped = stop watchdog_timer s in
    if is_nonpositive d then stopped else arm watchdog_timer at d stopped

-- A watchdog notification about the state reached.
abbrev pub watchdog_event : Core → Effect
watchdog_event c =
    notify c (record no_notice { kind = watchdog_notice; watchdog = some c.wd.state })

-- `c.watchdogUp(es, in)`.
unfoldable pub watchdog_up : Input → St → St
watchdog_up inp s =
    let (next, actions) = Watchdog.step s.core.wd Watchdog.connection_up in
    let probing = record next { pending = false } in
    if not s.core.cfg.watchdog
    then s
    else if actions.send
    then reserve device_watchdog (upd (λ c. record c { wd = probing; wd_next = some next }) s)
    else if actions.reset
    then watchdog_arm inp.at inp.interval (upd (λ c. record c { wd = next }) s)
    else upd (λ c. record c { wd = next }) s

-- `c.watchdogPublished(es, in)`.
unfoldable pub watchdog_published : Input → St → St
watchdog_published inp s =
    if not (is_open s.core.phase)
    then s
    else maybe s.core.wd_next s λ next.
      let armed =
        watchdog_arm inp.at inp.interval (upd (λ c. record c { wd = next; wd_next = none }) s) in
      emit (watchdog_event armed.core) armed

-- `c.activity(es, in)`.
unfoldable pub activity : Input → St → St
activity inp s =
    if not (is_open s.core.phase) || (not s.core.cfg.watchdog || fatal_header_error inp.error)
    then s
    else watchdog_arm inp.at inp.interval s

-- `c.validActivity(es)`.
unfoldable pub valid_activity : St → St
valid_activity s =
    let (next, actions) = Watchdog.step s.core.wd Watchdog.receive in
    let stepped = upd (λ c. record c { wd = next }) s in
    if not (is_open s.core.phase) || not s.core.cfg.watchdog
    then s
    else if actions.failback
    then emit (watchdog_event stepped.core) stepped
    else stepped

-- `c.watchdogExpired(es, in)`, behind the test for a receipt that is still to come.
unfoldable pub watchdog_tick : Input → St → St
watchdog_tick inp s =
    let (next, actions) = Watchdog.step s.core.wd Watchdog.expired in
    let stopped = stop watchdog_timer s in
    let probing = reserve device_watchdog (upd (λ c. record c { wd_next = some next }) stopped) in
    let stepped = upd (λ c. record c { wd = next }) stopped in
    let noticed =
      if actions.failover then emit (watchdog_event stepped.core) stepped else stepped in
    if actions.close
    then fail inp watchdog_timeout 0 s
    else if actions.send
    then probing
    else if actions.reset
    then watchdog_arm inp.at inp.interval noticed
    else noticed

unfoldable pub watchdog_expired : Input → St → St
watchdog_expired inp s =
    if not (is_open s.core.phase) || not s.core.cfg.watchdog
    then s
    else if ltb s.core.received_sequence inp.after_receive
    then upd (λ c. record c { deferred_expiry = some inp }) s
    else if is_some s.core.wd_next
    then watchdog_arm inp.at inp.interval s
    else watchdog_tick inp s

-- `c.consumed(m)`.
unfoldable pub consumed : Core → Message → Effect
consumed c m = record (effect c EffectKind.complete_request) {
  notification = record no_notice { message = metadata (some m) };
}

-- `c.consumeControl(es, r, m)`.
unfoldable pub consume_control : ℕ → Message → St → St
consume_control p m s =
    if (s.core.cells p).answered
    then s
    else emit (consumed s.core m) (set_control p (λ r. record r { answered = true }) s)

-- `c.discardCause(es, in, kind, err)`.
unfoldable pub discard_cause : Input → ProtocolErrorKind → Err → St → St
discard_cause inp kind err s = amend (λ n. record n { cause_error = err }) (discard inp kind 0 s)

-- The credit that `dwa` gives a successful answer, for the control at `p`.
unfoldable pub credit_dwa : ℕ → Message → St → St
credit_dwa p m s =
    let current = maybe s.core.wd_next s.core.wd (λ next. next) in
    let (next, actions) = Watchdog.step current Watchdog.receive_dwa in
    let stepped = upd (λ c. record c { wd = next; wd_next = none }) s in
    let settled = settle p (consume_control p m stepped) in
    let answer : Notification = record no_notice {
      kind = watchdog_notice;
      watchdog = some next.state;
      diagnostic = "answer";
    } in
    let noticed = emit (notify settled.core answer) settled in
    let failback : Notification = record no_notice {
      kind = watchdog_notice;
      watchdog = some next.state;
    } in
    if actions.failback then emit (notify noticed.core failback) noticed else noticed

-- What is wrong with the identity or flags of an answer that is not the peer's.
abbrev mismatch : Base → Core → Message → Bool → Err
mismatch b c m with_flags =
    let (identity, err) = b.parse_dwr m in
    if with_flags && is_error err
    then err
    else if with_flags && maybe m.header false (λ h. has_flag h.command_flags error_flag)
    then text "invalid DWA flags"
    else if not (equal_identity identity.origin_host c.caps.host)
    then text "DWA Origin-Host mismatch"
    else text "DWA Origin-Realm mismatch"

-- `c.dwa(es, in)`, behind its grammar check, for the control at `p` that the answer matches.
unfoldable pub answered_dwa : Base → Input → Message → ℕ → St → St
answered_dwa b inp m p s =
    let (result, err) = b.parse_dwa m in
    let failed = not (result == success) in
    let peers = bound b s.core m true in
    let has_error = maybe m.header false (λ h. has_flag h.command_flags error_flag) in
    if is_error err
    then discard_cause inp invalid_dwa err s
    else if failed && not peers
    then discard_cause inp invalid_dwa (mismatch b s.core m false) s
    else if failed
    then amend (λ n. record n { cause_error = text "DWA Result-Code" })
        (discard inp rejected_dwa result (consume_control p m s))
    else if not peers || has_error
    then discard_cause inp invalid_dwa (mismatch b s.core m true) s
    else credit_dwa p m s

-- `c.dwa(es, in)`, for the message `m` of the input.
unfoldable pub dwa : Base → Input → Message → St → St
dwa b inp m s =
    let uncorrelated =
      amend (λ n. record n { diagnostic = "dwa-correlation" })
        (discard inp unexpected_message 0 s) in
    maybe (b.validate_message m)
      (if not (matches (control_of s.core device_watchdog) (some m))
        then uncorrelated
        else maybe (control_at s.core device_watchdog) uncorrelated (λ p. answered_dwa b inp m p s))
      (λ err. discard (record inp { error = some err }) invalid_dwa err.result_code s)
