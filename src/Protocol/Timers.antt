-- ===== src/Protocol/Timers.antt =====
-- diam/internal/protocol/core.go: `expire`.
use go_diameter.Prelude.{true, false, not, ◌&&◌, ◌||◌, none, some}
use go_diameter.Prelude.Tests.{◌==◌, ltb, leb, if◌then◌else◌, maybe}
use go_diameter.Diam.Codes.{capabilities_exchange, handshake_timeout, disconnect_timeout}
use go_diameter.Base.Interface.{Base}
use go_diameter.Protocol.Types.{
  Phase, Input, no_notice, retry_timer, watchdog_timer, closing_timer, receiver_disconnect_timer,
  timer_count,
}
use go_diameter.Protocol.Core.{St, emit}
use go_diameter.Protocol.Send.{stop, notify, send, control_at}
use go_diameter.Protocol.Ending.{terminate, fail}
use go_diameter.Protocol.Watch.{watchdog_expired}

-- A timer other than the watchdog's, or a CER's retry, that has run out.
unfoldable pub expire_deadline : Input → St → St
expire_deadline inp s =
    let kind =
      if inp.timer == closing_timer || inp.timer == receiver_disconnect_timer
      then disconnect_timeout
      else handshake_timeout in
    let ended = terminate Phase.closed s in
    if inp.timer == closing_timer
      && (s.core.disconnect_waiting
          && (not s.core.close_local && not ((s.core.timers receiver_disconnect_timer).token == 0)))
    then emit (notify ended.core (record no_notice { protocol = kind; closing = true })) ended
    else fail inp kind 0 s

-- The retry of a CER, where attempts are left.
unfoldable pub expire_retry : Base → Input → St → St
expire_retry b inp s = maybe (control_at s.core capabilities_exchange) (expire_deadline inp s) λ p.
    let r = s.core.cells p in
    if r.logical && leb r.attempts s.core.cfg.max_retransmits
    then maybe r.frame (expire_deadline inp s)
        (λ frame. send b frame (some p) false false false none none (stop retry_timer s))
    else expire_deadline inp s

-- `c.expire(es, in)`.
unfoldable pub expire : Base → Input → St → St
expire b inp s =
    let t = s.core.timers inp.timer in
    if leb timer_count inp.timer
    then s
    else if t.token == 0 || (not (t.token == inp.token) || ltb inp.at t.deadline)
    then s
    else if inp.timer == watchdog_timer
    then watchdog_expired inp s
    else if inp.timer == retry_timer
    then expire_retry b inp s
    else expire_deadline inp s
