-- ===== src/Watchdog.antt =====
-- diam/internal/watchdog/machine.go: the peer control block of RFC 3539 Appendix A.
-- Go's string states are an enumeration, and `NumDWA` is a signed integer.
pub mod Table
pub mod Traces
use go_diameter.Prelude.{Bool, true, false, not}
use go_diameter.Prelude.Tests.{if◌then◌else◌}
use go_diameter.Prelude.Int.{ℤ, pos, negsuc, increment, is_negative, equals}

pub data State : Type 0 where
  initial okay suspect down reopen : State

pub data Event : Type 0 where
  connection_up connection_down expired receive receive_dwa : Event

pub record Machine : Type 0 where
  pub state : State
  pub pending : Bool
  pub num_dwa : ℤ

pub record Actions : Type 0 where
  pub send : Bool
  pub reset : Bool
  pub failover : Bool
  pub failback : Bool
  pub close : Bool
  pub open_ : Bool
  pub discard : Bool

-- The zero value of `Actions`.
abbrev pub no_actions : Actions
no_actions = record {
  send = false;
  reset = false;
  failover = false;
  failback = false;
  close = false;
  open_ = false;
  discard = false;
}

-- `case Receive, ReceiveDWA`: the switch on the state, with `dwa` for `event == ReceiveDWA`.
on_receive : Bool → State → Machine → Machine × Actions
unfolding if◌then◌else◌
on_receive dwa okay m = (m, record no_actions { reset = true })
on_receive dwa suspect m =
    (record m { state = okay }, record no_actions { failback = true; reset = true })
on_receive true reopen m =
    let n = increment m.num_dwa in
    if equals n 3
    then (record m { state = okay; num_dwa = n }, record no_actions { failback = true })
    else (record m { num_dwa = n }, no_actions)
on_receive false reopen m = (m, record no_actions { discard = true })
on_receive dwa initial m = (m, record no_actions { discard = true })
on_receive dwa down m = (m, record no_actions { discard = true })

-- `case Expired`: every branch resets the timer.
on_expired : State → Machine → Machine × Actions
unfolding if◌then◌else◌
on_expired okay m =
    if not m.pending
    then (record m { pending = true }, record no_actions { reset = true; send = true })
    else (record m { state = suspect }, record no_actions { reset = true; failover = true })
on_expired suspect m = (record m { state = down }, record no_actions { reset = true; close = true })
on_expired initial m = (m, record no_actions { reset = true; open_ = true })
on_expired down m = (m, record no_actions { reset = true; open_ = true })
on_expired reopen m =
    if not m.pending
    then (record m { pending = true }, record no_actions { reset = true; send = true })
    else if is_negative m.num_dwa
    then (record m { state = down }, record no_actions { reset = true; close = true })
    else (record m { num_dwa = negsuc 0 }, record no_actions { reset = true })

on_connection_up : State → Machine → Machine × Actions
on_connection_up initial m = (record m { state = okay }, record no_actions { reset = true })
on_connection_up down m = (
  record m { state = reopen; num_dwa = pos 0; pending = true },
  record no_actions { send = true; reset = true },
)
on_connection_up _ m = (m, no_actions)

-- `previous` decides on failover and reset, after DOWN has been assigned.
on_connection_down : State → Machine → Machine × Actions
on_connection_down okay m =
    (record m { state = down }, record no_actions { close = true; failover = true; reset = true })
on_connection_down suspect m =
    (record m { state = down }, record no_actions { close = true; reset = true })
on_connection_down reopen m =
    (record m { state = down }, record no_actions { close = true; reset = true })
on_connection_down _ m = (record m { state = down }, record no_actions { close = true })

unfoldable pub step : Machine → Event → Machine × Actions
unfolding on_receive on_expired on_connection_up on_connection_down
step m receive = on_receive false m.state m
step m receive_dwa = on_receive true m.state (record m { pending = false })
step m expired = on_expired m.state m
step m connection_up = on_connection_up m.state m
step m connection_down = on_connection_down m.state m
