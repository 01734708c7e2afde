-- ===== src/Peer/Transition/Reach.antt =====
-- Which states of the peer state machine are reached and left.
use go_diameter.Prelude.{true, false, ◌≡◌, ◌≢◌, refl, some, arith}
use go_diameter.Peer.Transition.{PeerState, Event, Step, transition}
use go_diameter.Peer.Transition.Legs.{
  Legs, possible, perform, after_loss, holds, Run, begin, step, Run-holds_performs,
}

pub one_more :
    {s : PeerState} {l l' : Legs} (e : Event) (row : Step)
    → Run s l
    → possible e l ≡ true
    → transition s e ≡ some row
    → perform row.actions (after_loss e l) ≡ some l'
    → Run row.next l'
one_more e row run p t d = step run e row p t d

dialling : Run PeerState.wait_conn_ack (record { i = true; r = false })
unfolding possible transition perform after_loss
dialling = one_more Event.start _ begin refl refl refl

reached : (s : PeerState) → (l : Legs) × Run s l
unfolding possible transition perform after_loss
reached PeerState.closed = (_, begin)
reached PeerState.wait_conn_ack = (_, dialling)
reached PeerState.wait_i_cea = (_, one_more Event.i_ack _ dialling refl refl refl)
reached PeerState.wait_conn_ack_elect = (_, one_more Event.r_conn_cer _ dialling refl refl refl)
reached PeerState.wait_returns =
    (_, one_more Event.i_ack _ (one_more Event.r_conn_cer _ dialling refl refl refl) refl refl refl)
reached PeerState.i_open =
    (_, one_more Event.i_cea _ (one_more Event.i_ack _ dialling refl refl refl) refl refl refl)
reached PeerState.r_open = (_, one_more Event.r_conn_cer _ begin refl refl refl)
reached PeerState.closing =
    (_, one_more Event.stop _ (one_more Event.r_conn_cer _ begin refl refl refl) refl refl refl)

-- What ends each state: the loss of the connection that is open, elsewhere the timer.
abbrev pub closing_event : PeerState → Event
closing_event PeerState.i_open = Event.i_disc
closing_event PeerState.r_open = Event.r_disc
closing_event _ = Event.timeout

closes :
    (s : PeerState) (l : Legs)
    → holds s l ≡ true
    → s ≢ PeerState.closed
    → (possible (closing_event s) l ≡ true)
      × ((row : Step) × (transition s (closing_event s) ≡ some row) × (row.next ≡ PeerState.closed))
unfolding holds possible transition
closes PeerState.closed l h open_ = absurd (open_ refl)
closes PeerState.wait_conn_ack l h open_ = (refl, (_, refl, refl))
closes PeerState.wait_i_cea l h open_ = (refl, (_, refl, refl))
closes PeerState.wait_conn_ack_elect l h open_ = (refl, (_, refl, refl))
closes PeerState.wait_returns l h open_ = (refl, (_, refl, refl))
closes PeerState.i_open l h open_ = (ground arith, (_, refl, refl))
closes PeerState.r_open l h open_ = (ground arith, (_, refl, refl))
closes PeerState.closing l h open_ = (refl, (_, refl, refl))

-- Every state of the table is reached from Closed, and wherever a run stands in another state, its
-- closing event is possible and has a row back to Closed: the peer's disconnection of the connection
-- that is open in I-Open and R-Open, and Timeout in the five states without one.
pub reached-closes :
    (s : PeerState)
    → ((l : Legs) × Run s l)
      × ((l : Legs)
          → Run s l
          → s ≢ PeerState.closed
          → (possible (closing_event s) l ≡ true)
            × ((row : Step) × (transition s (closing_event s) ≡ some row)
                × (row.next ≡ PeerState.closed)))
reached-closes s = (reached s, λ l run open_. closes s l (Run-holds_performs run).0 open_)
