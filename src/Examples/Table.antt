-- ===== src/Examples/Table.antt =====
-- The peer state machine's theorems at a dial that is won by an incoming connection.
use go_diameter.Prelude.{◌≡◌, ◌≢◌, refl, true, some}
use go_diameter.Peer.Transition.{PeerState, Event, Step, transition}
use go_diameter.Peer.Transition.Legs.{
  Legs, Run, begin, holds, possible, perform, after_loss, Run-holds_performs,
}
use go_diameter.Peer.Transition.Reach.{one_more, reached-closes}

abbrev both : Legs
both = record { i = true; r = true }

electing : Run PeerState.wait_conn_ack_elect both
unfolding possible transition perform after_loss
electing = one_more Event.r_conn_cer _ (one_more Event.start _ begin refl refl refl) refl refl refl

Run-holds_performs_example :
    (holds PeerState.wait_conn_ack_elect both ≡ true)
    × ((e : Event) (row : Step)
        → possible e both ≡ true
        → transition PeerState.wait_conn_ack_elect e ≡ some row
        → (l' : Legs) × (perform row.actions (after_loss e both) ≡ some l')
          × (holds row.next l' ≡ true))
Run-holds_performs_example = Run-holds_performs electing

reached-closes_example :
    ((l : Legs) × Run PeerState.closing l)
    × ((l : Legs)
        → Run PeerState.closing l
        → PeerState.closing ≢ PeerState.closed
        → (possible Event.timeout l ≡ true)
          × ((row : Step) × (transition PeerState.closing Event.timeout ≡ some row)
              × (row.next ≡ PeerState.closed)))
reached-closes_example = reached-closes PeerState.closing
