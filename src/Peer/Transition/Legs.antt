-- ===== src/Peer/Transition/Legs.antt =====
-- The two connections that a peer may have, and what the rows of the table do to them.
use go_diameter.Prelude.{
  Bool, true, false, not, ◌&&◌, ◌||◌, ◌≡◌, refl, inl, inr, Option, none, some, List, [], ◌∷◌, arith,
}
use go_diameter.Prelude.Tests.{maybe, Option-cases, if◌then◌else◌}
use go_diameter.Peer.Transition.{PeerState, Event, Action, Step, transition}

-- Whether there is an initiator's connection, perhaps still being dialled, and a responder's.
pub record Legs : Type 0 where
  pub i : Bool
  pub r : Bool

-- One action; `none` where it needs a leg that is not there, or opens one that is.
act : Action → Legs → Option Legs
unfolding if◌then◌else◌
act Action.i_snd_conn_req l = if l.i then none else some (record l { i = true })
act Action.r_accept l = if l.r then none else some (record l { r = true })
act Action.i_drop l = if l.i then some (record l { i = false }) else none
act Action.r_drop l = if l.r then some (record l { r = false }) else none
act Action.i_snd_cer l = if l.i then some l else none
act Action.r_snd_cea l = if l.r then some l else none
act Action.i_snd_message l = if l.i then some l else none
act Action.r_snd_message l = if l.r then some l else none
act Action.i_snd_dwa l = if l.i then some l else none
act Action.r_snd_dwa l = if l.r then some l else none
act Action.i_snd_dpr l = if l.i then some l else none
act Action.r_snd_dpr l = if l.r then some l else none
act Action.i_snd_dpa l = if l.i then some l else none
act Action.r_snd_dpa l = if l.r then some l else none
act Action.elect l = if l.i && l.r then some l else none
act Action.cleanup l = some (record { i = false; r = false })
act Action.error l = some (record { i = false; r = false })
act _ l = some l

unfoldable pub perform : List Action → Legs → Option Legs
unfolding act maybe
perform [] l = some l
perform (a ∷ rest) l = maybe (act a l) none (perform rest)

-- Whether the event can be an event of these legs: it is of a leg that is there, and a refused dial
-- is no leg any more.
unfoldable pub possible : Event → Legs → Bool
possible Event.i_ack l = l.i
possible Event.i_nack l = l.i
possible Event.i_cea l = l.i
possible Event.i_disc l = l.i
possible Event.i_non_cea l = l.i
possible Event.i_message l = l.i
possible Event.i_dwr l = l.i
possible Event.i_dwa l = l.i
possible Event.i_dpr l = l.i
possible Event.i_dpa l = l.i
possible Event.r_disc l = l.r
possible Event.r_message l = l.r
possible Event.r_dwr l = l.r
possible Event.r_dwa l = l.r
possible Event.r_dpr l = l.r
possible Event.r_dpa l = l.r
possible Event.win_election l = l.i && l.r
possible _ l = true

unfoldable pub after_loss : Event → Legs → Legs
after_loss Event.i_nack l = record l { i = false }
after_loss _ l = l

-- The legs of each state.
unfoldable pub holds : PeerState → Legs → Bool
holds PeerState.closed l = not l.i && not l.r
holds PeerState.wait_conn_ack l = l.i && not l.r
holds PeerState.wait_i_cea l = l.i && not l.r
holds PeerState.wait_conn_ack_elect l = l.i && l.r
holds PeerState.wait_returns l = l.i && l.r
holds PeerState.i_open l = l.i && not l.r
holds PeerState.r_open l = not l.i && l.r
holds PeerState.closing l = (l.i && not l.r) || (not l.i && l.r)

-- One row: it is performed, and the legs are those of the next state.
row_ok : Legs → Option Step → Bool
unfolding maybe perform holds
row_ok l row = maybe row true (λ s. maybe (perform s.actions l) false (holds s.next))

implies : Bool → Bool → Bool
implies a b = not a || b

all_rows_ok :
    (s : PeerState) (e : Event) (i r : Bool)
    → implies
        (holds s (record { i = i; r = r }) && possible e (record { i = i; r = r }))
        (row_ok (after_loss e (record { i = i; r = r })) (transition s e))
      ≡ true
unfolding implies holds possible row_ok after_loss transition perform
all_rows_ok s e i r = ground arith

-- What a run of the machine comes to: a state with its legs, by events that are possible there and
-- have a row whose actions can be performed.
pub data Run : PeerState → Legs → Type 0 where
  begin : Run PeerState.closed (record { i = false; r = false })
  step :
      {s : PeerState} {l l' : Legs}
      → Run s l
      → (e : Event) (row : Step) → possible e l ≡ true
      → transition s e ≡ some row
      → perform row.actions (after_loss e l) ≡ some l'
      → Run row.next l'

row_performs :
    (l : Legs) (row : Step)
    → row_ok l (some row) ≡ true
    → (l' : Legs) × (perform row.actions l ≡ some l') × (holds row.next l' ≡ true)
unfolding row_ok
row_performs l row ok = elim (Option-cases (perform row.actions l)) [
  | inl e ↦ absurd (ground (arith, ok, e))
  | inr (l', e) ↦ (l', e, ground (arith, ok, e))
]

next_row :
    (s : PeerState) (l : Legs) (e : Event) (row : Step)
    → holds s l ≡ true
    → possible e l ≡ true
    → transition s e ≡ some row
    → (l' : Legs) × (perform row.actions (after_loss e l) ≡ some l') × (holds row.next l' ≡ true)
unfolding implies
next_row s l e row h p t =
    let ok = all_rows_ok s e l.i l.r in
    row_performs (after_loss e l) row (ground (arith, h, p, t, ok))

Run-holds : {s : PeerState} {l : Legs} → Run s l → holds s l ≡ true
unfolding holds
Run-holds begin = refl
Run-holds (step {s} {l} {l'} run e row p t done) =
    let n = next_row s l e row (Run-holds run) p t in ground (arith, n.1, n.2, done)

-- However the machine got to a state, the legs are those of the state: none in Closed, one in each
-- state of an initiator, both in an election, the responder's alone in R-Open, and one in Closing.
-- And every row for an event that is possible there can be performed: no action sends on a leg that
-- is not there or opens one that is.
pub Run-holds_performs :
    {s : PeerState} {l : Legs}
    → Run s l
    → (holds s l ≡ true)
      × ((e : Event) (row : Step)
          → possible e l ≡ true
          → transition s e ≡ some row
          → (l' : Legs) × (perform row.actions (after_loss e l) ≡ some l')
            × (holds row.next l' ≡ true))
Run-holds_performs {s} {l} run =
    (Run-holds run, λ e row p t. next_row s l e row (Run-holds run) p t)
