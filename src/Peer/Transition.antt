-- ===== src/Peer/Transition.antt =====
-- diam/peer/transition.go: the peer state machine of RFC 6733 section 5.6 as a table. An action
-- string is a list of actions; `I-Disc` and `R-Disc` as actions are `i_drop` and `r_drop`.
pub mod Legs
pub mod Reach
use go_diameter.Prelude.{Option, none, some, List, [], ◌∷◌}

-- `PeerState`.
pub data PeerState : Type 0 where
  closed wait_conn_ack wait_i_cea wait_conn_ack_elect wait_returns r_open i_open : PeerState
  closing : PeerState

-- `psmEvent`.
pub data Event : Type 0 where
  start r_conn_cer i_ack i_nack timeout i_cea i_disc : Event
  r_disc i_non_cea win_election send_message i_message r_message i_dwr : Event
  r_dwr i_dwa r_dwa stop i_dpr r_dpr i_dpa : Event
  r_dpa : Event

pub data Action : Type 0 where
  i_snd_conn_req r_accept r_reject process_cer process_cea process process_dwr : Action
  process_dwa i_snd_cer r_snd_cea elect cleanup error i_drop : Action
  r_drop i_snd_message r_snd_message i_snd_dwa r_snd_dwa i_snd_dpr r_snd_dpr : Action
  i_snd_dpa r_snd_dpa : Action

-- `psmStep`.
pub record Step : Type 0 where
  pub next : PeerState
  pub actions : List Action

-- `psmTable` and `transition`; `none` where the table has no row.
unfoldable pub transition : PeerState → Event → Option Step
transition PeerState.closed Event.start =
    some (record { next = PeerState.wait_conn_ack; actions = Action.i_snd_conn_req ∷ [] })
transition PeerState.closed Event.r_conn_cer = some (record {
  next = PeerState.r_open;
  actions = Action.r_accept ∷ Action.process_cer ∷ Action.r_snd_cea ∷ [];
})
transition PeerState.wait_conn_ack Event.i_ack =
    some (record { next = PeerState.wait_i_cea; actions = Action.i_snd_cer ∷ [] })
transition PeerState.wait_conn_ack Event.i_nack =
    some (record { next = PeerState.closed; actions = Action.cleanup ∷ [] })
transition PeerState.wait_conn_ack Event.r_conn_cer = some (record {
  next = PeerState.wait_conn_ack_elect;
  actions = Action.r_accept ∷ Action.process_cer ∷ [];
})
transition PeerState.wait_conn_ack Event.timeout =
    some (record { next = PeerState.closed; actions = Action.error ∷ [] })
transition PeerState.wait_i_cea Event.i_cea =
    some (record { next = PeerState.i_open; actions = Action.process_cea ∷ [] })
transition PeerState.wait_i_cea Event.r_conn_cer = some (record {
  next = PeerState.wait_returns;
  actions = Action.r_accept ∷ Action.process_cer ∷ Action.elect ∷ [];
})
transition PeerState.wait_i_cea Event.i_disc =
    some (record { next = PeerState.closed; actions = Action.i_drop ∷ [] })
transition PeerState.wait_i_cea Event.i_non_cea =
    some (record { next = PeerState.closed; actions = Action.error ∷ [] })
transition PeerState.wait_i_cea Event.timeout =
    some (record { next = PeerState.closed; actions = Action.error ∷ [] })
transition PeerState.wait_conn_ack_elect Event.i_ack =
    some (record { next = PeerState.wait_returns; actions = Action.i_snd_cer ∷ Action.elect ∷ [] })
transition PeerState.wait_conn_ack_elect Event.i_nack =
    some (record { next = PeerState.r_open; actions = Action.r_snd_cea ∷ [] })
transition PeerState.wait_conn_ack_elect Event.r_disc =
    some (record { next = PeerState.wait_conn_ack; actions = Action.r_drop ∷ [] })
transition PeerState.wait_conn_ack_elect Event.r_conn_cer =
    some (record { next = PeerState.wait_conn_ack_elect; actions = Action.r_reject ∷ [] })
transition PeerState.wait_conn_ack_elect Event.timeout =
    some (record { next = PeerState.closed; actions = Action.error ∷ [] })
transition PeerState.wait_returns Event.win_election =
    some (record { next = PeerState.r_open; actions = Action.i_drop ∷ Action.r_snd_cea ∷ [] })
transition PeerState.wait_returns Event.i_disc =
    some (record { next = PeerState.r_open; actions = Action.i_drop ∷ Action.r_snd_cea ∷ [] })
transition PeerState.wait_returns Event.i_cea =
    some (record { next = PeerState.i_open; actions = Action.r_drop ∷ [] })
transition PeerState.wait_returns Event.r_disc =
    some (record { next = PeerState.wait_i_cea; actions = Action.r_drop ∷ [] })
transition PeerState.wait_returns Event.r_conn_cer =
    some (record { next = PeerState.wait_returns; actions = Action.r_reject ∷ [] })
transition PeerState.wait_returns Event.timeout =
    some (record { next = PeerState.closed; actions = Action.error ∷ [] })
transition PeerState.r_open Event.send_message =
    some (record { next = PeerState.r_open; actions = Action.r_snd_message ∷ [] })
transition PeerState.r_open Event.r_message =
    some (record { next = PeerState.r_open; actions = Action.process ∷ [] })
transition PeerState.r_open Event.r_dwr =
    some (record { next = PeerState.r_open; actions = Action.process_dwr ∷ Action.r_snd_dwa ∷ [] })
transition PeerState.r_open Event.r_dwa =
    some (record { next = PeerState.r_open; actions = Action.process_dwa ∷ [] })
transition PeerState.r_open Event.r_conn_cer =
    some (record { next = PeerState.r_open; actions = Action.r_reject ∷ [] })
transition PeerState.r_open Event.stop =
    some (record { next = PeerState.closing; actions = Action.r_snd_dpr ∷ [] })
transition PeerState.r_open Event.r_dpr =
    some (record { next = PeerState.closing; actions = Action.r_snd_dpa ∷ [] })
transition PeerState.r_open Event.r_disc =
    some (record { next = PeerState.closed; actions = Action.r_drop ∷ [] })
transition PeerState.i_open Event.send_message =
    some (record { next = PeerState.i_open; actions = Action.i_snd_message ∷ [] })
transition PeerState.i_open Event.i_message =
    some (record { next = PeerState.i_open; actions = Action.process ∷ [] })
transition PeerState.i_open Event.i_dwr =
    some (record { next = PeerState.i_open; actions = Action.process_dwr ∷ Action.i_snd_dwa ∷ [] })
transition PeerState.i_open Event.i_dwa =
    some (record { next = PeerState.i_open; actions = Action.process_dwa ∷ [] })
transition PeerState.i_open Event.r_conn_cer =
    some (record { next = PeerState.i_open; actions = Action.r_reject ∷ [] })
transition PeerState.i_open Event.stop =
    some (record { next = PeerState.closing; actions = Action.i_snd_dpr ∷ [] })
transition PeerState.i_open Event.i_dpr =
    some (record { next = PeerState.closing; actions = Action.i_snd_dpa ∷ [] })
transition PeerState.i_open Event.i_disc =
    some (record { next = PeerState.closed; actions = Action.i_drop ∷ [] })
transition PeerState.closing Event.i_dpa =
    some (record { next = PeerState.closed; actions = Action.i_drop ∷ [] })
transition PeerState.closing Event.r_dpa =
    some (record { next = PeerState.closed; actions = Action.r_drop ∷ [] })
transition PeerState.closing Event.timeout =
    some (record { next = PeerState.closed; actions = Action.error ∷ [] })
transition PeerState.closing Event.i_disc =
    some (record { next = PeerState.closed; actions = Action.i_drop ∷ [] })
transition PeerState.closing Event.r_disc =
    some (record { next = PeerState.closed; actions = Action.r_drop ∷ [] })
transition _ _ = none
