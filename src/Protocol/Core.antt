-- ===== src/Protocol/Core.antt =====
-- diam/internal/protocol/core.go and control.go: the state of a connection. A `*control` is shared by
-- the table of controls and by the operations that write it, so it lives in a store of cells and a
-- pointer is a cell's number. The record of recycled operations is not kept: it only saves storage.
use go_diameter.Prelude.{ℕ, Bool, true, false, Option, none, List, [], ◌++◌, ◌∷◌, ◌+◌, ◌%◌, ◌^◌}
use go_diameter.Prelude.Int.{ℤ}
use go_diameter.Prelude.Maps.{Map, update}
use go_diameter.Diam.Header.{Header}
use go_diameter.Diam.Message.{Message, MessageMetadata}
use go_diameter.Watchdog
use go_diameter.Protocol.Types.{
  Config, Connection, Phase, Input, Reservation, Notification, no_notice, Capabilities,
  TimerSnapshot, Outcome, HandshakeResult, EffectKind, WriteStage, queue_stage, no_reservation,
}

pub record Control : Type 0 where
  pub command : ℕ
  pub reservation : Reservation
  pub header : Option Header
  pub frame : Option Message
  pub logical : Bool
  pub answered : Bool
  pub released : Bool
  pub written : Bool
  pub writers : ℤ
  pub attempts : ℕ

pub record Operation : Type 0 where
  pub control : Option ℕ
  pub message : MessageMetadata
  pub length : ℕ
  pub required : Bool
  pub close_after : Bool
  pub handshake : Bool
  pub reported : Bool
  pub queued : Bool
  pub notice : Option Notification

pub record Continuation : Type 0 where
  pub input : Input
  pub repeated_cer : Bool

-- `ControlSnapshot` and `Snapshot`.
pub record ControlSnapshot : Type 0 where
  pub command : ℕ
  pub reservation : Reservation
  pub logical : Bool
  pub answered : Bool
  pub writers : ℤ

pub record Snapshot : Type 0 where
  pub phase : Phase
  pub candidate : ℕ
  pub admission : ℕ
  pub ready : Bool
  pub frozen : Bool
  pub capabilities : Capabilities
  pub wd : Watchdog.Machine
  pub timers : ℕ → TimerSnapshot
  pub controls : List ControlSnapshot
  pub peer_cause : ℕ
  pub peer_dpr : Bool
  pub handshake : HandshakeResult

pub record Effect : Type 0 where
  pub kind : EffectKind
  pub release_dispatch : Bool
  pub connection : Connection
  pub token : ℕ
  pub command : ℕ
  pub reservation : Reservation
  pub message : Option Message
  pub answer_hook : Bool
  pub required : Bool
  pub close_after : Bool
  pub stage : WriteStage
  pub notification : Notification
  pub timer : ℕ
  pub deadline : ℕ
  pub snapshot : Option Snapshot
  pub input : Option Input
  pub ownership : ℕ
  pub cause : ℕ

pub record Core : Type 0 where
  pub handshake_pending : Bool
  pub callback_ready : Bool
  pub continuations : Map Continuation
  pub close_outcome : Outcome
  pub handshake : HandshakeResult
  pub wd_next : Option Watchdog.Machine
  pub received_sequence : ℕ
  pub deferred_expiry : Option Input
  pub close_local : Bool
  pub disconnect_waiting : Bool
  pub peer_disconnect_selected : Bool
  pub peer_cause : ℕ
  pub peer_dpr : Bool
  pub disconnect_token : ℕ
  pub fence_token : ℕ
  pub close_request : Input
  pub early_dpa : Option Input
  pub late_cer_token : ℕ
  pub late_cer : Input
  pub cfg : Config
  pub phase : Phase
  pub serial : ℕ
  pub started : Bool
  pub ready : Bool
  pub terminal : Bool
  pub frozen : Bool
  pub cer_deferred : Bool
  pub passive_responder : Bool
  pub passive_cer : Bool
  pub passive_watchdog : Bool
  pub passive_present : Bool
  pub candidate_token : ℕ
  pub admission : ℕ
  pub caps : Capabilities
  pub cer : Option Message
  pub completed_cea : Option Header
  pub hook_token : ℕ
  pub timers : ℕ → TimerSnapshot
  pub reservations : Map ℕ
  pub controls : Map ℕ
  pub cells : ℕ → Control
  pub next_cell : ℕ
  pub operations : Map Operation
  pub close_cause : ℕ
  pub wd : Watchdog.Machine

-- The connection with the effects that a call has appended so far: the source's receiver and `es`.
pub record St : Type 0 where
  pub core : Core
  pub out : List Effect

-- An assignment to fields of the receiver.
abbrev pub upd : (Core → Core) → St → St
upd f s = record s { core = f s.core }

-- `c.token()`: the token handed out, and the state after.
unfoldable pub next_token : Core → ℕ
next_token c = (c.serial + 1) % 2 ^ 64

unfoldable pub token : St → St
token s = upd (λ c. record c { serial = next_token c }) s

-- `c.effect(k)`.
unfoldable pub effect : Core → EffectKind → Effect
effect c k = record {
  kind = k;
  release_dispatch = false;
  connection = c.cfg.connection;
  token = 0;
  command = 0;
  reservation = no_reservation;
  message = none;
  answer_hook = false;
  required = false;
  close_after = false;
  stage = queue_stage;
  notification = no_notice;
  timer = 0;
  deadline = 0;
  snapshot = none;
  input = none;
  ownership = 0;
  cause = 0;
}

-- `es = append(es, e)`.
unfoldable pub emit : Effect → St → St
emit e s = record s { out = s.out ++ (e ∷ []) }

-- `c.phase >= Closed`.
abbrev pub is_over : Phase → Bool
is_over Phase.closed = true
is_over Phase.retired = true
is_over _ = false

-- The store of controls behind pointers.
unfoldable pub set_control : ℕ → (Control → Control) → St → St
set_control p f s = upd (λ c. record c { cells = update c.cells p (f (c.cells p)) }) s
