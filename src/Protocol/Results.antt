-- ===== src/Protocol/Results.antt =====
-- diam/internal/protocol/control.go: what the executor reports back, identifiers that it reserved
-- and writes that it finished; and queued_reply.go.
use go_diameter.Prelude.{ℕ, Bool, true, false, not, ◌&&◌, ◌||◌, none, some, ◌+◌}
use go_diameter.Prelude.Tests.{◌==◌, if◌then◌else◌, maybe, is_some}
use go_diameter.Prelude.Int.{pos, decrement, equals, is_nonpositive}
use go_diameter.Prelude.Maps.{lookup, remove, insert, update}
use go_diameter.Diam.Codes.{
  capabilities_exchange, device_watchdog, disconnect_peer, reply_failure, reply_failed,
  reply_queued, reply_written,
}
use go_diameter.Diam.Error.{Err, short_write, is_error}
use go_diameter.Diam.Message.{Message}
use go_diameter.Base.Interface.{Base}
use go_diameter.Base.Settings.{Checked, checked}
use go_diameter.Protocol.Types.{
  EffectKind, Phase, Input, InputKind, Notification, no_notice, WriteStage, queue_stage,
  written_stage, skipped_stage, unknown_stage, retry_timer, watchdog_timer, same_connection,
}
use go_diameter.Protocol.Core.{Core, St, Operation, upd, effect, emit, set_control, is_over}
use go_diameter.Protocol.Send.{arm, notify, release, send, is_unclassified}
use go_diameter.Protocol.Ending.{terminate, is_open, is_wait_cea}
use go_diameter.Protocol.Watch.{watchdog_arm, watchdog_published}
use go_diameter.Protocol.Closing.{complete_dpa}
use go_diameter.Protocol.Handshake.{set_handshake, handshake_ready}

abbrev is_queue : WriteStage → Bool
is_queue queue_stage = true
is_queue _ = false

abbrev is_written : WriteStage → Bool
is_written written_stage = true
is_written _ = false

abbrev is_skipped : WriteStage → Bool
is_skipped skipped_stage = true
is_skipped _ = false

abbrev is_unknown : WriteStage → Bool
is_unknown unknown_stage = true
is_unknown _ = false

-- The switch of `reserved` on the command.
abbrev build_request : Base → Core → ℕ → Checked Message
build_request b c command =
    if command == capabilities_exchange
    then b.build_cer c.cfg.local
    else if command == device_watchdog
    then b.build_dwr c.cfg.local c.cfg.local.origin_state_id
    else b.build_dpr c.cfg.local c.close_cause

-- `c.handshake = newHandshakeResult(err, nil)` for a CER.
unfoldable pub note_cer_error : ℕ → Err → St → St
note_cer_error command err s =
    if command == capabilities_exchange then set_handshake err none s else s

-- The message with the identifiers of its reservation.
abbrev stamp : Input → Message → Message
stamp inp m = record m {
  header = maybe m.header none λ h.
      some (record h { hop_by_hop_id = inp.reservation.hop; end_to_end_id = inp.reservation.end_ });
}

-- `r := &control{...}; c.controls[cmd] = r`: the new cell is `next_cell`.
unfoldable pub new_control : ℕ → Input → St → St
new_control command inp s =
    upd
      (λ c. record c {
        cells = update c.cells c.next_cell (record {
          command = command;
          reservation = inp.reservation;
          header = none;
          frame = none;
          logical = true;
          answered = false;
          released = false;
          written = false;
          writers = pos 0;
          attempts = 0;
        });
        next_cell = c.next_cell + 1;
        controls = insert command c.next_cell c.controls;
      })
      s

-- `reserved` for a command whose identifiers were reserved.
unfoldable pub start_request : Base → ℕ → Input → St → St
start_request b command inp s =
    let p = s.core.next_cell in
    let registered = new_control command inp s in
    checked (build_request b s.core command)
      (λ err. terminate Phase.closed (note_cer_error command err registered))
      (λ m. send b (stamp inp m) (some p) false false false none none (
        set_control p (λ r. record r { header = (stamp inp m).header; frame = some (stamp inp m) })
          registered))

-- `c.reserved(es, in)`.
unfoldable pub reserved : Base → Input → St → St
reserved b inp s0 = maybe (lookup inp.token s0.core.reservations) s0 λ command.
    let s = upd (λ c. record c { reservations = remove inp.token c.reservations }) s0 in
    if is_error inp.err
    then (if is_over s.core.phase
        then s
        else terminate Phase.closed (note_cer_error command inp.err s))
    else if is_over s.core.phase || (command == device_watchdog && not (is_open s.core.phase))
    then emit (record (effect s.core EffectKind.release_ids) { reservation = inp.reservation }) s
    else start_request b command inp s

-- `delete(c.operations, in.Token)` with the writer that the operation pinned.
unfoldable pub finish_operation : ℕ → Operation → St → St
finish_operation t op s =
    let gone = upd (λ c. record c { operations = remove t c.operations }) s in
    maybe op.control gone
      λ p. release p (set_control p (λ r. record r { writers = decrement r.writers }) gone)

-- A failed write: the connection ends, and a required reply is reported as failed.
unfoldable pub failed_write : Input → Operation → Err → St → St
failed_write inp op err s =
    let is_cer = maybe op.control false λ p. (s.core.cells p).command == capabilities_exchange in
    let noted =
      if s.core.cfg.keep_cer_deadline_after_transport_loss && (is_wait_cea s.core.phase && is_cer)
      then set_handshake err none s
      else s in
    let ended = terminate Phase.closed noted in
    let plain : Notification = record no_notice {
      protocol = reply_failure;
      reply = reply_failed;
      reply_code = inp.reply_code;
      closing = true;
      message = op.message;
    } in
    let n = maybe op.notice plain λ n.
      if not op.reported && not (is_unclassified n.protocol)
      then record n { reply = reply_failed; reply_code = inp.reply_code; closing = true }
      else plain in
    if op.required then emit (notify ended.core n) ended else ended

-- `op.reported = true`, on the record that the table still holds.
unfoldable pub mark_reported : ℕ → St → St
mark_reported t s = maybe (lookup t s.core.operations) s λ op.
    upd (λ c. record c { operations = insert t (record op { reported = true }) c.operations }) s

-- What follows the publication of a control request.
unfoldable pub published_control : Input → ℕ → St → St
published_control inp p s =
    let r = s.core.cells p in
    if not r.logical
    then s
    else if r.command == device_watchdog
    then watchdog_published inp s
    else if r.command == capabilities_exchange && not (is_nonpositive s.core.cfg.cer_interval)
    then arm retry_timer inp.at s.core.cfg.cer_interval s
    else s

unfoldable pub report_notice : Input → Operation → St → St
report_notice inp op s = maybe op.notice s λ n.
    emit
      (notify s.core (record n {
        reply_code = inp.reply_code;
        reply = if is_queue inp.stage then reply_queued else reply_written;
      }))
      s

unfoldable pub report_handshake : Operation → St → St
report_handshake op s = if op.handshake && is_open s.core.phase then handshake_ready s else s

-- The end of `writeResult`: the first successful report at the frontend's boundary.
unfoldable pub report : Input → Operation → St → St
report inp op s =
    let told = report_handshake op (report_notice inp op (mark_reported inp.token s)) in
    if not (is_written inp.stage || s.core.cfg.queue_writes) || op.reported
    then s
    else maybe op.control told (λ p. published_control inp p told)

-- `writeResult` behind the phase and error tests.
unfoldable pub succeeded_write : Input → Operation → St → St
succeeded_write inp op s =
    let is_dpr = maybe op.control false λ p. (s.core.cells p).command == disconnect_peer in
    let closed = if op.close_after && is_written inp.stage then terminate Phase.closed s else s in
    if is_written inp.stage && is_dpr
    then maybe s.core.early_dpa (report inp op closed)
        (λ saved. complete_dpa saved saved.result_code s)
    else report inp op closed

-- The error of a write: a skipped or short one has one of its own.
unfoldable pub write_error : Input → Operation → Err
write_error inp op =
    let expected = if inp.expected_bytes == 0 then op.length else inp.expected_bytes in
    if is_error inp.err
    then inp.err
    else if is_skipped inp.stage || (is_written inp.stage && not (inp.bytes == expected))
    then short_write
    else inp.err

-- `op.control.written = true` for a complete write.
unfoldable pub mark_written : Input → Operation → St → St
mark_written inp op s =
    if is_written inp.stage && not (is_error (write_error inp op))
    then maybe op.control s (λ p. set_control p (λ r. record r { written = true }) s)
    else s

-- The operation leaves the table, or stays in it as queued.
unfoldable pub settle_operation : Input → Operation → St → St
settle_operation inp op s =
    if not (is_queue inp.stage) || is_error inp.err
    then finish_operation inp.token op s
    else upd (λ c. record c { operations = insert inp.token op c.operations }) s

unfoldable pub conclude : Input → Operation → Err → St → St
conclude inp op err s =
    if is_over s.core.phase
    then s
    else if is_error err
    then failed_write inp op err s
    else succeeded_write inp op s

-- `writeResult` for an operation that it found, and not for a skipped control.
unfoldable pub operation_result : Input → Operation → St → St
operation_result inp op0 s =
    let err = write_error inp op0 in
    let op = record op0 {
      queued = if is_queue inp.stage then not (is_error err) else op0.queued;
    } in
    if is_queue inp.stage && op0.queued
    then s
    else conclude inp op err (settle_operation inp op (mark_written inp op s))

-- `c.skippedControl(es, in, op)`, for the control at `p`.
unfoldable pub skipped_control : Input → ℕ → St → St
skipped_control inp p s0 =
    let logical = (s0.core.cells p).logical in
    let s = release p (
      set_control p
        (λ r.
          let w = decrement r.writers in
          record r {
            writers = w;
            logical = if equals w 0 && not r.written then false else r.logical;
          })
        (upd (λ c. record c { operations = remove inp.token c.operations }) s0)) in
    let r = s.core.cells p in
    let err = if is_error inp.err then inp.err else short_write in
    let idle = upd (λ c. record c { wd_next = none; wd = record c.wd { pending = false } }) s in
    if s.core.cfg.keep_cer_deadline_after_transport_loss
      && (is_wait_cea s.core.phase && r.command == capabilities_exchange)
    then terminate Phase.closed (set_handshake err none s)
    else if r.command == device_watchdog && (not r.written && logical)
    then (if s.core.cfg.watchdog
          && (is_open s.core.phase && (s.core.timers watchdog_timer).token == 0)
        then watchdog_arm inp.at inp.interval idle
        else idle)
    else s

-- `c.writeResult(es, in)`.
unfoldable pub write_result : Input → St → St
write_result inp s =
    if is_unknown inp.stage
    then s
    else maybe (lookup inp.token s.core.operations) s λ op.
      if is_skipped inp.stage
      then maybe op.control (operation_result inp op s) (λ p. skipped_control inp p s)
      else operation_result inp op s

abbrev is_write_result : InputKind → Bool
is_write_result InputKind.write_result = true
is_write_result _ = false

-- `c.CompleteQueuedReply(in)`: whether the result was consumed here, and the connection after.
unfoldable pub complete_queued_reply : Input → Core → (Core × Bool)
complete_queued_reply inp c =
    if not (same_connection inp.connection c.cfg.connection)
      || (not (is_write_result inp.kind) || (not (is_written inp.stage) || is_error inp.err))
    then (c, false)
    else maybe (lookup inp.token c.operations) (c, false)
        λ op.
          let expected = if inp.expected_bytes == 0 then op.length else inp.expected_bytes in
          if not op.queued
            || (not op.reported || (is_some op.control || (op.close_after || op.handshake)))
          then (c, false)
          else if not (inp.bytes == expected)
          then (c, false)
          else (record c { operations = remove inp.token c.operations }, true)
