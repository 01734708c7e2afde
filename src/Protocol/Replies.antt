-- ===== src/Protocol/Replies.antt =====
-- diam/internal/protocol/queued_reply.go: the shortcut for the second result of a queued reply.
use go_diameter.Prelude.{true, false, ◌≡◌, none, some, inl, inr, arith}
use go_diameter.Prelude.Tests.{◌==◌, if◌then◌else◌, maybe, Option-cases}
use go_diameter.Prelude.Maps.{lookup, remove}
use go_diameter.Diam.Error.{is_error}
use go_diameter.Base.Interface.{Base}
use go_diameter.Protocol.Types.{Input, InputKind, same_connection, written_stage}
use go_diameter.Protocol.Core.{Core, Operation, St}
use go_diameter.Protocol.Results.{
  complete_queued_reply, write_result, operation_result, conclude, settle_operation,
  finish_operation, mark_written, write_error, succeeded_write, report,
}
use go_diameter.Protocol.Handle.{handle, handle_kind}
use go_diameter.Protocol.Executor.{at_rest}

-- The operation after its removal, for a complete write of an operation with nothing left to do.
operation_result-plain :
    (inp : Input) (op : Operation) (s : St)
    → inp.stage ≡ written_stage
    → is_error inp.err ≡ false
    → op.control ≡ none
    → op.close_after ≡ false
    → op.reported ≡ true
    → (inp.bytes == (if inp.expected_bytes == 0 then op.length else inp.expected_bytes)) ≡ true
    → operation_result inp op s
      ≡ record s { core = record s.core { operations = remove inp.token s.core.operations } }
unfolding operation_result conclude settle_operation finish_operation mark_written write_error
    succeeded_write report if◌then◌else◌ maybe
operation_result-plain inp op s w e c a r l = ground arith

-- What the shortcut's guards have found out about the operation, and what it leaves.
record Plain (inp : Input) (c : Core) (op : Operation) : Type 0 where
  same : same_connection inp.connection c.cfg.connection ≡ true
  kind : inp.kind ≡ InputKind.write_result
  stage : inp.stage ≡ written_stage
  fine : is_error inp.err ≡ false
  free : op.control ≡ none
  stays : op.close_after ≡ false
  told : op.reported ≡ true
  whole : (inp.bytes == (if inp.expected_bytes == 0 then op.length else inp.expected_bytes)) ≡ true
  left : (complete_queued_reply inp c).0 ≡ record c { operations = remove inp.token c.operations }

consumed :
    (inp : Input) (c : Core) (op : Operation)
    → (complete_queued_reply inp c).1 ≡ true
    → lookup inp.token c.operations ≡ some op
    → Plain inp c op
unfolding complete_queued_reply if◌then◌else◌ maybe
consumed inp c op h e = record {
  same = ground (arith, e);
  kind = ground (arith, e);
  stage = ground (arith, e);
  fine = ground (arith, e);
  free = ground (arith, e);
  stays = ground (arith, e);
  told = ground (arith, e);
  whole = ground (arith, e);
  left = ground (arith, e);
}

consumed-found :
    (inp : Input) (c : Core)
    → (complete_queued_reply inp c).1 ≡ true
    → (op : Operation) × (lookup inp.token c.operations ≡ some op)
unfolding complete_queued_reply if◌then◌else◌ maybe
consumed-found inp c h = elim (Option-cases (lookup inp.token c.operations)) [
  | inl n ↦ ground (arith, n)
  | inr (op, e) ↦ (op, e)
]

-- Wherever the shortcut consumes a result, handling that result would have had no effect and would
-- have left the same connection, whatever the base layer.
pub handle-complete_queued_reply :
    (b : Base) (inp : Input) (c : Core)
    → (complete_queued_reply inp c).1 ≡ true
    → handle b inp (at_rest c) ≡ at_rest (complete_queued_reply inp c).0
unfolding handle handle_kind write_result if◌then◌else◌ maybe
handle-complete_queued_reply b inp c h =
    let (op, found) = consumed-found inp c h in
    let p = consumed inp c op h found in
    let done =
      operation_result-plain inp op (at_rest c) p.stage p.fine p.free p.stays p.told p.whole in
    simp (p.left, p.same, p.kind, p.stage, found, done)
