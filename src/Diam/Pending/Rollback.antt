-- ===== src/Diam/Pending/Rollback.antt =====
-- The walk of a failed write of `BeginWrite`: its fuel is enough.
