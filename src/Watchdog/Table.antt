-- ===== src/Watchdog/Table.antt =====
-- diam/internal/watchdog/machine.go: one step of the watchdog.
use go_diameter.Prelude.{◌≡◌, ◌≢◌, ◌↔◌, ◌⊎◌, true, false, arith}
use go_diameter.Watchdog.{
  Event, Machine, okay, suspect, down, reopen, connection_up, receive_dwa, step,
}

-- Failover is asked for exactly when a step leaves OKAY, and failback exactly when a step returns
-- to OKAY from SUSPECT or REOPEN, for every control block and event.
pub step-failover_failback :
    (m : Machine) (e : Event)
    → (((step m e).1.failover ≡ true) ↔ ((m.state ≡ okay) × ((step m e).0.state ≢ okay)))
      × (((step m e).1.failback ≡ true)
          ↔ (((m.state ≡ suspect) ⊎ (m.state ≡ reopen)) × ((step m e).0.state ≡ okay)))
unfolding step
step-failover_failback m connection_up = grind arith
step-failover_failback m e = grind arith

-- A step that clears Pending has taken an admitted answer.
pub step_settles :
    (m : Machine) (e : Event) → m.pending ≡ true → (step m e).0.pending ≡ false → e ≡ receive_dwa
unfolding step
step_settles m connection_up p q = ground arith
step_settles m e p q = ground arith

-- A step that asks for a probe does so with none pending, or when a peer that was DOWN connects; it
-- leaves Pending set.
pub step_probes :
    (m : Machine) (e : Event)
    → (step m e).1.send ≡ true
    → ((m.pending ≡ false) ⊎ ((m.state ≡ down) × (e ≡ connection_up)))
      × ((step m e).0.pending ≡ true)
unfolding step
step_probes m connection_up h = ground arith
step_probes m e h = ground arith
