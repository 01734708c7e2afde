-- ===== src/Watchdog/Traces.antt =====
-- diam/internal/watchdog/machine.go: sequences of events.
use go_diameter.Prelude.{ℕ, ◌+◌, ◌≤◌, ◌≡◌, ◌≢◌, ◌⊎◌, List, [], ◌∷◌, arith}
use go_diameter.Prelude.Int.{ℤ, pos, negsuc}
use go_diameter.Watchdog.{State, Event, Machine, okay, down, reopen, receive_dwa, step}

-- The events that the owner of the control block feeds it, in order.
unfoldable pub run : Machine → List Event → Machine
run m [] = m
run m (e ∷ es) = run (step m e).0 es

abbrev pub credit : Event → ℕ
credit receive_dwa = 1
credit _ = 0

-- How many admitted answers a sequence holds.
abbrev pub answers : List Event → ℕ
answers [] = 0
answers (e ∷ es) = credit e + answers es

-- How far a recovery has come.
abbrev progress : State → ℤ → ℕ
progress reopen (pos n) = n
progress reopen (negsuc n) = 0
progress down n = 0
progress _ n = 3

progress-step :
    (m : Machine) (e : Event)
    → progress (step m e).0.state (step m e).0.num_dwa ≤ credit e + progress m.state m.num_dwa
unfolding step
progress-step m receive_dwa = ground arith
progress-step m e = ground arith

progress-run :
    (m : Machine) (es : List Event)
    → progress (run m es).state (run m es).num_dwa ≤ answers es + progress m.state m.num_dwa
unfolding run
progress-run m [] = omega arith
progress-run m (e ∷ es) = omega (arith, progress-step m e, progress-run (step m e).0 es)

-- A peer that is DOWN is OKAY again only after at least three admitted answers, whatever else
-- happens in between.
pub recovery_needs_answers :
    (m : Machine) (es : List Event) → m.state ≡ down → (run m es).state ≡ okay → 3 ≤ answers es
recovery_needs_answers m es d o = ground (arith, progress-run m es)

-- The recovery counter is -1, 0, 1 or 2 while the peer is in REOPEN.
pub record IsBounded (m : Machine) : Type 0 where
  pub counter :
      (m.state ≢ reopen)
      ⊎ (m.num_dwa ≡ negsuc 0)
      ⊎ (m.num_dwa ≡ pos 0)
      ⊎ (m.num_dwa ≡ pos 1)
      ⊎ (m.num_dwa ≡ pos 2)

step-IsBounded : (m : Machine) (e : Event) → IsBounded m → IsBounded (step m e).0
unfolding step
step-IsBounded m receive_dwa h = ground arith
step-IsBounded m e h = ground arith

-- From a control block whose counter is within its bounds, every sequence of events leaves it within
-- them.
pub run-IsBounded : (m : Machine) (es : List Event) → IsBounded m → IsBounded (run m es)
unfolding run
run-IsBounded m [] h = h
run-IsBounded m (e ∷ es) h = run-IsBounded (step m e).0 es (step-IsBounded m e h)
