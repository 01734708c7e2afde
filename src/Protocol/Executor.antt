-- ===== src/Protocol/Executor.antt =====
-- diam/internal/protocol/core.go, seen from the executor that performs its effects.
use go_diameter.Prelude.{
  ℕ, refl, sym, Bool, true, false, not, ◌&&◌, ◌≡◌, ◌⊎◌, inl, inr, zero, suc, some, List, [], ◌∷◌,
  arith,
}
use mathlib.Core.Option.{some-injective}
use go_diameter.Prelude.Lists.{All, get_elem?}
use go_diameter.Base.Interface.{Base}
use go_diameter.Protocol.Types.{EffectKind, Phase, Input, InputKind}
use go_diameter.Protocol.Core.{Core, Effect, St, is_over}
use go_diameter.Protocol.Ending.{is_open, is_pre_cer, is_wait_cea}
use go_diameter.Protocol.Handle.{handle}
use go_diameter.Protocol.Tracking.{View, Tracks, armed}
use go_diameter.Protocol.Tracking.Handle.{handle-Tracks}

-- Inputs handled one after the other, with all their effects.
abbrev pub run : Base → List Input → St → St
run b [] s = s
run b (inp ∷ inps) s = run b inps (handle b inp s)

-- A connection before a run: no effect has been appended.
abbrev pub at_rest : Core → St
at_rest c = record { core = c; out = [] }

rest-Tracks :
    (v : View) (c : Core)
    → c.cfg.connection ≡ v.conn
    → ((k : ℕ) → v.start k ≡ (c.timers k).token)
    → Tracks v (at_rest c)
rest-Tracks v c p q = record { same = p; named = tt; gated = tt; mirror = q }

-- What a run is held to when nothing is asked of admissions.
abbrev open_view : Core → View
open_view c = record { conn = c.cfg.connection; Allowed = Unit; start = λ k. (c.timers k).token }

run-Tracks :
    (v : View) (b : Base) (inps : List Input) (s : St)
    → v.Allowed
    → Tracks v s
    → Tracks v (run b inps s)
run-Tracks v b [] s a h = h
run-Tracks v b (inp ∷ inps) s a h =
    run-Tracks v b inps _ a (handle-Tracks b inp s (λ w p r o e. a) h)

-- For every base layer, inputs, connection and timer: an executor that starts with the connection's
-- token for the timer, and performs the effects of the whole run in order, holds at the end the
-- token that the connection then has for the timer.
pub run-armed :
    (b : Base) (inps : List Input) (c : Core) (k : ℕ)
    → armed k (run b inps (at_rest c)).out (c.timers k).token
      ≡ ((run b inps (at_rest c)).core.timers k).token
run-armed b inps c k =
    (run-Tracks (open_view c) b inps (at_rest c) tt (rest-Tracks _ c refl (λ k. refl))).mirror k

-- For every base layer, inputs and connection: a run keeps the connection's identity, and each of
-- its effects names that connection.
pub run-connection :
    (b : Base) (inps : List Input) (c : Core)
    → ((run b inps (at_rest c)).core.cfg.connection ≡ c.cfg.connection)
      × All (λ e. e.connection ≡ c.cfg.connection) (run b inps (at_rest c)).out
run-connection b inps c =
    let t = run-Tracks (open_view c) b inps (at_rest c) tt (rest-Tracks _ c refl (λ k. refl)) in
    (t.same, t.named)

-- The admission gate: a message may go on to the application when the connection is open and
-- released, or is closing.
abbrev pub Admissible : Core → Type 0
Admissible c = ((c.phase ≡ Phase.opened) × (c.ready ≡ true)) ⊎ (c.phase ≡ Phase.closing)

admissible-cases :
    (p : Phase) (r : Bool)
    → is_wait_cea p ≡ false
    → is_pre_cer p ≡ false
    → (is_open p && not r) ≡ false
    → is_over p ≡ false
    → ((p ≡ Phase.opened) × (r ≡ true)) ⊎ (p ≡ Phase.closing)
admissible-cases Phase.pre_cer r w q g o = ground arith
admissible-cases Phase.wait_cea r w q g o = ground arith
admissible-cases Phase.opened r w q g o = inl (refl, ground arith)
admissible-cases Phase.closing r w q g o = inr refl
admissible-cases Phase.closed r w q g o = ground arith
admissible-cases Phase.retired r w q g o = ground arith

All-get_elem? :
    (P : Effect → Type 0) (es : List Effect) (i : ℕ) (e : Effect)
    → All P es
    → get_elem? es i ≡ some e
    → P e
All-get_elem? P [] i e hs h = ground arith
All-get_elem? P (x ∷ es) zero e hs h = rw (sym (some-injective x e h)) hs.0
All-get_elem? P (x ∷ es) (suc i) e hs h = All-get_elem? P es i e hs.1 h

-- For every base layer, input and connection, and every effect at some place among those of
-- handling the input: if it admits a message, the input was a receipt, and before it the connection
-- was open and released, or closing.
pub handle_admits :
    (b : Base) (inp : Input) (c : Core) (i : ℕ) (e : Effect)
    → get_elem? (handle b inp (at_rest c)).out i ≡ some e
    → e.kind ≡ EffectKind.admit
    → (inp.kind ≡ InputKind.receive) × Admissible c
handle_admits b inp c i e at_i admits =
    let v : View = record {
      conn = c.cfg.connection;
      Allowed = (inp.kind ≡ InputKind.receive) × Admissible c;
      start = λ k. (c.timers k).token;
    } in
    let t : Tracks v (handle b inp (at_rest c)) =
      handle-Tracks b inp (at_rest c) (λ w p r o e. (e, admissible-cases c.phase c.ready w p r o))
        (rest-Tracks v c refl (λ k. refl)) in
    All-get_elem? _ _ i e t.gated at_i admits
