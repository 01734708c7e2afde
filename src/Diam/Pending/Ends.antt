-- ===== src/Diam/Pending/Ends.antt =====
-- What a cancellation and Closing put an end to.
use go_diameter.Prelude.{
  ℕ, ◌<◌, ◌≤◌, sym, ap, ◌∙◌, Option, none, Bool, true, false, ◌≡◌, ◌≢◌, refl, inl, inr, none, some,
  List, [], ◌∷◌, arith,
}
use go_diameter.Prelude.Tests.{
  maybe, Option-cases, ==_iff, ◌==◌, ==_refl, if◌then◌else◌, Bool-cases,
}
use go_diameter.Prelude.Maps.{update}
use go_diameter.Diam.Pending.Chain.{update-cancelled, update-Older}
use go_diameter.Diam.Pending.{
  Ticket, register, overlap, begin_write, finish_write, publication_header, RequestKey, Owners,
  owner, disown, Tracker, new_ticket, prepare_write, cancel, release, key_for_request, locked,
  attempt, unlock, close_admission,
}
use go_diameter.Diam.Pending.Cases.{
  attempt-case, publication-case, begin_write-case, match_answer-case,
}
use go_diameter.Diam.Pending.Kept.{cancel-Kept, close_admission-Kept, owner_cong, Kept, disowned}
use go_diameter.Diam.Pending.Overlap.{reown-owner}
use go_diameter.Diam.Pending.Owners.{
  Call, prepare, cancelling, releasing, publish, attempting, unlocking, closing_down, beginning,
  finishing, answered, Made, call, call-Kept, run, AllMade, run-Kept,
}

-- The tracker of a new connection.
abbrev pub fresh_tracker : Tracker
fresh_tracker = record {
  tickets = λ r. record {
    key = record { hop = 0; end = 0; command = 0; application = 0 };
    cancelled = false;
    previous = none;
    failed = false;
  };
  made = 0;
  pending = [];
  reserved = [];
  closing = false;
  held = false;
}

-- A property of the tracker that a run keeps if each call does.
module _ (P : Tracker → Type 0) (each : (c : Call) (t : Tracker) → P t → P (call c t)) where
  run-keeps : (cs : List Call) (t : Tracker) → P t → P (run cs t)
  run-keeps [] t h = h
  run-keeps (c ∷ cs) t h = run-keeps cs (call c t) (each c t h)

-- A ticket that was made and cancelled.
record Gone (r : ℕ) (t : Tracker) : Type 0 where
  made : r < t.made
  cancelled : (t.tickets r).cancelled ≡ true

new_ticket-Gone : (r : ℕ) (k : RequestKey) (t : Tracker) → Gone r t → Gone r (new_ticket k t)
unfolding update
new_ticket-Gone r k t g =
    let old : (r == t.made) ≡ false = ground (arith, g.made) in
    record { made = omega (arith, g.made); cancelled = rw old g.cancelled }

cancel-Gone : (r q : ℕ) (t : Tracker) → Gone r t → Gone r (cancel q t)
unfolding cancel update
cancel-Gone r q t g = record {
  made = g.made;
  cancelled = elim (Bool-cases (r == q)) [ inl e ↦ rw e refl | inr e ↦ rw e g.cancelled ];
}

set-Gone :
    (r q : ℕ) (x : Ticket) (t : Tracker)
    → Gone r t
    → x.cancelled ≡ (t.tickets q).cancelled
    → Gone r (record t { tickets = update t.tickets q x })
set-Gone r q x t g c = record {
  made = g.made;
  cancelled = update-cancelled t.tickets q x r c ∙ g.cancelled;
}

register-Gone : (r : ℕ) (k : RequestKey) (q : ℕ) (t : Tracker) → Gone r t → Gone r (register k q t)
unfolding register overlap if◌then◌else◌
register-Gone r k q t g = elim (Bool-cases (maybe (owner k t.pending) false (λ (o : ℕ). o == q))) [
  | inl e ↦ rw e (record { made = g.made; cancelled = g.cancelled })
  | inr e ↦
      let s = set-Gone r q (record (t.tickets q) { previous = owner k t.pending }) t g refl in
      rw e (record { made = s.made; cancelled = s.cancelled })
]

finish_write-Gone :
    (r q : ℕ) (written : Bool) (t : Tracker) → Gone r t → Gone r (finish_write q written t)
unfolding finish_write overlap if◌then◌else◌
finish_write-Gone r q true t g = set-Gone r q (record (t.tickets q) { previous = none }) t g refl
finish_write-Gone r q false t g =
    let s = set-Gone r q (record (t.tickets q) { failed = true }) t g refl in
    record { made = s.made; cancelled = s.cancelled }

call-Gone : (r : ℕ) (c : Call) (t : Tracker) → Gone r t → Gone r (call c t)
unfolding call prepare_write release unlock close_admission
call-Gone r (prepare a) t g =
    let n = new_ticket-Gone r (key_for_request a) t g in
    record { made = n.made; cancelled = n.cancelled }
call-Gone r (cancelling q) t g = cancel-Gone r q t g
call-Gone r (releasing q) t g = record { made = g.made; cancelled = g.cancelled }
call-Gone r (publish b) t g = publication-case (Gone r) b t g (λ k e. new_ticket-Gone r k t g)
call-Gone r (beginning b) t g =
    begin_write-case (Gone r) b t g (λ k q c o x. register-Gone r k q t g)
      (λ k c o. register-Gone r k t.made (new_ticket k t) (new_ticket-Gone r k t g))
call-Gone r (finishing q written) t g = finish_write-Gone r q written t g
call-Gone r (attempting q) t g =
    attempt-case (Gone r) q t g (record { made = g.made; cancelled = g.cancelled })
      (λ o e c q'. record { made = g.made; cancelled = g.cancelled })
call-Gone r unlocking t g = record { made = g.made; cancelled = g.cancelled }
call-Gone r closing_down t g = record { made = g.made; cancelled = g.cancelled }
call-Gone r (answered a consume) t g =
    match_answer-case (Gone r) a consume t g
      (λ k. record { made = g.made; cancelled = g.cancelled })

pub fresh-Kept : Kept fresh_tracker
unfolding owner
fresh-Kept = record {
  live = λ k r e. absurd (ground (arith, e));
  older = record { before = λ r q l e. absurd (ground (arith, l)) };
  newest = record { last = λ k r e. absurd (ground (arith, e)) };
}

cancelled-Gone : (r : ℕ) (t : Tracker) → r < t.made → Gone r (cancel r t)
unfolding cancel update
cancelled-Gone r t m = record { made = m; cancelled = rw (==_refl r) refl }

-- Whether the ticket owns the answers for the key.
unfoldable pub owns : ℕ → RequestKey → Tracker → Bool
unfolding maybe
owns r k t = maybe (owner k t.pending) false (λ (q : ℕ). q == r)

owns-Gone : (r : ℕ) (k : RequestKey) (t : Tracker) → Kept t → Gone r t → owns r k t ≡ false
unfolding owns
owns-Gone r k t h g = elim (Option-cases (owner k t.pending)) [
  | inl e ↦ rw e refl
  | inr (q, e) ↦
      let l = h.live k q e in
      elim (Bool-cases (q == r)) [
        | inl y ↦
            let same : q ≡ r = (==_iff q r).0 y in
            let live : (t.tickets r).cancelled ≡ false = rw same at l.1 in
            absurd (ground (arith, g.cancelled, live))
        | inr n ↦ rw (e, n) refl
      ]
]

-- However the tracker got where it stands, a ticket that is cancelled there owns no answer after any
-- further calls, whatever writers do with it.
pub cancelled_for_good :
    (cs cs' : List Call) (r : ℕ) (k : RequestKey)
    → AllMade cs fresh_tracker
    → r < (run cs fresh_tracker).made
    → AllMade cs' (cancel r (run cs fresh_tracker))
    → owns r k (run cs' (cancel r (run cs fresh_tracker))) ≡ false
cancelled_for_good cs cs' r k m made m' =
    let t = run cs fresh_tracker in
    let kept = run-Kept cs fresh_tracker m fresh-Kept in
    owns-Gone r k (run cs' (cancel r t)) (run-Kept cs' (cancel r t) m' (cancel-Kept r t made kept))
      (run-keeps (Gone r) (call-Gone r) cs' (cancel r t) (cancelled-Gone r t made))

-- Closing, with no owner but those of `before` and older tickets in their place.
record Frozen (before : Owners) (t : Tracker) : Type 0 where
  closing : t.closing ≡ true
  owned :
      (j : RequestKey) (q : ℕ)
      → owner j t.pending ≡ some q
      → (p : ℕ) × (owner j before ≡ some p) × (q ≤ p)

kept_part :
    (b : Bool) (j k : RequestKey) (q : ℕ) (m : Owners)
    → owner j (if b then disown k m else m) ≡ some q
    → owner j m ≡ some q
unfolding if◌then◌else◌
kept_part true j k q m e = (disowned k j q m e).1
kept_part false j k q m e = e

owned_by : (o : Option ℕ) (r : ℕ) → maybe o false (λ (q : ℕ). q == r) ≡ true → o ≡ some r
unfolding maybe
owned_by none r e = absurd (ground (arith, e))
owned_by (some q) r e = ap some ((==_iff q r).0 e)

finish_write-Frozen :
    (before : Owners) (r : ℕ) (written : Bool) (t : Tracker)
    → r < t.made
    → Kept t
    → Frozen before t
    → Frozen before (finish_write r written t)
unfolding finish_write overlap if◌then◌else◌
finish_write-Frozen before r true t m h f = record { closing = f.closing; owned = f.owned }
finish_write-Frozen before r false t m h f =
    let k = (t.tickets r).key in
    let x = record (t.tickets r) { failed = true } in
    let older = update-Older t.tickets t.made r x h.older refl (λ q e. h.older.before r q m e) in
    elim (Bool-cases (maybe (owner k t.pending) false (λ (o : ℕ). o == r))) [
      | inl e ↦ rw e (record {
        closing = f.closing;
        owned = λ j q w.
            elim (reown-owner k j r q (update t.tickets r x) t.made t.pending older m w) [
              | inl (same, low) ↦
                  let held =
                    sym (owner_cong k j t.pending same) ∙ owned_by (owner k t.pending) r e in
                  let (p, b, l) = f.owned j r held in (p, b, omega (arith, low, l))
              | inr kept ↦ f.owned j q kept
            ];
      })
      | inr e ↦ rw e (record { closing = f.closing; owned = f.owned })
    ]

call-Frozen :
    (before : Owners) (c : Call) (t : Tracker)
    → Made c t
    → Kept t
    → Frozen before t
    → Frozen before (call c t)
unfolding call prepare_write release unlock close_admission cancel
call-Frozen before (prepare a) t m h f = record { closing = f.closing; owned = f.owned }
call-Frozen before (cancelling q) t m h f = record {
  closing = f.closing;
  owned = λ j p e. f.owned j p (kept_part _ j (t.tickets q).key p t.pending e);
}
call-Frozen before (releasing q) t m h f = record { closing = f.closing; owned = f.owned }
call-Frozen before (publish b) t m h f =
    publication-case (Frozen before) b t f (λ k e. record { closing = f.closing; owned = f.owned })
call-Frozen before (beginning b) t m h f =
    begin_write-case (Frozen before) b t f (λ k r c. absurd (ground (arith, f.closing, c)))
      (λ k c. absurd (ground (arith, f.closing, c)))
call-Frozen before (finishing r written) t m h f = finish_write-Frozen before r written t m h f
call-Frozen before (attempting q) t m h f =
    attempt-case (Frozen before) q t f (record { closing = f.closing; owned = f.owned })
      (λ o e c q'. absurd (ground (arith, f.closing, q')))
call-Frozen before unlocking t m h f = record { closing = f.closing; owned = f.owned }
call-Frozen before closing_down t m h f = record { closing = refl; owned = f.owned }
call-Frozen before (answered a consume) t m h f =
    match_answer-case (Frozen before) a consume t f (λ k. record {
      closing = f.closing;
      owned = λ j p e. f.owned j p (disowned k j p t.pending e).1;
    })

run-Frozen :
    (before : Owners) (cs : List Call) (t : Tracker)
    → AllMade cs t
    → Kept t
    → Frozen before t
    → Frozen before (run cs t)
run-Frozen before [] t m h f = f
run-Frozen before (c ∷ cs) t m h f =
    run-Frozen before cs (call c t) m.1 (call-Kept c t m.0 h) (call-Frozen before c t m.0 h f)

closing-Frozen : (t : Tracker) → Frozen t.pending (close_admission t)
unfolding close_admission
closing-Frozen t = record { closing = refl; owned = λ j q e. (q, e, omega arith) }

refused : (r : ℕ) (t : Tracker) → t.closing ≡ true → (attempt (some r) t).0 ≢ locked
unfolding attempt
refused r t e = ground arith

unregistered : (b : List ℕ) (t : Tracker) → t.closing ≡ true → begin_write b t ≡ (none, t)
unfolding begin_write
unregistered b t e = elim (Option-cases (publication_header b)) [
  | inl h ↦ rw h refl
  | inr (a, h) ↦ rw (h, e) refl
]

-- However the tracker got where it stands when Closing is latched, after any further calls each owner
-- of an answer is the ticket that owned that answer then or an older one, so that no answer gets its
-- first owner; no ticket acquires the write gate, and BeginWrite registers nothing.
pub closed_admission :
    (cs cs' : List Call)
    → AllMade cs fresh_tracker
    → AllMade cs' (close_admission (run cs fresh_tracker))
    → ((k : RequestKey) (q : ℕ)
        → owner k (run cs' (close_admission (run cs fresh_tracker))).pending ≡ some q
        → (p : ℕ) × (owner k (run cs fresh_tracker).pending ≡ some p) × (q ≤ p))
      × ((r : ℕ) → (attempt (some r) (run cs' (close_admission (run cs fresh_tracker)))).0 ≢ locked)
      × ((b : List ℕ)
          → begin_write b (run cs' (close_admission (run cs fresh_tracker)))
            ≡ (none, run cs' (close_admission (run cs fresh_tracker))))
closed_admission cs cs' m m' =
    let t = run cs fresh_tracker in
    let kept = run-Kept cs fresh_tracker m fresh-Kept in
    let f =
      run-Frozen t.pending cs' (close_admission t) m' (close_admission-Kept t kept)
        (closing-Frozen t) in
    (
      f.owned,
      λ r. refused r (run cs' (close_admission t)) f.closing,
      λ b. unregistered b (run cs' (close_admission t)) f.closing,
    )
