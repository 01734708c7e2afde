-- ===== src/Diam/Pending/Restores.antt =====
-- A write of `BeginWrite` that fails at once hands its answer back to the owner before it.
use go_diameter.Prelude.{
  ℕ, zero, suc, ◌<◌, ◌≡◌, ◌≢◌, ◌∙◌, sym, ap, refl, Bool, true, false, ◌||◌, Option, none, some, inl,
  inr, List, arith,
}
use go_diameter.Prelude.Tests.{◌==◌, ==_refl, maybe, if◌then◌else◌, Bool-cases, Option-cases}
use go_diameter.Prelude.Maps.{update}
use go_diameter.Diam.Pending.{
  RequestKey, same_key, Ticket, Owners, owner, own, disown, Tracker, new_ticket, register, overlap,
  rollback_to, reown, finish_write, begin_write, publication_header, key_for_request,
}
use go_diameter.Diam.Header.{Header}
use go_diameter.Diam.Pending.Kept.{Kept}
use go_diameter.Diam.Pending.Owners.{Call, run, AllMade, run-Kept}
use go_diameter.Diam.Pending.Ends.{fresh_tracker, fresh-Kept}
use go_diameter.Diam.Pending.Chain.{update-key}
use go_diameter.Diam.Pending.Keys.{same_key_iff, same_key_refl, owner-disown}

-- What a key that is handed back leaves of the map.
none_back :
    (k j : RequestKey) (r : ℕ) (m : Owners)
    → owner k m ≡ none
    → owner j (disown k (own k r m)) ≡ owner j m
unfolding owner own if◌then◌else◌
none_back k j r m e =
    let outer = owner-disown k j (own k r m) in
    let inner = owner-disown k j m in
    elim (Bool-cases (same_key k j)) [
      | inl y ↦
          let same : owner j m ≡ none =
            ap (λ (i : RequestKey). owner i m) (sym ((same_key_iff k j).0 y)) ∙ e in
          rw (outer, y) (sym same)
      | inr n ↦ rw (outer, n, inner, n) refl
    ]

some_back :
    (k j : RequestKey) (r q : ℕ) (m : Owners)
    → owner k m ≡ some q
    → owner j (own k q (own k r m)) ≡ owner j m
unfolding owner own if◌then◌else◌
some_back k j r q m e =
    let outer = owner-disown k j (own k r m) in
    let inner = owner-disown k j m in
    elim (Bool-cases (same_key k j)) [
      | inl y ↦
          let same : owner j m ≡ some q =
            ap (λ (i : RequestKey). owner i m) (sym ((same_key_iff k j).0 y)) ∙ e in
          rw y (sym same)
      | inr n ↦ rw (n, outer, n, inner, n) refl
    ]

-- The tracker after a registration over `prior`, before and after the write fails.
abbrev registered : RequestKey → ℕ → Option ℕ → Tracker → Tracker
unfolding own overlap
registered k r prior t = record (overlap r prior t) { pending = own k r t.pending }

register_lem :
    (k : RequestKey) (r : ℕ) (t : Tracker)
    → maybe (owner k t.pending) false (λ (q : ℕ). q == r) ≡ false
    → register k r t ≡ registered k r (owner k t.pending) t
unfolding register overlap registered if◌then◌else◌
register_lem k r t e = rw e refl

finish_write-pending :
    (r : ℕ) (u : Tracker)
    → owner (u.tickets r).key u.pending ≡ some r
    → let f = update u.tickets r (record (u.tickets r) { failed = true }) in
      (finish_write r false u).pending
      ≡ reown (u.tickets r).key (rollback_to f u.made (f r).previous) u.pending
unfolding finish_write if◌then◌else◌
finish_write-pending r u e = rw (e, maybe, ==_refl r) refl

update-previous : (f : ℕ → Ticket) (r : ℕ) (x : Ticket) → (update f r x r).previous ≡ x.previous
unfolding update if◌then◌else◌
update-previous f r x = rw (==_refl r) refl

update_other : (f : ℕ → Ticket) (r q : ℕ) (x : Ticket) → (q == r) ≡ false → update f r x q ≡ f q
unfolding update if◌then◌else◌
update_other f r q x n = rw n refl

-- A walk whose first ticket is alive ends there.
alive :
    (f : ℕ → Ticket) (n q : ℕ)
    → q < n
    → ((f q).failed || (f q).cancelled) ≡ false
    → rollback_to f n (some q) ≡ some q
unfolding rollback_to if◌then◌else◌
alive f zero q l e = absurd (omega (arith, l))
alive f (suc n) q l e = rw e refl

owned_now : (k : RequestKey) (r : ℕ) (m : Owners) → owner k (own k r m) ≡ some r
unfolding owner own if◌then◌else◌
owned_now k r m = rw (same_key_refl k) refl

module _ (k : RequestKey) (r : ℕ) (t : Tracker) (same : (t.tickets r).key ≡ k) where
  handed_back :
      (prior : Option ℕ) (j : RequestKey)
      → let u = registered k r prior t in
        let f = update u.tickets r (record (u.tickets r) { failed = true }) in
        owner j (finish_write r false u).pending
        ≡ owner j (reown k (rollback_to f t.made prior) (own k r t.pending))
  unfolding registered overlap
  handed_back prior j =
      let u = registered k r prior t in
      let x = record (u.tickets r) { failed = true } in
      let key = update-key t.tickets r (record (t.tickets r) { previous = prior }) r refl ∙ same in
      let owned : owner (u.tickets r).key u.pending ≡ some r =
        ap (λ (i : RequestKey). owner i u.pending) key ∙ owned_now k r t.pending in
      let f = update u.tickets r x in
      let before =
        update-previous u.tickets r x
        ∙ update-previous t.tickets r (record (t.tickets r) { previous = prior }) in
      ap (owner j) (finish_write-pending r u owned)
      ∙ (ap (λ (i : RequestKey). owner j (reown i (rollback_to f u.made (f r).previous) u.pending))
            key
          ∙ ap (λ (o : Option ℕ). owner j (reown k (rollback_to f u.made o) u.pending)) before)

  -- The ticket failed behind which nothing, or an owner that did not fail, stands.
  hands_back :
      (j : RequestKey)
      → r < t.made
      → ((q : ℕ)
          → owner k t.pending ≡ some q
          → (q < t.made)
            × ((q == r) ≡ false)
            × (((t.tickets q).failed || (t.tickets q).cancelled) ≡ false))
      → owner j (finish_write r false (register k r t)).pending ≡ owner j t.pending
  unfolding reown rollback_to maybe registered update
  hands_back j m fit = elim (Option-cases (owner k t.pending)) [
    | inl e ↦
        let is_registered = register_lem k r t (rw e refl) in
        ap (λ (u : Tracker). owner j (finish_write r false u).pending) is_registered
        ∙ (handed_back (owner k t.pending) j ∙ rw e (none_back k j r t.pending e))
    | inr (q, e) ↦
        let h = fit q e in
        let is_registered = register_lem k r t (rw e h.1) in
        let x = record (t.tickets r) { previous = owner k t.pending } in
        let u = registered k r (owner k t.pending) t in
        let y = record (u.tickets r) { failed = true } in
        let f = update u.tickets r y in
        let same_cell = update_other u.tickets r q y h.1 ∙ update_other t.tickets r q x h.1 in
        let lives : ((f q).failed || (f q).cancelled) ≡ false =
          ap (λ (c : Ticket). c.failed || c.cancelled) same_cell ∙ h.2 in
        let walk : rollback_to f t.made (owner k t.pending) ≡ some q =
          ap (rollback_to f t.made) e ∙ alive f t.made q h.0 lives in
        ap (λ (u : Tracker). owner j (finish_write r false u).pending) is_registered
        ∙ (handed_back (owner k t.pending) j
            ∙ (ap (λ (o : Option ℕ). owner j (reown k o (own k r t.pending))) walk
                ∙ some_back k j r q t.pending e))
  ]

new_hands_back :
    (k j : RequestKey) (t : Tracker)
    → Kept t
    → ((q : ℕ) → owner k t.pending ≡ some q → (t.tickets q).failed ≡ false)
    → owner j (finish_write t.made false (register k t.made (new_ticket k t))).pending
      ≡ owner j t.pending
unfolding new_ticket update if◌then◌else◌
new_hands_back k j t h fit =
    hands_back k t.made (new_ticket k t) (rw (==_refl t.made) refl) j (omega arith) (λ q e.
      let l = h.live k q e in
      let other : (q == t.made) ≡ false = ground (arith, l.0) in
      (omega (arith, l.0), other, rw other (ground (arith, l.1, fit q e))))

-- A branch that is taken, with the rest left as it stands.
some_branch :
    {A : Type 0} {B : Type 0} {o : Option A} {a : A} (n : B) (f : A → B)
    → o ≡ some a
    → maybe o n f ≡ f a
unfolding maybe
some_branch n f e = ap (λ o. maybe o n f) e

none_branch :
    {A : Type 0} {B : Type 0} {o : Option A} (n : B) (f : A → B) → o ≡ none → maybe o n f ≡ n
unfolding maybe
none_branch n f e = ap (λ o. maybe o n f) e

then_branch : {A : Type 0} {b : Bool} (x y : A) → b ≡ true → (if b then x else y) ≡ x
unfolding if◌then◌else◌
then_branch x y e = ap (λ b. if b then x else y) e

else_branch : {A : Type 0} {b : Bool} (x y : A) → b ≡ false → (if b then x else y) ≡ y
unfolding if◌then◌else◌
else_branch x y e = ap (λ b. if b then x else y) e

begin_hands_back :
    (b : List ℕ) (h : Header) (r : ℕ) (j : RequestKey) (t : Tracker)
    → Kept t
    → publication_header b ≡ some h
    → (begin_write b t).0 ≡ some r
    → ((q : ℕ)
        → owner (key_for_request h) t.pending ≡ some q
        → (q ≢ r) × ((t.tickets q).failed ≡ false))
    → owner j (finish_write r false (begin_write b t).1).pending ≡ owner j t.pending
unfolding begin_write
begin_hands_back b h r j t kept e o fit =
    let k = key_for_request h in
    elim (Bool-cases t.closing) [
      | inl c ↦
          let is_begun : begin_write b t ≡ (none, t) = some_branch _ _ e ∙ then_branch _ _ c in
          let o' : none ≡ some r = sym (ap (λ (w : Option ℕ × Tracker). w.0) is_begun) ∙ o in
          absurd (ground (arith, o'))
      | inr c ↦ elim (Option-cases (owner k t.reserved)) [
        | inl free ↦
            let is_begun : begin_write b t ≡ (some t.made, register k t.made (new_ticket k t)) =
              some_branch _ _ e ∙ (else_branch _ _ c ∙ none_branch _ _ free) in
            let o' : some t.made ≡ some r =
              sym (ap (λ (w : Option ℕ × Tracker). w.0) is_begun) ∙ o in
            let same : r ≡ t.made = ground (arith, o') in
            ap (λ (w : Option ℕ × Tracker). owner j (finish_write r false w.1).pending) is_begun
            ∙ (ap
                  (λ (i : ℕ).
                    owner j (finish_write i false (register k t.made (new_ticket k t))).pending)
                  same
                ∙ new_hands_back k j t kept (λ q w. (fit q w).1))
        | inr (p, taken) ↦ elim (Bool-cases (t.tickets p).cancelled) [
          | inl x ↦
              let is_begun : begin_write b t ≡ (none, t) =
                some_branch _ _ e
                ∙ (else_branch _ _ c ∙ (some_branch _ _ taken ∙ then_branch _ _ x)) in
              let o' : none ≡ some r = sym (ap (λ (w : Option ℕ × Tracker). w.0) is_begun) ∙ o in
              absurd (ground (arith, o'))
          | inr x ↦
              let is_begun : begin_write b t ≡ (some p, register k p t) =
                some_branch _ _ e
                ∙ (else_branch _ _ c ∙ (some_branch _ _ taken ∙ else_branch _ _ x)) in
              let o' : some p ≡ some r = sym (ap (λ (w : Option ℕ × Tracker). w.0) is_begun) ∙ o in
              let same : r ≡ p = ground (arith, o') in
              let n = kept.newest.last k p taken in
              ap (λ (w : Option ℕ × Tracker). owner j (finish_write r false w.1).pending) is_begun
              ∙ (ap (λ (i : ℕ). owner j (finish_write i false (register k p t)).pending) same
                  ∙ hands_back k p t n.1 j n.0 (λ q w.
                    let l = kept.live k q w in
                    let f = fit q w in
                    let other : (q == p) ≡ false = ground (arith, f.0, same) in
                    (l.0, other, ground (arith, l.1, f.1))))
        ]
      ]
    ]

-- After any calls, where BeginWrite registers a request and the write then fails, every answer is
-- owned as it was before, if the ticket that owned the request's answer then, if any, is another one
-- and had not failed.
pub failed_write-restores :
    (cs : List Call) (b : List ℕ) (h : Header) (r : ℕ) (j : RequestKey)
    → AllMade cs fresh_tracker
    → publication_header b ≡ some h
    → (begin_write b (run cs fresh_tracker)).0 ≡ some r
    → ((q : ℕ)
        → owner (key_for_request h) (run cs fresh_tracker).pending ≡ some q
        → (q ≢ r) × (((run cs fresh_tracker).tickets q).failed ≡ false))
    → owner j (finish_write r false (begin_write b (run cs fresh_tracker)).1).pending
      ≡ owner j (run cs fresh_tracker).pending
failed_write-restores cs b h r j m e o fit =
    begin_hands_back b h r j (run cs fresh_tracker) (run-Kept cs fresh_tracker m fresh-Kept) e o fit
