-- ===== src/Diam/Pending/Overlap.antt =====
-- Who owns an answer: what `BeginWrite` and the outcome of its write keep of it.
use go_diameter.Prelude.{
  ℕ, ◌<◌, Bool, true, false, ◌≡◌, ◌⊎◌, ◌≤◌, ◌∙◌, sym, refl, ap, inl, inr, none, some, List, arith,
}
use go_diameter.Prelude.Tests.{==_refl, ◌==◌, Option-cases, if◌then◌else◌, Bool-cases, maybe}
use go_diameter.Prelude.Maps.{update}
use go_diameter.Diam.Pending.{
  RequestKey, same_key, Owners, owner, disown, own, Tracker, new_ticket, register, overlap,
  begin_write, rollback_to, reown, finish_write, Ticket,
}
use go_diameter.Diam.Pending.Chain.{
  Older, update-key, update-cancelled, update-Older, update-Newest, rollback_to-found,
}
use go_diameter.Diam.Pending.Cases.{begin_write-case}
use go_diameter.Diam.Pending.Keys.{same_key_iff}
use go_diameter.Diam.Pending.Kept.{Kept, owner-own, disowned, new_ticket-Kept}

-- A new cell for a ticket that keeps its key and whether it is cancelled.
pub set-Kept :
    (r : ℕ) (x : Ticket) (t : Tracker)
    → Kept t
    → r < t.made
    → x.key ≡ (t.tickets r).key
    → x.cancelled ≡ (t.tickets r).cancelled
    → ((q : ℕ) → x.previous ≡ some q → (q < r) × ((t.tickets q).key ≡ (t.tickets r).key))
    → Kept (record t { tickets = update t.tickets r x })
set-Kept r x t h m k c p = record {
  live = λ j q e.
      let l = h.live j q e in
      (
        l.0,
        update-cancelled t.tickets r x q c ∙ l.1,
        ap (λ (i : RequestKey). same_key i j) (update-key t.tickets r x q k) ∙ l.2,
      );
  older = update-Older t.tickets t.made r x h.older k p;
  newest = update-Newest t.tickets t.made r x t.reserved h.newest k;
}

-- A ticket that takes the answers for its key.
pub own-Kept :
    (k : RequestKey) (r : ℕ) (t : Tracker)
    → Kept t
    → r < t.made
    → (t.tickets r).cancelled ≡ false
    → (t.tickets r).key ≡ k
    → Kept (record t { pending = own k r t.pending })
own-Kept k r t h m c e = record {
  live = λ j q w. elim (owner-own k j r q t.pending w) [
    | inl (y, same) ↦ rw (← same) (m, c, rw e y)
    | inr kept ↦ h.live j q kept
  ];
  older = h.older;
  newest = h.newest;
}

pub register-Kept :
    (k : RequestKey) (r : ℕ) (t : Tracker)
    → Kept t
    → r < t.made
    → (t.tickets r).cancelled ≡ false
    → (t.tickets r).key ≡ k
    → ((q : ℕ) → q < t.made → (t.tickets q).key ≡ k → q ≤ r)
    → Kept (register k r t)
unfolding register overlap maybe if◌then◌else◌
register-Kept k r t h m c e newest =
    elim (Bool-cases (maybe (owner k t.pending) false (λ (q : ℕ). q == r))) [
      | inl b ↦ rw b (own-Kept k r t h m c e)
      | inr b ↦ rw b (
          own-Kept k r (overlap r (owner k t.pending) t)
            (set-Kept r (record (t.tickets r) { previous = owner k t.pending }) t h m refl refl
              (λ q w.
                let l = h.live k q w in
                let same : (t.tickets q).key ≡ k = (same_key_iff (t.tickets q).key k).0 l.2 in
                let other : (q == r) ≡ false = rw w at b in
                let low = newest q l.0 same in (ground (arith, low, other), same ∙ sym e)))
            m
            (update-cancelled t.tickets r (record (t.tickets r) { previous = owner k t.pending }) r
                refl
              ∙ c)
            (update-key t.tickets r (record (t.tickets r) { previous = owner k t.pending }) r refl
              ∙ e))
    ]

pub begin_write-Kept : (b : List ℕ) (t : Tracker) → Kept t → Kept (begin_write b t).1
unfolding new_ticket update if◌then◌else◌
begin_write-Kept b t h =
    begin_write-case Kept b t h
      (λ k r closing o c. let l = h.newest.last k r o in register-Kept k r t h l.0 c l.1 l.2)
      (λ k closing e.
        register-Kept k t.made (new_ticket k t) (new_ticket-Kept k t h e) (omega arith)
          (rw (==_refl t.made) refl) (rw (==_refl t.made) refl) (λ q l w. omega (arith, l)))

-- The ticket that a failed write hands the answers for its key back to, if one is left.
pub reown-Kept :
    (k : RequestKey) (r : ℕ) (t : Tracker)
    → Kept t
    → r < t.made
    → (t.tickets r).key ≡ k
    → Kept (record t {
      pending = reown k (rollback_to t.tickets t.made (t.tickets r).previous) t.pending;
    })
unfolding reown rollback_to
reown-Kept k r t h m e = elim (Option-cases (rollback_to t.tickets t.made (t.tickets r).previous)) [
  | inl gone ↦ rw gone (record {
    live = λ j q w. h.live j q (disowned k j q t.pending w).1;
    older = h.older;
    newest = h.newest;
  })
  | inr (p, back) ↦ elim (Option-cases (t.tickets r).previous) [
    | inl none_left ↦
        let ended : none ≡ some p = rw none_left at back in absurd (ground (arith, ended))
    | inr (i, w) ↦
        let b = h.older.before r i m w in
        let back' : rollback_to t.tickets t.made (some i) ≡ some p = rw w at back in
        let l : i < t.made = omega (arith, b.0, m) in
        let found = rollback_to-found t.tickets t.made t.made i p h.older l back' in
        rw back (own-Kept k p t h (omega (arith, found.0, l)) found.2 (found.1 ∙ (b.1 ∙ e)))
  ]
]

pub reown-owner :
    (k j : RequestKey) (r q : ℕ) (f : ℕ → Ticket) (made : ℕ) (m : Owners)
    → Older f made
    → r < made
    → owner j (reown k (rollback_to f made (f r).previous) m) ≡ some q
    → ((same_key k j ≡ true) × (q ≤ r)) ⊎ (owner j m ≡ some q)
unfolding reown rollback_to
reown-owner k j r q f made m h l e = elim (Option-cases (rollback_to f made (f r).previous)) [
  | inl gone ↦ let e' : owner j (disown k m) ≡ some q = rw gone at e in inr (disowned k j q m e').1
  | inr (p, back) ↦
      let e' : owner j (own k p m) ≡ some q = rw back at e in
      elim (owner-own k j p q m e') [
        | inr kept ↦ inr kept
        | inl (y, same) ↦ inl (
          y,
          (elim (Option-cases (f r).previous) [
            | inl none_left ↦
                let ended : none ≡ some p = rw none_left at back in absurd (ground (arith, ended))
            | inr (i, w) ↦
                let b = h.before r i l w in
                let back' : rollback_to f made (some i) ≡ some p = rw w at back in
                let found = rollback_to-found f made made i p h (omega (arith, b.0, l)) back' in
                omega (arith, found.0, b.0, same)
          ]),
        )
      ]
]

pub finish_write-Kept :
    (r : ℕ) (written : Bool) (t : Tracker) → r < t.made → Kept t → Kept (finish_write r written t)
unfolding finish_write overlap if◌then◌else◌
finish_write-Kept r true t m h =
    set-Kept r (record (t.tickets r) { previous = none }) t h m refl refl
      (λ q e. absurd (ground (arith, e)))
finish_write-Kept r false t m h =
    let x = record (t.tickets r) { failed = true } in
    let k = (t.tickets r).key in
    let kept = set-Kept r x t h m refl refl (λ q e. h.older.before r q m e) in
    elim (Bool-cases (maybe (owner k t.pending) false (λ (o : ℕ). o == r))) [
      | inl e ↦ rw e (
          reown-Kept k r (record t { tickets = update t.tickets r x }) kept m
            (update-key t.tickets r x r refl))
      | inr e ↦ rw e kept
    ]
