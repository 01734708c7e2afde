-- ===== src/Diam/Pending/Chain.antt =====
-- The tickets that a failed write of `BeginWrite` hands an answer back to: each is older than the one
-- that it stands behind, so that the walk over them ends.
use go_diameter.Prelude.{
  ℕ, zero, suc, ◌+◌, ◌<◌, ◌≤◌, true, false, ◌||◌, ◌≡◌, refl, sym, ap, ◌∙◌, none, some, inl, inr,
  arith,
}
use go_diameter.Prelude.Tests.{◌==◌, ==_iff, if◌then◌else◌, Bool-cases, Option-cases}
use go_diameter.Prelude.Maps.{update}
use go_diameter.Diam.Pending.Keys.{same_key_iff, owner-disown}
use go_diameter.Diam.Pending.{RequestKey, same_key, Ticket, Owners, owner, own, disown, rollback_to}

-- Behind a ticket stands an older one for the same key.
pub record Older (f : ℕ → Ticket) (made : ℕ) : Type 0 where
  pub before : (r q : ℕ) → r < made → (f r).previous ≡ some q → (q < r) × ((f q).key ≡ (f r).key)

-- A reserved ticket is the newest one for its key.
pub record Newest (f : ℕ → Ticket) (made : ℕ) (reserved : Owners) : Type 0 where
  pub last :
      (k : RequestKey) (r : ℕ)
      → owner k reserved ≡ some r
      → (r < made) × ((f r).key ≡ k) × ((q : ℕ) → q < made → (f q).key ≡ k → q ≤ r)

-- A new cell for a ticket with the same key.
pub update-key :
    (f : ℕ → Ticket) (r : ℕ) (x : Ticket) (q : ℕ)
    → x.key ≡ (f r).key
    → (update f r x q).key ≡ (f q).key
unfolding update
update-key f r x q h = elim (Bool-cases (q == r)) [
  | inl e ↦ rw e (h ∙ ap (λ (i : ℕ). (f i).key) (sym ((==_iff q r).0 e)))
  | inr e ↦ rw e refl
]

pub update-cancelled :
    (f : ℕ → Ticket) (r : ℕ) (x : Ticket) (q : ℕ)
    → x.cancelled ≡ (f r).cancelled
    → (update f r x q).cancelled ≡ (f q).cancelled
unfolding update
update-cancelled f r x q h = elim (Bool-cases (q == r)) [
  | inl e ↦ rw e (h ∙ ap (λ (i : ℕ). (f i).cancelled) (sym ((==_iff q r).0 e)))
  | inr e ↦ rw e refl
]

abbrev pub new_cell : RequestKey → Ticket
new_cell k = record { key = k; cancelled = false; previous = none; failed = false }

pub new-Older :
    (f : ℕ → Ticket) (made : ℕ) (k : RequestKey)
    → Older f made
    → Older (update f made (new_cell k)) (made + 1)
unfolding update
new-Older f made k h = record {
  before = λ i q l e. elim (Bool-cases (i == made)) [
    | inl y ↦ let e' : none ≡ some q = rw y at e in absurd (ground (arith, e'))
    | inr y ↦
        let e' : (f i).previous ≡ some q = rw y at e in
        let low : i < made = ground (arith, l, y) in
        let b = h.before i q low e' in
        let other : (q == made) ≡ false = ground (arith, b.0, low) in rw (y, other) b
  ];
}

-- A ticket for a key that no ticket reserves.
pub new-Newest :
    (f : ℕ → Ticket) (made : ℕ) (k : RequestKey) (reserved : Owners)
    → Newest f made reserved
    → owner k reserved ≡ none
    → Newest (update f made (new_cell k)) (made + 1) reserved
unfolding update
new-Newest f made k reserved h free = record {
  last = λ j r e.
      let l = h.last j r e in
      let other : (r == made) ≡ false = ground (arith, l.0) in
      (
        omega (arith, l.0),
        rw other l.1,
        λ q m g. elim (Bool-cases (q == made)) [
          | inl y ↦
              let g' : k ≡ j = rw y at g in
              let free' : owner j reserved ≡ none = rw g' at free in
              absurd (ground (arith, e, free'))
          | inr y ↦ let g' : (f q).key ≡ j = rw y at g in l.2 q (ground (arith, m, y)) g'
        ],
      );
}

-- A ticket that reserves its key, whichever ticket had it.
pub reserve-Newest :
    (f : ℕ → Ticket) (made : ℕ) (k : RequestKey) (reserved : Owners)
    → Newest f made reserved
    → Newest (update f made (new_cell k)) (made + 1) (own k made reserved)
unfolding update own owner if◌then◌else◌
reserve-Newest f made k reserved h = record {
  last = λ j r e. elim (Bool-cases (same_key k j)) [
    | inl y ↦
        let e' : some made ≡ some r = rw y at e in
        let same : made ≡ r = ground (arith, e') in
        let this : (r == made) ≡ true = (==_iff r made).1 (sym same) in
        (ground (arith, same), rw this ((same_key_iff k j).0 y), λ q m g. ground (arith, same, m))
    | inr n ↦
        let e' : owner j (disown k reserved) ≡ some r = rw n at e in
        let kept : owner j reserved ≡ some r = ground (arith, e', owner-disown k j reserved, n) in
        let l = h.last j r kept in
        let other : (r == made) ≡ false = ground (arith, l.0) in
        (
          omega (arith, l.0),
          rw other l.1,
          λ q m g. elim (Bool-cases (q == made)) [
            | inl y ↦
                let g' : k ≡ j = rw y at g in
                let yes : same_key k j ≡ true = (same_key_iff k j).1 g' in
                absurd (ground (arith, n, yes))
            | inr y ↦ let g' : (f q).key ≡ j = rw y at g in l.2 q (ground (arith, m, y)) g'
          ],
        )
  ];
}

pub disown-Newest :
    (f : ℕ → Ticket) (made : ℕ) (k : RequestKey) (reserved : Owners)
    → Newest f made reserved
    → Newest f made (disown k reserved)
unfolding if◌then◌else◌
disown-Newest f made k reserved h = record {
  last = λ j r e. let left = owner-disown k j reserved in h.last j r (ground (arith, e, left));
}

pub update-Older :
    (f : ℕ → Ticket) (made r : ℕ) (x : Ticket)
    → Older f made
    → x.key ≡ (f r).key
    → ((q : ℕ) → x.previous ≡ some q → (q < r) × ((f q).key ≡ (f r).key))
    → Older (update f r x) made
unfolding update
update-Older f made r x h k p = record {
  before = λ i q l e. elim (Bool-cases (i == r)) [
    | inl y ↦
        let same : i ≡ r = (==_iff i r).0 y in
        let e' : x.previous ≡ some q = rw y at e in
        (
          rw same (p q e').0,
          update-key f r x q k
              ∙ ((p q e').1 ∙ (ap (λ (j : ℕ). (f j).key) (sym same) ∙ sym (update-key f r x i k))),
        )
    | inr y ↦
        let e' : (f i).previous ≡ some q = rw y at e in
        let b = h.before i q l e' in
        (b.0, update-key f r x q k ∙ (b.1 ∙ sym (update-key f r x i k)))
  ];
}

pub update-Newest :
    (f : ℕ → Ticket) (made r : ℕ) (x : Ticket) (reserved : Owners)
    → Newest f made reserved
    → x.key ≡ (f r).key
    → Newest (update f r x) made reserved
update-Newest f made r x reserved h k = record {
  last = λ j q e.
      let l = h.last j q e in
      (l.0, update-key f r x q k ∙ l.1, λ i m g. l.2 i m (sym (update-key f r x i k) ∙ g));
}

-- Enough fuel for a walk is the number of its first ticket and one.
pub rollback_to-fuel :
    (f : ℕ → Ticket) (made : ℕ) (q n m : ℕ)
    → Older f made
    → q < made
    → q < n
    → q < m
    → rollback_to f n (some q) ≡ rollback_to f m (some q)
unfolding rollback_to if◌then◌else◌
rollback_to-fuel f made q zero m h l a b = absurd (omega (arith, a))
rollback_to-fuel f made q (suc n) zero h l a b = absurd (omega (arith, b))
rollback_to-fuel f made q (suc n) (suc m) h l a b = elim (Option-cases (f q).previous) [
  | inl e ↦ rw e refl
  | inr (p, e) ↦
      let older = (h.before q p l e).0 in
      rw
        (
          e,
          rollback_to-fuel f made p n m h (omega (arith, older, l)) (omega (arith, older, a))
              (omega (arith, older, b)),
        )
        refl
]

-- The walk ends at a ticket of the same key, not newer than its first one, that is not cancelled.
pub rollback_to-found :
    (f : ℕ → Ticket) (made n q p : ℕ)
    → Older f made
    → q < made
    → rollback_to f n (some q) ≡ some p
    → (p ≤ q) × ((f p).key ≡ (f q).key) × ((f p).cancelled ≡ false)
unfolding rollback_to if◌then◌else◌
rollback_to-found f made zero q p h l e = absurd (ground (arith, e))
rollback_to-found f made (suc n) q p h l e = elim (Bool-cases ((f q).failed || (f q).cancelled)) [
  | inl bad ↦
      let further : rollback_to f n (f q).previous ≡ some p = rw bad at e in
      elim (Option-cases (f q).previous) [
        | inl none_left ↦
            let ended : none ≡ some p = rw none_left at further in absurd (ground (arith, ended))
        | inr (i, w) ↦
            let b = h.before q i l w in
            let onward : rollback_to f n (some i) ≡ some p = rw w at further in
            let found = rollback_to-found f made n i p h (omega (arith, b.0, l)) onward in
            (omega (arith, found.0, b.0), found.1 ∙ b.1, found.2)
      ]
  | inr fine ↦
      let here : some q ≡ some p = rw fine at e in
      let same : q ≡ p = ground (arith, here) in
      rw (← same) (omega arith, refl, ground (arith, fine))
]
