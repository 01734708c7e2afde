-- ===== src/Diam/Pending/Kept.antt =====
-- Who owns an answer: what the calls of native writers keep of it.
use go_diameter.Prelude.{
  ℕ, ◌<◌, Bool, true, false, ◌≡◌, ◌⊎◌, ◌∙◌, refl, ap, inl, inr, Option, none, some, List, arith,
}
use go_diameter.Prelude.Tests.{==_iff, ◌==◌, if◌then◌else◌, Bool-cases, maybe}
use go_diameter.Prelude.Maps.{update}
use go_diameter.Diam.Header.{Header}
use go_diameter.Diam.Message.{Message}
use go_diameter.Diam.Pending.{
  RequestKey, same_key, Owners, owner, disown, own, Tracker, new_ticket, prepare_write, cancel,
  release, publication, key_for_request, attempt, unlock, close_admission, match_answer,
}
use go_diameter.Diam.Pending.Chain.{
  Older, Newest, update-Older, update-Newest, new-Older, new-Newest, reserve-Newest, disown-Newest,
}
use go_diameter.Diam.Pending.Cases.{attempt-case, publication-case, match_answer-case}
use go_diameter.Diam.Pending.Keys.{same_key_iff, owner-disown}

-- Every owner of an answer is a ticket that was made for its key and is not cancelled; what stands
-- behind a ticket is older, and what is reserved is newest.
pub record Kept (t : Tracker) : Type 0 where
  pub live :
      (k : RequestKey) (r : ℕ)
      → owner k t.pending ≡ some r
      → (r < t.made) × ((t.tickets r).cancelled ≡ false) × (same_key (t.tickets r).key k ≡ true)
  pub older : Older t.tickets t.made
  pub newest : Newest t.tickets t.made t.reserved

pub unlock-Kept : (t : Tracker) → Kept t → Kept (unlock t)
unfolding unlock
unlock-Kept t h = record { live = h.live; older = h.older; newest = h.newest }

pub owner-own :
    (k j : RequestKey) (r q : ℕ) (m : Owners)
    → owner j (own k r m) ≡ some q
    → ((same_key k j ≡ true) × (r ≡ q)) ⊎ (owner j m ≡ some q)
unfolding owner own if◌then◌else◌
owner-own k j r q m e =
    let removed = owner-disown k j m in
    elim (Bool-cases (same_key k j)) [
      | inl y ↦ inl (y, ground (arith, e, y))
      | inr n ↦ inr (ground (arith, e, n, removed))
    ]

pub attempt-Kept :
    (r : Option ℕ) (t : Tracker)
    → ((q : ℕ) → r ≡ some q → q < t.made)
    → Kept t
    → Kept (attempt r t).1
attempt-Kept r t m h =
    attempt-case Kept r t h (record { live = h.live; older = h.older; newest = h.newest })
      (λ o e c q. record {
        live = λ k p w. elim (owner-own (t.tickets o).key k o p t.pending w) [
          | inl (y, same) ↦ rw (← same) (m o e, c, y)
          | inr kept ↦ h.live k p kept
        ];
        older = h.older;
        newest = h.newest;
      })

pub disowned :
    (k : RequestKey) (j : RequestKey) (q : ℕ) (m : Owners)
    → owner j (disown k m) ≡ some q
    → (same_key k j ≡ false) × (owner j m ≡ some q)
unfolding if◌then◌else◌
disowned k j q m e = let removed = owner-disown k j m in ground (arith, e, removed)

pub match_answer-Kept :
    (m : Option Message) (consume : Bool) (t : Tracker) → Kept t → Kept (match_answer m consume t).1
match_answer-Kept m consume t h = match_answer-case Kept m consume t h (λ k. record {
  live = λ j q e. h.live j q (disowned k j q t.pending e).1;
  older = h.older;
  newest = h.newest;
})

pub release-Kept : (r : ℕ) (t : Tracker) → Kept t → Kept (release r t)
unfolding release if◌then◌else◌
release-Kept r t h = record {
  live = h.live;
  older = h.older;
  newest =
      elim (Bool-cases (maybe (owner (t.tickets r).key t.reserved) false (λ (o : ℕ). o == r))) [
        | inl e ↦ rw e (disown-Newest t.tickets t.made (t.tickets r).key t.reserved h.newest)
        | inr e ↦ rw e h.newest
      ];
}

pub close_admission-Kept : (t : Tracker) → Kept t → Kept (close_admission t)
unfolding close_admission
close_admission-Kept t h = record { live = h.live; older = h.older; newest = h.newest }

-- A new ticket owns nothing.
pub new_ticket-live :
    (k j : RequestKey) (r : ℕ) (t : Tracker)
    → Kept t
    → owner j t.pending ≡ some r
    → let u = new_ticket k t in
      (r < u.made) × ((u.tickets r).cancelled ≡ false) × (same_key (u.tickets r).key j ≡ true)
unfolding update if◌then◌else◌
new_ticket-live k j r t h e =
    let l = h.live j r e in
    let old : (r == t.made) ≡ false = ground (arith, l.0) in rw old (omega (arith, l.0), l.1, l.2)

pub new_ticket-Kept :
    (k : RequestKey) (t : Tracker) → Kept t → owner k t.reserved ≡ none → Kept (new_ticket k t)
unfolding new_ticket
new_ticket-Kept k t h e = record {
  live = λ j r o. new_ticket-live k j r t h o;
  older = new-Older t.tickets t.made k h.older;
  newest = new-Newest t.tickets t.made k t.reserved h.newest e;
}

pub owner_cong : (k j : RequestKey) (m : Owners) → same_key k j ≡ true → owner k m ≡ owner j m
owner_cong k j m e = ap (λ (x : RequestKey). owner x m) ((same_key_iff k j).0 e)

-- Where a ticket is disowned if it owns `k`, what is left is owned by others.
pub dropped :
    (k j : RequestKey) (r q : ℕ) (m : Owners)
    → (owner j m ≡ some q → (q == r) ≡ true → same_key k j ≡ true)
    → owner j (if maybe (owner k m) false (λ (o : ℕ). o == r) then disown k m else m) ≡ some q
    → (owner j m ≡ some q) × ((q == r) ≡ false)
unfolding if◌then◌else◌ maybe
dropped k j r q m same e = elim (Bool-cases (maybe (owner k m) false (λ (o : ℕ). o == r))) [
  | inl b ↦
      let e' : owner j (disown k m) ≡ some q = rw b at e in
      let d = disowned k j q m e' in
      elim (Bool-cases (q == r)) [
        | inl y ↦ absurd (ground (arith, d.0, same d.1 y))
        | inr n ↦ (d.1, n)
      ]
  | inr b ↦
      let e' : owner j m ≡ some q = rw b at e in
      elim (Bool-cases (q == r)) [
        | inl y ↦
            let w = owner_cong k j m (same e' y) ∙ e' in
            let b' : (q == r) ≡ false = rw w at b in absurd (ground (arith, y, b'))
        | inr n ↦ (e', n)
      ]
]

pub cancelled_owner :
    (r : ℕ) (t : Tracker) (j : RequestKey) (q : ℕ)
    → Kept t
    → owner j (cancel r t).pending ≡ some q
    → (owner j t.pending ≡ some q) × ((q == r) ≡ false)
unfolding cancel
cancelled_owner r t j q h e =
    dropped (t.tickets r).key j r q t.pending
      (λ w y. let l = h.live j q w in let same : q ≡ r = (==_iff q r).0 y in rw same at l.2) e

pub cancel-Kept : (r : ℕ) (t : Tracker) → r < t.made → Kept t → Kept (cancel r t)
unfolding cancel update
cancel-Kept r t m h =
    let gone = record (t.tickets r) { cancelled = true } in
    record {
      live = λ j q e. let c = cancelled_owner r t j q h e in let l = h.live j q c.0 in rw c.1 l;
      older = update-Older t.tickets t.made r gone h.older refl (λ q e. h.older.before r q m e);
      newest = update-Newest t.tickets t.made r gone t.reserved h.newest refl;
    }

pub prepare_write-Kept : (a : Header) (t : Tracker) → Kept t → Kept (prepare_write a t).1
unfolding prepare_write new_ticket
prepare_write-Kept a t h =
    let k = key_for_request a in
    record {
      live = λ j r o. new_ticket-live k j r t h o;
      older = new-Older t.tickets t.made k h.older;
      newest = reserve-Newest t.tickets t.made k t.reserved h.newest;
    }

pub publication-Kept : (b : List ℕ) (t : Tracker) → Kept t → Kept (publication b t).1
publication-Kept b t h = publication-case Kept b t h (λ k e. new_ticket-Kept k t h e)
