-- ===== src/Diam/Grammar/Counts.antt =====
-- What the loop of `validateAVPs` counts, and the bounds that a message which passes keeps.
use go_diameter.Prelude.{
  ℕ, ◌+◌, ◌≡◌, refl, ap, ◌||◌, ◌∙◌, inl, inr, Bool, true, false, ◌&&◌, Option, none, some, arith,
}
use go_diameter.Prelude.Tests.{
  ◌==◌, leb, ltb, maybe, is_some, Option-cases, Bool-cases, if◌then◌else◌,
}
use go_diameter.Diam.Avp.{Avp, code, vendor_id, Avps, nil, cons}
use go_diameter.Diam.Grammar.{Violation, Entry}
use go_diameter.Diam.Grammar.Scan.{
  Grammar, Progress, Outcome, going, stopped, occurrences, entry_for, count_up, count_step,
  scan_item, skip, over_maximum, maximum_or_one, then_scan, scan_items, entry_of,
}
use go_diameter.Diam.Grammar.Scan.{group_violation}
use go_diameter.Diam.Grammar.Turns.{
  Entered, by_wildcard, anywhere, in_prefix, skipped, counted, scan_item-Turn,
}

abbrev pub one_if : ℕ → ℕ → Avp → ℕ
one_if c v a = if code a == c && vendor_id a == v then 1 else 0

count_step_counts :
    (g : Grammar) (listed : Option _) (inside : Option Violation) (a : Avp) (p q : Progress)
    (c v : ℕ)
    → count_step g listed inside a p ≡ going q
    → q.counts c v ≡ p.counts c v + one_if c v a
unfolding count_step count_up if◌then◌else◌ maybe
count_step_counts g listed inside a p q c v h = ground arith

Entered-counts : {g : Grammar} {a : Avp} {p q : Progress} → Entered g a p q → q.counts ≡ p.counts
Entered-counts (by_wildcard w d e k y o r) = ap (λ (z : Progress). z.counts) r
Entered-counts (anywhere e l f r) = ap (λ (z : Progress). z.counts) r
Entered-counts (in_prefix e f l x y z o s r) = ap (λ (z : Progress). z.counts) r

skip_counts : (g : Grammar) (p : Progress) → (skip g p).counts ≡ p.counts
unfolding skip maybe
skip_counts g p = elim (Option-cases g.wildcard) [ inl e ↦ rw e | inr (w, e) ↦ rw e ]

-- An AVP that no rule lists has another key than a listed one.
one_if_unlisted :
    (g : Grammar) (a : Avp) (c v : ℕ)
    → is_some (entry_for g.ordered c v) ≡ true
    → entry_of g a ≡ none
    → one_if c v a ≡ 0
unfolding if◌then◌else◌
one_if_unlisted g a c v listed e = ground arith

pub scan_item_counts :
    (g : Grammar) (inside : Option Violation) (a : Avp) (p q : Progress) (c v : ℕ)
    → is_some (entry_for g.ordered c v) ≡ true
    → scan_item g inside a p ≡ going q
    → q.counts c v ≡ p.counts c v + one_if c v a
unfolding if◌then◌else◌
scan_item_counts g inside a p q c v listed h = elim (scan_item-Turn g inside a p q h) [
  | skipped e u s ↦
      ap (λ (z : Progress). z.counts c v) s
      ∙ ap (λ (z : ℕ → ℕ → ℕ). z c v) (skip_counts g p)
      ∙ omega (arith, one_if_unlisted g a c v listed e)
  | counted r n w k ↦
      count_step_counts g (entry_of g a) inside a r q c v k
      ∙ ap (λ (z : ℕ → ℕ → ℕ). z c v + one_if c v a) (Entered-counts n)
]

-- Whether a key occurs more often than its rule allows; once, under a fixed rule with no maximum.
abbrev pub in_excess : Entry → ℕ → Bool
in_excess e n = over_maximum e.rule n || (e.rule.fixed && ltb (maximum_or_one e.rule) n)

count_step_maximum :
    (g : Grammar) (inside : Option Violation) (a : Avp) (p q : Progress) (e : Entry)
    → count_step g (some e) inside a p ≡ going q
    → over_maximum e.rule (q.counts (code a) (vendor_id a)) ≡ false
unfolding count_step count_up if◌then◌else◌ maybe
count_step_maximum g inside a p q e h = ground arith

Entered-fixed :
    {g : Grammar} {a : Avp} {p q : Progress} (e : Entry)
    → entry_of g a ≡ some e
    → Entered g a p q
    → (e.rule.fixed && leb (maximum_or_one e.rule) (p.counts (code a) (vendor_id a))) ≡ false
Entered-fixed e l (by_wildcard w d x k y o r) = cc
Entered-fixed e l (anywhere x y f r) = ground arith
Entered-fixed e l (in_prefix x f k y z o s b r) = ground arith

pub then_scan-going :
    (next : Progress → Outcome) (o : Outcome) (q : Progress)
    → then_scan next o ≡ going q
    → (r : Progress) × (o ≡ going r) × (next r ≡ going q)
then_scan-going next (going r) q h = (r, refl, h)
then_scan-going next (stopped e) q h = cc

one_if_own : (a : Avp) (n : ℕ) → n + one_if (code a) (vendor_id a) a ≡ n + 1
unfolding if◌then◌else◌
one_if_own a n = ground arith

scan_item_own_maximum :
    (g : Grammar) (inside : Option Violation) (a : Avp) (p q : Progress) (e : Entry)
    → entry_of g a ≡ some e
    → scan_item g inside a p ≡ going q
    → in_excess e (q.counts (code a) (vendor_id a)) ≡ false
unfolding if◌then◌else◌
scan_item_own_maximum g inside a p q e l h = elim (scan_item-Turn g inside a p q h) [
  | skipped x u s ↦ absurd (cc)
  | counted r n w k ↦
      let j : count_step g (some e) inside a r ≡ going q = rw (← l) k in
      let m = count_step_maximum g inside a r q e j in
      let f = Entered-fixed e l n in
      let d : q.counts (code a) (vendor_id a) ≡ p.counts (code a) (vendor_id a) + 1 =
        scan_item_counts g inside a p q (code a) (vendor_id a) (ap is_some l) h ∙ one_if_own a _ in
      ground arith
]

scan_item_maximum :
    (g : Grammar) (inside : Option Violation) (a : Avp) (p q : Progress) (c v : ℕ) (e : Entry)
    → entry_for g.ordered c v ≡ some e
    → in_excess e (p.counts c v) ≡ false
    → scan_item g inside a p ≡ going q
    → in_excess e (q.counts c v) ≡ false
unfolding if◌then◌else◌
scan_item_maximum g inside a p q c v e l k h = elim (Bool-cases (code a == c && vendor_id a == v)) [
  | inl s ↦
      let x : code a ≡ c = ground arith in
      let y : vendor_id a ≡ v = ground arith in
      let own : entry_of g a ≡ some e = rw (x, y) l in
      rw (← x, ← y) (scan_item_own_maximum g inside a p q e own h)
  | inr s ↦ let d = scan_item_counts g inside a p q c v (ap is_some l) h in ground arith
]

module _ (g : Grammar) (c v : ℕ) (e : Entry) (l : entry_for g.ordered c v ≡ some e) where
  -- Over the whole loop, the keys of rules are counted and stay within their maxima.
  pub scan_items_counts :
      (items : Avps) (p q : Progress)
      → scan_items g items p ≡ going q
      → q.counts c v ≡ p.counts c v + occurrences items c v
  unfolding scan_items occurrences
  scan_items_counts nil p q h = ground arith
  scan_items_counts (cons a k) p q h =
      let (r, x, y) =
        then_scan-going (scan_items g k) (scan_item g (group_violation g.dictionary g.app a) a p) q
          h in
      omega (
        arith,
        scan_item_counts g (group_violation g.dictionary g.app a) a p r c v (ap is_some l) x,
        scan_items_counts k r q y,
      )

  pub scan_items_maximum :
      (items : Avps) (p q : Progress)
      → in_excess e (p.counts c v) ≡ false
      → scan_items g items p ≡ going q
      → in_excess e (q.counts c v) ≡ false
  unfolding scan_items
  scan_items_maximum nil p q m h = ground arith
  scan_items_maximum (cons a k) p q m h =
      let (r, x, y) =
        then_scan-going (scan_items g k) (scan_item g (group_violation g.dictionary g.app a) a p) q
          h in
      scan_items_maximum k r q
        (scan_item_maximum g (group_violation g.dictionary g.app a) a p r c v e l m x) y
