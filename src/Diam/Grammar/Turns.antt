-- ===== src/Diam/Grammar/Turns.antt =====
-- The ways in which the body of the loop of `validateAVPs` goes on to the next AVP.
use go_diameter.Prelude.{
  ◌+◌, ◌≡◌, refl, true, false, Option, none, some, List, [], ◌∷◌, ◌⊎◌, inl, inr, arith,
}
use go_diameter.Prelude.Tests.{leb, maybe, if◌then◌else◌, Bool-cases, Option-cases}
use go_diameter.Diam.Avp.{Avp, code, vendor_id}
use go_diameter.Diam.Dict.{Rule, Definition}
use go_diameter.Diam.Grammar.{Violation, Entry}
use go_diameter.Diam.Grammar.Scan.{
  Grammar, Progress, Outcome, going, over_maximum, maximum_or_one, seek, fixed_step, extension_step,
  unlisted_step, listed_step, count_step, scan_item, entry_of, definition_of, wrong_flags, skip,
}

module _ (a : Avp) (p : Progress) where
  abbrev pub extended : Progress
  extended = record p {
    extension_minimum_count = p.extension_minimum_count + 1;
    extension_count = p.extension_count + 1;
    fixed_closed = true;
  }

  abbrev pub advanced : Entry → Entry → List Entry → Progress
  advanced e f l = record p {
    fixed_rest =
        if leb (maximum_or_one e.rule) (p.counts (code a) (vendor_id a) + 1) then l else f ∷ l;
  }

module _ (g : Grammar) (a : Avp) (p : Progress) where
  -- An AVP that is counted: under the wildcard, under a rule that is not fixed, or in the prefix.
  pub data Entered (q : Progress) : Type 0 where
    by_wildcard :
        (w : Rule) (d : Definition)
        → entry_of g a ≡ none
        → definition_of g a ≡ some d
        → g.wildcard ≡ some w
        → over_maximum w (p.extension_count + 1) ≡ false
        → q ≡ extended a p
        → Entered q
    anywhere :
        (e : Entry)
        → entry_of g a ≡ some e
        → e.rule.fixed ≡ false
        → q ≡ record p { fixed_closed = true }
        → Entered q
    in_prefix :
        (e f : Entry) (l : List Entry)
        → entry_of g a ≡ some e
        → e.rule.fixed ≡ true
        → leb (maximum_or_one e.rule) (p.counts (code a) (vendor_id a)) ≡ false
        → p.fixed_closed ≡ false
        → seek p.counts (code a) (vendor_id a) p.fixed_rest ≡ f ∷ l
        → q ≡ advanced a p e f l
        → Entered q

  pub data Turn (inside : Option Violation) (q : Progress) : Type 0 where
    skipped : entry_of g a ≡ none → definition_of g a ≡ none → q ≡ skip g p → Turn inside q
    counted :
        (r : Progress)
        → Entered r
        → wrong_flags g a p ≡ false
        → count_step g (entry_of g a) inside a r ≡ going q
        → Turn inside q

List-cases : (l : List Entry) → (l ≡ []) ⊎ ((x : Entry) × (k : List Entry) × (l ≡ x ∷ k))
List-cases [] = inl refl
List-cases (x ∷ k) = inr (x, k, refl)

-- What goes on has passed each test.
passed_extension :
    (w : Rule) (a : Avp) (next : Progress → Outcome) (p q : Progress)
    → extension_step w a next p ≡ going q
    → (over_maximum w (p.extension_count + 1) ≡ false)
      × (next (record p { extension_count = p.extension_count + 1; fixed_closed = true }) ≡ going q)
unfolding extension_step if◌then◌else◌
passed_extension w a next p q h = elim (Bool-cases (over_maximum w (p.extension_count + 1))) [
  | inl o ↦ absurd (ground arith)
  | inr o ↦ (o, ground arith)
]

passed_prefix :
    (e : Entry) (a : Avp) (next : Progress → Outcome) (p q : Progress)
    → fixed_step e a next p ≡ going q
    → (leb (maximum_or_one e.rule) (p.counts (code a) (vendor_id a)) ≡ false)
      × (p.fixed_closed ≡ false)
unfolding fixed_step if◌then◌else◌
passed_prefix e a next p q h = ground arith

passed_seek :
    (e : Entry) (a : Avp) (next : Progress → Outcome) (p q : Progress)
    → fixed_step e a next p ≡ going q
    → (f : Entry) × (l : List Entry) × (seek p.counts (code a) (vendor_id a) p.fixed_rest ≡ f ∷ l)
      × (next (advanced a p e f l) ≡ going q)
unfolding fixed_step if◌then◌else◌
passed_seek e a next p q h = elim (List-cases (seek p.counts (code a) (vendor_id a) p.fixed_rest)) [
  | inl n ↦ absurd (ground arith)
  | inr (x, k, s) ↦ (x, k, s, ground arith)
]

passed_unlisted :
    (g : Grammar) (a : Avp) (next : Progress → Outcome) (p q : Progress) (d : Definition)
    → definition_of g a ≡ some d
    → unlisted_step g a next p ≡ going q
    → (w : Rule) × (g.wildcard ≡ some w)
      × (extension_step w a next
            (record p { extension_minimum_count = p.extension_minimum_count + 1 })
          ≡ going q)
unfolding unlisted_step maybe
passed_unlisted g a next p q d k h = elim (Option-cases g.wildcard) [
  | inl n ↦ absurd (ground arith)
  | inr (w, y) ↦ (w, y, ground arith)
]

module _ (g : Grammar) (inside : Option Violation) (a : Avp) (p q : Progress)
    (fine : wrong_flags g a p ≡ false) where
  unlisted_turn :
      entry_of g a ≡ none
      → unlisted_step g a (count_step g (entry_of g a) inside a) p ≡ going q
      → Turn g a p inside q
  unfolding unlisted_step maybe
  unlisted_turn e h = elim (Option-cases (definition_of g a)) [
    | inl u ↦ skipped e u (ground arith)
    | inr (d, k) ↦
        let (w, y, x) = passed_unlisted g a (count_step g (entry_of g a) inside a) p q d k h in
        let (o, c) =
          passed_extension w a (count_step g (entry_of g a) inside a)
            (record p { extension_minimum_count = p.extension_minimum_count + 1 }) q x in
        counted (extended a p) (by_wildcard w d e k y o refl) fine c
  ]

  listed_turn :
      (e : Entry)
      → entry_of g a ≡ some e
      → listed_step e a (count_step g (entry_of g a) inside a) p ≡ going q
      → Turn g a p inside q
  unfolding listed_step if◌then◌else◌
  listed_turn e l h = elim (Bool-cases e.rule.fixed) [
    | inl f ↦
        let x : fixed_step e a (count_step g (entry_of g a) inside a) p ≡ going q = ground arith in
        let (m, o) = passed_prefix e a (count_step g (entry_of g a) inside a) p q x in
        let (b, k, s, c) = passed_seek e a (count_step g (entry_of g a) inside a) p q x in
        counted (advanced a p e b k) (in_prefix e b k l f m o s refl) fine c
    | inr f ↦ counted (record p { fixed_closed = true }) (anywhere e l f refl) fine (ground arith)
  ]

pub scan_item-Turn :
    (g : Grammar) (inside : Option Violation) (a : Avp) (p q : Progress)
    → scan_item g inside a p ≡ going q
    → Turn g a p inside q
unfolding scan_item maybe if◌then◌else◌
scan_item-Turn g inside a p q h = elim (Bool-cases (wrong_flags g a p)) [
  | inl w ↦ absurd (ground arith)
  | inr fine ↦ elim (Option-cases (entry_of g a)) [
    | inl e ↦ unlisted_turn g inside a p q fine e (ground arith)
    | inr (e, l) ↦ listed_turn g inside a p q fine e l (ground arith)
  ]
]
