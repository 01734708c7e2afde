-- ===== src/Diam/Grammar/Complete/Extensions.antt =====
-- What the loop of `validateAVPs` of diam/validation.go counts of the AVPs that no rule lists.
use go_diameter.Prelude.{◌+◌, ◌≤◌, ◌≡◌, false, Option, none, some, List, [], ◌∷◌, arith}
use go_diameter.Prelude.Tests.{maybe, if◌then◌else◌}
use go_diameter.Prelude.Lists.{All}
use go_diameter.Diam.Avp.{Avp, Avps, nil, cons}
use go_diameter.Diam.Dict.{Rule}
use go_diameter.Diam.Grammar.{Violation, Entry, minimum_count}
use go_diameter.Diam.Grammar.Scan.{
  Grammar, Progress, going, entry_of, definition_of, over_maximum, skip, count_step, scan_item,
  scan_items, group_violation, below_minimum,
}
use go_diameter.Diam.Grammar.Turns.{
  Entered, by_wildcard, anywhere, in_prefix, skipped, counted, scan_item-Turn,
}
use go_diameter.Diam.Grammar.Counts.{then_scan-going}
use go_diameter.Diam.Grammar.Complete.{unlisted_one, extension_one, unlisted, extensions}

module _ (g : Grammar) (w : Rule) (wild : g.wildcard ≡ some w) where
  -- The counts of extensions, and that they keep within the wildcard's maximum.
  abbrev Extended : Avp → Progress → Progress → Type 0
  Extended a p q =
      (q.extension_minimum_count ≡ p.extension_minimum_count + unlisted_one g a)
      × (q.extension_count ≡ p.extension_count + extension_one g a)
      × (over_maximum w p.extension_count ≡ false → over_maximum w q.extension_count ≡ false)

  skip-Extended :
      (a : Avp) (p : Progress)
      → entry_of g a ≡ none
      → definition_of g a ≡ none
      → Extended a p (skip g p)
  unfolding skip maybe
  skip-Extended a p e u = rw wild (ground arith, ground arith, λ h. h)

  count_step_extensions :
      (listed : Option Entry) (inside : Option Violation) (a : Avp) (p q : Progress)
      → count_step g listed inside a p ≡ going q
      → (q.extension_minimum_count ≡ p.extension_minimum_count)
        × (q.extension_count ≡ p.extension_count)
  unfolding count_step if◌then◌else◌ maybe
  count_step_extensions listed inside a p q h = ground arith

  Entered-Extended : {a : Avp} {p r : Progress} → Entered g a p r → Extended a p r
  Entered-Extended (by_wildcard x d e k y o r) = (ground arith, ground arith, λ h. ground arith)
  Entered-Extended (anywhere x y f r) = (ground arith, ground arith, λ h. ground arith)
  Entered-Extended (in_prefix x f k y z o s b r) = (ground arith, ground arith, λ h. ground arith)

  scan_item-Extended :
      (inside : Option Violation) (a : Avp) (p q : Progress)
      → scan_item g inside a p ≡ going q
      → Extended a p q
  scan_item-Extended inside a p q h = elim (scan_item-Turn g inside a p q h) [
    | skipped x u s ↦ rw s (skip-Extended a p x u)
    | counted r n f k ↦
        let c = count_step_extensions (entry_of g a) inside a r q k in
        rw (c.0, c.1) (Entered-Extended n)
  ]

  pub scan_items-Extended :
      (items : Avps) (p q : Progress)
      → scan_items g items p ≡ going q
      → (q.extension_minimum_count ≡ p.extension_minimum_count + unlisted g items)
        × (q.extension_count ≡ p.extension_count + extensions g items)
        × (over_maximum w p.extension_count ≡ false → over_maximum w q.extension_count ≡ false)
  unfolding scan_items unlisted extensions
  scan_items-Extended nil p q h = (ground arith, ground arith, λ m. ground arith)
  scan_items-Extended (cons a l) p q h =
      let (r, x, y) =
        then_scan-going (scan_items g l) (scan_item g (group_violation g.dictionary g.app a) a p) q
          h in
      let here = scan_item-Extended (group_violation g.dictionary g.app a) a p r x in
      let rest = scan_items-Extended l r q y in
      (omega (arith, here.0, rest.0), omega (arith, here.1, rest.1), λ m. rest.2 (here.2 m))

-- The end of a scan that finds nothing.
pub below_minimum-none :
    (g : Grammar) (p : Progress) (l : List Entry)
    → below_minimum g p l ≡ none
    → All
        (λ (e : Entry). minimum_count e.rule ≤ p.counts e.definition.code e.definition.vendor_id)
        l
      × ((w : Rule) → g.wildcard ≡ some w → minimum_count w ≤ p.extension_minimum_count)
unfolding below_minimum if◌then◌else◌ maybe
below_minimum-none g p [] h = (tt, λ w y. ground arith)
below_minimum-none g p (e ∷ l) h =
    let k : below_minimum g p l ≡ none = ground arith in
    let rest = below_minimum-none g p l k in ((ground arith, rest.0), rest.1)
