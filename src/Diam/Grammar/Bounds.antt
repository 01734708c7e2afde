-- ===== src/Diam/Grammar/Bounds.antt =====
-- The occurrences that `validateAVPs` and `validate` of diam/validation.go let pass.
use go_diameter.Prelude.{ℕ, ◌≤◌, ◌≡◌, refl, ◌∙◌, false, none, some, List, [], ◌∷◌, arith}
use go_diameter.Prelude.Tests.{maybe, if◌then◌else◌}
use go_diameter.Prelude.Maps.{Map}
use go_diameter.Diam.Avp.{Avps}
use go_diameter.Diam.Dict.{Rule, Dictionary, has_code}
use go_diameter.Diam.Grammar.{Entry, minimum_count, has_maximum}
use go_diameter.Diam.Grammar.Scan.{
  Grammar, Progress, Outcome, going, stopped, occurrences, entry_for, over_maximum, ordered_rules,
  grammar_of, initial, scan_all, finish_scan, scan_items, below_minimum, validate_avps,
}
use go_diameter.Diam.Grammar.Counts.{in_excess, scan_items_counts, scan_items_maximum}

-- A scan that ends with no violation came to its end.
pub scan_all-none :
    (g : Grammar) (items : Avps) (o : Outcome)
    → scan_all g items o ≡ none
    → (q : Progress) × (o ≡ going q) × (below_minimum g q g.ordered ≡ none)
unfolding scan_all finish_scan maybe
scan_all-none g items (going q) h = (q, refl, ground arith)
scan_all-none g items (stopped e) h = absurd (ground arith)

below_minimum-none :
    (g : Grammar) (p : Progress) (l : List Entry) (c v : ℕ) (e : Entry)
    → entry_for l c v ≡ some e
    → below_minimum g p l ≡ none
    → minimum_count e.rule ≤ p.counts c v
unfolding below_minimum entry_for has_code if◌then◌else◌ maybe
below_minimum-none g p [] c v e l h = cc
below_minimum-none g p (f ∷ k) c v e l h = ground (arith, below_minimum-none g p k c v e)

in_excess-zero : (e : Entry) → in_excess e 0 ≡ false
unfolding over_maximum has_maximum
in_excess-zero e = ground arith

-- When the AVPs pass, each AVP that a rule of the grammar names occurs at least as often as the
-- rule's minimum and no more often than its maximum, where it has one; an AVP under a fixed rule
-- without a maximum occurs at most once. Of several rules for one AVP, the last one counts.
pub validate_avps-in_excess :
    (items : Avps) (rules : List Rule) (app : ℕ) (s : Dictionary) (echoes : Map (List ℕ)) (c v : ℕ)
    (e : Entry)
    → validate_avps items rules app s echoes ≡ none
    → entry_for (ordered_rules s app rules) c v ≡ some e
    → (minimum_count e.rule ≤ occurrences items c v) × (in_excess e (occurrences items c v) ≡ false)
unfolding validate_avps
validate_avps-in_excess items rules app s echoes c v e h l =
    let g = grammar_of s app echoes rules in
    let (q, x, y) = scan_all-none g items (scan_items g items (initial g)) h in
    let n : q.counts c v ≡ occurrences items c v =
      scan_items_counts g c v e l items (initial g) q x ∙ omega arith in
    let m = scan_items_maximum g c v e l items (initial g) q (in_excess-zero e) x in
    (rw (← n) (below_minimum-none g q g.ordered c v e l y), rw (← n) m)
