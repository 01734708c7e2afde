-- ===== src/Diam/Grammar/Complete.antt =====
-- Which AVPs `validateAVPs` of diam/validation.go lets pass, for a grammar with no fixed rule.
pub mod Defined
pub mod Accepting
pub mod Extensions
pub mod Equivalence
use go_diameter.Prelude.{ℕ, ◌+◌, ◌≤◌, ◌≡◌, Bool, false, Option, none, some, List}
use go_diameter.Prelude.Tests.{maybe, is_some}
use go_diameter.Prelude.Lists.{All}
use go_diameter.Diam.Avp.{Avp, Avps, nil, cons}
use go_diameter.Diam.Dict.{Rule}
use go_diameter.Diam.Grammar.{Entry, minimum_count}
use go_diameter.Diam.Grammar.Scan.{
  Grammar, entry_for, entry_of, definition_of, occurrences, over_maximum,
}
use go_diameter.Diam.Grammar.Contents.{AllAccepted}

-- How many AVPs no rule lists, and how many of these the dictionary defines.
abbrev pub unlisted_one : Grammar → Avp → ℕ
unlisted_one g a = elim (entry_of g a) [ none ↦ 1 | some e ↦ 0 ]

abbrev pub extension_one : Grammar → Avp → ℕ
extension_one g a = elim (entry_of g a) [
  | none ↦ elim (definition_of g a) [ none ↦ 0 | some d ↦ 1 ]
  | some e ↦ 0
]

unfoldable pub unlisted : Grammar → Avps → ℕ
unlisted g nil = 0
unlisted g (cons a l) = unlisted_one g a + unlisted g l

unfoldable pub extensions : Grammar → Avps → ℕ
extensions g nil = 0
extensions g (cons a l) = extension_one g a + extensions g l

abbrev pub count_of : Avps → Entry → ℕ
count_of items e = occurrences items e.definition.code e.definition.vendor_id

-- A grammar's promise: each AVP is acceptable and each rule's bounds are kept, the wildcard's too.
pub record Conforms (g : Grammar) (items : Avps) : Type 0 where
  pub accepted : AllAccepted g items
  pub minimum : All (λ (e : Entry). minimum_count e.rule ≤ count_of items e) g.ordered
  pub maximum :
      (c v : ℕ) (e : Entry)
      → entry_for g.ordered c v ≡ some e
      → over_maximum e.rule (occurrences items c v) ≡ false
  pub wildcard :
      (w : Rule)
      → g.wildcard ≡ some w
      → (minimum_count w ≤ unlisted g items) × (over_maximum w (extensions g items) ≡ false)
