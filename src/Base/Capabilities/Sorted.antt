-- ===== src/Base/Capabilities/Sorted.antt =====
-- The list of identifiers that diam/internal/base/capabilities.go hands to the negotiation.
use go_diameter.Prelude.{
  ℕ, ◌<◌, ◌≤◌, ◌≡◌, refl, sym, ap, ◌∙◌, true, false, ◌||◌, List, [], ◌∷◌, map, inl, inr, arith,
}
use go_diameter.Prelude.Tests.{◌==◌, if◌then◌else◌, Bool-cases}
use go_diameter.Prelude.Lists.{sort, contains, insert_sorted}
use go_diameter.Base.Settings.{Settings, LocalApplication}
use go_diameter.Base.Capabilities.Offers.{advertises, contains-advertised_applications}
use go_diameter.Base.Capabilities.{
  advertised_applications, advertised_application_ids, compact, compact_front, id_of, no_base,
  validate_capabilities,
}

-- Each element is below the next, and no more than it.
abbrev pub Ascending : List ℕ → Type 0
Ascending [] = Unit {0}
Ascending (x ∷ []) = Unit {0}
Ascending (x ∷ y ∷ l) = (x < y) × Ascending (y ∷ l)

abbrev Ordered : List ℕ → Type 0
Ordered [] = Unit {0}
Ordered (x ∷ []) = Unit {0}
Ordered (x ∷ y ∷ l) = (x ≤ y) × Ordered (y ∷ l)

insert_sorted-Ordered : (a : ℕ) (l : List ℕ) → Ordered l → Ordered (insert_sorted a l)
unfolding insert_sorted if◌then◌else◌
insert_sorted-Ordered a [] h = tt
insert_sorted-Ordered a (x ∷ []) h = ground arith
insert_sorted-Ordered a (x ∷ y ∷ l) h = ground (arith, insert_sorted-Ordered a (y ∷ l) h.1)

sort-Ordered : (l : List ℕ) → Ordered (sort l)
unfolding sort
sort-Ordered [] = tt
sort-Ordered (x ∷ l) = insert_sorted-Ordered x (sort l) (sort-Ordered l)

contains-insert_sorted :
    (c a : ℕ) (l : List ℕ) → contains (insert_sorted a l) c ≡ (a == c || contains l c)
unfolding insert_sorted contains if◌then◌else◌
contains-insert_sorted c a [] = refl
contains-insert_sorted c a (x ∷ l) = ground (arith, contains-insert_sorted c a l)

contains-sort : (c : ℕ) (l : List ℕ) → contains (sort l) c ≡ contains l c
unfolding sort contains
contains-sort c [] = refl
contains-sort c (x ∷ l) =
    contains-insert_sorted c x (sort l) ∙ ap (◌||◌ (x == c)) (contains-sort c l)

contains-compact_front :
    (c x : ℕ) (l : List ℕ) → contains (compact_front x l) c ≡ (x == c || contains l c)
unfolding compact_front contains if◌then◌else◌
contains-compact_front c x [] = refl
contains-compact_front c x (y ∷ l) = ground arith

contains-compact : (c : ℕ) (l : List ℕ) → contains (compact l) c ≡ contains l c
unfolding compact contains
contains-compact c [] = refl
contains-compact c (x ∷ l) =
    contains-compact_front c x (compact l) ∙ ap (◌||◌ (x == c)) (contains-compact c l)

-- A number no more than the first of a list.
abbrev AtMost : ℕ → List ℕ → Type 0
AtMost x [] = Unit {0}
AtMost x (y ∷ l) = x ≤ y

compact_front-AtMost : (x y : ℕ) (l : List ℕ) → x ≤ y → AtMost x (compact_front y l)
unfolding compact_front if◌then◌else◌
compact_front-AtMost x y [] h = h
compact_front-AtMost x y (z ∷ l) h = ground arith

compact_front-Ascending :
    (x : ℕ) (l : List ℕ) → AtMost x l → Ascending l → Ascending (compact_front x l)
unfolding compact_front if◌then◌else◌
compact_front-Ascending x [] h k = tt
compact_front-Ascending x (y ∷ l) h k = elim (Bool-cases (x == y)) [
  | inl e ↦ rw e k
  | inr e ↦ rw e (ground arith, k)
]

compact-Ascending : (l : List ℕ) → Ordered l → Ascending (compact l)
unfolding compact
compact-Ascending [] h = tt
compact-Ascending (x ∷ []) h = compact_front-Ascending x [] tt tt
compact-Ascending (x ∷ y ∷ l) h =
    compact_front-Ascending x (compact (y ∷ l)) (compact_front-AtMost x y (compact l) h.0)
      (compact-Ascending (y ∷ l) h.1)

-- The identifiers that a node advertises are in strictly ascending order. Where the configuration has
-- explicit identifiers, they are the Unsigned32 values of the Auth- and the Acct-Application-Ids and,
-- for each group of a Vendor-Specific-Application-Id, that of the last Unsigned32 application in it, or
-- 0 where it has none; elsewhere they are the declared applications but the base protocol.
pub advertised_application_ids-Ascending :
    (cfg : Settings) (c : ℕ)
    → Ascending (advertised_application_ids cfg)
      × (contains (advertised_application_ids cfg) c ≡ advertises cfg c)
unfolding advertised_application_ids
advertised_application_ids-Ascending cfg c =
    let l = map id_of (advertised_applications cfg) in
    (
      compact-Ascending (sort l) (sort-Ordered l),
      contains-compact c (sort l) ∙ contains-sort c l ∙ contains-advertised_applications c cfg,
    )

no_base-contains : (l : List LocalApplication) → no_base l ≡ true → contains (map id_of l) 0 ≡ false
unfolding contains
no_base-contains [] h = refl
no_base-contains (a ∷ l) h = ground (arith, no_base-contains l)

-- A node whose configuration is valid does not advertise application 0, the base protocol.
pub validate_capabilities-contains :
    (cfg : Settings)
    → validate_capabilities cfg ≡ true
    → contains (advertised_application_ids cfg) 0 ≡ false
unfolding validate_capabilities
validate_capabilities-contains cfg h =
    (advertised_application_ids-Ascending cfg 0).1
    ∙ sym (contains-advertised_applications 0 cfg)
    ∙ no_base-contains (advertised_applications cfg) (ground arith)
