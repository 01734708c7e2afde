-- ===== src/Diam/Grammar/Complete/Equivalence.antt =====
-- `validateAVPs` of diam/validation.go against the promise of a grammar with no fixed rule.
use go_diameter.Prelude.{
  ℕ, ◌+◌, ◌≤◌, ◌≡◌, refl, sym, ap, ◌∙◌, true, false, none, some, List, [], ◌∷◌, ◌↔◌, inl, inr,
  arith,
}
use go_diameter.Prelude.Tests.{maybe, is_some, if◌then◌else◌, Option-cases}
use go_diameter.Prelude.Lists.{All}
use go_diameter.Diam.Avp.{Avp, code, vendor_id, Avps, nil, cons}
use go_diameter.Diam.Dict.{Rule, Dictionary, find_avp, has_code}
use go_diameter.Diam.Grammar.{Entry, minimum_count}
use go_diameter.Diam.Grammar.Scan.{
  Grammar, Progress, going, entry_for, entry_of, occurrences, over_maximum, scan_items,
  group_violation, then_scan, ordered_rules, grammar_of, initial, validate_avps, below_minimum,
  absent_fixed, scan_all, finish_scan,
}
use go_diameter.Diam.Grammar.Contents.{AllAccepted, validate_avps-Accepts}
use go_diameter.Diam.Grammar.Counts.{scan_item_counts, scan_items_counts}
use go_diameter.Diam.Grammar.Bounds.{scan_all-none, validate_avps-in_excess}
use go_diameter.Diam.Grammar.Complete.{extension_one, unlisted, extensions, Conforms}
use go_diameter.Diam.Grammar.Complete.Defined.{ordered_rules-find_avp}
use go_diameter.Diam.Grammar.Complete.Extensions.{scan_items-Extended, below_minimum-none}
use go_diameter.Diam.Grammar.Complete.Accepting.{over_maximum_mono, GoesOn, goes_on}

-- No rule is fixed, and what a rule names is defined.
abbrev Plain : Grammar → Type 0
Plain g =
    (c v : ℕ) (e : Entry)
    → entry_for g.ordered c v ≡ some e
    → (is_some (find_avp g.dictionary g.app c v) ≡ true) × (e.rule.fixed ≡ false)

-- What the rest of the AVPs may still add.
abbrev Within : Grammar → Avps → Progress → Type 0
Within g items p =
    ((c v : ℕ) (e : Entry)
      → entry_for g.ordered c v ≡ some e
      → over_maximum e.rule (p.counts c v + occurrences items c v) ≡ false)
    × ((w : Rule)
        → g.wildcard ≡ some w
        → over_maximum w (p.extension_count + extensions g items) ≡ false)

module _ (g : Grammar) (plain : g.echoes ≡ []) (open_rules : Plain g) where
  own_room :
      (a : Avp) (l : Avps) (p : Progress) (e : Entry)
      → entry_of g a ≡ some e
      → Within g (cons a l) p
      → over_maximum e.rule (p.counts (code a) (vendor_id a) + 1) ≡ false
  unfolding occurrences if◌then◌else◌
  own_room a l p e h room =
      over_maximum_mono e.rule (p.counts (code a) (vendor_id a) + 1) _ (ground arith)
        (room.0 (code a) (vendor_id a) e h)

  next_room :
      (a : Avp) (l : Avps) (p q : Progress) → Within g (cons a l) p → GoesOn g a p q → Within g l q
  unfolding occurrences extensions
  next_room a l p q room k = (
    λ c v e h.
        let n =
          scan_item_counts g (group_violation g.dictionary g.app a) a p q c v (ap is_some h)
            k.turn in
        over_maximum_mono e.rule (q.counts c v + occurrences l c v) _ (omega (arith, n))
          (room.0 c v e h),
    λ w y.
        over_maximum_mono w (q.extension_count + extensions g l) _ (omega (arith, k.extension))
          (room.1 w y),
  )

  accepting :
      (items : Avps) (p : Progress)
      → AllAccepted g items
      → Within g items p
      → (q : Progress) × (scan_items g items p ≡ going q)
        × ((w : Rule)
            → g.wildcard ≡ some w
            → q.extension_minimum_count ≡ p.extension_minimum_count + unlisted g items)
  unfolding scan_items unlisted extensions
  accepting nil p ok room = (p, refl, λ w y. omega arith)
  accepting (cons a l) p ok room =
      let (r, k) =
        goes_on g plain a p ok.0
          (λ e h.
            let o = open_rules (code a) (vendor_id a) e h in (o.0, o.1, own_room a l p e h room))
          (λ w y.
            over_maximum_mono w (p.extension_count + extension_one g a) _ (omega arith)
              (room.1 w y)) in
      let (q, x, u) = accepting l r ok.1 (next_room a l p r room k) in
      (q, ap (then_scan (scan_items g l)) k.turn ∙ x, λ w y. omega (arith, u w y, k.unlisted w y))

-- A grammar with no fixed rule has no absent one, and its entries are as open.
plain_entry :
    (s : Dictionary) (app : ℕ) (rules : List Rule) (c v : ℕ) (e : Entry)
    → All (λ (r : Rule). r.fixed ≡ false) rules
    → entry_for (ordered_rules s app rules) c v ≡ some e
    → e.rule.fixed ≡ false
unfolding ordered_rules entry_for if◌then◌else◌ maybe
plain_entry s app [] c v e ok h = cc
plain_entry s app (r ∷ l) c v e ok h = ground (arith, plain_entry s app l c v e ok.1)

none_absent :
    (s : Dictionary) (app : ℕ) (items : Avps) (rules : List Rule)
    → All (λ (r : Rule). r.fixed ≡ false) rules
    → absent_fixed s app items (ordered_rules s app rules) ≡ none
unfolding ordered_rules absent_fixed if◌then◌else◌ maybe
none_absent s app items [] ok = refl
none_absent s app items (r ∷ l) ok = ground (arith, none_absent s app items l ok.1)

enough :
    (g : Grammar) (p : Progress) (l : List Entry)
    → All
        (λ (e : Entry). minimum_count e.rule ≤ p.counts e.definition.code e.definition.vendor_id)
        l
    → ((w : Rule) → g.wildcard ≡ some w → minimum_count w ≤ p.extension_minimum_count)
    → below_minimum g p l ≡ none
unfolding below_minimum if◌then◌else◌ maybe
enough g p [] ok wild = elim (Option-cases g.wildcard) [
  | inl e ↦ rw e refl
  | inr (w, y) ↦ let m = wild w y in ground arith
]
enough g p (e ∷ l) ok wild = ground (arith, enough g p l ok.1 wild)

zero_left : (n : ℕ) → 0 + n ≡ n
zero_left n = omega arith

over_maximum-zero : (r : Rule) → over_maximum r 0 ≡ false
unfolding over_maximum
over_maximum-zero r = ground arith

own_entry :
    (e : Entry) (l : List Entry)
    → is_some (entry_for (e ∷ l) e.definition.code e.definition.vendor_id) ≡ true
unfolding entry_for has_code if◌then◌else◌ maybe
own_entry e l = ground arith

wider :
    (e : Entry) (l : List Entry) (c v : ℕ)
    → is_some (entry_for l c v) ≡ true
    → is_some (entry_for (e ∷ l) c v) ≡ true
unfolding entry_for maybe
wider e l c v h = ground arith

-- Minimum counts under two ways to count that agree on the keys of rules.
abbrev AtLeast : (ℕ → ℕ → ℕ) → List Entry → Type 0
AtLeast f = All (λ (e : Entry). minimum_count e.rule ≤ f e.definition.code e.definition.vendor_id)

agree :
    (f h : ℕ → ℕ → ℕ) (l : List Entry)
    → ((c v : ℕ) → is_some (entry_for l c v) ≡ true → f c v ≡ h c v)
    → AtLeast f l
    → AtLeast h l
agree f h [] same k = tt
agree f h (e ∷ l) same k =
    let n = same e.definition.code e.definition.vendor_id (own_entry e l) in
    (omega (arith, k.0, n), agree f h l (λ c v i. same c v (wider e l c v i)) k.1)

module _ (items : Avps) (rules : List Rule) (app : ℕ) (s : Dictionary)
    (open_rules : All (λ (r : Rule). r.fixed ≡ false) rules) where
  plain_rules : Plain (grammar_of s app [] rules)
  plain_rules c v e h = (
    ap is_some (ordered_rules-find_avp s app rules c v e h),
    plain_entry s app rules c v e open_rules h,
  )

  counted_all :
      (q : Progress)
      → scan_items (grammar_of s app [] rules) items (initial (grammar_of s app [] rules)) ≡ going q
      → (c v : ℕ) → is_some (entry_for (ordered_rules s app rules) c v) ≡ true
      → q.counts c v ≡ occurrences items c v
  counted_all q x c v h = elim (Option-cases (entry_for (ordered_rules s app rules) c v)) [
    | inl e ↦ absurd (ground arith)
    | inr (e, k) ↦
        let g = grammar_of s app [] rules in
        scan_items_counts g c v e k items (initial g) q x ∙ omega arith
  ]

  conforming :
      validate_avps items rules app s [] ≡ none → Conforms (grammar_of s app [] rules) items
  unfolding validate_avps
  conforming h =
      let g = grammar_of s app [] rules in
      let (q, x, y) = scan_all-none g items (scan_items g items (initial g)) h in
      let low = below_minimum-none g q g.ordered y in
      record {
        accepted = validate_avps-Accepts items rules app s h;
        minimum = agree q.counts (occurrences items) g.ordered (counted_all q x) low.0;
        maximum = λ c v e k.
            let b = (validate_avps-in_excess items rules app s [] c v e h k).1 in ground arith;
        wildcard = λ w k.
            let t = scan_items-Extended g w k items (initial g) q x in
            let n : q.extension_count ≡ extensions g items = omega (arith, t.1) in
            (
              omega (arith, low.1 w k, t.0),
              ap (over_maximum w) (sym n) ∙ t.2 (over_maximum-zero w),
            );
      }

  passing : Conforms (grammar_of s app [] rules) items → validate_avps items rules app s [] ≡ none
  unfolding validate_avps scan_all finish_scan maybe
  passing ok =
      let g = grammar_of s app [] rules in
      let (q, x, u) = accepting g refl plain_rules items (initial g) ok.accepted (
        λ c v e h. ap (over_maximum e.rule) (zero_left _) ∙ ok.maximum c v e h,
        λ w y. ap (over_maximum w) (zero_left _) ∙ (ok.wildcard w y).1,
      ) in
      rw (none_absent s app items rules open_rules, x, maybe)
        (enough g q g.ordered
          (agree (occurrences items) q.counts g.ordered (λ c v i. sym (counted_all q x c v i))
            ok.minimum)
          (λ w k. omega (arith, (ok.wildcard w k).0, u w k)))

  -- In a grammar with no fixed rule the AVPs of a message without echoes pass exactly when each AVP
  -- that the dictionary defines has the V bit of its definition, is admitted by a rule or the
  -- wildcard and has contents that pass; when the minimum of every rule and, of the rules that name the
  -- same AVP, the maximum of the last are kept; and when
  -- the AVPs that no rule lists keep the wildcard's minimum and, those defined, its maximum.
  pub validate_avps-Conforms :
      (validate_avps items rules app s [] ≡ none) ↔ Conforms (grammar_of s app [] rules) items
  validate_avps-Conforms = (conforming, passing)
