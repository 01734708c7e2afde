-- ===== src/Diam/Grammar/Contents.antt =====
-- What `validateAVPs` of diam/validation.go let pass of each AVP, and in which order.
use go_diameter.Prelude.{
  ℕ, ◌≡◌, refl, ap, ◌∙◌, sym, Bool, true, false, not, ◌&&◌, ◌||◌, Option, none, some, List, [], inl,
  inr, arith,
}
use go_diameter.Prelude.Tests.{◌==◌, maybe, is_some, Option-cases, if◌then◌else◌}
use go_diameter.Prelude.Maps.{Map, lookup}
use go_diameter.Diam.Avp.{Avp, avp, grouped, code, flags, vendor_id, Avps, nil, cons}
use go_diameter.Diam.Dict.{Rule, Definition, Dictionary, find_avp}
use go_diameter.Diam.Grammar.{Violation, Entry, invalid_avp_flags, validate_failed_evidence}
use go_diameter.Diam.Codec.Decode.{failed_avp_code}
use go_diameter.Diam.Grammar.Scan.{
  Grammar, Progress, going, entry_of, definition_of, wrong_flags, skip, count_step, scan_item,
  scan_items, group_violation, group_result, has_grammar, is_echoed_proxy, grammar_of, initial,
  validate_avps,
}
use go_diameter.Diam.Grammar.Turns.{
  Entered, by_wildcard, anywhere, in_prefix, skipped, counted, scan_item-Turn,
}
use go_diameter.Diam.Grammar.Counts.{then_scan-going}
use go_diameter.Diam.Grammar.Bounds.{scan_all-none}

abbrev pub AllOf {κ} : (Avp → Type κ) → Avps → Type κ
AllOf P nil = Unit {κ}
AllOf P (cons a l) = P a × AllOf P l

-- Under a rule that is fixed, and under one that is not or the wildcard.
abbrev pub is_fixed : Grammar → Avp → Bool
is_fixed g a = maybe (entry_of g a) false (λ e. e.rule.fixed)

abbrev pub ends_prefix : Grammar → Avp → Bool
ends_prefix g a = maybe (entry_of g a) (is_some (definition_of g a)) (λ e. not e.rule.fixed)

-- After an AVP that ends the prefix there is no fixed one.
abbrev pub InOrder : Grammar → Avps → Type 0
InOrder g nil = Unit {0}
InOrder g (cons a l) = (ends_prefix g a ≡ true → AllOf (λ b. is_fixed g b ≡ false) l) × InOrder g l

skip_closed : (g : Grammar) (p : Progress) → (skip g p).fixed_closed ≡ p.fixed_closed
unfolding skip maybe
skip_closed g p = elim (Option-cases g.wildcard) [ inl e ↦ rw e | inr (w, e) ↦ rw e ]

count_step_closed :
    (g : Grammar) (listed : Option Entry) (inside : Option Violation) (a : Avp) (p q : Progress)
    → count_step g listed inside a p ≡ going q
    → q.fixed_closed ≡ p.fixed_closed
unfolding count_step if◌then◌else◌ maybe
count_step_closed g listed inside a p q h = ground arith

Entered-closed :
    {g : Grammar} {a : Avp} {p r : Progress}
    → Entered g a p r
    → (p.fixed_closed ≡ true → (is_fixed g a ≡ false) × (r.fixed_closed ≡ true))
      × (ends_prefix g a ≡ true → r.fixed_closed ≡ true)
unfolding maybe
Entered-closed (by_wildcard w d x k y o r) = ground arith
Entered-closed (anywhere x y f r) = ground arith
Entered-closed (in_prefix x f k y z o s b r) = ground arith

scan_item_closed :
    (g : Grammar) (inside : Option Violation) (a : Avp) (p q : Progress)
    → scan_item g inside a p ≡ going q
    → (p.fixed_closed ≡ true → (is_fixed g a ≡ false) × (q.fixed_closed ≡ true))
      × (ends_prefix g a ≡ true → q.fixed_closed ≡ true)
unfolding maybe
scan_item_closed g inside a p q h = elim (scan_item-Turn g inside a p q h) [
  | skipped x u s ↦
      let c = ap (λ (z : Progress). z.fixed_closed) s ∙ skip_closed g p in ground arith
  | counted r n w k ↦
      let c = count_step_closed g (entry_of g a) inside a r q k in
      let d = Entered-closed n in ground arith
]

closed_rest :
    (g : Grammar) (items : Avps) (p q : Progress)
    → p.fixed_closed ≡ true
    → scan_items g items p ≡ going q
    → AllOf (λ b. is_fixed g b ≡ false) items
unfolding scan_items
closed_rest g nil p q c h = tt
closed_rest g (cons a l) p q c h =
    let inside = group_violation g.dictionary g.app a in
    let (r, x, y) = then_scan-going (scan_items g l) (scan_item g inside a p) q h in
    let k = (scan_item_closed g inside a p r x).0 c in (k.0, closed_rest g l r q k.1 y)

scan_items-InOrder :
    (g : Grammar) (items : Avps) (p q : Progress) → scan_items g items p ≡ going q → InOrder g items
unfolding scan_items
scan_items-InOrder g nil p q h = tt
scan_items-InOrder g (cons a l) p q h =
    let inside = group_violation g.dictionary g.app a in
    let (r, x, y) = then_scan-going (scan_items g l) (scan_item g inside a p) q h in
    (
      λ e. closed_rest g l r q ((scan_item_closed g inside a p r x).1 e) y,
      scan_items-InOrder g l r q y,
    )

-- When the AVPs pass, no AVP under a fixed rule comes after one that is under a rule which is not
-- fixed, or that only the dictionary knows.
pub validate_avps-InOrder :
    (items : Avps) (rules : List Rule) (app : ℕ) (s : Dictionary) (echoes : Map (List ℕ))
    → validate_avps items rules app s echoes ≡ none
    → InOrder (grammar_of s app echoes rules) items
unfolding validate_avps
validate_avps-InOrder items rules app s echoes h =
    let g = grammar_of s app echoes rules in
    let (q, x, y) = scan_all-none g items (scan_items g items (initial g)) h in
    scan_items-InOrder g items (initial g) q x

abbrev pub is_failed_avp : Avp → Bool
is_failed_avp a = code a == failed_avp_code && vendor_id a == 0

-- What passes of an AVP with a definition: its V bit is that of the definition, a rule or the
-- wildcard admits it, its members pass, or its evidence if it is the Failed-AVP.
pub record Accepts (g : Grammar) (a : Avp) (d : Definition) : Type 0 where
  pub bits : invalid_avp_flags (flags a) d ≡ false
  pub admitted : (is_some (entry_of g a) || is_some g.wildcard) ≡ true
  pub evidence : is_failed_avp a ≡ true → validate_failed_evidence a ≡ none
  pub members : is_failed_avp a ≡ false → group_violation g.dictionary g.app a ≡ none

pub no_echo : (i : ℕ) (a : Avp) → is_echoed_proxy [] i a ≡ false
unfolding is_echoed_proxy lookup maybe
no_echo i a = ground arith

wrong_flags-bits :
    (g : Grammar) (a : Avp) (p : Progress) (d : Definition)
    → g.echoes ≡ []
    → definition_of g a ≡ some d
    → wrong_flags g a p ≡ false
    → invalid_avp_flags (flags a) d ≡ false
unfolding wrong_flags maybe
wrong_flags-bits g a p d e k h =
    let n : is_echoed_proxy g.echoes p.position a ≡ false = rw e (no_echo p.position a) in
    ground arith

count_step_contents :
    (g : Grammar) (listed : Option Entry) (inside : Option Violation) (a : Avp) (p q : Progress)
    → g.echoes ≡ []
    → count_step g listed inside a p ≡ going q
    → (if is_failed_avp a then validate_failed_evidence a else inside) ≡ none
unfolding count_step maybe if◌then◌else◌
count_step_contents g listed inside a p q e h =
    let n : is_echoed_proxy g.echoes p.position a ≡ false = rw e (no_echo p.position a) in
    ground arith

Entered-admitted :
    {g : Grammar} {a : Avp} {p r : Progress}
    → Entered g a p r
    → (is_some (entry_of g a) || is_some g.wildcard) ≡ true
Entered-admitted (by_wildcard w d x k y o r) = ground arith
Entered-admitted (anywhere x y f r) = ground arith
Entered-admitted (in_prefix x f k y z o s b r) = ground arith

scan_item-Accepts :
    (g : Grammar) (a : Avp) (p q : Progress)
    → g.echoes ≡ []
    → scan_item g (group_violation g.dictionary g.app a) a p ≡ going q
    → (d : Definition) → definition_of g a ≡ some d
    → Accepts g a d
unfolding if◌then◌else◌
scan_item-Accepts g a p q e h d known =
    elim (scan_item-Turn g (group_violation g.dictionary g.app a) a p q h) [
      | skipped x u s ↦ absurd (cc)
      | counted r n w k ↦
          let c =
            count_step_contents g (entry_of g a) (group_violation g.dictionary g.app a) a r q e k in
          record {
            bits = wrong_flags-bits g a p d e known w;
            admitted = Entered-admitted n;
            evidence = λ f. ground arith;
            members = λ f. ground arith;
          }
    ]

abbrev pub AllAccepted : Grammar → Avps → Type 0
AllAccepted g items =
    AllOf (λ a. (d : Definition) → definition_of g a ≡ some d → Accepts g a d) items

scan_items-Accepts :
    (g : Grammar) (items : Avps) (p q : Progress)
    → g.echoes ≡ []
    → scan_items g items p ≡ going q
    → AllAccepted g items
unfolding scan_items
scan_items-Accepts g nil p q e h = tt
scan_items-Accepts g (cons a l) p q e h =
    let (r, x, y) =
      then_scan-going (scan_items g l) (scan_item g (group_violation g.dictionary g.app a) a p) q
        h in
    (scan_item-Accepts g a p r e x, scan_items-Accepts g l r q e y)

-- When the AVPs of a message without echoes pass, each that the dictionary defines has the V bit
-- of its definition, is admitted by a rule or by the wildcard, and has members that pass the rules
-- of its group, or is the Failed-AVP and holds evidence.
pub validate_avps-Accepts :
    (items : Avps) (rules : List Rule) (app : ℕ) (s : Dictionary)
    → validate_avps items rules app s [] ≡ none
    → AllAccepted (grammar_of s app [] rules) items
unfolding validate_avps
validate_avps-Accepts items rules app s h =
    let g = grammar_of s app [] rules in
    let (q, x, y) = scan_all-none g items (scan_items g items (initial g)) h in
    scan_items-Accepts g items (initial g) q refl x

-- The members of a defined Grouped AVP with rules are checked like a message's AVPs.
pub group_violation_lem :
    (s : Dictionary) (app c f n v : ℕ) (ms : Avps) (d : Definition)
    → find_avp s app c v ≡ some d
    → has_grammar d ≡ true
    → group_violation s app (avp c f n v (grouped ms))
      ≡ group_result d (avp c f n v (grouped ms)) ms (validate_avps ms d.rules app s [])
unfolding group_violation validate_avps maybe if◌then◌else◌
group_violation_lem s app c f n v ms d k r = rw (k, maybe) (rw (r, if◌then◌else◌) refl)

group_result-none :
    (d : Definition) (a : Avp) (ms : Avps) (o : Option Violation)
    → group_result d a ms o ≡ none
    → o ≡ none
unfolding group_result maybe
group_result-none d a ms none h = refl
group_result-none d a ms (some e) h = absurd (ground arith)

-- Where no violation is found in a defined Grouped AVP with rules, its members pass these rules.
pub group_violation-validate_avps :
    (s : Dictionary) (app c f n v : ℕ) (ms : Avps) (d : Definition)
    → find_avp s app c v ≡ some d
    → has_grammar d ≡ true
    → group_violation s app (avp c f n v (grouped ms)) ≡ none
    → validate_avps ms d.rules app s [] ≡ none
group_violation-validate_avps s app c f n v ms d k r h =
    group_result-none d (avp c f n v (grouped ms)) ms (validate_avps ms d.rules app s [])
      (sym (group_violation_lem s app c f n v ms d k r) ∙ h)
