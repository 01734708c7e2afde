-- ===== src/Diam/Grammar/Complete/Accepting.antt =====
-- The loop of `validateAVPs` over AVPs that conform to a grammar with no fixed rule.
use go_diameter.Prelude.{
  ℕ, ◌+◌, ◌≤◌, ◌≡◌, refl, sym, ap, ◌∙◌, true, false, Option, none, some, [], inl, inr, arith,
}
use go_diameter.Prelude.Tests.{maybe, is_some, if◌then◌else◌, Bool-cases, Option-cases}
use go_diameter.Diam.Avp.{Avp, code, flags, vendor_id}
use go_diameter.Diam.Dict.{Rule, Definition}
use go_diameter.Diam.Grammar.{Violation, Entry, invalid_avp_flags, validate_failed_evidence}
use go_diameter.Diam.Grammar.Scan.{
  Grammar, Progress, going, entry_of, definition_of, over_maximum, is_echoed_proxy, wrong_flags,
  skip, count_up, count_step, extension_step, unlisted_step, listed_step, scan_item,
  group_violation,
}
use go_diameter.Diam.Grammar.Contents.{Accepts, is_failed_avp, no_echo}
use go_diameter.Diam.Grammar.Complete.{unlisted_one, extension_one}

pub over_maximum_mono :
    (r : Rule) (m n : ℕ) → m ≤ n → over_maximum r n ≡ false → over_maximum r m ≡ false
unfolding over_maximum
over_maximum_mono r m n le h = ground arith

-- One turn of the loop goes on, and counts the AVPs that no rule lists.
pub record GoesOn (g : Grammar) (a : Avp) (p q : Progress) : Type 0 where
  pub turn : scan_item g (group_violation g.dictionary g.app a) a p ≡ going q
  pub unlisted :
      (w : Rule)
      → g.wildcard ≡ some w
      → q.extension_minimum_count ≡ p.extension_minimum_count + unlisted_one g a
  pub extension : q.extension_count ≡ p.extension_count + extension_one g a

module _ (g : Grammar) (plain : g.echoes ≡ []) (a : Avp) where
  no_wrong_flags :
      (p : Progress)
      → ((d : Definition) → definition_of g a ≡ some d → invalid_avp_flags (flags a) d ≡ false)
      → wrong_flags g a p ≡ false
  unfolding wrong_flags maybe
  no_wrong_flags p h = elim (Option-cases (definition_of g a)) [
    | inl e ↦ rw e refl
    | inr (d, e) ↦ let k = h d e in ground arith
  ]

  contents : Option Violation
  unfolding if◌then◌else◌
  contents =
      if is_failed_avp a then validate_failed_evidence a else group_violation g.dictionary g.app a

  Accepts-contents : (d : Definition) → Accepts g a d → contents ≡ none
  unfolding contents if◌then◌else◌
  Accepts-contents d k = elim (Bool-cases (is_failed_avp a)) [
    | inl f ↦ rw (f, if◌then◌else◌) (k.evidence f)
    | inr f ↦ rw (f, if◌then◌else◌) (k.members f)
  ]

  after : Progress → Progress
  after p = record p {
    counts = count_up p.counts (code a) (vendor_id a);
    position = p.position + 1;
  }

  count_step-none :
      (p : Progress)
      → contents ≡ none
      → count_step g none (group_violation g.dictionary g.app a) a p ≡ going (after p)
  unfolding count_step contents after if◌then◌else◌ maybe
  count_step-none p c =
      let n : is_echoed_proxy g.echoes p.position a ≡ false = rw plain (no_echo p.position a) in
      ground arith

  count_step-some :
      (e : Entry) (p : Progress)
      → contents ≡ none
      → over_maximum e.rule (p.counts (code a) (vendor_id a) + 1) ≡ false
      → count_step g (some e) (group_violation g.dictionary g.app a) a p ≡ going (after p)
  unfolding count_step count_up contents after if◌then◌else◌ maybe
  count_step-some e p c m =
      let n : is_echoed_proxy g.echoes p.position a ≡ false = rw plain (no_echo p.position a) in
      ground arith

  module _ (p : Progress) (fine : wrong_flags g a p ≡ false) where
    turn_unknown : entry_of g a ≡ none → definition_of g a ≡ none → GoesOn g a p (skip g p)
    unfolding scan_item unlisted_step skip if◌then◌else◌ maybe
    turn_unknown e k = record {
      turn = rw (fine, e, k, if◌then◌else◌, maybe) refl;
      unlisted = λ w y. ground arith;
      extension = ground arith;
    }

    turn_extension :
        (d : Definition) (w : Rule)
        → entry_of g a ≡ none
        → definition_of g a ≡ some d
        → g.wildcard ≡ some w
        → contents ≡ none
        → over_maximum w (p.extension_count + 1) ≡ false
        → GoesOn g a p (
            after (record p {
              extension_minimum_count = p.extension_minimum_count + 1;
              extension_count = p.extension_count + 1;
              fixed_closed = true;
            }))
    unfolding scan_item unlisted_step extension_step after if◌then◌else◌ maybe
    turn_extension d w e k y c m = record {
      turn =
          rw (fine, e, k, y, m, if◌then◌else◌, maybe)
            (count_step-none
              (record p {
                extension_minimum_count = p.extension_minimum_count + 1;
                extension_count = p.extension_count + 1;
                fixed_closed = true;
              })
              c);
      unlisted = λ x z. ground arith;
      extension = ground arith;
    }

    turn_listed :
        (e : Entry)
        → entry_of g a ≡ some e
        → e.rule.fixed ≡ false
        → contents ≡ none
        → over_maximum e.rule (p.counts (code a) (vendor_id a) + 1) ≡ false
        → GoesOn g a p (after (record p { fixed_closed = true }))
    unfolding scan_item listed_step after if◌then◌else◌ maybe
    turn_listed e k f c m = record {
      turn =
          rw (fine, k, f, if◌then◌else◌, maybe)
            (count_step-some e (record p { fixed_closed = true }) c m);
      unlisted = λ w y. ground arith;
      extension = ground arith;
    }

  -- The bounds that are left for the AVP's own rule and for the wildcard.
  pub goes_on :
      (p : Progress)
      → ((d : Definition) → definition_of g a ≡ some d → Accepts g a d)
      → ((e : Entry)
          → entry_of g a ≡ some e
          → (is_some (definition_of g a) ≡ true)
            × (e.rule.fixed ≡ false)
            × (over_maximum e.rule (p.counts (code a) (vendor_id a) + 1) ≡ false))
      → ((w : Rule)
          → g.wildcard ≡ some w
          → over_maximum w (p.extension_count + extension_one g a) ≡ false)
      → (q : Progress) × GoesOn g a p q
  goes_on p accepts rules wild =
      let fine = no_wrong_flags p (λ d k. (accepts d k).bits) in
      elim (Option-cases (definition_of g a)) [
        | inl k ↦ elim (Option-cases (entry_of g a)) [
          | inl e ↦ (skip g p, turn_unknown p fine e k)
          | inr (e, l) ↦ let r = rules e l in absurd (ground arith)
        ]
        | inr (d, k) ↦ elim (Option-cases (entry_of g a)) [
          | inl e ↦ elim (Option-cases g.wildcard) [
            | inl n ↦ let r = (accepts d k).admitted in absurd (ground arith)
            | inr (w, y) ↦
                let one : extension_one g a ≡ 1 = ground arith in
                let m =
                  ap (λ (n : ℕ). over_maximum w (p.extension_count + n)) (sym one) ∙ wild w y in
                (_, turn_extension p fine d w e k y (Accepts-contents d (accepts d k)) m)
          ]
          | inr (e, l) ↦
              let r = rules e l in
              (_, turn_listed p fine e l r.1 (Accepts-contents d (accepts d k)) r.2)
        ]
      ]
