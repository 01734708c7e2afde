-- ===== src/Diam/Grammar/Sending.antt =====
-- What `walkOutgoingFlags` of diam/validation.go lets pass of the AVPs at any depth.
use go_diameter.Prelude.{
  ℕ, ◌+◌, ◌≡◌, refl, true, false, not, Option, none, some, List, [], bit_and, arith, inl, inr,
}
use go_diameter.Prelude.Tests.{◌==◌, maybe, if◌then◌else◌, Bool-cases, Option-cases}
use go_diameter.Diam.Avp.{Avp, avp, code, flags, vendor_id, grouped, Avps, cons}
use go_diameter.Diam.Header.{has_flag}
use go_diameter.Diam.Codec.{vbit}
use go_diameter.Diam.Dict.{Rule, Definition, Dictionary, find_avp}
use go_diameter.Diam.Dict.Flags.{mandatory, protected, flag_listed}
use go_diameter.Diam.Grammar.{Violation}
use go_diameter.Diam.Grammar.Contents.{is_failed_avp, no_echo}
use go_diameter.Diam.Grammar.Outgoing.{
  bit_of, against_definition, against_rules, invalid_outgoing, member_rules, first_of, walk_flags,
  walk_avp, walk_payload,
}

module _ (s : Dictionary) (app : ℕ) where
  -- An AVP that is sent among others, at any depth but inside a Failed-AVP, with the rules that its
  -- parent has for it.
  pub data Sent (rules : List Rule) (b : Avp) : List Rule → Avps → Type 0 where
    first : {l : Avps} → Sent rules b rules (cons b l)
    later :
        {above : List Rule} {a : Avp} {l : Avps}
        → Sent rules b above l
        → Sent rules b above (cons a l)
    inside :
        {above : List Rule} {c f n v : ℕ} {ms l : Avps}
        → is_failed_avp (avp c f n v (grouped ms)) ≡ false
        → Sent rules b (member_rules s app (avp c f n v (grouped ms))) ms
        → Sent rules b above (cons (avp c f n v (grouped ms)) l)

  -- The bits of an AVP that may be sent under the rules of its parent.
  pub record MayBeSent (rules : List Rule) (a : Avp) : Type 0 where
    pub reserved : bit_and (flags a) 0x1f ≡ 0
    pub vendor : has_flag (flags a) vbit ≡ not (vendor_id a == 0)
    pub required :
        (d : Definition)
        → find_avp s app (code a) (vendor_id a) ≡ some d
        → (flag_listed d.must mandatory ≡ true → has_flag (flags a) (bit_of mandatory) ≡ true)
          × (flag_listed d.must protected ≡ true → has_flag (flags a) (bit_of protected) ≡ true)
    pub prohibited :
        (d : Definition)
        → find_avp s app (code a) (vendor_id a) ≡ some d
        → (flag_listed d.must_not mandatory ≡ true → has_flag (flags a) (bit_of mandatory) ≡ false)
          × (flag_listed d.must_not protected ≡ true
              → has_flag (flags a) (bit_of protected) ≡ false)
    pub member : against_rules s app a rules ≡ false

  valid-MayBeSent :
      (rules : List Rule) (a : Avp) → invalid_outgoing s app rules a ≡ false → MayBeSent rules a
  unfolding invalid_outgoing against_definition maybe
  valid-MayBeSent rules a h = record {
    reserved = ground arith;
    vendor = ground arith;
    required = λ d k. (λ m. ground arith, λ m. ground arith);
    prohibited = λ d k. (λ m. ground arith, λ m. ground arith);
    member = ground arith;
  }

  first_of-none : (o p : Option Violation) → first_of o p ≡ none → (o ≡ none) × (p ≡ none)
  first_of-none none p h = (refl, h)
  first_of-none (some e) p h = absurd (cc)

  passed_avp :
      (rules : List Rule) (i : ℕ) (a : Avp) (l : Avps)
      → walk_flags s app rules [] i (cons a l) ≡ none
      → (walk_avp s app rules a ≡ none) × (walk_flags s app rules [] (i + 1) l ≡ none)
  unfolding walk_flags if◌then◌else◌
  passed_avp rules i a l h =
      first_of-none (walk_avp s app rules a) (walk_flags s app rules [] (i + 1) l)
        (rw (no_echo i a, if◌then◌else◌) at h)

  passed_own :
      (rules : List Rule) (a : Avp)
      → walk_avp s app rules a ≡ none
      → invalid_outgoing s app rules a ≡ false
  unfolding walk_avp if◌then◌else◌
  passed_own rules (avp c f n v x) h =
      elim (Bool-cases (invalid_outgoing s app rules (avp c f n v x))) [
        | inl w ↦ absurd (ground arith)
        | inr w ↦ w
      ]

  passed_members :
      (rules : List Rule) (c f n v : ℕ) (ms : Avps)
      → is_failed_avp (avp c f n v (grouped ms)) ≡ false
      → walk_avp s app rules (avp c f n v (grouped ms)) ≡ none
      → walk_flags s app (member_rules s app (avp c f n v (grouped ms))) [] 0 ms ≡ none
  unfolding walk_avp walk_payload if◌then◌else◌ maybe
  passed_members rules c f n v ms w h =
      elim (Option-cases
        (walk_flags s app (member_rules s app (avp c f n v (grouped ms))) [] 0 ms)) [
          | inl e ↦ e
          | inr (x, e) ↦ absurd (ground arith)
        ]

  -- When the flags of the AVPs pass and none is an echo, every AVP at any depth, but for the evidence
  -- in a Failed-AVP, has no reserved bit, a V bit exactly when it has a vendor, the M and P bits that
  -- its definition demands and none that its definition or a rule of its parent forbids.
  pub walk_flags-MayBeSent :
      {rules : List Rule} {b : Avp} {above : List Rule} {items : Avps} (i : ℕ)
      → Sent rules b above items
      → walk_flags s app above [] i items ≡ none
      → MayBeSent rules b
  walk_flags-MayBeSent {rules} {b} {above} {items} i (first {l}) h =
      valid-MayBeSent rules b (passed_own rules b (passed_avp rules i b l h).0)
  walk_flags-MayBeSent {rules} {b} {above} {items} i (later {a = a} {l} w) h =
      walk_flags-MayBeSent (i + 1) w (passed_avp above i a l h).1
  walk_flags-MayBeSent {rules} {b} {above} {items} i (inside {c = c} {f} {n} {v} {ms} {l} e w) h =
      walk_flags-MayBeSent 0 w
        (passed_members above c f n v ms e (passed_avp above i (avp c f n v (grouped ms)) l h).0)
