-- ===== src/Diam/Grammar/Outgoing.antt =====
-- diam/validation.go: `walkOutgoingFlags`, the flag rules of a sender. Echoes as in
-- Diam/Grammar/Scan.
use go_diameter.Prelude.{
  ℕ, ◌+◌, Bool, true, false, not, ◌&&◌, ◌||◌, Option, none, some, List, [], ◌∷◌, bit_and,
}
use go_diameter.Prelude.Tests.{◌==◌, maybe, if◌then◌else◌}
use go_diameter.Prelude.Maps.{Map}
use go_diameter.Diam.Avp.{Avp, avp, code, flags, vendor_id, AvpData, grouped, Avps, nil, cons}
use go_diameter.Diam.Header.{has_flag}
use go_diameter.Diam.Codec.{vbit}
use go_diameter.Diam.Codec.Decode.{failed_avp_code, with_data}
use go_diameter.Diam.Dict.{Rule, Definition, Dictionary, find_avp, find_avp_by_name, has_code}
use go_diameter.Diam.Dict.Flags.{Flag, mandatory, protected, vendor, flag_listed}
use go_diameter.Diam.Grammar.{
  Violation, violation, invalid_avp_bits, is_wildcard, validate_failed_evidence, mbit, pbit,
}
use go_diameter.Diam.Grammar.Scan.{is_echoed_proxy}

abbrev pub bit_of : Flag → ℕ
bit_of mandatory = mbit
bit_of protected = pbit
bit_of vendor = vbit

-- What the loops over M and P find against a definition and against a rule of the parent.
unfoldable pub against_definition : ℕ → Definition → Flag → Bool
unfolding has_flag flag_listed
against_definition f d x =
    (has_flag f (bit_of x) && flag_listed d.must_not x)
    || (not (has_flag f (bit_of x)) && flag_listed d.must x)

unfoldable pub against_rule : ℕ → Rule → Flag → Bool
unfolding has_flag flag_listed
against_rule f r x = has_flag f (bit_of x) && flag_listed r.must_not x

abbrev is_empty : List ℕ → Bool
is_empty [] = true
is_empty (c ∷ s) = false

-- Whether a rule of the parent is about this AVP.
unfoldable pub concerns : Dictionary → ℕ → Avp → Rule → Bool
unfolding find_avp_by_name has_code maybe if◌then◌else◌
concerns s app a r =
    if is_empty r.must_not
    then false
    else if is_wildcard r
    then true
    else maybe (find_avp_by_name s app r.avp) false (has_code (code a) (vendor_id a))

unfoldable pub against_rules : Dictionary → ℕ → Avp → List Rule → Bool
unfolding concerns against_rule
against_rules s app a [] = false
against_rules s app a (r ∷ l) =
    (concerns s app a r
      && (against_rule (flags a) r mandatory || against_rule (flags a) r protected))
    || against_rules s app a l

-- `invalid`, after all of its tests.
unfoldable pub invalid_outgoing : Dictionary → ℕ → List Rule → Avp → Bool
unfolding find_avp against_definition against_rules has_flag maybe
invalid_outgoing s app rules a =
    not (bit_and (flags a) 0x1f == 0)
    || (has_flag (flags a) vbit && vendor_id a == 0)
    || (not (has_flag (flags a) vbit) && not (vendor_id a == 0))
    || maybe (find_avp s app (code a) (vendor_id a)) false
        (λ d. against_definition (flags a) d mandatory || against_definition (flags a) d protected)
    || against_rules s app a rules

abbrev pub first_of : Option Violation → Option Violation → Option Violation
first_of none later = later
first_of (some e) later = some e

-- The rules of the members of an AVP.
abbrev pub member_rules : Dictionary → ℕ → Avp → List Rule
member_rules s app a = maybe (find_avp s app (code a) (vendor_id a)) [] (λ d. d.rules)

-- The parent of a violation: a copy of it with nothing but the member's evidence.
abbrev parent_of : Avp → Violation → Violation
parent_of a e = record e {
  failed_avp = some (maybe e.failed_avp a (λ f. with_data a (grouped (cons f nil))));
}

-- The loop; what comes after the tests of one AVP is the walk of its members.
unfoldable mutual
  unfolding is_echoed_proxy invalid_outgoing find_avp validate_failed_evidence maybe if◌then◌else◌

  pub walk_flags : Dictionary → ℕ → List Rule → Map (List ℕ) → ℕ → Avps → Option Violation
  walk_flags s app rules echoes i nil = none
  walk_flags s app rules echoes i (cons a l) =
      let later = walk_flags s app rules echoes (i + 1) l in
      let here = walk_avp s app rules a in
      if is_echoed_proxy echoes i a then later else first_of here later

  pub walk_avp : Dictionary → ℕ → List Rule → Avp → Option Violation
  walk_avp s app rules (avp c f n v x) =
      let a = avp c f n v x in
      let inside = walk_payload s app (member_rules s app a) x in
      if invalid_outgoing s app rules a
      then some (violation invalid_avp_bits a)
      else if c == failed_avp_code && v == 0
      then validate_failed_evidence a
      else maybe inside none (λ e. some (parent_of a e))

  pub walk_payload : Dictionary → ℕ → List Rule → AvpData → Option Violation
  walk_payload s app rules (grouped ms) = walk_flags s app rules [] 0 ms
  walk_payload s app rules x = none
