-- ===== src/Diam/Grammar/Scan.antt =====
-- diam/validation.go: `validateAVPs` with `isEchoedProxy` and `validateVendorApplicationChoice`. The
-- pointers that key the echoes of a message are the places of its AVPs; a group inside has none.
use go_diameter.Prelude.{
  ℕ, ◌+◌, suc, Bool, true, false, not, ◌&&◌, ◌||◌, Option, none, some, List, [], ◌∷◌,
}
use go_diameter.Prelude.Tests.{◌==◌, ltb, leb, maybe, if◌then◌else◌}
use go_diameter.Prelude.Lists.{replicate}
use go_diameter.Prelude.Maps.{Map, lookup}
use go_diameter.Diam.Avp.{
  Avp, avp, code, flags, vendor_id, AvpData, unknown_data, grouped, Avps, nil, cons,
}
use go_diameter.Diam.Codec.{new_avp, new_avp_with_flags, serialize_to}
use go_diameter.Diam.Codec.Evidence.{is_grouped_type}
use go_diameter.Diam.Codec.Decode.{failed_avp_code}
use go_diameter.Diam.Dict.{Rule, Definition, Dictionary, find_avp, find_avp_by_name, has_code}
use go_diameter.Diam.Grammar.{
  Violation, Entry, violation, missing_avp, avp_not_allowed, avp_occurs_too_many_times,
  invalid_avp_bits, has_maximum, minimum_count, invalid_avp_flags, is_wildcard, missing, in_group,
  validate_failed_evidence, mbit, proxy_info_code, auth_application_id_code,
  acct_application_id_code, vendor_specific_application_id_code,
}

-- `ordered`: the rules whose names the dictionary resolves; and `wildcard`, the last one.
unfoldable pub ordered_rules : Dictionary → ℕ → List Rule → List Entry
unfolding find_avp_by_name maybe if◌then◌else◌
ordered_rules s app [] = []
ordered_rules s app (r ∷ l) =
    let rest = ordered_rules s app l in
    if is_wildcard r
    then rest
    else maybe (find_avp_by_name s app r.avp) rest (λ d. record { rule = r; definition = d } ∷ rest)

unfoldable pub wildcard_rule : List Rule → Option Rule
unfolding maybe if◌then◌else◌
wildcard_rule [] = none
wildcard_rule (r ∷ l) =
    let rest = wildcard_rule l in maybe rest (if is_wildcard r then some r else none) some

abbrev pub has_key : ℕ → ℕ → Entry → Bool
has_key c v e = has_code c v e.definition

-- `byKey`: a later rule with the same key replaces an earlier one.
unfoldable pub entry_for : List Entry → ℕ → ℕ → Option Entry
unfolding has_code maybe if◌then◌else◌
entry_for [] c v = none
entry_for (e ∷ l) c v =
    let rest = entry_for l c v in maybe rest (if has_key c v e then some e else none) some

-- `present`: how many of the AVPs have a key.
unfoldable pub occurrences : Avps → ℕ → ℕ → ℕ
unfolding if◌then◌else◌
occurrences nil c v = 0
occurrences (cons a l) c v = (if code a == c && vendor_id a == v then 1 else 0) + occurrences l c v

-- The loop over the fixed rules before the AVPs are read.
unfoldable pub absent_fixed : Dictionary → ℕ → Avps → List Entry → Option Violation
unfolding occurrences minimum_count if◌then◌else◌
absent_fixed s app items [] = none
absent_fixed s app items (e ∷ l) =
    let rest = absent_fixed s app items l in
    let d = e.definition in
    if e.rule.fixed && ltb (occurrences items d.code d.vendor_id) (minimum_count e.rule)
    then some (violation missing_avp (missing s app d))
    else rest

-- What the loop over the AVPs carries: `counts`, `extensionCount`, `extensionMinimumCount`, the
-- entries from `fixedIndex` on, `fixedClosed`, and the index of the AVP.
pub record Progress : Type 0 where
  pub counts : ℕ → ℕ → ℕ
  pub extension_count : ℕ
  pub extension_minimum_count : ℕ
  pub fixed_rest : List Entry
  pub fixed_closed : Bool
  pub position : ℕ

-- What holds for a whole call: `ordered`, `wildcard`, the dictionary, the application, `echoes`.
pub record Grammar : Type 0 where
  pub ordered : List Entry
  pub wildcard : Option Rule
  pub dictionary : Dictionary
  pub app : ℕ
  pub echoes : Map (List ℕ)

pub data Outcome : Type 0 where
  going : Progress → Outcome
  stopped : Violation → Outcome

unfoldable pub count_up : (ℕ → ℕ → ℕ) → ℕ → ℕ → ℕ → ℕ → ℕ
unfolding if◌then◌else◌
count_up counts c v d w = if c == d && v == w then suc (counts d w) else counts d w

-- The inner loop over `fixedIndex`: the entries from the AVP's own on, or none out of order.
unfoldable pub seek : (ℕ → ℕ → ℕ) → ℕ → ℕ → List Entry → List Entry
unfolding has_code minimum_count if◌then◌else◌
seek counts c v [] = []
seek counts c v (e ∷ l) =
    let rest = seek counts c v l in
    let d = e.definition in
    if not e.rule.fixed
    then rest
    else if has_key c v e
    then e ∷ l
    else if ltb (counts d.code d.vendor_id) (minimum_count e.rule)
    then []
    else rest

-- The test of equal octets.
unfoldable pub same_octets : List ℕ → List ℕ → Bool
same_octets [] [] = true
same_octets (a ∷ s) (b ∷ t) = a == b && same_octets s t
same_octets _ _ = false

unfoldable pub is_echoed_proxy : Map (List ℕ) → ℕ → Avp → Bool
unfolding lookup serialize_to same_octets maybe
is_echoed_proxy echoes i a =
    code a == proxy_info_code
    && vendor_id a == 0
    && maybe (lookup i echoes) false
        (λ b. maybe (serialize_to a) false (λ current. same_octets current b))

abbrev pub limit_code : ℕ → ℕ
limit_code n = elim (n == 0) [ true ↦ avp_not_allowed | false ↦ avp_occurs_too_many_times ]

abbrev pub maximum_or_one : Rule → ℕ
maximum_or_one r = elim (has_maximum r) [ true ↦ r.max | false ↦ 1 ]

unfoldable pub over_maximum : Rule → ℕ → Bool
unfolding has_maximum
over_maximum r n = has_maximum r && ltb r.max n

-- The branches on one AVP up to `counts[key]++`, for what comes after; an AVP that no rule lists and
-- that is unknown is skipped.
unfoldable pub fixed_step : Entry → Avp → (Progress → Outcome) → Progress → Outcome
unfolding has_maximum seek if◌then◌else◌
fixed_step e a next p =
    let n = p.counts (code a) (vendor_id a) in
    if leb (maximum_or_one e.rule) n
    then stopped (violation (limit_code (maximum_or_one e.rule)) a)
    else if p.fixed_closed
    then stopped (violation avp_not_allowed a)
    else elim (seek p.counts (code a) (vendor_id a) p.fixed_rest) [
      | [] ↦ stopped (violation avp_not_allowed a)
      | f ∷ l ↦
          next (record p { fixed_rest = if leb (maximum_or_one e.rule) (n + 1) then l else f ∷ l })
    ]

-- The count of the AVP and its maximum, then the evidence, the echo or the members; `inside` is the
-- violation of its members.
unfoldable pub count_step : Grammar → Option Entry → Option Violation → Avp → Progress → Outcome
unfolding count_up over_maximum is_echoed_proxy validate_failed_evidence maybe if◌then◌else◌
count_step g listed inside a p =
    let counts = count_up p.counts (code a) (vendor_id a) in
    let n = counts (code a) (vendor_id a) in
    let going_on = going (record p { counts = counts; position = p.position + 1 }) in
    let content =
      if is_echoed_proxy g.echoes p.position a
      then none
      else if code a == failed_avp_code && vendor_id a == 0
      then validate_failed_evidence a
      else inside in
    let checked = maybe content going_on stopped in
    maybe listed checked (λ e.
      if over_maximum e.rule n then stopped (violation (limit_code e.rule.max) a) else checked)

-- An AVP that no rule lists but that the dictionary knows: the wildcard's maximum.
unfoldable pub extension_step : Rule → Avp → (Progress → Outcome) → Progress → Outcome
unfolding over_maximum if◌then◌else◌
extension_step w a next p =
    if over_maximum w (p.extension_count + 1)
    then stopped (violation (limit_code w.max) a)
    else next (record p { extension_count = p.extension_count + 1; fixed_closed = true })

abbrev pub entry_of : Grammar → Avp → Option Entry
entry_of g a = entry_for g.ordered (code a) (vendor_id a)

abbrev pub definition_of : Grammar → Avp → Option Definition
definition_of g a = find_avp g.dictionary g.app (code a) (vendor_id a)

unfoldable pub wrong_flags : Grammar → Avp → Progress → Bool
unfolding is_echoed_proxy invalid_avp_flags find_avp maybe
wrong_flags g a p =
    maybe (definition_of g a) false
      (λ d. not (is_echoed_proxy g.echoes p.position a) && invalid_avp_flags (flags a) d)

-- An AVP that no rule lists and the dictionary does not know.
unfoldable pub skip : Grammar → Progress → Progress
unfolding maybe
skip g p =
    maybe g.wildcard (record p { position = p.position + 1 })
      (λ w. record p {
        extension_minimum_count = p.extension_minimum_count + 1;
        position = p.position + 1;
      })

-- One that no rule lists, known or not.
unfoldable pub unlisted_step : Grammar → Avp → (Progress → Outcome) → Progress → Outcome
unfolding find_avp extension_step skip maybe
unlisted_step g a next p = maybe (definition_of g a) (going (skip g p)) (λ d.
    maybe g.wildcard (stopped (violation avp_not_allowed a)) (λ w.
      extension_step w a next
        (record p { extension_minimum_count = p.extension_minimum_count + 1 })))

unfoldable pub listed_step : Entry → Avp → (Progress → Outcome) → Progress → Outcome
unfolding fixed_step if◌then◌else◌
listed_step e a next p =
    if e.rule.fixed then fixed_step e a next p else next (record p { fixed_closed = true })

-- The body of the loop over the AVPs.
unfoldable pub scan_item : Grammar → Option Violation → Avp → Progress → Outcome
unfolding wrong_flags entry_for unlisted_step listed_step count_step maybe if◌then◌else◌
scan_item g inside a p =
    let finish = count_step g (entry_of g a) inside a in
    if wrong_flags g a p
    then stopped (violation invalid_avp_bits a)
    else maybe (entry_of g a) (unlisted_step g a finish p) (λ e. listed_step e a finish p)

-- The loops after the AVPs: minimum counts, and the wildcard's minimum, which has no example.
unfoldable pub below_minimum : Grammar → Progress → List Entry → Option Violation
unfolding minimum_count maybe if◌then◌else◌
below_minimum g p [] = maybe g.wildcard none (λ w.
    if ltb p.extension_minimum_count (minimum_count w)
    then some (record { result_code = missing_avp; failed_avp = none })
    else none)
below_minimum g p (e ∷ l) =
    let rest = below_minimum g p l in
    let d = e.definition in
    if ltb (p.counts d.code d.vendor_id) (minimum_count e.rule)
    then some (violation missing_avp (missing g.dictionary g.app d))
    else rest

-- `validateVendorApplicationChoice`, with the AVPs that it collects.
unfoldable pub choices : Avps → Avps
unfolding if◌then◌else◌
choices nil = nil
choices (cons a l) =
    let rest = choices l in
    if vendor_id a == 0
      && (code a == auth_application_id_code || code a == acct_application_id_code)
    then cons a rest
    else rest

choice_violation : ℕ → Avp → Avps → Violation
choice_violation n a l =
    violation n (new_avp_with_flags (code a) (flags a) (vendor_id a) (grouped l))

choice_example : ℕ → Avp
choice_example c = new_avp c mbit 0 (unknown_data (replicate 4 0))

unfoldable pub validate_choice : Avp → Avps → Option Violation
unfolding choices choice_violation choice_example
validate_choice a ms = elim (choices ms) [
  | nil ↦ some (
      choice_violation missing_avp a (
        cons (choice_example auth_application_id_code)
          (cons (choice_example acct_application_id_code) nil)))
  | cons b nil ↦ none
  | cons b (cons d l) ↦ some (choice_violation avp_occurs_too_many_times a (cons b (cons d l)))
]

-- The end of a scan.
unfoldable pub finish_scan : Grammar → Outcome → Option Violation
unfolding below_minimum
finish_scan g (stopped e) = some e
finish_scan g (going p) = below_minimum g p g.ordered

abbrev pub then_scan : (Progress → Outcome) → Outcome → Outcome
then_scan next (going p) = next p
then_scan next (stopped e) = stopped e

abbrev pub grammar_of : Dictionary → ℕ → Map (List ℕ) → List Rule → Grammar
grammar_of s app echoes rules = record {
  ordered = ordered_rules s app rules;
  wildcard = wildcard_rule rules;
  dictionary = s;
  app = app;
  echoes = echoes;
}

abbrev pub initial : Grammar → Progress
initial g = record {
  counts = λ c v. 0;
  extension_count = 0;
  extension_minimum_count = 0;
  fixed_rest = g.ordered;
  fixed_closed = false;
  position = 0;
}

-- A call before its loop over the AVPs, and with what the loop comes to.
unfoldable pub scan_all : Grammar → Avps → Outcome → Option Violation
unfolding absent_fixed finish_scan maybe
scan_all g items o = maybe (absent_fixed g.dictionary g.app items g.ordered) (finish_scan g o) some

-- The members of a Grouped AVP that has a grammar.
unfoldable pub group_result : Definition → Avp → Avps → Option Violation → Option Violation
unfolding in_group validate_choice maybe if◌then◌else◌
group_result d a ms inside =
    maybe inside
      (if d.code == vendor_specific_application_id_code && d.vendor_id == 0
        then validate_choice a ms
        else none)
      (λ e. some (in_group a e))

abbrev pub has_grammar : Definition → Bool
has_grammar d = is_grouped_type d.type && elim d.rules [ [] ↦ false | r ∷ l ↦ true ]

-- The loop of `validateAVPs` over the AVPs, and the members of one of them.
unfoldable mutual
  unfolding scan_item group_result scan_all find_avp ordered_rules wildcard_rule maybe if◌then◌else◌

  pub scan_items : Grammar → Avps → Progress → Outcome
  scan_items g nil p = going p
  scan_items g (cons a l) p =
      let inside = group_violation g.dictionary g.app a in
      let next = scan_items g l in then_scan next (scan_item g inside a p)

  pub group_violation : Dictionary → ℕ → Avp → Option Violation
  group_violation s app (avp c f n v x) = members_violation s app c f n v x

  pub members_violation : Dictionary → ℕ → ℕ → ℕ → ℕ → ℕ → AvpData → Option Violation
  members_violation s app c f n v (grouped ms) =
      let scan = λ (d : Definition).
        let g = grammar_of s app [] d.rules in scan_all g ms (scan_items g ms (initial g)) in
      maybe (find_avp s app c v) none
        (λ d. if has_grammar d then group_result d (avp c f n v (grouped ms)) ms (scan d) else none)
  members_violation s app c f n v x = none

-- `validateAVPs`.
unfoldable pub validate_avps : Avps → List Rule → ℕ → Dictionary → Map (List ℕ) → Option Violation
unfolding scan_all scan_items ordered_rules wildcard_rule
validate_avps items rules app s echoes =
    let g = grammar_of s app echoes rules in scan_all g items (scan_items g items (initial g))
