-- ===== src/Diam/Grammar/Whole.antt =====
-- diam/validation.go: `validate`, behind `Validate`, `ValidateOutgoing` and `ValidateErrorAnswer`,
-- on the header, the AVPs, the dictionary's snapshot and the echoes of a message.
use text.Mathlib.Text.{◌==◌ as str_eq}
use go_diameter.Prelude.{
  ℕ, Bool, true, false, not, ◌&&◌, ◌||◌, Option, none, some, List, [], ◌∷◌, map, bit_and,
}
use go_diameter.Prelude.Tests.{◌==◌, ltb, leb, maybe, if◌then◌else◌}
use go_diameter.Prelude.Maps.{Map}
use go_diameter.Diam.Avp.{code, vendor_id, payload, AvpData, unsigned32, Avps, nil, cons}
use go_diameter.Diam.Header.{
  Header, has_flag, request_flag, proxiable_flag, error_flag, retransmitted_flag,
}
use go_diameter.Diam.Codes.{command_unsupported, invalid_hdr_bits, result_code_code}
use go_diameter.Diam.Dict.{Rule, Command, Dictionary, find_command}
use go_diameter.Diam.Grammar.{Violation, violation, avp_not_allowed}
use go_diameter.Diam.Grammar.Scan.{validate_avps}
use go_diameter.Diam.Grammar.Outgoing.{walk_flags}

-- What is checked: `m.Header`, `m.AVP`, `m.Dictionary().Snapshot()` and `m.echoedProxyInfo`.
pub record Subject : Type 0 where
  pub header : Option Header
  pub avps : Avps
  pub dictionary : Dictionary
  pub echoed_proxy_info : Map (List ℕ)

abbrev pub destination_host_code : ℕ
destination_host_code = 293

abbrev pub destination_realm_code : ℕ
destination_realm_code = 283

abbrev at_most_one : Rule
at_most_one = record {
  must_not = [];
  avp = "";
  required = false;
  min = 0;
  max = 1;
  max_set = true;
  fixed = false;
}

-- `genericErrorRules`.
abbrev pub generic_error_rules : List Rule
generic_error_rules =
    record at_most_one { avp = "Session-Id"; fixed = true }
    ∷ record at_most_one { avp = "Origin-Host"; required = true }
    ∷ record at_most_one { avp = "Origin-Realm"; required = true }
    ∷ record at_most_one { avp = "Result-Code"; required = true }
    ∷ record at_most_one { avp = "Origin-State-Id" }
    ∷ record at_most_one { avp = "Error-Message" }
    ∷ record at_most_one { avp = "Error-Reporting-Host" }
    ∷ record at_most_one { avp = "Failed-AVP" }
    ∷ record at_most_one { avp = "Experimental-Result" }
    ∷ record at_most_one { avp = "Proxy-Info"; max = 0; max_set = false }
    ∷ record at_most_one { avp = "AVP"; max = 0; max_set = false }
    ∷ []

-- A violation that names no AVP.
abbrev pub unnamed : ℕ → Violation
unnamed n = record { result_code = n; failed_avp = none }

abbrev is_nonzero : ℕ → Bool
is_nonzero n = not (n == 0)

unfoldable pub invalid_header_flags : Bool → Header → Bool
unfolding has_flag
invalid_header_flags outgoing h =
    (outgoing && is_nonzero (bit_and h.command_flags 0x0f))
    || (has_flag h.command_flags request_flag && has_flag h.command_flags error_flag)
    || (not (has_flag h.command_flags request_flag) && has_flag h.command_flags retransmitted_flag)

-- The loop over an answer's AVPs for one that names a destination.
unfoldable pub destination_in : Avps → Option Violation
unfolding if◌then◌else◌
destination_in nil = none
destination_in (cons a l) =
    let rest = destination_in l in
    if vendor_id a == 0 && (code a == destination_host_code || code a == destination_realm_code)
    then some (violation avp_not_allowed a)
    else rest

unfoldable pub outgoing_command_rules : Header → Dictionary → List Rule
unfolding has_flag find_command maybe if◌then◌else◌
outgoing_command_rules h s =
    if has_flag h.command_flags error_flag
    then generic_error_rules
    else maybe (find_command s h.application_id h.command_code) []
        (λ c. if has_flag h.command_flags request_flag then c.request.rules else c.answer.rules)

-- The first Result-Code, if it is an Unsigned32.
unsigned32_of : AvpData → Option ℕ
unsigned32_of (unsigned32 n) = some n
unsigned32_of _ = none

unfoldable pub first_result_code : Avps → Option ℕ
unfolding unsigned32_of if◌then◌else◌
first_result_code nil = none
first_result_code (cons a l) =
    let rest = first_result_code l in
    if code a == result_code_code && vendor_id a == 0 then unsigned32_of (payload a) else rest

unfoldable pub error_answer : Avps → Bool
unfolding first_result_code maybe
error_answer items = maybe (first_result_code items) false (λ n. leb 3000 n && ltb n 6000)

-- The result codes that go with the E bit.
unfoldable pub valid_error_result : Bool → ℕ → Bool
valid_error_result outgoing n =
    (leb 3000 n && ltb n 4000) || (not outgoing && leb 5000 n && ltb n 6000)

-- An error answer without Session-Id.
unfoldable pub optional_session : Rule → Rule
unfolding if◌then◌else◌
optional_session r = if str_eq r.avp "Session-Id" then record r { required = false; min = 0 } else r

unfoldable pub relax : Bool → List Rule → List Rule
unfolding optional_session if◌then◌else◌
relax allowed rules = if allowed then map optional_session rules else rules

abbrev is_empty_list : List Rule → Bool
is_empty_list [] = true
is_empty_list (r ∷ l) = false

-- A command's P bit, where its grammar fixes it.
abbrev wrong_proxiable : Option Bool → Bool → Bool
wrong_proxiable none p = false
wrong_proxiable (some true) p = not p
wrong_proxiable (some false) p = p

-- The branch of an ordinary command; `missing_session` is the option of the error builder.
unfoldable pub validate_command :
    Bool → Bool → Header → Avps → Dictionary → Map (List ℕ) → Command → Option Violation
unfolding validate_avps error_answer relax has_flag if◌then◌else◌
validate_command outgoing missing_session h avps s echoes c =
    let request = has_flag h.command_flags request_flag in
    let grammar = if request then c.request else c.answer in
    let allowed = (not outgoing || missing_session) && not request && error_answer avps in
    if is_empty_list grammar.rules
    then some (unnamed invalid_hdr_bits)
    else if wrong_proxiable grammar.proxiable (has_flag h.command_flags proxiable_flag)
    then some (unnamed invalid_hdr_bits)
    else validate_avps avps (relax allowed grammar.rules) h.application_id s echoes

-- After the header's flags, destinations and outgoing flags.
unfoldable pub validate_body :
    Bool → Bool → Header → Avps → Dictionary → Map (List ℕ) → Option Violation
unfolding first_result_code valid_error_result validate_avps validate_command find_command has_flag
    maybe if◌then◌else◌
validate_body outgoing missing_session h avps s echoes =
    if has_flag h.command_flags error_flag
    then if valid_error_result outgoing (maybe (first_result_code avps) 0 (λ n. n))
      then validate_avps avps generic_error_rules h.application_id s echoes
      else some (unnamed invalid_hdr_bits)
    else maybe (find_command s h.application_id h.command_code) (some (unnamed command_unsupported))
        (validate_command outgoing missing_session h avps s echoes)

unfoldable pub validate_header :
    Bool → Bool → Header → Avps → Dictionary → Map (List ℕ) → Option Violation
unfolding invalid_header_flags destination_in walk_flags outgoing_command_rules validate_body
    has_flag maybe if◌then◌else◌
validate_header outgoing missing_session h avps s echoed =
    let request = has_flag h.command_flags request_flag in
    let echoes = if outgoing && not request then echoed else [] in
    let body = validate_body outgoing missing_session h avps s echoes in
    let sending =
      if outgoing
      then walk_flags s h.application_id (outgoing_command_rules h s) echoes 0 avps
      else none in
    if invalid_header_flags outgoing h
    then some (unnamed invalid_hdr_bits)
    else maybe (if request then none else destination_in avps) (maybe sending body some) some

unfoldable pub validate : Bool → Bool → Subject → Option Violation
unfolding validate_header maybe
validate outgoing missing_session m =
    maybe m.header (some (unnamed invalid_hdr_bits))
      (λ h. validate_header outgoing missing_session h m.avps m.dictionary m.echoed_proxy_info)

-- `Validate`, `ValidateOutgoing` and `ValidateErrorAnswer`.
unfoldable pub validate_received : Subject → Option Violation
unfolding validate
validate_received m = validate false false m

unfoldable pub validate_outgoing : Subject → Option Violation
unfolding validate
validate_outgoing m = validate true false m

unfoldable pub validate_error_answer : Bool → Subject → Option Violation
unfolding validate
validate_error_answer missing_session m = validate true missing_session m
