-- ===== src/Diam/Grammar.antt =====
-- diam/validation.go: what the checks of a message against its command's grammar share, the rules
-- and the violations. AVPs are trees of values, in which no pointer is nil and no group holds
-- itself, so the branches for nil and cyclic AVPs have no counterpart. Text of an error is left out.
pub mod Scan
pub mod Outgoing
pub mod Whole
pub mod Turns
pub mod Counts
pub mod Bounds
pub mod Contents
pub mod Sending
pub mod Missing
pub mod Complete
use text.Mathlib.Text.{◌==◌ as str_eq}
use go_diameter.Prelude.{
  ℕ, ◌+◌, zero, suc, String, Bool, true, false, not, ◌&&◌, ◌||◌, Option, none, some, List, [], ◌∷◌,
}
use go_diameter.Prelude.Tests.{◌==◌, ltb, maybe, if◌then◌else◌}
use go_diameter.Prelude.Lists.{length, replicate}
use go_diameter.Diam.Avp.{
  Avp, code, flags, vendor_id, payload, AvpData, unknown_data, grouped, Avps, nil, cons,
}
use go_diameter.Diam.Header.{has_flag}
use go_diameter.Diam.Datatype.{TypeId}
use go_diameter.Diam.Codec.{vbit, new_avp, new_avp_with_flags}
use go_diameter.Diam.Codec.Evidence.{minimum_payload_length, is_grouped_type}
use go_diameter.Diam.Dict.{Rule, Definition, Dictionary, find_avp_by_name}
use go_diameter.Diam.Dict.Flags.{Flag, mandatory, protected, vendor, flag_listed}

-- `ValidationError`.
pub record Violation : Type 0 where
  pub result_code : ℕ
  pub failed_avp : Option Avp

-- `MissingAVP`, `AVPNotAllowed`, `AVPOccursTooManyTimes`, `InvalidAVPBits`, and the AVP codes and
-- the flag bits of diam/avp that the checks name.
abbrev pub missing_avp : ℕ
missing_avp = 5005

abbrev pub avp_not_allowed : ℕ
avp_not_allowed = 5008

abbrev pub avp_occurs_too_many_times : ℕ
avp_occurs_too_many_times = 5009

abbrev pub invalid_avp_bits : ℕ
invalid_avp_bits = 3009

abbrev pub auth_application_id_code : ℕ
auth_application_id_code = 258

abbrev pub acct_application_id_code : ℕ
acct_application_id_code = 259

abbrev pub vendor_specific_application_id_code : ℕ
vendor_specific_application_id_code = 260

abbrev pub proxy_info_code : ℕ
proxy_info_code = 284

abbrev pub mbit : ℕ
mbit = 0x40

abbrev pub pbit : ℕ
pbit = 0x20

-- `validationRule`; its key is the definition's code and vendor.
pub record Entry : Type 0 where
  pub rule : Rule
  pub definition : Definition

unfoldable pub has_maximum : Rule → Bool
has_maximum r = r.max_set || ltb 0 r.max

unfoldable pub minimum_count : Rule → ℕ
unfolding if◌then◌else◌
minimum_count r = if ltb 0 r.min then r.min else if r.required then 1 else 0

-- The bits that `requiredFlags` sets, one beside another.
unfoldable pub required_flags : Definition → ℕ
unfolding flag_listed if◌then◌else◌
required_flags d =
    (if flag_listed d.must mandatory then mbit else 0)
    + (if flag_listed d.must protected then pbit else 0)
    + (if not (d.vendor_id == 0) || flag_listed d.must vendor then vbit else 0)

unfoldable pub invalid_avp_flags : ℕ → Definition → Bool
unfolding has_flag
invalid_avp_flags f d =
    (has_flag f vbit && d.vendor_id == 0) || (not (has_flag f vbit) && not (d.vendor_id == 0))

abbrev pub is_wildcard : Rule → Bool
is_wildcard r = str_eq r.avp "AVP"

unfoldable pub append_avps : Avps → Avps → Avps
append_avps nil l = l
append_avps (cons a k) l = cons a (append_avps k l)

-- The same AVP as often as a rule demands it.
unfoldable pub copies : ℕ → Avp → Avps
copies zero a = nil
copies (suc n) a = cons a (copies n a)

unfoldable pub seen_key : List (ℕ × ℕ) → ℕ → ℕ → Bool
seen_key [] c v = false
seen_key ((d, w) ∷ l) c v = (d == c && w == v) || seen_key l c v

-- The loop over the rules of a group; `example` is the call on a member's definition.
unfoldable pub example_members : (Definition → Avp) → Dictionary → ℕ → List Rule → Avps
unfolding append_avps copies find_avp_by_name minimum_count maybe if◌then◌else◌
example_members example s app [] = nil
example_members example s app (r ∷ l) =
    let rest = example_members example s app l in
    if is_wildcard r
    then rest
    else maybe (find_avp_by_name s app r.avp) rest
        (λ child. append_avps (copies (minimum_count r) (example child)) rest)

-- `missingAVPExample`, for a group whose members are given and for every other type.
unfoldable pub example_leaf : Definition → Avp
unfolding required_flags new_avp minimum_payload_length
example_leaf d =
    new_avp d.code (required_flags d) d.vendor_id
      (unknown_data (replicate (minimum_payload_length d.type) 0))

unfoldable pub example_group : Definition → Avps → Avp
unfolding required_flags new_avp
example_group d ms = new_avp d.code (required_flags d) d.vendor_id (grouped ms)

-- `missingAVPExample`, on fuel; a group that is already being built has no members.
unfoldable pub missing_avp_example : Dictionary → ℕ → ℕ → List (ℕ × ℕ) → Definition → Avp
unfolding example_leaf example_group seen_key example_members if◌then◌else◌
missing_avp_example s app zero seen d =
    if is_grouped_type d.type then example_group d nil else example_leaf d
missing_avp_example s app (suc fuel) seen d =
    if is_grouped_type d.type
    then example_group d (
        if seen_key seen d.code d.vendor_id
        then nil
        else example_members (missing_avp_example s app fuel ((d.code, d.vendor_id) ∷ seen)) s app
            d.rules)
    else example_leaf d

-- Every level of an example adds the key of another definition of the index.
abbrev pub example_fuel : Dictionary → ℕ
example_fuel s = suc (length s.avpcode)

abbrev pub missing : Dictionary → ℕ → Definition → Avp
missing s app d = missing_avp_example s app (example_fuel s) [] d

-- A violation of this AVP.
abbrev pub violation : ℕ → Avp → Violation
violation n a = record { result_code = n; failed_avp = some a }

-- `newAVPWithFlags` around the evidence of a member's violation.
unfoldable pub in_group : Avp → Violation → Violation
unfolding new_avp_with_flags maybe
in_group a e = record e {
  failed_avp = some (
      new_avp_with_flags (code a) (flags a) (vendor_id a)
        (grouped (maybe e.failed_avp nil (λ f. cons f nil))));
}

-- `validateFailedEvidence`.
unfoldable pub validate_failed_evidence : Avp → Option Violation
validate_failed_evidence a = elim (payload a) [
  | grouped nil ↦ some (violation missing_avp a)
  | grouped (cons b ms) ↦ none
  | _ ↦ some (violation 5004 a)
]
