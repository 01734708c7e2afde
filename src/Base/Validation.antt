-- ===== src/Base/Validation.antt =====
-- `ValidateMessage` and `validateTypes` of diam/internal/base/validation.go, over the dictionary of
-- the base protocol. `utf8_valid` is `Valid` of the package unicode/utf8.
pub mod Kinds
pub mod Payload
pub mod Fits
pub mod Types
use go_diameter.Prelude.{ℕ, Bool, true, false, not, ◌&&◌, ◌||◌, Option, none, some, List, [], ◌∷◌}
use go_diameter.Prelude.Tests.{◌==◌, ltb, leb, is_some, maybe, if◌then◌else◌}
use go_diameter.Prelude.Int.{pos, negsuc}
use go_diameter.Diam.Avp.{
  Avp, AvpData, nil_data, unknown_data, octet_string, utf8_string, diameter_identity, diameter_uri,
  ip_filter_rule, qos_filter_rule, raw_grouped, ipv4, ipv6, unsigned32, unsigned64, float32,
  float64, integer32, integer64, enumerated, time, address, grouped, avp, Avps, nil, cons, payload,
}
use go_diameter.Diam.Codec.{data_len, serialize_data, is_nil}
use go_diameter.Diam.Codec.Evidence.{is_grouped_type}
use go_diameter.Diam.Codes.{
  invalid_avp_value, invalid_avp_length, invalid_hdr_bits, disconnect_cause_code,
}
use go_diameter.Diam.Datatype.{
  TypeId, unknown_type, address_type, diameter_identity_type, diameter_uri_type, enumerated_type,
  float32_type, float64_type, grouped_type, ip_filter_rule_type, ipv4_type, integer32_type,
  integer64_type, octet_string_type, qos_filter_rule_type, time_type, utf8_string_type,
  unsigned32_type, unsigned64_type, ipv6_type, decode_address,
}
use go_diameter.Diam.Datatype.Identity.{valid_identity}
use go_diameter.Diam.Dict.{Definition, Dictionary, find_avp}
use go_diameter.Diam.Error.{MessageError, text}
use go_diameter.Diam.Codec.Decode.{failed_avp_code}
use go_diameter.Diam.Grammar.{Violation}
use go_diameter.Diam.Grammar.Whole.{validate_received, first_result_code}
use go_diameter.Diam.Header.{Header, has_flag, request_flag, error_flag}
use go_diameter.Diam.Message.{Message}
use go_diameter.Base.Capabilities.{supported_vendor_id_code}
use go_diameter.Base.Header.{is_command, validate_header}

-- A `TypeID` as a number, and `Data.Type()`; a nil `Data` has none.
unfoldable pub type_number : TypeId → ℕ
type_number unknown_type = 0
type_number address_type = 1
type_number diameter_identity_type = 2
type_number diameter_uri_type = 3
type_number enumerated_type = 4
type_number float32_type = 5
type_number float64_type = 6
type_number grouped_type = 7
type_number ip_filter_rule_type = 8
type_number ipv4_type = 9
type_number integer32_type = 10
type_number integer64_type = 11
type_number octet_string_type = 12
type_number qos_filter_rule_type = 13
type_number time_type = 14
type_number utf8_string_type = 15
type_number unsigned32_type = 16
type_number unsigned64_type = 17
type_number ipv6_type = 18

unfoldable pub data_type : AvpData → Option ℕ
unfolding type_number
data_type nil_data = none
data_type (unknown_data b) = some (type_number unknown_type)
data_type (octet_string b) = some (type_number octet_string_type)
data_type (utf8_string b) = some (type_number utf8_string_type)
data_type (diameter_identity b) = some (type_number diameter_identity_type)
data_type (diameter_uri b) = some (type_number diameter_uri_type)
data_type (ip_filter_rule b) = some (type_number ip_filter_rule_type)
data_type (qos_filter_rule b) = some (type_number qos_filter_rule_type)
data_type (raw_grouped b) = some (type_number grouped_type)
data_type (ipv4 b) = some (type_number ipv4_type)
data_type (ipv6 b) = some (type_number ipv6_type)
data_type (unsigned32 n) = some (type_number unsigned32_type)
data_type (unsigned64 n) = some (type_number unsigned64_type)
data_type (float32 n) = some (type_number float32_type)
data_type (float64 n) = some (type_number float64_type)
data_type (integer32 n) = some (type_number integer32_type)
data_type (integer64 n) = some (type_number integer64_type)
data_type (enumerated n) = some (type_number enumerated_type)
data_type (time t) = some (type_number time_type)
data_type (address family b) = some (type_number address_type)
-- `GroupedAVPType`.
data_type (grouped ms) = some 50

-- `code` and `invalid`.
pub record Check : Type 0 where
  pub code : ℕ
  pub invalid : Bool

abbrev is_group : AvpData → Bool
is_group (grouped ms) = true
is_group _ = false

unfoldable pub wrong_type : TypeId → AvpData → Bool
unfolding data_type type_number maybe if◌then◌else◌
wrong_type t d =
    if is_grouped_type t
    then not (is_group d)
    else maybe (data_type d) true (λ n. not (n == type_number t))

pub check_length : AvpData → Check → Check
unfolding data_len if◌then◌else◌
check_length d k =
    if data_len d == 4 then k else record { code = invalid_avp_length; invalid = true }

pub check_address : AvpData → Check → Check
unfolding data_len serialize_data decode_address if◌then◌else◌
check_address d k =
    if is_some (decode_address (serialize_data d))
    then k
    else record { code = if ltb (data_len d) 2 then invalid_avp_length else k.code; invalid = true }

-- The switch on the type of the definition.
unfoldable pub check_content : (List ℕ → Bool) → TypeId → AvpData → Check → Check
unfolding check_length check_address serialize_data valid_identity if◌then◌else◌
check_content utf8_valid unsigned32_type d k = check_length d k
check_content utf8_valid enumerated_type d k = check_length d k
check_content utf8_valid address_type d k = check_address d k
check_content utf8_valid diameter_identity_type d k =
    if k.invalid then k else record k { invalid = not (valid_identity (serialize_data d)) }
check_content utf8_valid utf8_string_type d k = record k {
  invalid = k.invalid || not (utf8_valid (serialize_data d));
}
check_content utf8_valid _ d k = k

-- The values that Disconnect-Cause and Supported-Vendor-Id do not have.
unfoldable pub bad_cause : AvpData → Bool
bad_cause (enumerated (pos n)) = ltb 2 n
bad_cause (enumerated (negsuc n)) = true
bad_cause _ = false

unfoldable pub bad_vendor : AvpData → Bool
bad_vendor (unsigned32 n) = n == 0
bad_vendor _ = false

unfoldable pub bad_value : ℕ → ℕ → AvpData → Bool
unfolding bad_cause bad_vendor
bad_value c v d =
    (c == disconnect_cause_code && v == 0 && bad_cause d)
    || (c == supported_vendor_id_code && v == 0 && bad_vendor d)

-- The checks of one AVP, before its members.
unfoldable pub check_avp : (List ℕ → Bool) → TypeId → ℕ → ℕ → AvpData → Check
unfolding wrong_type check_content bad_value if◌then◌else◌
check_avp utf8_valid t c v d =
    let started : Check = record { code = invalid_avp_value; invalid = wrong_type t d } in
    let checked = if is_nil d then started else check_content utf8_valid t d started in
    record checked { invalid = checked.invalid || bad_value c v d }

-- The copy of a group around the evidence of one of its members.
unfoldable pub around : ℕ → ℕ → ℕ → ℕ → MessageError → MessageError
unfolding maybe
around c f n v e = record e {
  failed_avp = some (avp c f n v (grouped (maybe e.failed_avp nil (λ member. cons member nil))));
}

abbrev pub invalid_data : ℕ → Avp → MessageError
invalid_data n a = record {
  result_code = n;
  failed_avp = some a;
  fatal = false;
  err = text "invalid base data";
}

-- `validateTypes`.
unfoldable mutual
  unfolding find_avp check_avp around maybe if◌then◌else◌

  pub avp_error : (List ℕ → Bool) → Dictionary → Avp → Option MessageError
  avp_error utf8_valid s (avp c f n v d) =
      let inside = members_error utf8_valid s c f n v d in
      maybe (find_avp s 0 c v) none (λ definition.
        let k = check_avp utf8_valid definition.type c v d in
        if c == failed_avp_code && v == 0
        then none
        else if k.invalid
        then some (invalid_data k.code (avp c f n v d))
        else inside)

  pub members_error : (List ℕ → Bool) → Dictionary → ℕ → ℕ → ℕ → ℕ → AvpData → Option MessageError
  members_error utf8_valid s c f n v (grouped ms) =
      maybe (validate_types utf8_valid s ms) none (λ e. some (around c f n v e))
  members_error utf8_valid s c f n v _ = none

  pub validate_types : (List ℕ → Bool) → Dictionary → Avps → Option MessageError
  validate_types utf8_valid s nil = none
  validate_types utf8_valid s (cons a l) =
      let rest = validate_types utf8_valid s l in maybe (avp_error utf8_valid s a) rest some

-- A message's AVPs as a tree's members.
unfoldable pub to_avps : List Avp → Avps
to_avps [] = nil
to_avps (a ∷ l) = cons a (to_avps l)

abbrev of_violation : Violation → MessageError
of_violation e = record {
  result_code = e.result_code;
  failed_avp = e.failed_avp;
  fatal = false;
  err = text "invalid base message";
}

-- An answer whose Result-Code is a protocol error that lacks the E bit.
unfoldable pub lacks_error_flag : Header → Avps → Bool
unfolding first_result_code has_flag maybe
lacks_error_flag h avps =
    not (has_flag h.command_flags request_flag)
    && not (has_flag h.command_flags error_flag)
    && maybe (first_result_code avps) false (λ n. leb 3000 n && ltb n 4000)

-- A base command, after `ValidateHeader`.
unfoldable pub validate_command_message :
    (List ℕ → Bool) → Dictionary → Header → Avps → Option MessageError
unfolding validate_received lacks_error_flag validate_types maybe if◌then◌else◌
validate_command_message utf8_valid s h avps =
    let types = validate_types utf8_valid s avps in
    maybe
      (validate_received
        (record { header = some h; avps = avps; dictionary = s; echoed_proxy_info = [] }))
      (if lacks_error_flag h avps
        then some (record {
          result_code = invalid_hdr_bits;
          failed_avp = none;
          fatal = false;
          err = text "3xxx result requires E bit";
        })
        else types)
      (λ e. some (of_violation e))

-- `ValidateMessage`.
unfoldable pub validate_message :
    (List ℕ → Bool) → Dictionary → Option Message → Option MessageError
unfolding validate_header is_command validate_command_message to_avps maybe if◌then◌else◌
validate_message utf8_valid s m =
    let body =
      maybe m none (λ m.
        maybe m.header none (λ h. validate_command_message utf8_valid s h (to_avps m.avps))) in
    maybe (validate_header m) (if is_command m then body else none) some
