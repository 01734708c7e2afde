-- ===== src/Base/Validation/Kinds.antt =====
-- `validateTypes` of diam/internal/base/validation.go: the payloads of each type, and the values that
-- a code allows.
use go_diameter.Prelude.{
  ℕ, ◌≡◌, refl, Bool, true, false, not, ◌&&◌, ◌||◌, Option, none, some, arith,
}
use go_diameter.Prelude.Tests.{◌==◌, maybe, if◌then◌else◌}
use go_diameter.Prelude.Int.{pos, negsuc, equals}
use go_diameter.Diam.Avp.{
  AvpData, nil_data, unknown_data, octet_string, utf8_string, diameter_identity, diameter_uri,
  ip_filter_rule, qos_filter_rule, raw_grouped, ipv4, ipv6, unsigned32, unsigned64, float32,
  float64, integer32, integer64, enumerated, time, address, grouped,
}
use go_diameter.Diam.Codec.Evidence.{is_grouped_type}
use go_diameter.Diam.Codes.{disconnect_cause_code}
use go_diameter.Diam.Datatype.{
  TypeId, unknown_type, address_type, diameter_identity_type, diameter_uri_type, enumerated_type,
  float32_type, float64_type, grouped_type, ip_filter_rule_type, ipv4_type, integer32_type,
  integer64_type, octet_string_type, qos_filter_rule_type, time_type, utf8_string_type,
  unsigned32_type, unsigned64_type, ipv6_type,
}
use go_diameter.Base.Capabilities.{supported_vendor_id_code}
use go_diameter.Base.Validation.{
  type_number, data_type, wrong_type, bad_cause, bad_vendor, bad_value,
}

-- The number of the type that a payload is of: a decoded group is Grouped, an undecoded one is not.
unfoldable pub kind_of : AvpData → Option ℕ
kind_of nil_data = none
kind_of (raw_grouped x) = none
kind_of (grouped x) = some 7
kind_of (unknown_data x) = some 0
kind_of (octet_string x) = some 12
kind_of (utf8_string x) = some 15
kind_of (diameter_identity x) = some 2
kind_of (diameter_uri x) = some 3
kind_of (ip_filter_rule x) = some 8
kind_of (qos_filter_rule x) = some 13
kind_of (ipv4 x) = some 9
kind_of (ipv6 x) = some 18
kind_of (unsigned32 x) = some 16
kind_of (unsigned64 x) = some 17
kind_of (float32 x) = some 5
kind_of (float64 x) = some 6
kind_of (integer32 x) = some 10
kind_of (integer64 x) = some 11
kind_of (enumerated x) = some 4
kind_of (time x) = some 14
kind_of (address x y) = some 1

unfoldable pub of_type : TypeId → AvpData → Bool
unfolding kind_of maybe
of_type t d = maybe (kind_of d) false (λ n. n == type_number t)

grouped_number : (t : TypeId) → is_grouped_type t ≡ (7 == type_number t)
unfolding type_number
grouped_number unknown_type = refl
grouped_number address_type = refl
grouped_number diameter_identity_type = refl
grouped_number diameter_uri_type = refl
grouped_number enumerated_type = refl
grouped_number float32_type = refl
grouped_number float64_type = refl
grouped_number grouped_type = refl
grouped_number ip_filter_rule_type = refl
grouped_number ipv4_type = refl
grouped_number integer32_type = refl
grouped_number integer64_type = refl
grouped_number octet_string_type = refl
grouped_number qos_filter_rule_type = refl
grouped_number time_type = refl
grouped_number utf8_string_type = refl
grouped_number unsigned32_type = refl
grouped_number unsigned64_type = refl
grouped_number ipv6_type = refl

no_group_number : (t : TypeId) → (50 == type_number t) ≡ false
unfolding type_number
no_group_number unknown_type = refl
no_group_number address_type = refl
no_group_number diameter_identity_type = refl
no_group_number diameter_uri_type = refl
no_group_number enumerated_type = refl
no_group_number float32_type = refl
no_group_number float64_type = refl
no_group_number grouped_type = refl
no_group_number ip_filter_rule_type = refl
no_group_number ipv4_type = refl
no_group_number integer32_type = refl
no_group_number integer64_type = refl
no_group_number octet_string_type = refl
no_group_number qos_filter_rule_type = refl
no_group_number time_type = refl
no_group_number utf8_string_type = refl
no_group_number unsigned32_type = refl
no_group_number unsigned64_type = refl
no_group_number ipv6_type = refl

-- No type is both Grouped and another one.
other_kind :
    (n m : ℕ) (g : Bool)
    → g ≡ (7 == m)
    → (7 == n) ≡ false
    → not (if g then true else not (n == m)) ≡ (n == m)
unfolding if◌then◌else◌
other_kind n m true h k = ground arith
other_kind n m false h k = ground arith

group_kind :
    (m : ℕ) (g : Bool)
    → g ≡ (7 == m)
    → (50 == m) ≡ false
    → not (if g then false else not (50 == m)) ≡ (7 == m)
unfolding if◌then◌else◌
group_kind m true h k = ground arith
group_kind m false h k = ground arith

never : (m : ℕ) (g : Bool) → g ≡ (7 == m) → not (if g then true else not (7 == m)) ≡ false
unfolding if◌then◌else◌
never m true h = refl
never m false h = ground arith

nothing_fits : (g : Bool) → not (if g then true else true) ≡ false
unfolding if◌then◌else◌
nothing_fits true = refl
nothing_fits false = refl

pub wrong_type-of_type : (t : TypeId) (d : AvpData) → not (wrong_type t d) ≡ of_type t d
unfolding wrong_type of_type data_type type_number maybe
wrong_type-of_type t nil_data = nothing_fits (is_grouped_type t)
wrong_type-of_type t (unknown_data x) =
    other_kind 0 (type_number t) (is_grouped_type t) (grouped_number t) refl
wrong_type-of_type t (octet_string x) =
    other_kind 12 (type_number t) (is_grouped_type t) (grouped_number t) refl
wrong_type-of_type t (utf8_string x) =
    other_kind 15 (type_number t) (is_grouped_type t) (grouped_number t) refl
wrong_type-of_type t (diameter_identity x) =
    other_kind 2 (type_number t) (is_grouped_type t) (grouped_number t) refl
wrong_type-of_type t (diameter_uri x) =
    other_kind 3 (type_number t) (is_grouped_type t) (grouped_number t) refl
wrong_type-of_type t (ip_filter_rule x) =
    other_kind 8 (type_number t) (is_grouped_type t) (grouped_number t) refl
wrong_type-of_type t (qos_filter_rule x) =
    other_kind 13 (type_number t) (is_grouped_type t) (grouped_number t) refl
wrong_type-of_type t (raw_grouped x) = never (type_number t) (is_grouped_type t) (grouped_number t)
wrong_type-of_type t (ipv4 x) =
    other_kind 9 (type_number t) (is_grouped_type t) (grouped_number t) refl
wrong_type-of_type t (ipv6 x) =
    other_kind 18 (type_number t) (is_grouped_type t) (grouped_number t) refl
wrong_type-of_type t (unsigned32 x) =
    other_kind 16 (type_number t) (is_grouped_type t) (grouped_number t) refl
wrong_type-of_type t (unsigned64 x) =
    other_kind 17 (type_number t) (is_grouped_type t) (grouped_number t) refl
wrong_type-of_type t (float32 x) =
    other_kind 5 (type_number t) (is_grouped_type t) (grouped_number t) refl
wrong_type-of_type t (float64 x) =
    other_kind 6 (type_number t) (is_grouped_type t) (grouped_number t) refl
wrong_type-of_type t (integer32 x) =
    other_kind 10 (type_number t) (is_grouped_type t) (grouped_number t) refl
wrong_type-of_type t (integer64 x) =
    other_kind 11 (type_number t) (is_grouped_type t) (grouped_number t) refl
wrong_type-of_type t (enumerated x) =
    other_kind 4 (type_number t) (is_grouped_type t) (grouped_number t) refl
wrong_type-of_type t (time x) =
    other_kind 14 (type_number t) (is_grouped_type t) (grouped_number t) refl
wrong_type-of_type t (address x y) =
    other_kind 1 (type_number t) (is_grouped_type t) (grouped_number t) refl
wrong_type-of_type t (grouped x) =
    group_kind (type_number t) (is_grouped_type t) (grouped_number t) (no_group_number t)

-- Disconnect-Cause is 0, 1 or 2, and Supported-Vendor-Id is not zero.
unfoldable pub allowed : ℕ → ℕ → AvpData → Bool
allowed c v (enumerated n) =
    not (c == disconnect_cause_code && v == 0) || equals n 0 || equals n 1 || equals n 2
allowed c v (unsigned32 n) = not (c == supported_vendor_id_code && v == 0) || not (n == 0)
allowed c v _ = true

plain_value : (a b : Bool) → not ((a && false) || (b && false)) ≡ true
plain_value a b = ground arith

pub bad_value-allowed : (c v : ℕ) (d : AvpData) → not (bad_value c v d) ≡ allowed c v d
unfolding bad_value bad_cause bad_vendor allowed
bad_value-allowed c v nil_data = plain_value _ _
bad_value-allowed c v (unknown_data x) = plain_value _ _
bad_value-allowed c v (octet_string x) = plain_value _ _
bad_value-allowed c v (utf8_string x) = plain_value _ _
bad_value-allowed c v (diameter_identity x) = plain_value _ _
bad_value-allowed c v (diameter_uri x) = plain_value _ _
bad_value-allowed c v (ip_filter_rule x) = plain_value _ _
bad_value-allowed c v (qos_filter_rule x) = plain_value _ _
bad_value-allowed c v (raw_grouped x) = plain_value _ _
bad_value-allowed c v (ipv4 x) = plain_value _ _
bad_value-allowed c v (ipv6 x) = plain_value _ _
bad_value-allowed c v (unsigned32 n) = ground arith
bad_value-allowed c v (unsigned64 x) = plain_value _ _
bad_value-allowed c v (float32 x) = plain_value _ _
bad_value-allowed c v (float64 x) = plain_value _ _
bad_value-allowed c v (integer32 x) = plain_value _ _
bad_value-allowed c v (integer64 x) = plain_value _ _
bad_value-allowed c v (enumerated (pos n)) = ground arith
bad_value-allowed c v (enumerated (negsuc n)) = ground arith
bad_value-allowed c v (time x) = plain_value _ _
bad_value-allowed c v (address x y) = plain_value _ _
bad_value-allowed c v (grouped x) = plain_value _ _
