-- ===== src/Diam/Codec/Evidence.antt =====
-- diam/message_error.go and the lookup of diam/dict/util.go: the errors of the AVP decoder and the
-- Failed-AVP that each carries. The dictionary is a snapshot's map from an application, a code and a
-- vendor to a type.
use go_diameter.Prelude.{ℕ, Bool, true, false, not, ◌&&◌, ◌||◌, Option, some, List, []}
use go_diameter.Prelude.Tests.{◌==◌, ltb, maybe, if◌then◌else◌}
use go_diameter.Prelude.Lists.{length, replicate}
use go_diameter.Diam.Avp.{Avp, code, flags, vendor_id, unknown_data, grouped, nil, cons}
use go_diameter.Diam.Header.{has_flag, octet, uint32}
use go_diameter.Diam.Codes.{invalid_avp_length, invalid_avp_value}
use go_diameter.Diam.Datatype.{
  TypeId, address_type, enumerated_type, float32_type, float64_type, grouped_type, ipv4_type,
  integer32_type, integer64_type, time_type, unsigned32_type, unsigned64_type, ipv6_type,
}
use go_diameter.Diam.Codec.{vbit, new_avp_with_flags}

-- `dict.Snapshot`: `avpcode` and the nesting limit.
pub record Snapshot : Type 0 where
  pub avpcode : ℕ → ℕ → ℕ → Option TypeId
  pub max_grouped_depth : ℕ

-- `lookupAVP`: the application's own definition, or the base application's.
unfoldable pub lookup_avp : Snapshot → ℕ → ℕ → ℕ → Option TypeId
unfolding maybe
lookup_avp s app c v = maybe (s.avpcode app c v) (s.avpcode 0 c v) some

-- `errAVPHeaderTooShort`, `errAVPDataTooShort` and `errAVPVendorTooShort`.
pub data Reason : Type 0 where
  header_too_short data_too_short vendor_too_short : Reason

-- `avpLengthError`, and `avpDecodeError` with its result code, its Failed-AVP and whether it wraps
-- `errGroupedTooDeep`. No other error leaves the decoder.
pub data AvpError : Type 0 where
  length_error : Reason → Avp → AvpError
  decode_error : ℕ → Avp → Bool → AvpError

-- `minimumAVPPayloadLength`.
unfoldable pub minimum_payload_length : TypeId → ℕ
minimum_payload_length address_type = 2
minimum_payload_length enumerated_type = 4
minimum_payload_length float32_type = 4
minimum_payload_length ipv4_type = 4
minimum_payload_length integer32_type = 4
minimum_payload_length time_type = 4
minimum_payload_length unsigned32_type = 4
minimum_payload_length float64_type = 8
minimum_payload_length integer64_type = 8
minimum_payload_length unsigned64_type = 8
minimum_payload_length ipv6_type = 16
minimum_payload_length _ = 0

abbrev pub is_address_type : TypeId → Bool
is_address_type address_type = true
is_address_type _ = false

abbrev pub is_grouped_type : TypeId → Bool
is_grouped_type grouped_type = true
is_grouped_type _ = false

-- `failedAVPFromWire`: octets past the end of the input are zero.
unfoldable pub failed_avp_from_wire : Snapshot → ℕ → List ℕ → Avp
unfolding lookup_avp minimum_payload_length new_avp_with_flags uint32 has_flag maybe if◌then◌else◌
failed_avp_from_wire s app b =
    let c = uint32 b 0 1 2 3 in
    let v = if has_flag (octet b 4) vbit then uint32 b 8 9 10 11 else 0 in
    new_avp_with_flags c (octet b 4) v
      (unknown_data (replicate (maybe (lookup_avp s app c v) 0 minimum_payload_length) 0))

-- `newAVPDecodeError`, for an AVP whose data is the fallback.
unfoldable pub new_decode_error : Avp → List ℕ → TypeId → Bool → AvpError
unfolding minimum_payload_length new_avp_with_flags if◌then◌else◌
new_decode_error a b t too_deep =
    let minimum = minimum_payload_length t in
    let wrong_size =
      ltb 0 minimum
      && (ltb (length b) minimum || (not (is_address_type t) && not (length b == minimum))) in
    decode_error (if wrong_size then invalid_avp_length else invalid_avp_value)
      (new_avp_with_flags (code a) (flags a) (vendor_id a)
        (unknown_data (if not wrong_size && is_grouped_type t then [] else b)))
      too_deep

-- The two `withGroupedParent`.
unfoldable pub with_grouped_parent : Avp → AvpError → AvpError
unfolding new_avp_with_flags
with_grouped_parent parent (length_error r a) =
    length_error r
      (new_avp_with_flags (code parent) (flags parent) (vendor_id parent) (grouped (cons a nil)))
with_grouped_parent parent (decode_error n a too_deep) =
    decode_error n
      (new_avp_with_flags (code parent) (flags parent) (vendor_id parent) (grouped (cons a nil)))
      too_deep
