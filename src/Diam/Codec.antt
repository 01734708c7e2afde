-- ===== src/Diam/Codec.antt =====
-- diam/avp.go and diam/group.go: an AVP and a Grouped value as octets. An `IPv4` or `IPv6` whose
-- slice is of neither 4 nor 16 octets is not modelled: its Len is not the number of its octets.
pub mod Decode
pub mod Evidence
pub mod Framing
pub mod Lossless
pub mod Member
pub mod WellFormed
pub mod Steps
pub mod Send
pub mod Values
pub mod RoundTrip
pub mod Depth
pub mod Fuel
pub mod Failures
use go_diameter.Prelude.{
  ℕ, ◌+◌, ◌-◌, ◌*◌, ◌/◌, ◌%◌, Bool, true, false, not, Option, none, some, List, [], ◌∷◌, ◌++◌,
}
use go_diameter.Prelude.Tests.{◌==◌, ltb, maybe, if◌then◌else◌}
use go_diameter.Prelude.Lists.{length, replicate}
use go_diameter.Diam.Avp.{
  Avp, avp, AvpData, nil_data, unknown_data, octet_string, utf8_string, diameter_identity,
  diameter_uri, ip_filter_rule, qos_filter_rule, raw_grouped, ipv4, ipv6, unsigned32, unsigned64,
  float32, float64, integer32, integer64, enumerated, time, address, grouped, Avps, nil, cons,
}
use go_diameter.Diam.Header.{has_flag, put_uint24, put_uint32}
use go_diameter.Diam.Datatype.{
  pad4, put_uint64, put_integer32, put_integer64, encode_seconds, to4, to16, put_address,
  valid_address,
}

-- `avp.Vbit`.
abbrev pub vbit : ℕ
vbit = 0x80

unfoldable pub header_len : ℕ → ℕ
unfolding has_flag if◌then◌else◌
header_len flags = if has_flag flags vbit then 12 else 8

-- `(length + 3) &^ 3`.
unfoldable pub padded_avp_length : ℕ → ℕ
padded_avp_length n = (n + 3) / 4 * 4

-- `Data.Padding()`.
unfoldable pub padding : AvpData → ℕ
unfolding pad4
padding (unknown_data b) = pad4 (length b) - length b
padding (octet_string b) = pad4 (length b) - length b
padding (utf8_string b) = pad4 (length b) - length b
padding (diameter_identity b) = pad4 (length b) - length b
padding (diameter_uri b) = pad4 (length b) - length b
padding (ip_filter_rule b) = pad4 (length b) - length b
padding (qos_filter_rule b) = pad4 (length b) - length b
padding (address family b) = pad4 (2 + length b) - (2 + length b)
padding _ = 0

abbrev pub is_nil : AvpData → Bool
is_nil nil_data = true
is_nil _ = false

-- `Data.Len()` and `AVP.Len`.
unfoldable mutual
  unfolding header_len padded_avp_length padding if◌then◌else◌

  pub data_len : AvpData → ℕ
  data_len nil_data = 0
  data_len (unknown_data b) = length b
  data_len (octet_string b) = length b
  data_len (utf8_string b) = length b
  data_len (diameter_identity b) = length b
  data_len (diameter_uri b) = length b
  data_len (ip_filter_rule b) = length b
  data_len (qos_filter_rule b) = length b
  data_len (raw_grouped b) = length b
  data_len (ipv4 b) = 4
  data_len (ipv6 b) = 16
  data_len (unsigned32 n) = 4
  data_len (unsigned64 n) = 8
  data_len (float32 n) = 4
  data_len (float64 n) = 8
  data_len (integer32 n) = 4
  data_len (integer64 n) = 8
  data_len (enumerated n) = 4
  data_len (time t) = 4
  data_len (address family b) = 2 + length b
  data_len (grouped ms) = members_len ms

  pub avp_len : Avp → ℕ
  avp_len (avp c f n v d) =
      if is_nil d
      then padded_avp_length (if ltb n (header_len f) then header_len f else n)
      else header_len f + data_len d + padding d

  pub members_len : Avps → ℕ
  members_len nil = 0
  members_len (cons a ms) = avp_len a + members_len ms

-- `serializeHeaderTo`: the octets it writes.
unfoldable pub serialize_header : ℕ → ℕ → ℕ → ℕ → List ℕ
unfolding header_len put_uint24 put_uint32 has_flag if◌then◌else◌
serialize_header c f v payload_len =
    put_uint32 c
    ++ ((f % 256)
        ∷ (put_uint24 (header_len f + payload_len)
            ++ (if has_flag f vbit then put_uint32 v else [])))

-- Octets written at the front of a zeroed buffer of `n` octets.
unfoldable pub in_buffer : ℕ → List ℕ → List ℕ
in_buffer n b = b ++ replicate (n - length b) 0

-- `Data.Serialize()`, `GroupedAVP.Serialize` included: no value is checked.
unfoldable mutual
  unfolding avp_len serialize_header in_buffer put_uint64 put_uint32 put_integer32 put_integer64 to4
      to16 put_address encode_seconds

  pub serialize_data : AvpData → List ℕ
  serialize_data nil_data = []
  serialize_data (unknown_data b) = b
  serialize_data (octet_string b) = b
  serialize_data (utf8_string b) = b
  serialize_data (diameter_identity b) = b
  serialize_data (diameter_uri b) = b
  serialize_data (ip_filter_rule b) = b
  serialize_data (qos_filter_rule b) = b
  serialize_data (raw_grouped b) = b
  serialize_data (ipv4 b) = to4 b
  serialize_data (ipv6 b) = to16 b
  serialize_data (unsigned32 n) = put_uint32 n
  serialize_data (unsigned64 n) = put_uint64 n
  serialize_data (float32 n) = put_uint32 n
  serialize_data (float64 n) = put_uint64 n
  serialize_data (integer32 n) = put_integer32 n
  serialize_data (integer64 n) = put_integer64 n
  serialize_data (enumerated n) = put_integer32 n
  serialize_data (time t) = put_uint32 (encode_seconds t)
  serialize_data (address family b) = put_address family b
  serialize_data (grouped ms) = serialize_members ms

  -- The loop's body.
  pub serialize_member : Avp → List ℕ
  serialize_member (avp c f n v d) =
      let payload = serialize_data d in
      in_buffer (avp_len (avp c f n v d)) (serialize_header c f v (length payload) ++ payload)

  pub serialize_members : Avps → List ℕ
  serialize_members nil = []
  serialize_members (cons a ms) = serialize_member a ++ serialize_members ms

-- The value checks of `SerializeTo`.
unfoldable pub check_data : AvpData → Bool
unfolding valid_address
check_data nil_data = false
check_data (address family b) = valid_address family b
check_data _ = true

-- `AVP.Serialize` and `SerializeTo`; `none` is an error.
unfoldable mutual
  unfolding check_data serialize_header serialize_data padding data_len maybe if◌then◌else◌

  pub serialize_to : Avp → Option (List ℕ)
  serialize_to (avp c f n v d) =
      let rest = serialize_payload d in
      if check_data d
      then maybe rest none (λ b. some (serialize_header c f v (data_len d) ++ b))
      else none

  pub serialize_payload : AvpData → Option (List ℕ)
  serialize_payload (grouped ms) = serialize_children ms
  serialize_payload d = some (serialize_data d ++ replicate (padding d) 0)

  pub serialize_children : Avps → Option (List ℕ)
  serialize_children nil = some []
  serialize_children (cons a ms) =
      let front = serialize_to a in
      let rest = serialize_children ms in
      maybe front none (λ b. maybe rest none (λ bs. some (b ++ bs)))

-- `newAVPWithFlags` and `NewAVP`; a pointer to an Address is not modelled.
unfoldable pub new_avp_with_flags : ℕ → ℕ → ℕ → AvpData → Avp
unfolding header_len data_len
new_avp_with_flags c f v d = avp c f (header_len f + data_len d) v d

unfoldable pub new_avp : ℕ → ℕ → ℕ → AvpData → Avp
unfolding new_avp_with_flags has_flag if◌then◌else◌
new_avp c f v d =
    let cleared = if has_flag f vbit then f - vbit else f in
    new_avp_with_flags c (if v == 0 then cleared else cleared + vbit) v d

-- `GroupedAVP.AddAVP`.
unfoldable pub add_to_group : Avps → Avp → Avps
add_to_group nil a = cons a nil
add_to_group (cons b ms) a = cons b (add_to_group ms a)
