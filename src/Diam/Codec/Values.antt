-- ===== src/Diam/Codec/Values.antt =====
-- The values of the built-in types and what their octets decode to.
use go_diameter.Prelude.{ℕ, ◌<◌, ◌^◌, ◌≡◌, refl, true, false, List, some, arith}
use go_diameter.Prelude.Int.{ℤ}
use go_diameter.Prelude.Lists.{length}
use go_diameter.Diam.Avp.{
  AvpData, unknown_data, octet_string, utf8_string, diameter_identity, diameter_uri, ip_filter_rule,
  qos_filter_rule, ipv4, ipv6, unsigned32, unsigned64, float32, float64, integer32, integer64,
  enumerated, time, address,
}
use go_diameter.Diam.Datatype.{
  TypeId, unknown_type, address_type, diameter_identity_type, diameter_uri_type, enumerated_type,
  float32_type, float64_type, ip_filter_rule_type, ipv4_type, integer32_type, integer64_type,
  octet_string_type, qos_filter_rule_type, time_type, utf8_string_type, unsigned32_type,
  unsigned64_type, ipv6_type, valid_address, decode_value,
}
use go_diameter.Diam.Datatype.RoundTrip.{
  InSigned, InWindow, decode_unsigned32-put_uint32, decode_unsigned64-put_uint64,
  decode_integer32-put_integer32, decode_integer64-put_integer64, decode_time-put,
  decode_address-put_address,
}
use go_diameter.Diam.Codec.{data_len, serialize_data, is_nil}
use go_diameter.Diam.Codec.Evidence.{is_grouped_type}

-- The values of a built-in type that its octets can hold.
pub data HasType : TypeId → AvpData → Type 0 where
  unknown_value : {b : List ℕ} → HasType unknown_type (unknown_data b)
  address_value :
      {family : ℕ} {b : List ℕ}
      → family < 2 ^ 16
      → valid_address family b ≡ true
      → HasType address_type (address family b)
  identity_value : {b : List ℕ} → HasType diameter_identity_type (diameter_identity b)
  uri_value : {b : List ℕ} → HasType diameter_uri_type (diameter_uri b)
  enumerated_value : {n : ℤ} → InSigned (2 ^ 32) n → HasType enumerated_type (enumerated n)
  float32_value : {n : ℕ} → n < 2 ^ 32 → HasType float32_type (float32 n)
  float64_value : {n : ℕ} → n < 2 ^ 64 → HasType float64_type (float64 n)
  filter_value : {b : List ℕ} → HasType ip_filter_rule_type (ip_filter_rule b)
  ipv4_value : {b : List ℕ} → length b ≡ 4 → HasType ipv4_type (ipv4 b)
  integer32_value : {n : ℤ} → InSigned (2 ^ 32) n → HasType integer32_type (integer32 n)
  integer64_value : {n : ℤ} → InSigned (2 ^ 64) n → HasType integer64_type (integer64 n)
  string_value : {b : List ℕ} → HasType octet_string_type (octet_string b)
  qos_value : {b : List ℕ} → HasType qos_filter_rule_type (qos_filter_rule b)
  time_value : {t : ℤ} → InWindow t → HasType time_type (time t)
  utf8_value : {b : List ℕ} → HasType utf8_string_type (utf8_string b)
  unsigned32_value : {n : ℕ} → n < 2 ^ 32 → HasType unsigned32_type (unsigned32 n)
  unsigned64_value : {n : ℕ} → n < 2 ^ 64 → HasType unsigned64_type (unsigned64 n)
  ipv6_value : {b : List ℕ} → length b ≡ 16 → HasType ipv6_type (ipv6 b)

pub HasType-not_grouped : {t : TypeId} {d : AvpData} → HasType t d → is_grouped_type t ≡ false
HasType-not_grouped unknown_value = refl
HasType-not_grouped (address_value _ _) = refl
HasType-not_grouped _ = refl

pub HasType-is_nil : {t : TypeId} {d : AvpData} → HasType t d → is_nil d ≡ false
HasType-is_nil unknown_value = refl
HasType-is_nil _ = refl

pub length-serialize_data :
    {t : TypeId} {d : AvpData} → HasType t d → length (serialize_data d) ≡ data_len d
unfolding serialize_data data_len
length-serialize_data unknown_value = refl
length-serialize_data (address_value _ _) = omega arith
length-serialize_data identity_value = refl
length-serialize_data uri_value = refl
length-serialize_data (enumerated_value _) = refl
length-serialize_data (float32_value _) = refl
length-serialize_data (float64_value _) = refl
length-serialize_data filter_value = refl
length-serialize_data (ipv4_value h) = ground arith
length-serialize_data (integer32_value _) = refl
length-serialize_data (integer64_value _) = refl
length-serialize_data string_value = refl
length-serialize_data qos_value = refl
length-serialize_data (time_value _) = refl
length-serialize_data utf8_value = refl
length-serialize_data (unsigned32_value _) = refl
length-serialize_data (unsigned64_value _) = refl
length-serialize_data (ipv6_value h) = ground arith

pub decode_value-serialize_data :
    {t : TypeId} {d : AvpData} → HasType t d → decode_value t (serialize_data d) ≡ some d
unfolding decode_value serialize_data
decode_value-serialize_data unknown_value = refl
decode_value-serialize_data (address_value h v) = decode_address-put_address _ _ h v
decode_value-serialize_data identity_value = refl
decode_value-serialize_data uri_value = refl
decode_value-serialize_data (enumerated_value r) = rw (decode_integer32-put_integer32 r) refl
decode_value-serialize_data (float32_value h) = rw (decode_unsigned32-put_uint32 _ h) refl
decode_value-serialize_data (float64_value h) = rw (decode_unsigned64-put_uint64 _ h) refl
decode_value-serialize_data filter_value = refl
decode_value-serialize_data (ipv4_value h) = ground arith
decode_value-serialize_data (integer32_value r) = rw (decode_integer32-put_integer32 r) refl
decode_value-serialize_data (integer64_value r) = rw (decode_integer64-put_integer64 r) refl
decode_value-serialize_data string_value = refl
decode_value-serialize_data qos_value = refl
decode_value-serialize_data (time_value w) = decode_time-put w
decode_value-serialize_data utf8_value = refl
decode_value-serialize_data (unsigned32_value h) = rw (decode_unsigned32-put_uint32 _ h) refl
decode_value-serialize_data (unsigned64_value h) = rw (decode_unsigned64-put_uint64 _ h) refl
decode_value-serialize_data (ipv6_value h) = ground arith
