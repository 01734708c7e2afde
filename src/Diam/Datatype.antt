-- ===== src/Diam/Datatype.antt =====
-- diam/datatype: the values that an AVP's octets stand for. The decoders that an application
-- registers at run time are not modelled.
pub mod RoundTrip
pub mod Uri
pub mod Identity
use go_diameter.Prelude.{
  ℕ, ◌+◌, ◌-◌, ◌*◌, ◌/◌, ◌%◌, ◌^◌, Bool, true, false, not, ◌&&◌, ◌||◌, Option, none, some, List, [],
  ◌∷◌, ◌++◌,
}
use go_diameter.Prelude.Tests.{◌==◌, ltb, leb, if◌then◌else◌}
use go_diameter.Prelude.Int.{ℤ, pos, negsuc}
use go_diameter.Prelude.Lists.{length, take, drop, replicate}
use go_diameter.Diam.Avp.{
  AvpData, nil_data, unknown_data, octet_string, utf8_string, diameter_identity, diameter_uri,
  ip_filter_rule, qos_filter_rule, raw_grouped, ipv4, ipv6, unsigned32, unsigned64, float32,
  float64, integer32, integer64, enumerated, time, address, grouped,
}
use go_diameter.Diam.Header.{octet, uint32, put_uint32}

-- `datatype.TypeID`: the built-in types.
pub data TypeId : Type 0 where
  unknown_type address_type diameter_identity_type diameter_uri_type enumerated_type : TypeId
  float32_type float64_type grouped_type ip_filter_rule_type ipv4_type integer32_type : TypeId
  integer64_type octet_string_type qos_filter_rule_type time_type utf8_string_type : TypeId
  unsigned32_type unsigned64_type ipv6_type : TypeId

-- `n + ((4 - n) & 3)`: two's complement makes the last term the distance to the next multiple of 4.
unfoldable pub pad4 : ℕ → ℕ
pad4 n = n + (4 - n % 4) % 4

-- `uint32(n)` of an `int32`, and `uint32(n)` and `uint64(n)` of a longer signed integer.
unfoldable pub to_unsigned : ℕ → ℤ → ℕ
to_unsigned bound (pos n) = n % bound
to_unsigned bound (negsuc n) = bound - 1 - n % bound

-- `int32(n)` of a `uint32`, `int64(n)` of a `uint64`.
unfoldable pub to_signed : ℕ → ℕ → ℤ
unfolding if◌then◌else◌
to_signed bound n = if ltb n (bound / 2) then pos n else negsuc (bound - 1 - n)

-- `binary.BigEndian.Uint64` and `PutUint64`.
unfoldable pub uint64 : List ℕ → ℕ
unfolding uint32
uint64 b = uint32 b 0 1 2 3 * 4294967296 + uint32 b 4 5 6 7

unfoldable pub put_uint64 : ℕ → List ℕ
unfolding put_uint32
put_uint64 n = put_uint32 (n / 4294967296) ++ put_uint32 n

-- The fixed-size decoders: a payload of another length is the zero value.
unfoldable pub decode_unsigned32 : List ℕ → ℕ
unfolding uint32 if◌then◌else◌
decode_unsigned32 b = if length b == 4 then uint32 b 0 1 2 3 else 0

unfoldable pub decode_unsigned64 : List ℕ → ℕ
unfolding uint64 if◌then◌else◌
decode_unsigned64 b = if length b == 8 then uint64 b else 0

unfoldable pub decode_integer32 : List ℕ → ℤ
unfolding to_signed uint32 if◌then◌else◌
decode_integer32 b = if length b == 4 then to_signed (2 ^ 32) (uint32 b 0 1 2 3) else pos 0

unfoldable pub decode_integer64 : List ℕ → ℤ
unfolding to_signed uint64 if◌then◌else◌
decode_integer64 b = if length b == 8 then to_signed (2 ^ 64) (uint64 b) else pos 0

unfoldable pub decode_ip : ℕ → List ℕ → List ℕ
unfolding if◌then◌else◌
decode_ip n b = if length b == n then b else replicate n 0

-- `Serialize` of the signed integers.
unfoldable pub put_integer32 : ℤ → List ℕ
unfolding to_unsigned put_uint32
put_integer32 n = put_uint32 (to_unsigned (2 ^ 32) n)

unfoldable pub put_integer64 : ℤ → List ℕ
unfolding to_unsigned put_uint64
put_integer64 n = put_uint64 (to_unsigned (2 ^ 64) n)

-- `rfc868offset` and `postRolloverUnixOffset`.
abbrev pub rfc868_offset : ℕ
rfc868_offset = 2208988800

abbrev pub post_rollover_offset : ℕ
post_rollover_offset = 2085978496

-- `int64(n) - rfc868offset`.
abbrev before_1970 : ℕ → ℤ
unfolding if◌then◌else◌
before_1970 n =
    if ltb n rfc868_offset then negsuc (rfc868_offset - 1 - n) else pos (n - rfc868_offset)

-- `DecodeTime` of four octets, as the number that they are.
unfoldable pub decode_seconds : ℕ → ℤ
unfolding before_1970 if◌then◌else◌
decode_seconds n = if ltb n (2 ^ 31) then pos (n + post_rollover_offset) else before_1970 n

-- `uint32(time.Time(t).Unix()) + rfc868offset`.
unfoldable pub encode_seconds : ℤ → ℕ
unfolding to_unsigned
encode_seconds t = (to_unsigned (2 ^ 32) t + rfc868_offset) % 2 ^ 32

-- `addr.Valid()`.
unfoldable pub valid_address : ℕ → List ℕ → Bool
unfolding if◌then◌else◌
valid_address family value =
    if family == 0 || family == 65535
    then false
    else if family == 1
    then length value == 4
    else if family == 2
    then length value == 16
    else true

-- `DecodeAddress`; `none` is an error.
unfoldable pub decode_address : List ℕ → Option AvpData
unfolding valid_address if◌then◌else◌
decode_address b =
    let family = octet b 0 * 256 + octet b 1 in
    if ltb (length b) 2
    then none
    else if valid_address family (drop 2 b)
    then some (address family (drop 2 b))
    else none

unfoldable pub decode_time : List ℕ → Option AvpData
unfolding decode_seconds uint32 if◌then◌else◌
decode_time b = if length b == 4 then some (time (decode_seconds (uint32 b 0 1 2 3))) else none

-- `datatype.Decode(t, b)`; `none` is an error.
unfoldable pub decode_value : TypeId → List ℕ → Option AvpData
unfolding decode_unsigned32 decode_unsigned64 decode_integer32 decode_integer64 decode_ip
    decode_address decode_time
decode_value unknown_type b = some (unknown_data b)
decode_value address_type b = decode_address b
decode_value diameter_identity_type b = some (diameter_identity b)
decode_value diameter_uri_type b = some (diameter_uri b)
decode_value enumerated_type b = some (enumerated (decode_integer32 b))
decode_value float32_type b = some (float32 (decode_unsigned32 b))
decode_value float64_type b = some (float64 (decode_unsigned64 b))
decode_value grouped_type b = some (raw_grouped b)
decode_value ip_filter_rule_type b = some (ip_filter_rule b)
decode_value ipv4_type b = some (ipv4 (decode_ip 4 b))
decode_value integer32_type b = some (integer32 (decode_integer32 b))
decode_value integer64_type b = some (integer64 (decode_integer64 b))
decode_value octet_string_type b = some (octet_string b)
decode_value qos_filter_rule_type b = some (qos_filter_rule b)
decode_value time_type b = decode_time b
decode_value utf8_string_type b = some (utf8_string b)
decode_value unsigned32_type b = some (unsigned32 (decode_unsigned32 b))
decode_value unsigned64_type b = some (unsigned64 (decode_unsigned64 b))
decode_value ipv6_type b = some (ipv6 (decode_ip 16 b))

-- The octets of an IPv4 address that is mapped into IPv6.
abbrev mapped_prefix : List ℕ
mapped_prefix = replicate 10 0 ++ (255 ∷ 255 ∷ [])

is_zero : List ℕ → Bool
is_zero [] = true
is_zero (x ∷ xs) = x == 0 && is_zero xs

is_mapped : List ℕ → Bool
unfolding is_zero
is_mapped ip = is_zero (take 10 ip) && (octet ip 10 == 255 && octet ip 11 == 255)

-- `Serialize` of `IPv4` and `IPv6`: `net.IP.To4` and `To16`, and the value where they give nil.
unfoldable pub to4 : List ℕ → List ℕ
unfolding is_mapped if◌then◌else◌
to4 ip = if length ip == 16 && is_mapped ip then drop 12 ip else ip

unfoldable pub to16 : List ℕ → List ℕ
unfolding if◌then◌else◌
to16 ip = if length ip == 4 then mapped_prefix ++ ip else ip

-- `Address.Serialize`.
unfoldable pub put_address : ℕ → List ℕ → List ℕ
put_address family value = (family / 256) % 256 ∷ family % 256 ∷ value
