-- ===== src/Diam/Datatype/RoundTrip.antt =====
-- What the octets of a value decode to.
use go_diameter.Prelude.{ℕ, ◌+◌, ◌-◌, ◌/◌, ◌<◌, ◌^◌, ◌≡◌, refl, true, List, some, arith}
use go_diameter.Prelude.Int.{ℤ, pos, negsuc}
use go_diameter.Diam.Avp.{time, address}
use go_diameter.Diam.Header.{uint32, put_uint32}
use go_diameter.Diam.Datatype.{
  rfc868_offset, post_rollover_offset, decode_seconds, encode_seconds, to_signed, to_unsigned,
  uint64, put_uint64, put_integer32, put_integer64, decode_integer32, decode_integer64,
  decode_unsigned32, decode_unsigned64, valid_address, decode_address, put_address, decode_time,
}

uint32-put_uint32 : (n : ℕ) → n < 2 ^ 32 → uint32 (put_uint32 n) 0 1 2 3 ≡ n
unfolding uint32 put_uint32
uint32-put_uint32 n h = omega arith

uint64-put_uint64 : (n : ℕ) → n < 2 ^ 64 → uint64 (put_uint64 n) ≡ n
unfolding uint64 put_uint64 uint32 put_uint32
uint64-put_uint64 n h = omega arith

-- The range of a signed type of `bound` values.
pub data InSigned (bound : ℕ) : ℤ → Type 0 where
  nonnegative : {n : ℕ} → n < bound / 2 → InSigned bound (pos n)
  negative : {n : ℕ} → n < bound / 2 → InSigned bound (negsuc n)

to_unsigned_below : (n : ℤ) → to_unsigned (2 ^ 32) n < 2 ^ 32
unfolding to_unsigned
to_unsigned_below (pos n) = omega arith
to_unsigned_below (negsuc n) = omega arith

to_unsigned_below_64 : (n : ℤ) → to_unsigned (2 ^ 64) n < 2 ^ 64
unfolding to_unsigned
to_unsigned_below_64 (pos n) = omega arith
to_unsigned_below_64 (negsuc n) = omega arith

to_signed-to_unsigned :
    {n : ℤ} → InSigned (2 ^ 32) n → to_signed (2 ^ 32) (to_unsigned (2 ^ 32) n) ≡ n
unfolding to_signed to_unsigned
to_signed-to_unsigned (nonnegative h) = ground arith
to_signed-to_unsigned (negative h) = ground arith

to_signed-to_unsigned_64 :
    {n : ℤ} → InSigned (2 ^ 64) n → to_signed (2 ^ 64) (to_unsigned (2 ^ 64) n) ≡ n
unfolding to_signed to_unsigned
to_signed-to_unsigned_64 (nonnegative h) = ground arith
to_signed-to_unsigned_64 (negative h) = ground arith

pub decode_unsigned32-put_uint32 : (n : ℕ) → n < 2 ^ 32 → decode_unsigned32 (put_uint32 n) ≡ n
unfolding decode_unsigned32 put_uint32
decode_unsigned32-put_uint32 n h = uint32-put_uint32 n h

pub decode_unsigned64-put_uint64 : (n : ℕ) → n < 2 ^ 64 → decode_unsigned64 (put_uint64 n) ≡ n
unfolding decode_unsigned64 put_uint64
decode_unsigned64-put_uint64 n h = uint64-put_uint64 n h

pub decode_integer32-put_integer32 :
    {n : ℤ} → InSigned (2 ^ 32) n → decode_integer32 (put_integer32 n) ≡ n
unfolding decode_integer32 put_integer32
decode_integer32-put_integer32 {n} r =
    rw (uint32-put_uint32 _ (to_unsigned_below n)) (to_signed-to_unsigned r)

pub decode_integer64-put_integer64 :
    {n : ℤ} → InSigned (2 ^ 64) n → decode_integer64 (put_integer64 n) ≡ n
unfolding decode_integer64 put_integer64
decode_integer64-put_integer64 {n} r =
    rw (uint64-put_uint64 _ (to_unsigned_below_64 n)) (to_signed-to_unsigned_64 r)

-- A time is read back from its 32 bits, and every 32 bits are a time's.
pub encode_seconds-decode_seconds : (n : ℕ) → n < 2 ^ 32 → encode_seconds (decode_seconds n) ≡ n
unfolding encode_seconds decode_seconds
encode_seconds-decode_seconds n h = ground arith

-- The times that 32 bits reach: from 1968-01-20 03:14:08, the first with the top bit set, to
-- 2104-02-26 09:42:23.
pub data InWindow : ℤ → Type 0 where
  since_1970 : {n : ℕ} → n < 2 ^ 31 + post_rollover_offset → InWindow (pos n)
  until_1970 : {n : ℕ} → n < rfc868_offset - 2 ^ 31 → InWindow (negsuc n)

-- A time between 1968 and 2104, in the window that 32 bits reach, is read back from its 32 bits.
pub decode_seconds-encode_seconds : {t : ℤ} → InWindow t → decode_seconds (encode_seconds t) ≡ t
unfolding encode_seconds decode_seconds to_unsigned
decode_seconds-encode_seconds (since_1970 h) = ground arith
decode_seconds-encode_seconds (until_1970 h) = ground arith

encode_seconds_below : (t : ℤ) → encode_seconds t < 2 ^ 32
unfolding encode_seconds
encode_seconds_below t = omega arith

pub decode_time-put :
    {t : ℤ} → InWindow t → decode_time (put_uint32 (encode_seconds t)) ≡ some (time t)
unfolding decode_time put_uint32
decode_time-put {t} w =
    rw (uint32-put_uint32 _ (encode_seconds_below t), decode_seconds-encode_seconds w) refl

pub decode_address-put_address :
    (family : ℕ) (b : List ℕ)
    → family < 2 ^ 16
    → valid_address family b ≡ true
    → decode_address (put_address family b) ≡ some (address family b)
unfolding decode_address put_address
decode_address-put_address family b h v = ground arith
