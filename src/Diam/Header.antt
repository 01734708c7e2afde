-- ===== src/Diam/Header.antt =====
-- diam/header.go and diam/uintconv.go: the twenty octets in front of every message. A field is a
-- number below the bound that its Go type gives, and octets are numbers below 256, so that
-- `a<<8 | b` is `a * 256 + b`.
pub mod RoundTrip
use go_diameter.Prelude.{
  ℕ, zero, suc, ◌+◌, ◌*◌, ◌/◌, ◌%◌, ◌<◌, Bool, true, false, not, List, [], ◌∷◌, ◌++◌, bit_and, none,
}
use go_diameter.Prelude.Tests.{◌==◌, ltb, if◌then◌else◌}
use go_diameter.Prelude.Lists.{length}
use go_diameter.Diam.Codes.{unsupported_version, invalid_message_length}
use go_diameter.Diam.Error.{Err, no_error, text, message}

pub record Header : Type 0 where
  pub version : ℕ
  pub message_length : ℕ
  pub command_flags : ℕ
  pub command_code : ℕ
  pub application_id : ℕ
  pub hop_by_hop_id : ℕ
  pub end_to_end_id : ℕ

abbrev pub header_length : ℕ
header_length = 20

abbrev pub request_flag : ℕ
request_flag = 0x80

abbrev pub proxiable_flag : ℕ
proxiable_flag = 0x40

abbrev pub error_flag : ℕ
error_flag = 0x20

abbrev pub retransmitted_flag : ℕ
retransmitted_flag = 0x10

-- `flags & flag != 0`.
unfoldable pub has_flag : ℕ → ℕ → Bool
has_flag flags flag = not (bit_and flags flag == 0)

abbrev pub is_request : Header → Bool
is_request h = has_flag h.command_flags request_flag

-- `data[i]`, for an index that the length check has put in range.
abbrev pub octet : List ℕ → ℕ → ℕ
octet [] i = 0
octet (b ∷ bs) zero = b
octet (b ∷ bs) (suc i) = octet bs i

-- `uint24to32(data[i:i+3])` and `binary.BigEndian.Uint32(data[i:i+4])`.
unfoldable pub uint24 : List ℕ → ℕ → ℕ → ℕ → ℕ
uint24 data_ i j k = octet data_ i * 65536 + octet data_ j * 256 + octet data_ k

unfoldable pub uint32 : List ℕ → ℕ → ℕ → ℕ → ℕ → ℕ
uint32 data_ i j k l =
    octet data_ i * 16777216 + octet data_ j * 65536 + octet data_ k * 256 + octet data_ l

-- `putUint24` and `binary.BigEndian.PutUint32`: the octets that they store.
unfoldable pub put_uint24 : ℕ → List ℕ
put_uint24 n = (n / 65536) % 256 ∷ (n / 256) % 256 ∷ n % 256 ∷ []

unfoldable pub put_uint32 : ℕ → List ℕ
put_uint32 n = (n / 16777216) % 256 ∷ (n / 65536) % 256 ∷ (n / 256) % 256 ∷ n % 256 ∷ []

-- The checks at the end of `DecodeFromBytes`.
check_header : Header → Err
unfolding if◌then◌else◌
check_header h =
    if not (h.version == 1)
    then message unsupported_version none true (text "unsupported Diameter version")
    else if ltb h.message_length header_length
    then message invalid_message_length none true (text "shorter than header length")
    else if not (h.message_length % 4 == 0)
    then message invalid_message_length none true (text "not a multiple of 4")
    else no_error

-- The receiver is overwritten also where a check then fails.
unfoldable pub decode_from_bytes : Header → List ℕ → (record { header : Header; err : Err })
unfolding check_header uint24 uint32 if◌then◌else◌
decode_from_bytes h data_ =
    let p : Header = record {
      version = octet data_ 0;
      message_length = uint24 data_ 1 2 3;
      command_flags = octet data_ 4;
      command_code = uint24 data_ 5 6 7;
      application_id = uint32 data_ 8 9 10 11;
      hop_by_hop_id = uint32 data_ 12 13 14 15;
      end_to_end_id = uint32 data_ 16 17 18 19;
    } in
    if ltb (length data_) header_length
    then record { header = h; err = text "not enough data to decode Header" }
    else record { header = p; err = check_header p }

unfoldable pub serialize : Header → List ℕ
unfolding put_uint24 put_uint32
serialize h =
    (h.version % 256)
    ∷ (put_uint24 h.message_length
        ++ ((h.command_flags % 256)
            ∷ (put_uint24 h.command_code
                ++ (put_uint32 h.application_id
                    ++ (put_uint32 h.hop_by_hop_id ++ put_uint32 h.end_to_end_id)))))
