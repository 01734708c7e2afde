-- ===== src/Base/Validation/Payload.antt =====
-- `validateTypes` of diam/internal/base/validation.go: what its checks of one payload amount to.
use go_diameter.Prelude.{ℕ, ◌≡◌, refl, Bool, true, false, not, ◌&&◌, ◌||◌, inl, inr, arith}
use go_diameter.Prelude.Tests.{◌==◌, is_some, maybe, if◌then◌else◌, Bool-cases}
use go_diameter.Diam.Avp.{
  AvpData, nil_data, unknown_data, octet_string, utf8_string, diameter_identity, diameter_uri,
  ip_filter_rule, qos_filter_rule, raw_grouped, ipv4, ipv6, unsigned32, unsigned64, float32,
  float64, integer32, integer64, enumerated, time, address, grouped,
}
use go_diameter.Diam.Codec.{serialize_data, data_len}
use go_diameter.Diam.Datatype.{unsigned32_type, enumerated_type, decode_address}
use go_diameter.Base.Validation.{
  Check, data_type, type_number, wrong_type, check_length, check_address,
}

-- A payload of a type of four octets has them.
pub unsigned32_length : (d : AvpData) → wrong_type unsigned32_type d ≡ false → data_len d ≡ 4
unfolding wrong_type data_type type_number data_len maybe if◌then◌else◌
unsigned32_length nil_data h = ground arith
unsigned32_length (unknown_data x) h = ground arith
unsigned32_length (octet_string x) h = ground arith
unsigned32_length (utf8_string x) h = ground arith
unsigned32_length (diameter_identity x) h = ground arith
unsigned32_length (diameter_uri x) h = ground arith
unsigned32_length (ip_filter_rule x) h = ground arith
unsigned32_length (qos_filter_rule x) h = ground arith
unsigned32_length (raw_grouped x) h = ground arith
unsigned32_length (ipv4 x) h = ground arith
unsigned32_length (ipv6 x) h = ground arith
unsigned32_length (unsigned32 x) h = refl
unsigned32_length (unsigned64 x) h = ground arith
unsigned32_length (float32 x) h = ground arith
unsigned32_length (float64 x) h = ground arith
unsigned32_length (integer32 x) h = ground arith
unsigned32_length (integer64 x) h = ground arith
unsigned32_length (enumerated x) h = ground arith
unsigned32_length (time x) h = ground arith
unsigned32_length (address x y) h = ground arith
unsigned32_length (grouped x) h = ground arith

pub enumerated_length : (d : AvpData) → wrong_type enumerated_type d ≡ false → data_len d ≡ 4
unfolding wrong_type data_type type_number data_len maybe if◌then◌else◌
enumerated_length nil_data h = ground arith
enumerated_length (unknown_data x) h = ground arith
enumerated_length (octet_string x) h = ground arith
enumerated_length (utf8_string x) h = ground arith
enumerated_length (diameter_identity x) h = ground arith
enumerated_length (diameter_uri x) h = ground arith
enumerated_length (ip_filter_rule x) h = ground arith
enumerated_length (qos_filter_rule x) h = ground arith
enumerated_length (raw_grouped x) h = ground arith
enumerated_length (ipv4 x) h = ground arith
enumerated_length (ipv6 x) h = ground arith
enumerated_length (unsigned32 x) h = ground arith
enumerated_length (unsigned64 x) h = ground arith
enumerated_length (float32 x) h = ground arith
enumerated_length (float64 x) h = ground arith
enumerated_length (integer32 x) h = ground arith
enumerated_length (integer64 x) h = ground arith
enumerated_length (enumerated x) h = refl
enumerated_length (time x) h = ground arith
enumerated_length (address x y) h = ground arith
enumerated_length (grouped x) h = ground arith

pub check_length-invalid :
    (d : AvpData) (n : ℕ) (w : Bool)
    → (w ≡ false → data_len d ≡ 4)
    → (check_length d (record { code = n; invalid = w })).invalid ≡ w
unfolding check_length if◌then◌else◌
check_length-invalid d n true h = elim (Bool-cases (data_len d == 4)) [
  | inl e ↦ ground (arith, e)
  | inr e ↦ ground (arith, e)
]
check_length-invalid d n false h = ground (arith, h refl)

pub check_address-invalid :
    (d : AvpData) (n : ℕ) (w : Bool)
    → (check_address d (record { code = n; invalid = w })).invalid
      ≡ not (not w && is_some (decode_address (serialize_data d)))
unfolding check_address if◌then◌else◌
check_address-invalid d n w = elim (Bool-cases (is_some (decode_address (serialize_data d)))) [
  | inl e ↦ ground (arith, e)
  | inr e ↦ ground (arith, e)
]

pub identity_invalid :
    (n : ℕ) (w u : Bool)
    → (let k : Check = record { code = n; invalid = w } in
        if w then k else record k { invalid = not u }).invalid
      ≡ not (not w && u)
unfolding if◌then◌else◌
identity_invalid n true u = refl
identity_invalid n false u = refl

pub utf8_invalid : (w u : Bool) → (w || not u) ≡ not (not w && u)
utf8_invalid w u = ground arith

pub finish : (w u b a : Bool) → w ≡ not u → not b ≡ a → (w || b) ≡ not (u && a)
finish w u b a h e = ground (arith, h, e)

pub not-not : (w : Bool) → w ≡ not (not w)
not-not w = ground arith
