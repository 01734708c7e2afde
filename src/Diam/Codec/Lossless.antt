-- ===== src/Diam/Codec/Lossless.antt =====
-- The octets of a value that was decoded.
use go_diameter.Prelude.{
  ℕ, false, ◌+◌, ◌*◌, ◌/◌, ◌%◌, ◌<◌, ◌^◌, ◌≡◌, ◌∙◌, refl, ap, sym, List, [], ◌∷◌, ◌++◌, arith, some,
  Option, inl, inr, suc,
}
use mathlib.Core.Path.{subst}
use go_diameter.Prelude.Lists.{length, All}
use go_diameter.Prelude.Tests.{maybe, Bool-cases, ltb, ◌==◌}
use go_diameter.Diam.Header.{uint32, put_uint32}
use go_diameter.Diam.Avp.{AvpData}
use go_diameter.Diam.Codec.{serialize_data, data_len}
use go_diameter.Diam.Datatype.{
  TypeId, uint64, put_uint64, to_signed, to_unsigned, put_integer32, put_integer64,
  decode_integer32, decode_integer64, decode_unsigned32, decode_unsigned64, decode_value,
  decode_seconds, encode_seconds, put_address, decode_address, decode_time, decode_ip, to4, to16,
  valid_address,
}
use go_diameter.Diam.Datatype.RoundTrip.{encode_seconds-decode_seconds}

abbrev pub Octets : List ℕ → Type 0
Octets b = All (λ x. x < 256) b

put_uint32-uint32 : (b : List ℕ) → length b ≡ 4 → Octets b → put_uint32 (uint32 b 0 1 2 3) ≡ b
unfolding put_uint32 uint32
put_uint32-uint32 [] e h = ground arith
put_uint32-uint32 (x ∷ []) e h = ground arith
put_uint32-uint32 (x ∷ y ∷ []) e h = ground arith
put_uint32-uint32 (x ∷ y ∷ z ∷ []) e h = ground arith
put_uint32-uint32 (x ∷ y ∷ z ∷ w ∷ []) e h = ground arith
put_uint32-uint32 (x ∷ y ∷ z ∷ w ∷ v ∷ b) e h = absurd (omega (arith, e))

uint32_bound :
    (w x y z : ℕ) (b : List ℕ)
    → w < 256
    → x < 256
    → y < 256
    → z < 256
    → uint32 (w ∷ x ∷ y ∷ z ∷ b) 0 1 2 3 < 2 ^ 32
unfolding uint32
uint32_bound w x y z b hw hx hy hz = omega arith

uint32_below : (b : List ℕ) → length b ≡ 4 → Octets b → uint32 b 0 1 2 3 < 2 ^ 32
uint32_below (w ∷ x ∷ y ∷ z ∷ b) e h = uint32_bound w x y z b h.0 h.1.0 h.1.1.0 h.1.1.1.0
uint32_below (w ∷ x ∷ y ∷ []) e h = absurd (omega (arith, e))
uint32_below (w ∷ x ∷ []) e h = absurd (omega (arith, e))
uint32_below (w ∷ []) e h = absurd (omega (arith, e))
uint32_below [] e h = absurd (omega (arith, e))

-- Eight octets are two words.
two_words :
    (m n : ℕ)
    → m < 2 ^ 32
    → n < 2 ^ 32
    → put_uint64 (m * 4294967296 + n) ≡ put_uint32 m ++ put_uint32 n
unfolding put_uint64 put_uint32
two_words m n hm hn = ground arith

to_unsigned-to_signed : (n : ℕ) → n < 2 ^ 32 → to_unsigned (2 ^ 32) (to_signed (2 ^ 32) n) ≡ n
unfolding to_unsigned to_signed
to_unsigned-to_signed n h = ground arith

to_unsigned-to_signed_64 : (n : ℕ) → n < 2 ^ 64 → to_unsigned (2 ^ 64) (to_signed (2 ^ 64) n) ≡ n
unfolding to_unsigned to_signed
to_unsigned-to_signed_64 n h = ground arith

uint64_lem :
    (s t u v w x y z : ℕ)
    → uint64 (s ∷ t ∷ u ∷ v ∷ w ∷ x ∷ y ∷ z ∷ [])
      ≡ uint32 (s ∷ t ∷ u ∷ v ∷ []) 0 1 2 3 * 4294967296 + uint32 (w ∷ x ∷ y ∷ z ∷ []) 0 1 2 3
unfolding uint64 uint32
uint64_lem s t u v w x y z = refl

put_uint64-uint64_of_eight :
    (s t u v w x y z : ℕ)
    → Octets (s ∷ t ∷ u ∷ v ∷ [])
    → Octets (w ∷ x ∷ y ∷ z ∷ [])
    → (put_uint64 (uint64 (s ∷ t ∷ u ∷ v ∷ w ∷ x ∷ y ∷ z ∷ []))
        ≡ s ∷ t ∷ u ∷ v ∷ w ∷ x ∷ y ∷ z ∷ [])
      × (uint64 (s ∷ t ∷ u ∷ v ∷ w ∷ x ∷ y ∷ z ∷ []) < 2 ^ 64)
put_uint64-uint64_of_eight s t u v w x y z h h' =
    let front : List ℕ = s ∷ t ∷ u ∷ v ∷ [] in
    let back : List ℕ = w ∷ x ∷ y ∷ z ∷ [] in
    let m = uint32_below front refl h in
    let n = uint32_below back refl h' in
    (
      ap put_uint64 (uint64_lem s t u v w x y z)
          ∙ (two_words _ _ m n
              ∙ (ap (λ (c : List ℕ). c ++ put_uint32 (uint32 back 0 1 2 3))
                    (put_uint32-uint32 front refl h)
                  ∙ ap (◌++◌ front) (put_uint32-uint32 back refl h'))),
      omega (arith, uint64_lem s t u v w x y z),
    )

put_uint64-uint64 :
    (b : List ℕ) → length b ≡ 8 → Octets b → (put_uint64 (uint64 b) ≡ b) × (uint64 b < 2 ^ 64)
put_uint64-uint64 (s ∷ t ∷ u ∷ v ∷ w ∷ x ∷ y ∷ z ∷ []) e h =
    put_uint64-uint64_of_eight s t u v w x y z (h.0, (h.1.0, (h.1.1.0, (h.1.1.1.0, tt)))) h.1.1.1.1
put_uint64-uint64 (s ∷ t ∷ u ∷ v ∷ w ∷ x ∷ y ∷ z ∷ a ∷ b) e h = absurd (omega (arith, e))
put_uint64-uint64 _ e h = absurd (omega (arith, e))

integer32_lossless : (b : List ℕ) → length b ≡ 4 → Octets b → put_integer32 (decode_integer32 b) ≡ b
unfolding put_integer32 decode_integer32
integer32_lossless b e h =
    rw (e, to_unsigned-to_signed (uint32 b 0 1 2 3) (uint32_below b e h)) (put_uint32-uint32 b e h)

integer64_lossless : (b : List ℕ) → length b ≡ 8 → Octets b → put_integer64 (decode_integer64 b) ≡ b
unfolding put_integer64 decode_integer64
integer64_lossless b e h =
    let q = put_uint64-uint64 b e h in rw (e, to_unsigned-to_signed_64 (uint64 b) q.1) q.0

unsigned32_lossless : (b : List ℕ) → length b ≡ 4 → Octets b → put_uint32 (decode_unsigned32 b) ≡ b
unfolding decode_unsigned32
unsigned32_lossless b e h = rw e (put_uint32-uint32 b e h)

unsigned64_lossless : (b : List ℕ) → length b ≡ 8 → Octets b → put_uint64 (decode_unsigned64 b) ≡ b
unfolding decode_unsigned64
unsigned64_lossless b e h = rw e (put_uint64-uint64 b e h).0

ipv4_lossless : (b : List ℕ) → length b ≡ 4 → to4 (decode_ip 4 b) ≡ b
unfolding to4 decode_ip
ipv4_lossless b e = ground arith

ipv6_lossless : (b : List ℕ) → length b ≡ 16 → to16 (decode_ip 16 b) ≡ b
unfolding to16 decode_ip
ipv6_lossless b e = ground arith

time_lossless :
    (b : List ℕ)
    → length b ≡ 4
    → Octets b
    → put_uint32 (encode_seconds (decode_seconds (uint32 b 0 1 2 3))) ≡ b
time_lossless b e h =
    rw (encode_seconds-decode_seconds _ (uint32_below b e h)) (put_uint32-uint32 b e h)

two_octets : (x y : ℕ) (b : List ℕ) → x < 256 → y < 256 → put_address (x * 256 + y) b ≡ x ∷ y ∷ b
unfolding put_address
two_octets x y b hx hy =
    let e : (x * 256 + y) / 256 % 256 ≡ x = omega arith in
    let e' : (x * 256 + y) % 256 ≡ y = omega arith in rw (e, e') refl

-- Where there is a value of as many octets, its octets are the payload's.
abbrev Kept : Option AvpData → List ℕ → Type 0
unfolding maybe
Kept o b = maybe o (Unit {0}) (λ d. data_len d ≡ length b → serialize_data d ≡ b)

decode_address-Kept : (b : List ℕ) → Octets b → Kept (decode_address b) b
unfolding decode_address serialize_data maybe
decode_address-Kept [] h = tt
decode_address-Kept (x ∷ []) h = tt
decode_address-Kept (x ∷ y ∷ b) h =
    let long : ltb (suc (suc (length b))) 2 ≡ false = ground arith in
    elim (Bool-cases (valid_address (x * 256 + y) b)) [
      | inl q ↦ rw (long, q) (λ e. two_octets x y b h.0 h.1.0)
      | inr q ↦ rw (long, q) tt
    ]

decode_time-Kept : (b : List ℕ) → Octets b → Kept (decode_time b) b
unfolding decode_time serialize_data maybe
decode_time-Kept b h = elim (Bool-cases (length b == 4)) [
  | inl q ↦ rw q (λ e. time_lossless b (sym e) h)
  | inr q ↦ rw q tt
]

decode_value-Kept : (t : TypeId) (b : List ℕ) → Octets b → Kept (decode_value t b) b
unfolding decode_value serialize_data maybe
decode_value-Kept TypeId.unknown_type b h = λ e. refl
decode_value-Kept TypeId.address_type b h = decode_address-Kept b h
decode_value-Kept TypeId.diameter_identity_type b h = λ e. refl
decode_value-Kept TypeId.diameter_uri_type b h = λ e. refl
decode_value-Kept TypeId.enumerated_type b h = λ e. integer32_lossless b (sym e) h
decode_value-Kept TypeId.float32_type b h = λ e. unsigned32_lossless b (sym e) h
decode_value-Kept TypeId.float64_type b h = λ e. unsigned64_lossless b (sym e) h
decode_value-Kept TypeId.grouped_type b h = λ e. refl
decode_value-Kept TypeId.ip_filter_rule_type b h = λ e. refl
decode_value-Kept TypeId.ipv4_type b h = λ e. ipv4_lossless b (sym e)
decode_value-Kept TypeId.integer32_type b h = λ e. integer32_lossless b (sym e) h
decode_value-Kept TypeId.integer64_type b h = λ e. integer64_lossless b (sym e) h
decode_value-Kept TypeId.octet_string_type b h = λ e. refl
decode_value-Kept TypeId.qos_filter_rule_type b h = λ e. refl
decode_value-Kept TypeId.time_type b h = decode_time-Kept b h
decode_value-Kept TypeId.utf8_string_type b h = λ e. refl
decode_value-Kept TypeId.unsigned32_type b h = λ e. unsigned32_lossless b (sym e) h
decode_value-Kept TypeId.unsigned64_type b h = λ e. unsigned64_lossless b (sym e) h
decode_value-Kept TypeId.ipv6_type b h = λ e. ipv6_lossless b (sym e)

-- A payload of octets that decodes to a value whose Len is the payload's length, which the AVP
-- decoder asks of every value, is serialized to the same octets.
pub serialize_data-decode_value :
    (t : TypeId) (b : List ℕ) (d : AvpData)
    → Octets b
    → decode_value t b ≡ some d
    → data_len d ≡ length b
    → serialize_data d ≡ b
unfolding Kept
serialize_data-decode_value t b d h e sized =
    let kept : Kept (some d) b =
      subst (λ (o : Option AvpData). Kept o b) e (decode_value-Kept t b h) in
    kept sized
