-- ===== src/Diam/Codec/Framing.antt =====
-- The header of an AVP: what it is read back as.
use go_diameter.Prelude.{
  ℕ, ◌+◌, ◌<◌, ◌≤◌, ◌^◌, ◌≡◌, refl, sym, true, false, List, ◌++◌, arith, inl, inr,
}
use go_diameter.Prelude.Lists.{length, take, drop, take-append, drop-append, length-append}
use mathlib.Core.List.{append_assoc}
use go_diameter.Prelude.Tests.{Bool-cases}
use go_diameter.Diam.Avp.{avp, nil_data}
use go_diameter.Diam.Header.{has_flag, octet, uint24, uint32, put_uint24, put_uint32}
use go_diameter.Diam.Codec.{vbit, header_len, serialize_header}
use go_diameter.Diam.Codec.Decode.{framed, decode_framing}

-- The ranges of a header's fields. Without the V bit there is no vendor.
pub record HeaderInRange (c f v payload_len : ℕ) : Type 0 where
  pub code : c < 2 ^ 32
  pub flags : f < 256
  pub vendor : v < 2 ^ 32
  pub no_vendor : has_flag f vbit ≡ false → v ≡ 0
  pub length : header_len f + payload_len < 2 ^ 24

pub header_len_with_vendor : (f : ℕ) → has_flag f vbit ≡ true → header_len f ≡ 12
unfolding header_len
header_len_with_vendor f e = rw e refl

pub header_len_plain : (f : ℕ) → has_flag f vbit ≡ false → header_len f ≡ 8
unfolding header_len
header_len_plain f e = rw e refl

pub length-serialize_header : (c f v n : ℕ) → length (serialize_header c f v n) ≡ header_len f
unfolding serialize_header header_len put_uint24 put_uint32
length-serialize_header c f v n = ground arith

-- The payload behind a header of `k` octets.
body_behind :
    (h body rest : List ℕ) (k n : ℕ)
    → length h ≡ k
    → n ≡ k + length body
    → drop k (take n (h ++ (body ++ rest))) ≡ body
body_behind h body rest k n e en =
    let total : length (h ++ body) ≡ n = omega (arith, length-append h body) in
    rw (sym (append_assoc h body rest), sym total, take-append (h ++ body) rest, sym e)
      (drop-append h body)

plain_framing :
    (b body : List ℕ) (c f n v : ℕ)
    → uint32 b 0 1 2 3 ≡ c
    → octet b 4 ≡ f
    → uint24 b 5 6 7 ≡ n
    → n ≤ length b
    → 8 ≤ n
    → has_flag f vbit ≡ false
    → v ≡ 0
    → drop 8 (take n b) ≡ body
    → decode_framing b ≡ framed (avp c f n v nil_data) body
unfolding decode_framing
plain_framing b body c f n v ec ef en enough least e z eb = ground arith

vendor_framing :
    (b body : List ℕ) (c f n v : ℕ)
    → uint32 b 0 1 2 3 ≡ c
    → octet b 4 ≡ f
    → uint24 b 5 6 7 ≡ n
    → uint32 b 8 9 10 11 ≡ v
    → n ≤ length b
    → 12 ≤ n
    → has_flag f vbit ≡ true
    → drop 12 (take n b) ≡ body
    → decode_framing b ≡ framed (avp c f n v nil_data) body
unfolding decode_framing
vendor_framing b body c f n v ec ef en ev enough least e eb = ground arith

-- The fields of a header, whatever follows it.
module _ (c f v n : ℕ) (xs : List ℕ) where
  code_read : c < 2 ^ 32 → uint32 (serialize_header c f v n ++ xs) 0 1 2 3 ≡ c
  unfolding serialize_header uint32 put_uint32
  code_read h = omega arith

  flags_read : f < 256 → octet (serialize_header c f v n ++ xs) 4 ≡ f
  unfolding serialize_header put_uint32
  flags_read h = omega arith

  length_read :
      header_len f + n < 2 ^ 24 → uint24 (serialize_header c f v n ++ xs) 5 6 7 ≡ header_len f + n
  unfolding serialize_header uint24 put_uint32 put_uint24
  length_read h = omega arith

  vendor_read :
      v < 2 ^ 32 → has_flag f vbit ≡ true → uint32 (serialize_header c f v n ++ xs) 8 9 10 11 ≡ v
  unfolding serialize_header uint32 put_uint32 put_uint24
  vendor_read h e = ground arith

pub decode_framing-serialize_header :
    (c f v : ℕ) (body rest : List ℕ)
    → HeaderInRange c f v (length body)
    → decode_framing (serialize_header c f v (length body) ++ (body ++ rest))
      ≡ framed (avp c f (header_len f + length body) v nil_data) body
decode_framing-serialize_header c f v body rest r =
    let n = header_len f + length body in
    let h = serialize_header c f v (length body) in
    let hl = length-serialize_header c f v (length body) in
    let all = length-append h (body ++ rest) in
    let tail = length-append body rest in
    let ec = code_read c f v (length body) (body ++ rest) r.code in
    let ef = flags_read c f v (length body) (body ++ rest) r.flags in
    let en = length_read c f v (length body) (body ++ rest) r.length in
    elim (Bool-cases (has_flag f vbit)) [
      | inl e ↦
          let twelve = header_len_with_vendor f e in
          vendor_framing _ body c f n v ec ef en
            (vendor_read c f v (length body) (body ++ rest) r.vendor e) (omega arith) (omega arith)
            e (body_behind h body rest 12 n (omega arith) (omega arith))
      | inr e ↦
          let eight = header_len_plain f e in
          plain_framing _ body c f n v ec ef en (omega arith) (omega arith) e (r.no_vendor e)
            (body_behind h body rest 8 n (omega arith) (omega arith))
    ]
