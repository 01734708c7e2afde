-- ===== src/Diam/Codec/Member.antt =====
-- One AVP's octets: their number, and the header in front of them.
use go_diameter.Prelude.{ℕ, ◌+◌, ◌-◌, ◌≤◌, ◌≡◌, refl, ap, false, List, ◌++◌, ◌∙◌, arith}
use mathlib.Core.List.{append_assoc}
use go_diameter.Prelude.Lists.{length, replicate, length-append, length-replicate}
use go_diameter.Diam.Avp.{Avp, avp, AvpData, nil_data, unknown_data, grouped, Avps, nil, cons}
use go_diameter.Diam.Codec.{
  header_len, padding, data_len, avp_len, members_len, serialize_header, in_buffer, serialize_data,
  serialize_member, serialize_members, is_nil, padded_avp_length,
}
use go_diameter.Diam.Codec.Decode.{framed, decode_framing}
use go_diameter.Diam.Codec.Framing.{
  HeaderInRange, decode_framing-serialize_header, length-serialize_header,
}

pub length-in_buffer : (n : ℕ) (b : List ℕ) → length b ≤ n → length (in_buffer n b) ≡ n
unfolding in_buffer
length-in_buffer n b h =
    let fill : List ℕ = replicate (n - length b) 0 in
    omega (arith, length-append b fill, length-replicate {A = ℕ} (n - length b) 0)

pub member_lem :
    (c f n v : ℕ) (d : AvpData)
    → serialize_member (avp c f n v d)
      ≡ in_buffer
          (avp_len (avp c f n v d))
          (serialize_header c f v (length (serialize_data d)) ++ serialize_data d)
unfolding serialize_member
member_lem c f n v d = refl

pub avp_len_lem :
    (c f n v : ℕ) (d : AvpData)
    → is_nil d ≡ false
    → avp_len (avp c f n v d) ≡ header_len f + data_len d + padding d
unfolding avp_len
avp_len_lem c f n v d e = rw e refl

-- An AVP whose data has as many octets as its Len says.
module _ (c f n v : ℕ) (d : AvpData) (e : is_nil d ≡ false)
    (sized : length (serialize_data d) ≡ data_len d) where
  pub length-serialize_member : length (serialize_member (avp c f n v d)) ≡ avp_len (avp c f n v d)
  length-serialize_member =
      let h : List ℕ = serialize_header c f v (length (serialize_data d)) in
      rw (member_lem c f n v d) (
        length-in_buffer _ _ (
          omega (
            arith,
            length-append h (serialize_data d),
            length-serialize_header c f v (length (serialize_data d)),
            avp_len_lem c f n v d e,
          )))

  -- The header, the data, and zeroes.
  member_parts :
      (rest : List ℕ)
      → (fill : List ℕ) × (serialize_member (avp c f n v d) ++ rest
          ≡ serialize_header c f v (length (serialize_data d)) ++ (serialize_data d ++ fill))
  unfolding in_buffer
  member_parts rest =
      let p : List ℕ = serialize_header c f v (length (serialize_data d)) ++ serialize_data d in
      let zeroes : List ℕ = replicate (avp_len (avp c f n v d) - length p) 0 in
      (
        zeroes ++ rest,
        rw (member_lem c f n v d, append_assoc p zeroes rest)
            (append_assoc (serialize_header c f v (length (serialize_data d))) (serialize_data d)
              (zeroes ++ rest)),
      )

pub members_len-cons : (a : Avp) (ms : Avps) → members_len (cons a ms) ≡ avp_len a + members_len ms
unfolding members_len
members_len-cons a ms = refl

pub grouped_lem :
    (ms : Avps)
    → (data_len (grouped ms) ≡ members_len ms)
      × (serialize_data (grouped ms) ≡ serialize_members ms)
unfolding data_len serialize_data
grouped_lem ms = (refl, refl)

pub unknown_lem :
    (b : List ℕ) → (data_len (unknown_data b) ≡ length b) × (serialize_data (unknown_data b) ≡ b)
unfolding data_len serialize_data
unknown_lem b = (refl, refl)

pub nil_lem : length (serialize_members nil) ≡ members_len nil
unfolding serialize_members members_len
nil_lem = refl

pub serialize_members-cons :
    (a : Avp) (ms : Avps)
    → serialize_members (cons a ms) ≡ serialize_member a ++ serialize_members ms
unfolding serialize_members
serialize_members-cons a ms = refl

pub avp_len_least : (a : Avp) → 8 ≤ avp_len a
unfolding avp_len header_len padded_avp_length
avp_len_least (avp c f n v d) = ground arith

pub framing :
    (c f n v : ℕ) (d : AvpData) (rest : List ℕ)
    → is_nil d ≡ false
    → length (serialize_data d) ≡ data_len d
    → HeaderInRange c f v (data_len d)
    → n ≡ header_len f + data_len d
    → decode_framing (serialize_member (avp c f n v d) ++ rest)
      ≡ framed (avp c f n v nil_data) (serialize_data d)
framing c f n v d rest e sized r en =
    let body = serialize_data d in
    let r' : HeaderInRange c f v (length body) = rw sized r in
    let p = member_parts c f n v d e sized rest in
    let k : header_len f + length body ≡ n = omega (arith, sized, en) in
    ap decode_framing p.1
    ∙ (decode_framing-serialize_header c f v body p.0 r'
        ∙ ap (λ (m : ℕ). framed (avp c f m v nil_data) body) k)

pub unknown_sized :
    (b : List ℕ) → length (serialize_data (unknown_data b)) ≡ data_len (unknown_data b)
unfolding data_len serialize_data
unknown_sized b = refl

pub grouped_sized :
    (ms : Avps)
    → length (serialize_members ms) ≡ members_len ms
    → length (serialize_data (grouped ms)) ≡ data_len (grouped ms)
unfolding data_len serialize_data
grouped_sized ms h = h
