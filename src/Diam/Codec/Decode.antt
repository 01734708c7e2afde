-- ===== src/Diam/Codec/Decode.antt =====
-- diam/avp.go and diam/group.go: octets as an AVP, with the error that a malformed AVP leaves. A
-- fallback's bytes are its own; who owns them in the program is not modelled.
use go_diameter.Prelude.{
  ℕ, ◌-◌, zero, suc, Bool, true, false, not, ◌&&◌, ◌||◌, Option, none, some, List, ◌∷◌,
}
use go_diameter.Prelude.Tests.{◌==◌, ltb, maybe, is_some, if◌then◌else◌}
use go_diameter.Prelude.Lists.{length, take, drop}
use go_diameter.Diam.Avp.{
  Avp, avp, code, vendor_id, AvpData, nil_data, unknown_data, grouped, Avps, nil, cons,
}
use go_diameter.Diam.Header.{has_flag, octet, uint24, uint32}
use go_diameter.Diam.Datatype.{TypeId, grouped_type, decode_value}
use go_diameter.Diam.Codec.{vbit, avp_len, data_len}
use go_diameter.Diam.Codec.Evidence.{
  Snapshot, lookup_avp, Reason, header_too_short, data_too_short, vendor_too_short, AvpError,
  length_error, decode_error, is_grouped_type, failed_avp_from_wire, new_decode_error,
  with_grouped_parent,
}

-- An AVP with the error that came with it.
pub record Decoded : Type 0 where
  pub decoded : Avp
  pub err : Option AvpError

pub record DecodedMembers : Type 0 where
  pub members : Avps
  pub err : Option AvpError

-- The framing of an AVP: the AVP without its data and the payload, or why there is none. The
-- length tests come before the Vendor-Id is read.
pub data Framing : Type 0 where
  framed : Avp → List ℕ → Framing
  misframed : Avp → Reason → Framing

unfoldable pub decode_framing : List ℕ → Framing
unfolding uint24 uint32 has_flag if◌then◌else◌
decode_framing b =
    let c = uint32 b 0 1 2 3 in
    let f = octet b 4 in
    let n = uint24 b 5 6 7 in
    let cut = take n b in
    if ltb (length b) 8
    then misframed (avp 0 0 0 0 nil_data) header_too_short
    else if ltb (length b) n
    then misframed (avp c f n 0 nil_data) data_too_short
    else if ltb n 8
    then misframed (avp c f n 0 nil_data) header_too_short
    else if not (has_flag f vbit)
    then framed (avp c f n 0 nil_data) (drop 8 cut)
    else if ltb n 12
    then misframed (avp c f n 0 nil_data) vendor_too_short
    else framed (avp c f n (uint32 b 8 9 10 11) nil_data) (drop 12 cut)

abbrev pub with_data : Avp → AvpData → Avp
with_data (avp c f n v old) d = avp c f n v d

abbrev pub is_length_error : Option AvpError → Bool
is_length_error (some (length_error r a)) = true
is_length_error _ = false

-- A length error ends the loop; of the others `decodeErrors` keeps the first.
unfoldable pub add_error : Option AvpError → Option AvpError → Option AvpError
unfolding if◌then◌else◌
add_error first later = if is_length_error later || not (is_some first) then later else first

-- Inside a Failed-AVP only an error of depth counts.
unfoldable pub counted : Bool → Option AvpError → Option AvpError
counted true (some (decode_error n a false)) = none
counted _ e = e

-- What one turn of the loop makes of a decoded member, the input from it on, and what the turns
-- after it give.
unfoldable pub add_member : Bool → List ℕ → Decoded → DecodedMembers → DecodedMembers
unfolding avp_len add_error counted if◌then◌else◌
add_member in_failed_avp b r rest =
    let advance = avp_len r.decoded in
    if is_length_error r.err
    then record { members = nil; err = r.err }
    else if advance == 0 || ltb (length b) advance
    then record { members = nil; err = some (length_error data_too_short r.decoded) }
    else record {
      members = cons r.decoded rest.members;
      err = add_error (counted in_failed_avp r.err) rest.err;
    }

-- The loop of `decodeGroupedFromBytes`, on fuel; `decode_one` is `decodeAVP` on the rest of the input.
unfoldable pub decode_members : (List ℕ → Decoded) → Bool → ℕ → List ℕ → DecodedMembers
decode_members decode_one in_failed_avp (suc fuel) (x ∷ xs) =
    let r = decode_one (x ∷ xs) in
    let rest = decode_members decode_one in_failed_avp fuel (drop (avp_len r.decoded) (x ∷ xs)) in
    add_member in_failed_avp (x ∷ xs) r rest
decode_members decode_one in_failed_avp fuel b = record { members = nil; err = none }

abbrev pub failed_avp_code : ℕ
failed_avp_code = 279

-- A value of a type that is not Grouped.
unfoldable pub decode_leaf : Avp → TypeId → List ℕ → Decoded
unfolding decode_value new_decode_error data_len maybe if◌then◌else◌
decode_leaf a t b =
    let failed : Decoded = record {
      decoded = with_data a (unknown_data b);
      err = some (new_decode_error a b t false);
    } in
    maybe (decode_value t b) failed (λ d.
      if data_len d == length b then record { decoded = with_data a d; err = none } else failed)

-- The end of the Grouped case.
unfoldable pub finish_group : Avp → List ℕ → DecodedMembers → Decoded
unfolding with_grouped_parent maybe
finish_group a b g =
    maybe g.err (record { decoded = with_data a (grouped g.members); err = none })
      (λ e. record { decoded = with_data a (unknown_data b); err = some (with_grouped_parent a e) })

-- `decodeAVP` and `decodeFromBytes`, for what is done with the payload of a Grouped AVP: what
-- follows the framing, and the whole.
unfoldable pub decode_framed : Snapshot → ℕ → (Avp → List ℕ → Decoded) → List ℕ → Framing → Decoded
unfolding maybe if◌then◌else◌
decode_framed s app decode_group b (misframed a r) = record {
  decoded = a;
  err = some (length_error r (failed_avp_from_wire s app b));
}
decode_framed s app decode_group b (framed a body) =
    maybe (lookup_avp s app (code a) (vendor_id a))
      (record { decoded = with_data a (unknown_data body); err = none })
      (λ t. if is_grouped_type t then decode_group a body else decode_leaf a t body)

unfoldable pub decode_with : Snapshot → ℕ → (Avp → List ℕ → Decoded) → List ℕ → Decoded
decode_with s app decode_group b = decode_framed s app decode_group b (decode_framing b)

-- Past the nesting limit.
unfoldable pub too_deep : Avp → List ℕ → Decoded
unfolding new_decode_error
too_deep a body = record {
  decoded = with_data a (unknown_data body);
  err = some (new_decode_error a body grouped_type true);
}

-- The same, where `room` is how many levels of Grouped AVPs may still be entered: the nesting limit
-- less the depth.
unfoldable pub decode_avp : Snapshot → ℕ → ℕ → Bool → List ℕ → Decoded
decode_avp s app zero in_failed_avp b = decode_with s app too_deep b
decode_avp s app (suc room) in_failed_avp b =
    decode_with s app
      (λ (a : Avp) (body : List ℕ).
        let evidence = in_failed_avp || (code a == failed_avp_code && vendor_id a == 0) in
        finish_group a body
          (decode_members (decode_avp s app room evidence) evidence (length body) body))
      b

-- `DecodeAVP`.
abbrev pub decode : Snapshot → ℕ → List ℕ → Decoded
decode s app b = decode_avp s app s.max_grouped_depth false b

-- `DecodeGroupedFromBytes`, the payload of a Grouped AVP at the first level.
unfoldable pub decode_grouped : Snapshot → ℕ → List ℕ → DecodedMembers
decode_grouped s app b =
    decode_members (decode_avp s app (s.max_grouped_depth - 1) false) false (length b) b
