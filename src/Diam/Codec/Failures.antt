-- ===== src/Diam/Codec/Failures.antt =====
-- What a payload of the wrong size decodes to.
use go_diameter.Prelude.{
  ℕ, ◌+◌, ◌<◌, ◌≡◌, ◌≢◌, refl, ap, sym, ◌∙◌, inl, inr, true, false, not, List, ◌++◌, Option, some,
  arith,
}
use go_diameter.Prelude.Lists.{length}
use go_diameter.Prelude.Tests.{maybe, ◌==◌, Option-cases}
use go_diameter.Diam.Avp.{Avp, avp, AvpData, nil_data, unknown_data}
use go_diameter.Diam.Codes.{invalid_avp_length}
use go_diameter.Diam.Datatype.{TypeId, decode_value}
use go_diameter.Diam.Codec.{header_len, data_len, serialize_header}
use go_diameter.Diam.Codec.Decode.{
  Decoded, framed, decode, decode_with, decode_framing, decode_framed, decode_leaf,
}
use go_diameter.Diam.Codec.Evidence.{
  Snapshot, decode_error, lookup_avp, minimum_payload_length, is_address_type, is_grouped_type,
  new_decode_error,
}
use go_diameter.Diam.Codec.Framing.{HeaderInRange, decode_framing-serialize_header}
use go_diameter.Diam.Codec.Steps.{decode_avp_with}

-- The types whose values all have the same number of octets.
abbrev pub IsFixed : TypeId → Type 0
IsFixed t = (0 < minimum_payload_length t) × (is_address_type t ≡ false)

wrong_size :
    (t : TypeId) (b : List ℕ)
    → IsFixed t
    → length b ≢ minimum_payload_length t
    → maybe (decode_value t b) true (λ d. not (data_len d == length b)) ≡ true
unfolding minimum_payload_length decode_value maybe data_len
wrong_size TypeId.address_type b fixed e = ground arith
wrong_size TypeId.time_type b fixed e = ground arith
wrong_size t b fixed e = ground arith

IsFixed-not_grouped : (t : TypeId) → IsFixed t → is_grouped_type t ≡ false
unfolding minimum_payload_length
IsFixed-not_grouped TypeId.grouped_type fixed = ground arith
IsFixed-not_grouped TypeId.unknown_type fixed = refl
IsFixed-not_grouped _ fixed = refl

-- The error of a value of the wrong size carries the whole AVP.
fixed_error :
    (c f n v : ℕ) (t : TypeId) (b : List ℕ)
    → IsFixed t
    → length b ≢ minimum_payload_length t
    → new_decode_error (avp c f n v nil_data) b t false
      ≡ decode_error invalid_avp_length (avp c f (header_len f + length b) v (unknown_data b)) false
unfolding new_decode_error
fixed_error c f n v t b fixed e = let other = IsFixed-not_grouped t fixed in ground arith

decode_leaf-wrong_size :
    (c f n v : ℕ) (t : TypeId) (b : List ℕ)
    → IsFixed t
    → length b ≢ minimum_payload_length t
    → decode_leaf (avp c f n v nil_data) t b ≡ record {
      decoded = avp c f n v (unknown_data b);
      err = some (new_decode_error (avp c f n v nil_data) b t false);
    }
unfolding decode_leaf
decode_leaf-wrong_size c f n v t b fixed e = elim (Option-cases (decode_value t b)) [
  | inl q ↦ rw q refl
  | inr (d, q) ↦
      let bad : not (data_len d == length b) ≡ true =
        ap (λ (o : Option AvpData). maybe o true (λ x. not (data_len x == length b))) (sym q)
        ∙ wrong_size t b fixed e in
      let differs : (data_len d == length b) ≡ false = ground arith in rw (q, differs) refl
]

framed_leaf :
    (s : Snapshot) (app : ℕ) (g : Avp → List ℕ → Decoded) (b body : List ℕ) (c f n v : ℕ)
    (t : TypeId)
    → decode_framing b ≡ framed (avp c f n v nil_data) body
    → lookup_avp s app c v ≡ some t
    → is_grouped_type t ≡ false
    → decode_with s app g b ≡ decode_leaf (avp c f n v nil_data) t body
unfolding decode_with decode_framed
framed_leaf s app g b body c f n v t e el plain = rw (e, el, plain) refl

-- An AVP within its fields' ranges, of a type whose values all have one size and with a payload of
-- another, decodes to an AVP that keeps the payload as it is, with the error
-- DIAMETER_INVALID_AVP_LENGTH whose Failed-AVP is that whole AVP, whatever follows it.
pub decode-wrong_size :
    (s : Snapshot) (app c f v : ℕ) (t : TypeId) (body rest : List ℕ)
    → HeaderInRange c f v (length body)
    → lookup_avp s app c v ≡ some t
    → IsFixed t
    → length body ≢ minimum_payload_length t
    → decode s app (serialize_header c f v (length body) ++ (body ++ rest)) ≡ record {
      decoded = avp c f (header_len f + length body) v (unknown_data body);
      err = some (
          decode_error invalid_avp_length
            (avp c f (header_len f + length body) v (unknown_data body))
            false);
    }
decode-wrong_size s app c f v t body rest r el fixed e =
    let n = header_len f + length body in
    let b = serialize_header c f v (length body) ++ (body ++ rest) in
    let w = decode_avp_with s app s.max_grouped_depth false b in
    w.1
    ∙ (framed_leaf s app w.0 b body c f n v t (decode_framing-serialize_header c f v body rest r) el
          (IsFixed-not_grouped t fixed)
        ∙ (decode_leaf-wrong_size c f n v t body fixed e
            ∙ rw (fixed_error c f n v t body fixed e) refl))
