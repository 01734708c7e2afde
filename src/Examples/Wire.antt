-- ===== src/Examples/Wire.antt =====
-- A Failed-AVP that holds a Result-Code and an AVP of a vendor that the dictionary does not have, and
-- the AVP codec's theorems at it.
mod Packet
use go_diameter.Diam.Header.RoundTrip.{InRange}
use go_diameter.Diam.Error.{no_error}
use go_diameter.Diam.Wire.{avps_len, serialize_message, decode_avps}
use go_diameter.Diam.Wire.RoundTrip.{octets, reported, Good, sent_header, decode-serialize_message}
use go_diameter.Prelude.Lists.{length, drop, All}
use go_diameter.Examples.{request_header}
use go_diameter.Diam.Header.{header_length, serialize, decode_from_bytes}
use go_diameter.Diam.Edit.{Body, add_avp, insert_avp, delete_avp, is_avp}
use go_diameter.Diam.Edit.Lengths.{HasLength, edit-HasLength}
use go_diameter.Prelude.{ℕ, false, none, some, List, [], ◌∷◌, ◌++◌, ◌≡◌, ◌≤◌, ◌+◌, refl, not, arith}
use go_diameter.Prelude.Tests.{◌==◌, if◌then◌else◌}
use go_diameter.Prelude.Int.{pos}
use go_diameter.Diam.Avp.{Avp, avp, unknown_data, unsigned32, grouped, time, nil, cons}
use go_diameter.Diam.Codes.{invalid_avp_length}
use go_diameter.Diam.Datatype.{
  unsigned32_type, grouped_type, time_type, decode_value, decode_seconds, encode_seconds,
}
use go_diameter.Diam.Datatype.RoundTrip.{since_1970, decode_seconds-encode_seconds}
use go_diameter.Diam.Codec.{
  header_len, data_len, members_len, serialize_data, serialize_header, serialize_member,
  serialize_to,
}
use go_diameter.Diam.Codec.Decode.{
  decode_members, decode, decode_avp, decode_with, decode_framed, decode_framing, decode_leaf,
}
use go_diameter.Diam.Codec.Evidence.{Snapshot, decode_error, lookup_avp, minimum_payload_length}
use go_diameter.Diam.Codec.Values.{unsigned32_value}
use go_diameter.Diam.Codec.WellFormed.{WellFormed, leaf, unlisted, group, none_left, one_more}
use go_diameter.Diam.Codec.Send.{decode-serialize_to}
use go_diameter.Diam.Codec.Fuel.{decode_members-ends}
use go_diameter.Diam.Codec.Depth.{nesting, nesting-decode}
use go_diameter.Diam.Codec.Failures.{decode-wrong_size}
use go_diameter.Diam.Codec.Lossless.{serialize_data-decode_value}

abbrev dictionary : Snapshot
unfolding if◌then◌else◌
dictionary = record {
  avpcode = λ app c v.
      if not (v == 0)
      then none
      else if c == 268
      then some unsigned32_type
      else if c == 279
      then some grouped_type
      else none;
  max_grouped_depth = 2;
}

abbrev result_code : Avp
result_code = avp 268 64 12 0 (unsigned32 5012)

abbrev vendor_value : Avp
vendor_value = avp 999 128 15 10415 (unknown_data (1 ∷ 2 ∷ 3 ∷ []))

abbrev failed : Avp
failed = avp 279 64 36 0 (grouped (cons result_code (cons vendor_value nil)))

result_code-WellFormed : WellFormed dictionary 4 1 result_code
unfolding dictionary lookup_avp data_len header_len
result_code-WellFormed =
    leaf
      (record {
        code = omega arith;
        flags = omega arith;
        vendor = omega arith;
        no_vendor = λ e. refl;
        length = omega arith;
      })
      refl refl (unsigned32_value (omega arith))

vendor_value-WellFormed : WellFormed dictionary 4 1 vendor_value
unfolding dictionary lookup_avp data_len header_len
vendor_value-WellFormed =
    unlisted {c = 999} {f = 128} {v = 10415} {b = 1 ∷ 2 ∷ 3 ∷ []}
      (record {
        code = omega arith;
        flags = omega arith;
        vendor = omega arith;
        no_vendor = λ e. absurd (ground arith);
        length = omega arith;
      })
      refl refl

failed-WellFormed : WellFormed dictionary 4 2 failed
unfolding dictionary lookup_avp data_len header_len
failed-WellFormed =
    group
      (record {
        code = omega arith;
        flags = omega arith;
        vendor = omega arith;
        no_vendor = λ e. refl;
        length = omega arith;
      })
      refl refl (one_more result_code-WellFormed (one_more vendor_value-WellFormed none_left))

decode-serialize_to_example :
    (serialize_to failed ≡ some (serialize_member failed))
    × (decode dictionary 4 (serialize_member failed ++ (7 ∷ []))
        ≡ record { decoded = failed; err = none })
unfolding dictionary
decode-serialize_to_example = decode-serialize_to dictionary 4 failed (7 ∷ []) failed-WellFormed

-- The octets themselves.
abbrev wire : List ℕ
wire = 0 ∷ 0 ∷ 1 ∷ 12 ∷ 64 ∷ 0 ∷ 0 ∷ 12 ∷ 0 ∷ 0 ∷ 19 ∷ 148 ∷ []

result_code_wire : serialize_member result_code ≡ wire
unfolding serialize_member
result_code_wire = refl

wire_decodes : decode dictionary 4 wire ≡ record { decoded = result_code; err = none }
unfolding decode_avp dictionary decode_with decode_framed decode_framing lookup_avp decode_leaf
wire_decodes = refl

decode_members-ends_example :
    (decode_members (decode dictionary 4) false 50 wire
      ≡ decode_members (decode dictionary 4) false 12 wire)
    × ((decode_members (decode dictionary 4) false 50 wire).err ≡ none
        → members_len (decode_members (decode dictionary 4) false 50 wire).members ≡ 12)
decode_members-ends_example = decode_members-ends (decode dictionary 4) false 50 wire (omega arith)

nesting-decode_example : nesting (decode dictionary 4 wire).decoded ≤ 2
unfolding dictionary
nesting-decode_example = nesting-decode dictionary 4 wire

decode-wrong_size_example :
    decode dictionary 4 (serialize_header 268 64 0 3 ++ (1 ∷ 2 ∷ 3 ∷ 0 ∷ [])) ≡ record {
      decoded = avp 268 64 (header_len 64 + 3) 0 (unknown_data (1 ∷ 2 ∷ 3 ∷ []));
      err = some (
          decode_error invalid_avp_length
            (avp 268 64 (header_len 64 + 3) 0 (unknown_data (1 ∷ 2 ∷ 3 ∷ [])))
            false);
    }
unfolding dictionary lookup_avp minimum_payload_length header_len
decode-wrong_size_example =
    decode-wrong_size dictionary 4 268 64 0 unsigned32_type (1 ∷ 2 ∷ 3 ∷ []) (0 ∷ [])
      (record {
        code = omega arith;
        flags = omega arith;
        vendor = omega arith;
        no_vendor = λ e. refl;
        length = omega arith;
      })
      refl (omega arith, refl) (omega arith)

serialize_data-decode_value_example : serialize_data (time (pos 0)) ≡ 131 ∷ 170 ∷ 126 ∷ 128 ∷ []
unfolding decode_value data_len
serialize_data-decode_value_example =
    serialize_data-decode_value time_type (131 ∷ 170 ∷ 126 ∷ 128 ∷ []) (time (pos 0)) (omega arith)
      refl refl
