-- ===== src/Examples/Wire/Packet.antt =====
-- The message that carries the Failed-AVP, and its AVPs added and deleted.
use go_diameter.Diam.Header.RoundTrip.{InRange}
use go_diameter.Diam.Error.{no_error}
use go_diameter.Diam.Wire.{avps_len, serialize_message, decode_avps}
use go_diameter.Diam.Wire.RoundTrip.{octets, reported, Good, sent_header, decode-serialize_message}
use go_diameter.Prelude.Lists.{length, drop, All}
use go_diameter.Examples.{request_header}
use go_diameter.Diam.Header.{header_length, serialize, decode_from_bytes}
use go_diameter.Diam.Edit.{Body, add_avp, insert_avp, delete_avp, is_avp}
use go_diameter.Diam.Edit.Lengths.{HasLength, edit-HasLength}
use go_diameter.Prelude.{false, none, some, [], ◌∷◌, ◌++◌, ◌≡◌, ◌+◌, refl, arith}
use go_diameter.Diam.Codec.{avp_len}
use go_diameter.Examples.Wire.{dictionary, result_code, vendor_value, failed, failed-WellFormed}

failed_header-InRange : InRange (sent_header request_header (failed ∷ []))
unfolding avps_len avp_len
failed_header-InRange = record {
  version = omega arith;
  message_length = omega arith;
  command_flags = omega arith;
  command_code = omega arith;
  application_id = omega arith;
  hop_by_hop_id = omega arith;
  end_to_end_id = omega arith;
}

failed-Good : Good dictionary 4 (failed ∷ [])
unfolding dictionary
failed-Good = (failed-WellFormed, tt)

decode-serialize_message_example :
    (serialize_message request_header (failed ∷ [])
      ≡ some (serialize (sent_header request_header (failed ∷ [])) ++ octets (failed ∷ [])))
    × (decode_from_bytes request_header
          (serialize (sent_header request_header (failed ∷ [])) ++ octets (failed ∷ []))
        ≡ record { header = sent_header request_header (failed ∷ []); err = no_error })
    × (decode_avps dictionary 4 (length (octets (failed ∷ []))) (
          drop header_length
            (serialize (sent_header request_header (failed ∷ [])) ++ octets (failed ∷ [])))
        ≡ record {
          avps = failed ∷ [];
          unknown = reported dictionary 4 (failed ∷ []);
          decode_err = none;
          failure = no_error;
        })
decode-serialize_message_example =
    decode-serialize_message dictionary request_header request_header (failed ∷ []) refl
      failed_header-InRange failed-Good

abbrev body : Body
body = record { message_length = 48; avps = result_code ∷ vendor_value ∷ [] }

body-HasLength : HasLength body
unfolding avps_len avp_len
body-HasLength = refl

edit-HasLength_example :
    HasLength (add_avp failed body)
    × HasLength (insert_avp failed body)
    × HasLength (delete_avp 268 0 body).body
    × All (λ b. is_avp 268 0 b ≡ false) (delete_avp 268 0 body).body.avps
    × ((delete_avp 268 0 body).count + length (delete_avp 268 0 body).body.avps ≡ 2)
edit-HasLength_example = edit-HasLength body failed 268 0 body-HasLength
