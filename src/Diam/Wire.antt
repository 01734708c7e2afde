-- ===== src/Diam/Wire.antt =====
-- diam/message.go: a message as octets. What reads the octets from a connection, the command's entry
-- in the dictionary and the strict mode, which turns a decoding error into the message's, are not
-- modelled.
pub mod RoundTrip
pub mod Aligned
pub mod Fuel
use go_diameter.Prelude.{
  ℕ, zero, suc, ◌+◌, ◌-◌, ◌^◌, Bool, true, false, not, ◌&&◌, ◌||◌, Option, none, some, List, [],
  ◌∷◌, ◌++◌,
}
use go_diameter.Prelude.Tests.{◌==◌, ltb, is_some, maybe, if◌then◌else◌}
use go_diameter.Prelude.Lists.{length, drop}
use go_diameter.Diam.Avp.{Avp, avp, AvpData, unknown_data, grouped, Avps, nil, cons}
use go_diameter.Diam.Codes.{invalid_avp_length}
use go_diameter.Diam.Error.{Err, no_error, text, message, is_error}
use go_diameter.Diam.Header.{Header, header_length, has_flag, serialize}
use go_diameter.Diam.Codec.{avp_len, serialize_to, new_avp_with_flags}
use go_diameter.Diam.Codec.Decode.{Decoded, decode}
use go_diameter.Diam.Codec.Evidence.{
  Snapshot, lookup_avp, Reason, AvpError, length_error, decode_error,
}

-- `avp.Mbit`.
abbrev pub mbit : ℕ
mbit = 0x40

abbrev pub max_message_length : ℕ
max_message_length = 2 ^ 24 - 1

-- `Message.Len` and `serializeTo`, for the header and the AVPs; `none` is an error.
unfoldable pub avps_len : List Avp → ℕ
avps_len [] = 0
avps_len (a ∷ l) = avp_len a + avps_len l

unfoldable pub serialize_avps : List Avp → Option (List ℕ)
unfolding maybe
serialize_avps [] = some []
serialize_avps (a ∷ l) =
    let rest = serialize_avps l in
    maybe (serialize_to a) none (λ b. maybe rest none (λ bs. some (b ++ bs)))

unfoldable pub serialize_message : Header → List Avp → Option (List ℕ)
unfolding avps_len maybe if◌then◌else◌
serialize_message h l =
    let n = header_length + avps_len l in
    if ltb max_message_length n
    then none
    else maybe (serialize_avps l) none
        (λ b. some (serialize (record h { message_length = n }) ++ b))

-- `unknownMandatoryHierarchy`.
is_unknown_data : AvpData → Bool
is_unknown_data (unknown_data b) = true
is_unknown_data _ = false

unfoldable pub parent_of : ℕ → ℕ → ℕ → Avps → Option Avp
unfolding new_avp_with_flags
parent_of c f v nil = none
parent_of c f v (cons a ms) = some (new_avp_with_flags c f v (grouped (cons a ms)))

unfoldable mutual
  unfolding has_flag lookup_avp parent_of is_unknown_data maybe if◌then◌else◌

  pub unknown_mandatory : Snapshot → ℕ → Avp → Option Avp
  unknown_mandatory s app (avp c f n v d) =
      let inner = unknown_inside s app c f v d in
      if has_flag f mbit && is_unknown_data d && not (is_some (lookup_avp s app c v))
      then some (avp c f n v d)
      else inner

  pub unknown_inside : Snapshot → ℕ → ℕ → ℕ → ℕ → AvpData → Option Avp
  unknown_inside s app c f v (grouped ms) = parent_of c f v (unknown_children s app ms)
  unknown_inside s app c f v d = none

  pub unknown_children : Snapshot → ℕ → Avps → Avps
  unknown_children s app nil = nil
  unknown_children s app (cons a ms) =
      let rest = unknown_children s app ms in
      maybe (unknown_mandatory s app a) rest (λ failed. cons failed rest)

-- `m.AVP`, `m.unknownMandatoryAVPs` and `m.DecodeErr` after `decodeAVPs`, and the error it returns.
pub record DecodedAvps : Type 0 where
  pub avps : List Avp
  pub unknown : List Avp
  pub decode_err : Option AvpError
  pub failure : Err

unfoldable pub length_failure : Avp → Err
length_failure a = message invalid_avp_length (some a) false (text "not enough data to decode AVP")

unfoldable pub stopped : Option AvpError → Option Err
unfolding length_failure
stopped (some (length_error r a)) = some (length_failure a)
stopped _ = none

-- One turn of the loop, with what the turns after it give.
unfoldable pub keep_avp : Snapshot → ℕ → List ℕ → Decoded → DecodedAvps → DecodedAvps
unfolding stopped length_failure maybe if◌then◌else◌
keep_avp s app b r rest =
    let advance = avp_len r.decoded in
    let ended : Err → DecodedAvps =
      λ e. record { avps = []; unknown = []; decode_err = none; failure = e } in
    let added : DecodedAvps = record {
      avps = r.decoded ∷ rest.avps;
      unknown = maybe (unknown_mandatory s app r.decoded) rest.unknown (λ a. a ∷ rest.unknown);
      decode_err = if is_error rest.failure || not (is_some r.err) then rest.decode_err else r.err;
      failure = rest.failure;
    } in
    maybe (stopped r.err)
      (if advance == 0 || ltb (length b) advance then ended (length_failure r.decoded) else added)
      ended

-- `decodeAVPs`, on fuel.
unfoldable pub decode_avps : Snapshot → ℕ → ℕ → List ℕ → DecodedAvps
decode_avps s app (suc fuel) (x ∷ xs) =
    let r = decode s app (x ∷ xs) in
    keep_avp s app (x ∷ xs) r (decode_avps s app fuel (drop (avp_len r.decoded) (x ∷ xs)))
decode_avps s app fuel b = record { avps = []; unknown = []; decode_err = none; failure = no_error }
