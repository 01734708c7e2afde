-- ===== src/Diam/Wire/RoundTrip.antt =====
-- What a message's octets decode to.
use go_diameter.Prelude.{
  ℕ, zero, suc, ◌+◌, ◌%◌, ◌≤◌, ◌<◌, ◌^◌, ◌≡◌, refl, sym, false, ◌||◌, List, [], ◌∷◌, ◌++◌, some,
  none, arith,
}
use go_diameter.Prelude.Lists.{length, drop, All, length-append, drop-append}
use go_diameter.Prelude.Tests.{◌==◌, maybe, ltb}
use go_diameter.Diam.Avp.{Avp}
use go_diameter.Diam.Error.{no_error}
use go_diameter.Diam.Header.{Header, header_length, serialize, decode_from_bytes}
use go_diameter.Diam.Header.RoundTrip.{InRange, decode_from_bytes-serialize, serialize_shape}
use go_diameter.Diam.Codec.{avp_len, serialize_member}
use go_diameter.Diam.Codec.Decode.{decode}
use go_diameter.Diam.Codec.Evidence.{Snapshot}
use go_diameter.Diam.Codec.Member.{avp_len_least}
use go_diameter.Diam.Codec.WellFormed.{WellFormed, length-serialize_wellformed}
use go_diameter.Diam.Codec.RoundTrip.{decode_avp-wellformed}
use go_diameter.Diam.Codec.Send.{serialize_to-wellformed}
use go_diameter.Diam.Wire.{
  max_message_length, avps_len, serialize_avps, serialize_message, unknown_mandatory, keep_avp,
  decode_avps, stopped,
}
use go_diameter.Diam.Wire.Aligned.{avp_len-Aligned}

-- The octets of AVPs in their order, and those of them that are reported as unknown and mandatory.
abbrev pub octets : List Avp → List ℕ
octets [] = []
octets (a ∷ l) = serialize_member a ++ octets l

unfoldable pub reported : Snapshot → ℕ → List Avp → List Avp
unfolding maybe
reported s app [] = []
reported s app (a ∷ l) =
    let rest = reported s app l in maybe (unknown_mandatory s app a) rest (λ x. x ∷ rest)

module _ (s : Snapshot) (app : ℕ) where
  abbrev pub Good : List Avp → Type 0
  Good l = All (WellFormed s app s.max_grouped_depth) l

  serialize_avps-Good : (l : List Avp) → Good l → serialize_avps l ≡ some (octets l)
  unfolding serialize_avps
  serialize_avps-Good [] g = refl
  serialize_avps-Good (a ∷ l) g =
      rw (serialize_to-wellformed s app g.0, serialize_avps-Good l g.1) refl

  length-octets : (l : List Avp) → Good l → length (octets l) ≡ avps_len l
  unfolding avps_len
  length-octets [] g = refl
  length-octets (a ∷ l) g = omega (
    arith,
    length-append (serialize_member a) (octets l),
    length-serialize_wellformed s app g.0,
    length-octets l g.1,
  )

  avps_len_aligned : (l : List Avp) → Good l → avps_len l % 4 ≡ 0
  unfolding avps_len
  avps_len_aligned [] g = refl
  avps_len_aligned (a ∷ l) g = omega (arith, avp_len-Aligned s app g.0, avps_len_aligned l g.1)

  -- One turn of the loop, at an AVP that decodes.
  kept_avp :
      (a : Avp) (b : List ℕ) (l : List Avp)
      → avp_len a ≤ length b
      → keep_avp s app b
          (record { decoded = a; err = none })
          (record { avps = l; unknown = reported s app l; decode_err = none; failure = no_error })
        ≡ record {
          avps = a ∷ l;
          unknown = reported s app (a ∷ l);
          decode_err = none;
          failure = no_error;
        }
  unfolding keep_avp reported stopped
  kept_avp a b l h =
      let least = avp_len_least a in
      let some_octets : (avp_len a == 0 || ltb (length b) (avp_len a)) ≡ false = ground arith in
      rw some_octets refl

  next_avp :
      (fuel : ℕ) (a : Avp) (front back : List ℕ) (l : List Avp)
      → decode s app (front ++ back) ≡ record { decoded = a; err = none }
      → length front ≡ avp_len a
      → decode_avps s app fuel back
        ≡ record { avps = l; unknown = reported s app l; decode_err = none; failure = no_error }
      → decode_avps s app (suc fuel) (front ++ back) ≡ record {
        avps = a ∷ l;
        unknown = reported s app (a ∷ l);
        decode_err = none;
        failure = no_error;
      }
  unfolding decode_avps
  next_avp fuel a [] back l e sized ih = absurd (omega (arith, sized, avp_len_least a))
  next_avp fuel a (x ∷ xs) back l e sized ih =
      let all = length-append xs back in
      rw (e, sym sized, drop-append xs back, ih)
        (kept_avp a (x ∷ (xs ++ back)) l (omega (arith, all, sized)))

  nothing_left :
      (fuel : ℕ)
      → decode_avps s app fuel []
        ≡ record { avps = []; unknown = reported s app []; decode_err = none; failure = no_error }
  unfolding decode_avps reported
  nothing_left zero = refl
  nothing_left (suc fuel) = refl

  decode_avps-octets :
      (l : List Avp) (fuel : ℕ)
      → Good l
      → length (octets l) ≤ fuel
      → decode_avps s app fuel (octets l)
        ≡ record { avps = l; unknown = reported s app l; decode_err = none; failure = no_error }
  decode_avps-octets [] fuel g h = nothing_left fuel
  decode_avps-octets (a ∷ l) zero g h = absurd (
      omega (
        arith,
        length-append (serialize_member a) (octets l),
        length-serialize_wellformed s app g.0,
        avp_len_least a,
      ))
  decode_avps-octets (a ∷ l) (suc fuel) g h =
      let all = length-append (serialize_member a) (octets l) in
      let sized = length-serialize_wellformed s app g.0 in
      let least = avp_len_least a in
      next_avp fuel a (serialize_member a) (octets l) l
        (decode_avp-wellformed s app g.0 false (octets l)) sized
        (decode_avps-octets l fuel g.1 (omega arith))

-- The header that is written: its Message-Length is the message's length.
abbrev pub sent_header : Header → List Avp → Header
sent_header h l = record h { message_length = header_length + avps_len l }

serialize_message-Good :
    (s : Snapshot) (app : ℕ) (h : Header) (l : List Avp)
    → header_length + avps_len l < 2 ^ 24
    → Good s app l
    → serialize_message h l ≡ some (serialize (sent_header h l) ++ octets l)
unfolding serialize_message
serialize_message-Good s app h l fits g =
    let short : ltb max_message_length (header_length + avps_len l) ≡ false = ground arith in
    rw (short, serialize_avps-Good s app l g) refl

body_lem : (h : Header) (b : List ℕ) → drop header_length (serialize h ++ b) ≡ b
body_lem h b = rw (sym (serialize_shape h).0) (drop-append (serialize h) b)

-- A message of version 1 whose AVPs the dictionary describes, with its fields and its length in
-- range, is serialized without an error, with the length of all its octets in the header and
-- whatever length the header had. Of these octets the header is read back, valid, and the rest, with
-- fuel for each octet of it, decodes to the same AVPs in their order, without an error and with
-- exactly the unknown mandatory AVPs reported.
pub decode-serialize_message :
    (s : Snapshot) (h old : Header) (l : List Avp)
    → h.version ≡ 1
    → InRange (sent_header h l)
    → Good s h.application_id l
    → (serialize_message h l ≡ some (serialize (sent_header h l) ++ octets l))
      × (decode_from_bytes old (serialize (sent_header h l) ++ octets l)
          ≡ record { header = sent_header h l; err = no_error })
      × (decode_avps s h.application_id
            (length (octets l))
            (drop header_length (serialize (sent_header h l) ++ octets l))
          ≡ record {
            avps = l;
            unknown = reported s h.application_id l;
            decode_err = none;
            failure = no_error;
          })
decode-serialize_message s h old l one r g =
    let four = avps_len_aligned s h.application_id l g in
    (
      serialize_message-Good s h.application_id h l r.message_length g,
      decode_from_bytes-serialize (sent_header h l) old (octets l) r
          (record { version = one; covers = omega arith; aligned = omega (arith, four) }),
      rw (body_lem (sent_header h l) (octets l))
          (decode_avps-octets s h.application_id l (length (octets l)) g (omega arith)),
    )
