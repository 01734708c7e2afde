-- ===== src/Diam/Codec/Send.antt =====
-- What a checked AVP is written as.
use go_diameter.Prelude.{
  ℕ, ◌-◌, ◌≡◌, refl, sym, ap, true, false, List, ◌++◌, ◌∙◌, some, none, arith,
}
use mathlib.Core.List.{append_assoc, append-nil}
use go_diameter.Prelude.Lists.{length, replicate, length-append}
use go_diameter.Diam.Avp.{Avp, avp, AvpData, unknown_data, grouped, Avps, nil, cons}
use go_diameter.Diam.Datatype.{TypeId}
use go_diameter.Diam.Codec.{
  padding, data_len, avp_len, serialize_header, in_buffer, serialize_data, serialize_member,
  serialize_members, is_nil, check_data, serialize_to, serialize_payload, serialize_children,
}
use go_diameter.Diam.Codec.Decode.{decode}
use go_diameter.Diam.Codec.Evidence.{Snapshot}
use go_diameter.Diam.Codec.Framing.{length-serialize_header}
use go_diameter.Diam.Codec.Values.{HasType, HasType-is_nil, length-serialize_data}
use go_diameter.Diam.Codec.Member.{
  member_lem, avp_len_lem, serialize_members-cons, unknown_sized, grouped_sized,
}
use go_diameter.Diam.Codec.WellFormed.{
  WellFormed, leaf, unlisted, group, AllWellFormed, none_left, one_more, length-serialize_all,
}
use go_diameter.Diam.Codec.RoundTrip.{decode_avp-wellformed}

HasType-check_data : {t : TypeId} {d : AvpData} → HasType t d → check_data d ≡ true
unfolding check_data
HasType-check_data (HasType.address_value h v) = v
HasType-check_data _ = refl

HasType-serialize_payload :
    {t : TypeId} {d : AvpData}
    → HasType t d
    → serialize_payload d ≡ some (serialize_data d ++ replicate (padding d) 0)
unfolding serialize_payload
HasType-serialize_payload HasType.unknown_value = refl
HasType-serialize_payload _ = refl

-- The fill of a member is its padding.
member_padding :
    (c f n v : ℕ) (d : AvpData)
    → is_nil d ≡ false
    → length (serialize_data d) ≡ data_len d
    → serialize_member (avp c f n v d)
      ≡ serialize_header c f v (data_len d) ++ (serialize_data d ++ replicate (padding d) 0)
unfolding in_buffer
member_padding c f n v d e sized =
    let h : List ℕ = serialize_header c f v (length (serialize_data d)) in
    let p : List ℕ = h ++ serialize_data d in
    let k : avp_len (avp c f n v d) - length p ≡ padding d = omega (
      arith,
      length-append h (serialize_data d),
      length-serialize_header c f v (length (serialize_data d)),
      avp_len_lem c f n v d e,
    ) in
    member_lem c f n v d
    ∙ (ap (λ (m : ℕ). p ++ replicate m 0) k
        ∙ (append_assoc h (serialize_data d) (replicate (padding d) 0)
            ∙ ap
                (λ (m : ℕ).
                  serialize_header c f v m ++ (serialize_data d ++ replicate (padding d) 0))
                sized))

sent :
    (c f n v : ℕ) (d : AvpData) (b : List ℕ)
    → check_data d ≡ true
    → serialize_payload d ≡ some b
    → serialize_member (avp c f n v d) ≡ serialize_header c f v (data_len d) ++ b
    → serialize_to (avp c f n v d) ≡ some (serialize_member (avp c f n v d))
unfolding serialize_to
sent c f n v d b checked e m = rw (checked, e) (ap some (sym m))

children :
    (a : Avp) (ms : Avps)
    → serialize_to a ≡ some (serialize_member a)
    → serialize_children ms ≡ some (serialize_members ms)
    → serialize_children (cons a ms) ≡ some (serialize_members (cons a ms))
unfolding serialize_children
children a ms e es = rw (e, es) (ap some (sym (serialize_members-cons a ms)))

unknown_check : (b : List ℕ) → check_data (unknown_data b) ≡ true
unfolding check_data
unknown_check b = refl

unknown_payload :
    (b : List ℕ)
    → serialize_payload (unknown_data b)
      ≡ some (serialize_data (unknown_data b) ++ replicate (padding (unknown_data b)) 0)
unfolding serialize_payload
unknown_payload b = refl

grouped_check : (ms : Avps) → check_data (grouped ms) ≡ true
unfolding check_data
grouped_check ms = refl

grouped_payload : (ms : Avps) → serialize_payload (grouped ms) ≡ serialize_children ms
unfolding serialize_payload
grouped_payload ms = refl

grouped_fill :
    (ms : Avps)
    → serialize_data (grouped ms) ++ replicate (padding (grouped ms)) 0 ≡ serialize_members ms
unfolding padding serialize_data
grouped_fill ms = append-nil (serialize_members ms)

no_children : serialize_children nil ≡ some (serialize_members nil)
unfolding serialize_children serialize_members
no_children = refl

module _ (s : Snapshot) (app : ℕ) where
  mutual
    pub serialize_to-wellformed :
        {room : ℕ} {a : Avp} → WellFormed s app room a → serialize_to a ≡ some (serialize_member a)
    serialize_to-wellformed (leaf {c} {f} {n} {v} {d} r en el ty) =
        sent c f n v d _ (HasType-check_data ty) (HasType-serialize_payload ty)
          (member_padding c f n v d (HasType-is_nil ty) (length-serialize_data ty))
    serialize_to-wellformed (unlisted {c} {f} {n} {v} {b} r en el) =
        sent c f n v (unknown_data b) _ (unknown_check b) (unknown_payload b)
          (member_padding c f n v (unknown_data b) refl (unknown_sized b))
    serialize_to-wellformed (group {c} {f} {n} {v} {ms} r en el ws) =
        sent c f n v (grouped ms) (serialize_members ms) (grouped_check ms)
          (grouped_payload ms ∙ serialize_children-wellformed ws)
          (member_padding c f n v (grouped ms) refl
              (grouped_sized ms (length-serialize_all s app ws))
            ∙ ap (◌++◌ (serialize_header c f v (data_len (grouped ms)))) (grouped_fill ms))

    serialize_children-wellformed :
        {room : ℕ} {ms : Avps}
        → AllWellFormed s app room ms
        → serialize_children ms ≡ some (serialize_members ms)
    serialize_children-wellformed none_left = no_children
    serialize_children-wellformed (one_more {a} {ms} w ws) =
        children a ms (serialize_to-wellformed w) (serialize_children-wellformed ws)

-- An AVP that the dictionary describes, with its fields in range, its values of their types and its
-- nesting within the dictionary's limit, is serialized without an error, and its octets decode to the
-- same AVP, nested members included, without an error and whatever follows them.
pub decode-serialize_to :
    (s : Snapshot) (app : ℕ) (a : Avp) (rest : List ℕ)
    → WellFormed s app s.max_grouped_depth a
    → (serialize_to a ≡ some (serialize_member a))
      × (decode s app (serialize_member a ++ rest) ≡ record { decoded = a; err = none })
decode-serialize_to s app a rest w =
    (serialize_to-wellformed s app w, decode_avp-wellformed s app w false rest)
