-- ===== src/Diam/Codec/WellFormed.antt =====
-- The AVPs that a dictionary describes, and the number of their octets.
use go_diameter.Prelude.{ℕ, suc, ◌+◌, ◌≡◌, refl, List, some, none, arith}
use go_diameter.Prelude.Lists.{length, length-append}
use go_diameter.Diam.Avp.{Avp, avp, AvpData, unknown_data, grouped, Avps, nil, cons}
use go_diameter.Diam.Datatype.{TypeId, grouped_type}
use go_diameter.Diam.Codec.{
  header_len, data_len, avp_len, members_len, serialize_member, serialize_members,
}
use go_diameter.Diam.Codec.Evidence.{Snapshot, lookup_avp}
use go_diameter.Diam.Codec.Values.{HasType, HasType-is_nil, length-serialize_data}
use go_diameter.Diam.Codec.Framing.{HeaderInRange}
use go_diameter.Diam.Codec.Member.{
  length-serialize_member, members_len-cons, grouped_lem, unknown_lem, nil_lem,
  serialize_members-cons,
}

module _ (s : Snapshot) (app : ℕ) where
  -- An AVP that the dictionary types, of which at most `room` levels are Grouped, with its fields in
  -- range and the Length that its data has.
  mutual
    pub data WellFormed : ℕ → Avp → Type 0 where
      leaf :
          {room c f n v : ℕ} {t : TypeId} {d : AvpData}
          → HeaderInRange c f v (data_len d)
          → n ≡ header_len f + data_len d
          → lookup_avp s app c v ≡ some t
          → HasType t d
          → WellFormed room (avp c f n v d)
      unlisted :
          {room c f n v : ℕ} {b : List ℕ}
          → HeaderInRange c f v (data_len (unknown_data b))
          → n ≡ header_len f + data_len (unknown_data b)
          → lookup_avp s app c v ≡ none
          → WellFormed room (avp c f n v (unknown_data b))
      group :
          {room c f n v : ℕ} {ms : Avps}
          → HeaderInRange c f v (data_len (grouped ms))
          → n ≡ header_len f + data_len (grouped ms)
          → lookup_avp s app c v ≡ some grouped_type
          → AllWellFormed room ms
          → WellFormed (suc room) (avp c f n v (grouped ms))

    pub data AllWellFormed : ℕ → Avps → Type 0 where
      none_left : {room : ℕ} → AllWellFormed room nil
      one_more :
          {room : ℕ} {a : Avp} {ms : Avps}
          → WellFormed room a
          → AllWellFormed room ms
          → AllWellFormed room (cons a ms)

  mutual
    pub length-serialize_wellformed :
        {room : ℕ} {a : Avp} → WellFormed room a → length (serialize_member a) ≡ avp_len a
    length-serialize_wellformed (leaf {d} r en el t) =
        length-serialize_member _ _ _ _ d (HasType-is_nil t) (length-serialize_data t)
    length-serialize_wellformed (unlisted {b} r en el) =
        length-serialize_member _ _ _ _ (unknown_data b) refl (let u = unknown_lem b in cc)
    length-serialize_wellformed (group {ms} r en el ws) =
        length-serialize_member _ _ _ _ (grouped ms) refl
          (let u = grouped_lem ms in rw (u.0, u.1) (length-serialize_all ws))

    pub length-serialize_all :
        {room : ℕ} {ms : Avps}
        → AllWellFormed room ms
        → length (serialize_members ms) ≡ members_len ms
    length-serialize_all none_left = nil_lem
    length-serialize_all (one_more {a} {ms} w ws) =
        rw (serialize_members-cons a ms, members_len-cons a ms)
          (omega (
            arith,
            length-append (serialize_member a) (serialize_members ms),
            length-serialize_wellformed w,
            length-serialize_all ws,
          ))
