-- ===== src/Diam/Codec/RoundTrip.antt =====
-- What an AVP's octets decode to.
use go_diameter.Prelude.{
  ℕ, zero, suc, ◌+◌, ◌≤◌, ◌≡◌, refl, sym, ap, Bool, List, ◌++◌, ◌∙◌, none, arith,
}
use go_diameter.Prelude.Lists.{length, length-append}
use go_diameter.Diam.Avp.{Avp, avp, nil_data, unknown_data, grouped, Avps, cons}
use go_diameter.Diam.Codec.{serialize_data, serialize_member, serialize_members}
use go_diameter.Diam.Codec.Decode.{framed, decode_members, decode_avp}
use go_diameter.Diam.Codec.Evidence.{Snapshot}
use go_diameter.Diam.Codec.Values.{
  HasType-is_nil, HasType-not_grouped, length-serialize_data, decode_value-serialize_data,
}
use go_diameter.Diam.Codec.Member.{
  grouped_lem, unknown_lem, serialize_members-cons, avp_len_least, framing, unknown_sized,
  grouped_sized,
}
use go_diameter.Diam.Codec.WellFormed.{
  WellFormed, leaf, unlisted, group, AllWellFormed, none_left, one_more,
  length-serialize_wellformed, length-serialize_all,
}
use go_diameter.Diam.Codec.Steps.{
  members_step, no_members, leaf_decodes, unlisted_decodes, decode_avp_with, group_finishes,
}

module _ (s : Snapshot) (app : ℕ) where
  mutual
    pub decode_avp-wellformed :
        {room : ℕ} {a : Avp}
        → WellFormed s app room a
        → (evidence : Bool) (rest : List ℕ)
        → decode_avp s app room evidence (serialize_member a ++ rest)
          ≡ record { decoded = a; err = none }
    decode_avp-wellformed (leaf {room} {c} {f} {n} {v} {t} {d} r en el ty) evidence rest =
        let sized = length-serialize_data ty in
        let w = decode_avp_with s app room evidence (serialize_member (avp c f n v d) ++ rest) in
        w.1
        ∙ leaf_decodes s app w.0 _ (serialize_data d) c f n v t d
            (framing c f n v d rest (HasType-is_nil ty) sized r en) el (HasType-not_grouped ty)
            (decode_value-serialize_data ty) (sym sized)
    decode_avp-wellformed (unlisted {room} {c} {f} {n} {v} {b} r en el) evidence rest =
        let u = unknown_lem b in
        let d = unknown_data b in
        let w = decode_avp_with s app room evidence (serialize_member (avp c f n v d) ++ rest) in
        w.1
        ∙ unlisted_decodes s app w.0 _ b c f n v
            (framing c f n v d rest refl (unknown_sized b) r en
              ∙ ap (framed (avp c f n v nil_data)) u.1)
            el
    decode_avp-wellformed (group {room} {c} {f} {n} {v} {ms} r en el ws) evidence rest =
        group_finishes s app room evidence _ (serialize_data (grouped ms)) c f n v ms
          (framing c f n v (grouped ms) rest refl (grouped_sized ms (length-serialize_all s app ws))
            r en)
          el
          (λ (inner : Bool).
            rw (grouped_lem ms).1
              (decode_members-wellformed ws inner (length (serialize_members ms)) (omega arith)))

    decode_members-wellformed :
        {room : ℕ} {ms : Avps}
        → AllWellFormed s app room ms
        → (evidence : Bool) (fuel : ℕ) → length (serialize_members ms) ≤ fuel
        → decode_members (decode_avp s app room evidence) evidence fuel (serialize_members ms)
          ≡ record { members = ms; err = none }
    decode_members-wellformed none_left evidence fuel h = no_members _ evidence fuel
    decode_members-wellformed (one_more {a} {ms} w ws) evidence zero h = absurd (
        omega (
          arith,
          ap {B = ℕ} length (serialize_members-cons a ms),
          length-append (serialize_member a) (serialize_members ms),
          length-serialize_wellformed s app w,
          avp_len_least a,
        ))
    decode_members-wellformed (one_more {room} {a} {ms} w ws) evidence (suc fuel) h =
        let all : length (serialize_members (cons a ms))
            ≡ length (serialize_member a) + length (serialize_members ms) =
          ap length (serialize_members-cons a ms)
          ∙ length-append (serialize_member a) (serialize_members ms) in
        let sized = length-serialize_wellformed s app w in
        let some_octets = avp_len_least a in
        let rest = decode_members-wellformed ws evidence fuel (omega arith) in
        ap (decode_members (decode_avp s app room evidence) evidence (suc fuel))
          (serialize_members-cons a ms)
        ∙ (members_step (decode_avp s app room evidence) evidence fuel a (serialize_member a)
              (serialize_members ms) (decode_avp-wellformed w evidence (serialize_members ms)) sized
              (omega arith)
            ∙ rw rest refl)
