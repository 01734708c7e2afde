-- ===== src/Diam/Wire/Aligned.antt =====
-- An AVP's padded length is a multiple of four.
use go_diameter.Prelude.{ℕ, ◌+◌, ◌%◌, ◌≡◌, refl, false, List, arith}
use go_diameter.Diam.Avp.{Avp, avp, AvpData, unknown_data, grouped, Avps, nil}
use go_diameter.Diam.Datatype.{TypeId}
use go_diameter.Diam.Codec.{header_len, padding, data_len, avp_len, members_len, is_nil}
use go_diameter.Diam.Codec.Evidence.{Snapshot}
use go_diameter.Diam.Codec.Values.{HasType, HasType-is_nil}
use go_diameter.Diam.Codec.Member.{avp_len_lem, members_len-cons}
use go_diameter.Diam.Codec.WellFormed.{
  WellFormed, leaf, unlisted, group, AllWellFormed, none_left, one_more,
}

abbrev Aligned : ℕ → Type 0
Aligned n = n % 4 ≡ 0

header_len-Aligned : (f : ℕ) → Aligned (header_len f)
unfolding header_len
header_len-Aligned f = ground arith

HasType-Aligned : {t : TypeId} {d : AvpData} → HasType t d → Aligned (data_len d + padding d)
unfolding data_len padding
HasType-Aligned HasType.unknown_value = omega arith
HasType-Aligned _ = omega arith

unknown-Aligned : (b : List ℕ) → Aligned (data_len (unknown_data b) + padding (unknown_data b))
unfolding data_len padding
unknown-Aligned b = omega arith

grouped-Aligned :
    (ms : Avps) → Aligned (members_len ms) → Aligned (data_len (grouped ms) + padding (grouped ms))
unfolding data_len padding
grouped-Aligned ms h = omega (arith, h)

nil-Aligned : Aligned (members_len nil)
unfolding members_len
nil-Aligned = refl

of_data :
    (c f n v : ℕ) (d : AvpData)
    → is_nil d ≡ false
    → Aligned (data_len d + padding d)
    → Aligned (avp_len (avp c f n v d))
of_data c f n v d e h = omega (arith, h, avp_len_lem c f n v d e, header_len-Aligned f)

module _ (s : Snapshot) (app : ℕ) where
  mutual
    pub avp_len-Aligned : {room : ℕ} {a : Avp} → WellFormed s app room a → Aligned (avp_len a)
    avp_len-Aligned (leaf {c} {f} {n} {v} {d} r en el ty) =
        of_data c f n v d (HasType-is_nil ty) (HasType-Aligned ty)
    avp_len-Aligned (unlisted {c} {f} {n} {v} {b} r en el) =
        of_data c f n v (unknown_data b) refl (unknown-Aligned b)
    avp_len-Aligned (group {c} {f} {n} {v} {ms} r en el ws) =
        of_data c f n v (grouped ms) refl (grouped-Aligned ms (members_len-Aligned ws))

    members_len-Aligned :
        {room : ℕ} {ms : Avps} → AllWellFormed s app room ms → Aligned (members_len ms)
    members_len-Aligned none_left = nil-Aligned
    members_len-Aligned (one_more {a} {ms} w ws) =
        omega (arith, avp_len-Aligned w, members_len-Aligned ws, members_len-cons a ms)
