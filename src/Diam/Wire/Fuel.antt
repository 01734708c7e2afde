-- ===== src/Diam/Wire/Fuel.antt =====
-- The loop over a message's AVPs: its fuel.
use go_diameter.Prelude.{ℕ, zero, suc, ◌≤◌, ◌≡◌, refl, ap, List, [], ◌∷◌, arith}
use go_diameter.Prelude.Lists.{length, drop}
use go_diameter.Diam.Codec.{avp_len}
use go_diameter.Diam.Codec.Decode.{decode}
use go_diameter.Diam.Codec.Evidence.{Snapshot}
use go_diameter.Diam.Codec.Member.{avp_len_least}
use go_diameter.Diam.Codec.Fuel.{length-drop}
use go_diameter.Diam.Wire.{keep_avp, decode_avps}

-- Any two amounts of fuel that are at least the number of octets give the same result, for any input.
decode_avps-fuel :
    (s : Snapshot) (app fuel fuel' : ℕ) (b : List ℕ)
    → length b ≤ fuel
    → length b ≤ fuel'
    → decode_avps s app fuel b ≡ decode_avps s app fuel' b
unfolding decode_avps
decode_avps-fuel s app zero zero [] h h' = refl
decode_avps-fuel s app zero (suc m) [] h h' = refl
decode_avps-fuel s app (suc n) zero [] h h' = refl
decode_avps-fuel s app (suc n) (suc m) [] h h' = refl
decode_avps-fuel s app zero m (x ∷ xs) h h' = absurd (omega (arith, h))
decode_avps-fuel s app (suc n) zero (x ∷ xs) h h' = absurd (omega (arith, h'))
decode_avps-fuel s app (suc n) (suc m) (x ∷ xs) h h' =
    let advance = avp_len (decode s app (x ∷ xs)).decoded in
    let shorter = length-drop advance (x ∷ xs) in
    let least = avp_len_least (decode s app (x ∷ xs)).decoded in
    ap (keep_avp s app (x ∷ xs) (decode s app (x ∷ xs)))
      (decode_avps-fuel s app n m (drop advance (x ∷ xs)) (omega arith) (omega arith))
