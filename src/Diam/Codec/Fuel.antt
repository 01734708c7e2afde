-- ===== src/Diam/Codec/Fuel.antt =====
-- The loop over a group's members: its fuel and what it consumes.
use go_diameter.Prelude.{
  ℕ, zero, suc, ◌-◌, ◌≤◌, ◌≡◌, refl, ap, Bool, List, [], ◌∷◌, Option, some, none, arith,
}
use go_diameter.Prelude.Lists.{length, drop}
use go_diameter.Diam.Avp.{nil, cons}
use go_diameter.Diam.Codec.{avp_len, members_len}
use go_diameter.Diam.Codec.Decode.{
  counted, Decoded, DecodedMembers, add_member, decode_members, add_error,
}
use go_diameter.Diam.Codec.Evidence.{AvpError}
use go_diameter.Diam.Codec.Member.{members_len-cons, avp_len_least}

pub length-drop : (n : ℕ) (xs : List ℕ) → length (drop n xs) ≡ length xs - n
length-drop zero xs = omega arith
length-drop (suc n) [] = omega arith
length-drop (suc n) (x ∷ xs) = omega (arith, length-drop n xs)

add_error-none : (first later : Option AvpError) → add_error first later ≡ none → later ≡ none
unfolding add_error
add_error-none none later e = ground (arith, e)
add_error-none (some x) later e = ground (arith, e)

members_len-nil : members_len nil ≡ 0
unfolding members_len
members_len-nil = refl

module _ (one : List ℕ → Decoded) (evidence : Bool) where
  decode_members-fuel :
      (fuel fuel' : ℕ) (b : List ℕ)
      → length b ≤ fuel
      → length b ≤ fuel'
      → decode_members one evidence fuel b ≡ decode_members one evidence fuel' b
  unfolding decode_members
  decode_members-fuel zero zero [] h h' = refl
  decode_members-fuel zero (suc m) [] h h' = refl
  decode_members-fuel (suc n) zero [] h h' = refl
  decode_members-fuel (suc n) (suc m) [] h h' = refl
  decode_members-fuel zero m (x ∷ xs) h h' = absurd (omega (arith, h))
  decode_members-fuel (suc n) zero (x ∷ xs) h h' = absurd (omega (arith, h'))
  decode_members-fuel (suc n) (suc m) (x ∷ xs) h h' =
      let advance = avp_len (one (x ∷ xs)).decoded in
      let shorter = length-drop advance (x ∷ xs) in
      let least = avp_len_least (one (x ∷ xs)).decoded in
      ap (add_member evidence (x ∷ xs) (one (x ∷ xs)))
        (decode_members-fuel n m (drop advance (x ∷ xs)) (omega arith) (omega arith))

  add_member-exact :
      (b : List ℕ) (r : Decoded) (rest : DecodedMembers)
      → (add_member evidence b r rest).err ≡ none
      → (rest.err ≡ none)
        × (avp_len r.decoded ≤ length b)
        × ((add_member evidence b r rest).members ≡ cons r.decoded rest.members)
  unfolding add_member
  add_member-exact b r rest e =
      let later = add_error-none (counted evidence r.err) rest.err in ground (arith, later)

  decode_members-consumes :
      (fuel : ℕ) (b : List ℕ)
      → length b ≤ fuel
      → (decode_members one evidence fuel b).err ≡ none
      → members_len (decode_members one evidence fuel b).members ≡ length b
  unfolding decode_members
  decode_members-consumes zero [] h e = members_len-nil
  decode_members-consumes (suc n) [] h e = members_len-nil
  decode_members-consumes zero (x ∷ xs) h e = absurd (omega (arith, h))
  decode_members-consumes (suc n) (x ∷ xs) h e =
      let r = one (x ∷ xs) in
      let back = drop (avp_len r.decoded) (x ∷ xs) in
      let exact = add_member-exact (x ∷ xs) r (decode_members one evidence n back) e in
      let shorter = length-drop (avp_len r.decoded) (x ∷ xs) in
      let least = avp_len_least r.decoded in
      let ih = decode_members-consumes n back (omega arith) exact.0 in
      let rest = (decode_members one evidence n back).members in
      let e' = ap members_len exact.2 in
      let total = members_len-cons r.decoded rest in omega (arith, exact.1)

-- The loop over a group's members ends by its own test whatever the decoder of one member does: with
-- fuel for each octet, more fuel gives the same result, and where it gives no error the members'
-- padded lengths add up to exactly the input's.
pub decode_members-ends :
    (one : List ℕ → Decoded) (evidence : Bool) (fuel : ℕ) (b : List ℕ)
    → length b ≤ fuel
    → (decode_members one evidence fuel b ≡ decode_members one evidence (length b) b)
      × ((decode_members one evidence fuel b).err ≡ none
          → members_len (decode_members one evidence fuel b).members ≡ length b)
decode_members-ends one evidence fuel b h = (
  decode_members-fuel one evidence fuel (length b) b h (omega arith),
  decode_members-consumes one evidence fuel b h,
)
