-- ===== src/Diam/Codec/Steps.antt =====
-- What the decoder does with one framed AVP and in one turn of the loop.
use go_diameter.Prelude.{
  ℕ, zero, suc, ◌<◌, ◌≡◌, refl, sym, Bool, true, false, List, [], ◌∷◌, ◌++◌, ◌∙◌, some, none, arith,
}
use go_diameter.Prelude.Lists.{length, length-append, drop-append}
use go_diameter.Prelude.Tests.{==_refl}
use go_diameter.Diam.Avp.{Avp, avp, AvpData, nil_data, unknown_data, grouped, Avps, nil, cons}
use go_diameter.Diam.Datatype.{TypeId, grouped_type, decode_value, decode_value}
use go_diameter.Diam.Codec.{data_len, avp_len, serialize_members}
use go_diameter.Diam.Codec.Decode.{
  framed, decode_framing, decode_framed, counted, with_data, Decoded, DecodedMembers, decode_leaf,
  add_member, decode_members, decode_with, decode_avp, finish_group,
}
use go_diameter.Diam.Codec.Evidence.{Snapshot, lookup_avp, is_grouped_type}

pub counted-none : (evidence : Bool) → counted evidence none ≡ none
unfolding counted
counted-none true = refl
counted-none false = refl

-- One turn of the loop, at an AVP that decodes.
pub members_step :
    (one : List ℕ → Decoded) (evidence : Bool) (fuel : ℕ) (a : Avp) (front back : List ℕ)
    → one (front ++ back) ≡ record { decoded = a; err = none }
    → length front ≡ avp_len a
    → 0 < avp_len a
    → decode_members one evidence (suc fuel) (front ++ back) ≡ record {
      members = cons a (decode_members one evidence fuel back).members;
      err = (decode_members one evidence fuel back).err;
    }
unfolding decode_members add_member
members_step one evidence fuel a [] back e sized some_octets =
    absurd (omega (arith, sized, some_octets))
members_step one evidence fuel a (x ∷ xs) back e sized some_octets =
    rw (e, sym sized, drop-append xs back)
      (ground (arith, length-append xs back, counted-none evidence))

pub no_members :
    (one : List ℕ → Decoded) (evidence : Bool) (fuel : ℕ)
    → decode_members one evidence fuel (serialize_members nil)
      ≡ record { members = nil; err = none }
unfolding decode_members serialize_members
no_members one evidence zero = refl
no_members one evidence (suc fuel) = refl

module _ (s : Snapshot) (app : ℕ) where
  pub leaf_decodes :
      (g : Avp → List ℕ → Decoded) (b body : List ℕ) (c f n v : ℕ) (t : TypeId) (d : AvpData)
      → decode_framing b ≡ framed (avp c f n v nil_data) body
      → lookup_avp s app c v ≡ some t
      → is_grouped_type t ≡ false
      → decode_value t body ≡ some d
      → data_len d ≡ length body
      → decode_with s app g b ≡ record { decoded = avp c f n v d; err = none }
  unfolding decode_with decode_framed decode_leaf
  leaf_decodes g b body c f n v t d e el plain ed sized =
      rw (e, el, plain, ed, sized, ==_refl (length body)) refl

  pub unlisted_decodes :
      (g : Avp → List ℕ → Decoded) (b body : List ℕ) (c f n v : ℕ)
      → decode_framing b ≡ framed (avp c f n v nil_data) body
      → lookup_avp s app c v ≡ none
      → decode_with s app g b ≡ record { decoded = avp c f n v (unknown_data body); err = none }
  unfolding decode_with decode_framed
  unlisted_decodes g b body c f n v e el = rw (e, el) refl

  pub group_decodes :
      (g : Avp → List ℕ → Decoded) (b body : List ℕ) (c f n v : ℕ)
      → decode_framing b ≡ framed (avp c f n v nil_data) body
      → lookup_avp s app c v ≡ some grouped_type
      → decode_with s app g b ≡ g (avp c f n v nil_data) body
  unfolding decode_with decode_framed
  group_decodes g b body c f n v e el = rw (e, el) refl

  pub decode_avp_with :
      (room : ℕ) (evidence : Bool) (b : List ℕ)
      → (g : Avp → List ℕ → Decoded) × (decode_avp s app room evidence b ≡ decode_with s app g b)
  unfolding decode_avp
  decode_avp_with zero evidence b = (_, refl)
  decode_avp_with (suc room) evidence b = (_, refl)

  pub finish :
      (a : Avp) (ms : Avps) (body : List ℕ) (g : DecodedMembers)
      → g ≡ record { members = ms; err = none }
      → finish_group a body g ≡ record { decoded = with_data a (grouped ms); err = none }
  unfolding finish_group
  finish a ms body g e = rw e refl

  pub group_finishes :
      (room : ℕ) (evidence : Bool) (b body : List ℕ) (c f n v : ℕ) (ms : Avps)
      → decode_framing b ≡ framed (avp c f n v nil_data) body
      → lookup_avp s app c v ≡ some grouped_type
      → ((inner : Bool)
          → decode_members (decode_avp s app room inner) inner (length body) body
            ≡ record { members = ms; err = none })
      → decode_avp s app (suc room) evidence b
        ≡ record { decoded = avp c f n v (grouped ms); err = none }
  unfolding decode_avp
  group_finishes room evidence b body c f n v ms e el h =
      group_decodes _ b body c f n v e el ∙ finish (avp c f n v nil_data) ms body _ (h _)
