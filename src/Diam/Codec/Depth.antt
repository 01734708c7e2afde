-- ===== src/Diam/Codec/Depth.antt =====
-- How deep a decoded AVP is nested.
use go_diameter.Prelude.{
  ℕ, zero, suc, ◌≤◌, ◌≡◌, refl, ap, sym, ◌∙◌, inl, inr, Bool, false, ◌||◌, List, [], ◌∷◌, Option,
  arith,
}
use Prim.Native.Nat.{max}
use go_diameter.Prelude.Lists.{length, drop}
use go_diameter.Diam.Avp.{Avp, avp, AvpData, grouped, Avps, nil, cons}
use go_diameter.Prelude.Tests.{maybe, Option-cases, Bool-cases, ◌==◌, ltb}
use go_diameter.Diam.Datatype.{TypeId, decode_value}
use go_diameter.Diam.Codec.{avp_len, data_len}
use go_diameter.Diam.Codec.Decode.{
  Framing, framed, misframed, decode_framing, decode_framed, decode_leaf, decode_with, too_deep,
  finish_group, Decoded, DecodedMembers, add_member, decode_members, decode, decode_avp,
  is_length_error,
}
use go_diameter.Diam.Codec.Evidence.{Snapshot, lookup_avp, is_grouped_type}

-- How many Grouped AVPs enclose the innermost data.
unfoldable mutual
  pub nesting : Avp → ℕ
  nesting (avp c f n v d) = nesting_data d

  pub nesting_data : AvpData → ℕ
  nesting_data (grouped ms) = suc (nesting_members ms)
  nesting_data _ = 0

  pub nesting_members : Avps → ℕ
  nesting_members nil = 0
  nesting_members (cons a ms) = max (nesting a) (nesting_members ms)

leaf_nesting : (t : TypeId) (b : List ℕ) → maybe (decode_value t b) 0 nesting_data ≡ 0
unfolding decode_value nesting_data maybe
leaf_nesting TypeId.address_type b = ground arith
leaf_nesting TypeId.time_type b = ground arith
leaf_nesting _ b = refl

nesting-decode_leaf : (a : Avp) (t : TypeId) (b : List ℕ) → nesting (decode_leaf a t b).decoded ≡ 0
unfolding decode_leaf nesting_data
nesting-decode_leaf (avp c f n v d) t b = elim (Option-cases (decode_value t b)) [
  | inl e ↦ rw e refl
  | inr (d', e) ↦
      let flat : nesting_data d' ≡ 0 =
        ap (λ (o : Option AvpData). maybe o 0 nesting_data) (sym e) ∙ leaf_nesting t b in
      elim (Bool-cases (data_len d' == length b)) [
        | inl q ↦ rw (e, q) flat
        | inr q ↦ rw (e, q) refl
      ]
]

abbrev framed_avp : Framing → Avp
framed_avp (framed a body) = a
framed_avp (misframed a r) = a

nesting-decode_framing : (b : List ℕ) → nesting (framed_avp (decode_framing b)) ≡ 0
unfolding decode_framing nesting
nesting-decode_framing b = ground arith

nesting-decode_framed :
    (s : Snapshot) (app k : ℕ) (g : Avp → List ℕ → Decoded) (b : List ℕ) (fr : Framing)
    → nesting (framed_avp fr) ≡ 0
    → ((a : Avp) (body : List ℕ) → nesting (g a body).decoded ≤ k)
    → nesting (decode_framed s app g b fr).decoded ≤ k
unfolding decode_framed nesting
nesting-decode_framed s app k g b (misframed a r) flat h = omega (arith, flat)
nesting-decode_framed s app k g b (framed (avp c f n v d) body) flat h =
    elim (Option-cases (lookup_avp s app c v)) [
      | inl e ↦ rw e (omega arith)
      | inr (t, e) ↦ elim (Bool-cases (is_grouped_type t)) [
        | inl q ↦ rw (e, q) (h (avp c f n v d) body)
        | inr q ↦ rw (e, q) (omega (arith, nesting-decode_leaf (avp c f n v d) t body))
      ]
    ]

nesting_members-cons :
    (a : Avp) (ms : Avps) → nesting_members (cons a ms) ≡ max (nesting a) (nesting_members ms)
unfolding nesting_members
nesting_members-cons a ms = refl

nesting_members-nil : nesting_members nil ≡ 0
unfolding nesting_members
nesting_members-nil = refl

nesting-add_member :
    (evidence : Bool) (b : List ℕ) (r : Decoded) (rest : DecodedMembers) (k : ℕ)
    → nesting r.decoded ≤ k
    → nesting_members rest.members ≤ k
    → nesting_members (add_member evidence b r rest).members ≤ k
unfolding add_member
nesting-add_member evidence b r rest k one all =
    let empty : nesting_members nil ≤ k = omega (arith, nesting_members-nil) in
    elim (Bool-cases (is_length_error r.err)) [
      | inl e ↦ rw e empty
      | inr e ↦ elim (Bool-cases (avp_len r.decoded == 0 || ltb (length b) (avp_len r.decoded))) [
        | inl q ↦ rw (e, q) empty
        | inr q ↦ rw (e, q) (omega (arith, nesting_members-cons r.decoded rest.members))
      ]
    ]

nesting-decode_members :
    (one : List ℕ → Decoded) (evidence : Bool) (k fuel : ℕ) (b : List ℕ)
    → ((c : List ℕ) → nesting (one c).decoded ≤ k)
    → nesting_members (decode_members one evidence fuel b).members ≤ k
unfolding decode_members
nesting-decode_members one evidence k zero b h = omega (arith, nesting_members-nil)
nesting-decode_members one evidence k (suc fuel) [] h = omega (arith, nesting_members-nil)
nesting-decode_members one evidence k (suc fuel) (x ∷ xs) h =
    let r = one (x ∷ xs) in
    let back = drop (avp_len r.decoded) (x ∷ xs) in
    nesting-add_member evidence (x ∷ xs) r (decode_members one evidence fuel back) k (h (x ∷ xs))
      (nesting-decode_members one evidence k fuel back h)

nesting-finish_group :
    (a : Avp) (body : List ℕ) (g : DecodedMembers) (k : ℕ)
    → nesting_members g.members ≤ k
    → nesting (finish_group a body g).decoded ≤ suc k
unfolding finish_group nesting
nesting-finish_group (avp c f n v d) body g k h = elim (Option-cases g.err) [
  | inl e ↦ rw e (omega (arith, h))
  | inr (x, e) ↦ rw e (omega arith)
]

nesting-too_deep : (a : Avp) (body : List ℕ) → nesting (too_deep a body).decoded ≤ 0
unfolding too_deep nesting
nesting-too_deep (avp c f n v d) body = omega arith

module _ (s : Snapshot) (app : ℕ) where
  nesting-decode_avp :
      (room : ℕ) (evidence : Bool) (b : List ℕ)
      → nesting (decode_avp s app room evidence b).decoded ≤ room
  unfolding decode_avp decode_with
  nesting-decode_avp zero evidence b =
      nesting-decode_framed s app 0 _ b (decode_framing b) (nesting-decode_framing b)
        nesting-too_deep
  nesting-decode_avp (suc room) evidence b =
      nesting-decode_framed s app (suc room) _ b (decode_framing b) (nesting-decode_framing b)
        (λ (a : Avp) (body : List ℕ).
          nesting-finish_group a body _ room
            (nesting-decode_members _ _ room (length body) body (nesting-decode_avp room _)))

-- Whatever the octets, and whether or not there is an error, the decoded AVP is nested no deeper than
-- the dictionary's limit.
pub nesting-decode :
    (s : Snapshot) (app : ℕ) (b : List ℕ) → nesting (decode s app b).decoded ≤ s.max_grouped_depth
nesting-decode s app b = nesting-decode_avp s app s.max_grouped_depth false b
