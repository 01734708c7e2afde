-- ===== src/Base/Application/Laws.antt =====
-- The identifiers that the negotiation of diam/internal/base/app.go settles on.
use go_diameter.Prelude.{
  ℕ, ◌≡◌, refl, Bool, true, false, not, ◌&&◌, ◌||◌, none, List, [], ◌∷◌, ◌++◌, inl, inr, arith,
}
use go_diameter.Prelude.Tests.{◌==◌, maybe, if◌then◌else◌, Bool-cases, Option-cases}
use go_diameter.Prelude.Lists.{All}
use go_diameter.Diam.Avp.{Avp, avp, code, payload, AvpData, grouped, Avps, nil, cons}
use go_diameter.Diam.Grammar.{auth_application_id_code, acct_application_id_code}
use go_diameter.Base.Application.{
  Verdict, Local, Choice, Offered, fine, is_fine, unsigned_of, relay_id, is_known, validate_id,
  validate_application, choose_err, validate_each, validate_all, group_loop, group_member,
  group_outcome, handle_payload, handle_group, handle_groups, first_choice, plain_choice,
  choose_all, conclude_parse, has_none, parse_with_application_ids,
}

-- An identifier that may be common: not the base protocol's, and the relay's or one known here.
abbrev pub is_common : Local → ℕ → Bool
is_common l id =
    not (id == 0)
    && (id == relay_id
        || is_known l acct_application_id_code id
        || is_known l auth_application_id_code id)

abbrev pub AllCommon : Local → List ℕ → Type 0
AllCommon l = All (λ (id : ℕ). is_common l id ≡ true)

abbrev pub is_application_code : ℕ → Bool
is_application_code c = c == acct_application_id_code || c == auth_application_id_code

All-snoc :
    (l : Local) (ids : List ℕ) (id : ℕ)
    → AllCommon l ids
    → is_common l id ≡ true
    → AllCommon l (ids ++ (id ∷ []))
All-snoc l [] id h k = (k, tt)
All-snoc l (x ∷ ids) id h k = (h.0, All-snoc l ids id h.1 k)

known_code :
    (l : Local) (c id : ℕ)
    → is_application_code c ≡ true
    → is_known l c id ≡ true
    → (is_known l acct_application_id_code id || is_known l auth_application_id_code id) ≡ true
known_code l c id t k = elim (Bool-cases (c == acct_application_id_code)) [
  | inl e ↦
      let same : c ≡ acct_application_id_code = ground arith in
      let j : is_known l acct_application_id_code id ≡ true = rw (← same) k in ground arith
  | inr e ↦
      let same : c ≡ auth_application_id_code = ground arith in
      let j : is_known l auth_application_id_code id ≡ true = rw (← same) k in ground arith
]

common_of :
    (l : Local) (c id : ℕ)
    → is_application_code c ≡ true
    → (id == 0) ≡ false
    → (id == relay_id || is_known l c id) ≡ true
    → is_common l id ≡ true
common_of l c id t z k = elim (Bool-cases (id == relay_id)) [
  | inl r ↦ ground arith
  | inr r ↦ let j = known_code l c id t (ground arith) in ground arith
]

validate_id-AllCommon :
    (l : Local) (c : ℕ) (a : Avp) (ids : List ℕ) (id : ℕ)
    → is_application_code c ≡ true
    → AllCommon l ids
    → AllCommon l (validate_id l c a ids id).ids
unfolding validate_id if◌then◌else◌
validate_id-AllCommon l c a ids id t h = elim (Bool-cases (id == 0)) [
  | inl z ↦ rw (z, if◌then◌else◌) h
  | inr z ↦ elim (Bool-cases (id == relay_id || is_known l c id)) [
    | inl k ↦ rw (z, k, if◌then◌else◌) (All-snoc l ids id h (common_of l c id t z k))
    | inr k ↦ rw (z, k, if◌then◌else◌) h
  ]
]

validate_application-AllCommon :
    (l : Local) (c : ℕ) (a : Avp) (ids : List ℕ)
    → is_application_code c ≡ true
    → AllCommon l ids
    → AllCommon l (validate_application l c a ids).ids
unfolding validate_application if◌then◌else◌ maybe
validate_application-AllCommon l c a ids t h = elim (Bool-cases (code a == c)) [
  | inl e ↦ elim (Option-cases (unsigned_of (payload a))) [
    | inl n ↦ rw (e, n, if◌then◌else◌, maybe) h
    | inr (id, n) ↦ rw (e, n, if◌then◌else◌, maybe) (validate_id-AllCommon l c a ids id t h)
  ]
  | inr e ↦ rw (e, if◌then◌else◌) h
]

choose_err_ids : (c : Choice) (v : Verdict) → (choose_err c v).ids ≡ v.ids
unfolding choose_err if◌then◌else◌
choose_err_ids c v = ground arith

-- With no application found there is an error.
abbrev has_outcome : Choice → Bool
has_outcome c = c.one_found || not (is_fine c.err)

choose_err_outcome : (c : Choice) (v : Verdict) → has_outcome (choose_err c v) ≡ true
unfolding choose_err if◌then◌else◌
choose_err_outcome c v = ground arith

validate_each-AllCommon :
    (l : Local) (t : ℕ) (avps : List Avp) (c : Choice)
    → is_application_code t ≡ true
    → AllCommon l c.ids
    → AllCommon l (validate_each l t avps c).ids
unfolding validate_each
validate_each-AllCommon l t [] c k h = h
validate_each-AllCommon l t (a ∷ rest) c k h =
    validate_each-AllCommon l t rest (choose_err c (validate_application l t a c.ids)) k (
      rw (choose_err_ids c (validate_application l t a c.ids))
        (validate_application-AllCommon l t a c.ids k h))

validate_all-AllCommon :
    (l : Local) (client : Bool) (t : ℕ) (avps : List Avp) (ids : List ℕ)
    → is_application_code t ≡ true
    → AllCommon l ids
    → AllCommon l (validate_all l client t avps ids).ids
unfolding validate_all if◌then◌else◌
validate_all-AllCommon l client t [] ids k h = h
validate_all-AllCommon l client t (a ∷ rest) ids k h =
    let c : Choice = record { failed_avp = none; err = fine; one_found = false; ids = ids } in
    let d = validate_each-AllCommon l t (a ∷ rest) c k h in
    elim (Bool-cases (validate_each l t (a ∷ rest) c).one_found) [
      | inl e ↦ rw (e, if◌then◌else◌) d
      | inr e ↦ rw (e, if◌then◌else◌) d
    ]

group_member-AllCommon :
    (l : Local) (a : Avp) (v : Verdict) → AllCommon l v.ids → AllCommon l (group_member l a v).ids
unfolding group_member if◌then◌else◌
group_member-AllCommon l a v h = elim (Bool-cases (is_application_code (code a))) [
  | inl e ↦ rw (e, if◌then◌else◌) (validate_application-AllCommon l (code a) a v.ids e h)
  | inr e ↦ rw (e, if◌then◌else◌) h
]

group_loop-AllCommon :
    (l : Local) (ms : Avps) (v : Verdict) (s : Bool)
    → AllCommon l v.ids
    → AllCommon l (group_loop l ms v s).0.ids
unfolding group_loop
group_loop-AllCommon l nil v s h = h
group_loop-AllCommon l (cons a ms) v s h =
    group_loop-AllCommon l ms (group_member l a v) (s || is_fine (group_member l a v).err)
      (group_member-AllCommon l a v h)

group_outcome_ids : (r : Verdict × Bool) → (group_outcome r).ids ≡ r.0.ids
unfolding group_outcome
group_outcome_ids (v, true) = refl
group_outcome_ids (v, false) = refl

handle_payload-AllCommon :
    (l : Local) (a : Avp) (ids : List ℕ) (x : AvpData)
    → AllCommon l ids
    → AllCommon l (handle_payload l a ids x).ids
unfolding handle_payload
handle_payload-AllCommon l a ids (grouped ms) h =
    let v : Verdict = record { failed_avp = none; err = fine; ids = ids } in
    rw (group_outcome_ids (group_loop l ms v false)) (group_loop-AllCommon l ms v false h)
handle_payload-AllCommon l a ids x h = h

handle_group-AllCommon :
    (l : Local) (a : Avp) (ids : List ℕ) → AllCommon l ids → AllCommon l (handle_group l a ids).ids
unfolding handle_group
handle_group-AllCommon l a ids h = handle_payload-AllCommon l a ids (payload a) h

handle_groups-AllCommon :
    (l : Local) (avps : List Avp) (c : Choice)
    → AllCommon l c.ids
    → AllCommon l (handle_groups l avps c).ids
unfolding handle_groups
handle_groups-AllCommon l [] c h = h
handle_groups-AllCommon l (a ∷ rest) c h =
    handle_groups-AllCommon l rest (choose_err c (handle_group l a c.ids))
      (rw (choose_err_ids c (handle_group l a c.ids)) (handle_group-AllCommon l a c.ids h))

handle_groups_outcome :
    (l : Local) (avps : List Avp) (c : Choice)
    → has_outcome c ≡ true
    → has_outcome (handle_groups l avps c) ≡ true
unfolding handle_groups
handle_groups_outcome l [] c h = h
handle_groups_outcome l (a ∷ rest) c h =
    handle_groups_outcome l rest (choose_err c (handle_group l a c.ids))
      (choose_err_outcome c (handle_group l a c.ids))

first_choice-AllCommon :
    (l : Local) (client : Bool) (o : Offered) → AllCommon l (first_choice l client o).ids
unfolding first_choice
first_choice-AllCommon l client o =
    validate_all-AllCommon l client acct_application_id_code o.acct [] refl tt

plain_choice-AllCommon :
    (l : Local) (client : Bool) (o : Offered) → AllCommon l (plain_choice l client o).ids
unfolding plain_choice
plain_choice-AllCommon l client o =
    let c = first_choice l client o in
    let v = validate_all l client auth_application_id_code o.auth c.ids in
    rw (choose_err_ids c v) (
      validate_all-AllCommon l client auth_application_id_code o.auth c.ids refl
        (first_choice-AllCommon l client o))

choose_all-AllCommon :
    (l : Local) (client : Bool) (o : Offered) → AllCommon l (choose_all l client o).ids
unfolding choose_all
choose_all-AllCommon l client o =
    handle_groups-AllCommon l o.vendor_specific (plain_choice l client o)
      (plain_choice-AllCommon l client o)

choose_all_outcome :
    (l : Local) (client : Bool) (o : Offered) → has_outcome (choose_all l client o) ≡ true
unfolding choose_all plain_choice
choose_all_outcome l client o =
    let c = first_choice l client o in
    let v = validate_all l client auth_application_id_code o.auth c.ids in
    handle_groups_outcome l o.vendor_specific (choose_err c v) (choose_err_outcome c v)

conclude_parse_ids : (client : Bool) (c : Choice) → (conclude_parse client c).ids ≡ c.ids
unfolding conclude_parse if◌then◌else◌
conclude_parse_ids client c = ground arith

conclude_parse_found :
    (client : Bool) (c : Choice)
    → has_outcome c ≡ true
    → is_fine (conclude_parse client c).err ≡ true
    → has_none (conclude_parse client c).ids ≡ false
unfolding conclude_parse if◌then◌else◌
conclude_parse_found true c h k = ground arith
conclude_parse_found false c h k = ground arith

found-AllCommon :
    (l : Local) (client : Bool) (o : Offered)
    → AllCommon l (parse_with_application_ids l client o).ids
unfolding parse_with_application_ids
found-AllCommon l client o =
    rw (conclude_parse_ids client (choose_all l client o)) (choose_all-AllCommon l client o)

-- A negotiation that ends without an error has found an identifier, and each that it has found is
-- the relay's or known to this node, and never that of the base protocol.
pub parse_with_application_ids-AllCommon :
    (l : Local) (client : Bool) (o : Offered)
    → is_fine (parse_with_application_ids l client o).err ≡ true
    → (has_none (parse_with_application_ids l client o).ids ≡ false)
      × AllCommon l (parse_with_application_ids l client o).ids
unfolding parse_with_application_ids
parse_with_application_ids-AllCommon l client o h = (
  conclude_parse_found client (choose_all l client o) (choose_all_outcome l client o) h,
  found-AllCommon l client o,
)

group_loop_kept : (l : Local) (ms : Avps) (v : Verdict) → (group_loop l ms v true).1 ≡ true
unfolding group_loop
group_loop_kept l nil v = refl
group_loop_kept l (cons a ms) v = group_loop_kept l ms (group_member l a v)

group_outcome_fine : (r : Verdict × Bool) → r.1 ≡ true → is_fine (group_outcome r).err ≡ true
unfolding group_outcome
group_outcome_fine (v, true) h = refl
group_outcome_fine (v, false) h = absurd (cc)

group_member_other :
    (l : Local) (a : Avp) (v : Verdict)
    → is_application_code (code a) ≡ false
    → group_member l a v ≡ v
unfolding group_member if◌then◌else◌
group_member_other l a v h = rw (h, if◌then◌else◌) refl

-- A Vendor-Specific-Application-Id whose first member is not an application's identifier, such as
-- the Vendor-Id, is found to succeed whatever its other members are.
pub handle_group-succeeds :
    (l : Local) (c f n v : ℕ) (a : Avp) (ms : Avps) (ids : List ℕ)
    → is_application_code (code a) ≡ false
    → is_fine (handle_group l (avp c f n v (grouped (cons a ms))) ids).err ≡ true
unfolding handle_group handle_payload group_loop
handle_group-succeeds l c f n v a ms ids h =
    let w : Verdict = record { failed_avp = none; err = fine; ids = ids } in
    group_outcome_fine (group_loop l (cons a ms) w false)
      (rw (group_loop, group_member_other l a w h) (group_loop_kept l ms w))
