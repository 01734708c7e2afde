-- ===== src/Base/Capabilities/Offers.antt =====
-- Which applications `advertisedApplications` of diam/internal/base/capabilities.go lists.
use go_diameter.Prelude.{
  ℕ, ◌≡◌, refl, ap, ◌∙◌, String, Bool, true, false, not, ◌&&◌, ◌||◌, Option, none, some, List, [],
  ◌∷◌, ◌++◌, map, inl, inr, arith,
}
use go_diameter.Prelude.Tests.{◌==◌, leb, is_some, maybe, if◌then◌else◌, Bool-cases, Option-cases}
use go_diameter.Prelude.Lists.{contains}
use go_diameter.Diam.Avp.{
  Avp, AvpData, nil_data, unknown_data, octet_string, utf8_string, diameter_identity, diameter_uri,
  ip_filter_rule, qos_filter_rule, raw_grouped, ipv4, ipv6, unsigned32, unsigned64, float32,
  float64, integer32, integer64, enumerated, time, address, grouped, Avps, nil, cons, code, payload,
}
use go_diameter.Base.Settings.{Settings, LocalApplication}
use go_diameter.Base.Capabilities.{
  first_declared, declare, merge_loop, insert_by_id, sort_by_id, merge_applications,
  explicit_applications, unsigned_of, values, is_application_code, is_ietf, offer, offer_plain,
  GroupOffer, read_member, read_group, offer_group, offer_groups, advertised_applications, id_of,
  vendor_id_code, auth_application_id_code, acct_application_id_code,
}

-- The node's declarations name an application that is not the base protocol.
unfoldable pub declared : ℕ → List LocalApplication → Bool
declared c [] = false
declared c (a ∷ l) = (not (a.id == 0) && a.id == c) || declared c l

-- One of the AVPs holds the identifier as an Unsigned32.
unfoldable pub named_by : ℕ → List Avp → Bool
unfolding maybe
named_by c [] = false
named_by c (a ∷ l) = maybe (unsigned_of (payload a)) false (λ n. n == c) || named_by c l

-- The Unsigned32 of the last Auth- or Acct-Application-Id among the members of a group.
unfoldable pub last_application : Avps → Option ℕ
unfolding maybe if◌then◌else◌
last_application nil = none
last_application (cons a l) =
    let here =
      if is_ietf a && is_application_code (code a) then unsigned_of (payload a) else none in
    maybe (last_application l) here some

-- A group's application; 0 where it names none.
unfoldable pub group_names : ℕ → AvpData → Bool
unfolding last_application maybe
group_names c (grouped ms) = maybe (last_application ms) 0 (λ n. n) == c
group_names c _ = false

unfoldable pub grouped_by : ℕ → List Avp → Bool
unfolding group_names
grouped_by c [] = false
grouped_by c (a ∷ l) = group_names c (payload a) || grouped_by c l

-- Explicit AVPs, if any are configured, and only otherwise the declarations.
unfoldable pub advertises : Settings → ℕ → Bool
unfolding declared named_by grouped_by if◌then◌else◌
advertises cfg c =
    if is_some cfg.auth_application_id
      || is_some cfg.acct_application_id
      || is_some cfg.vendor_specific_application_id
    then named_by c (values cfg.auth_application_id)
      || (named_by c (values cfg.acct_application_id)
          || grouped_by c (values cfg.vendor_specific_application_id))
    else declared c cfg.applications

abbrev ids : List LocalApplication → List ℕ
ids l = map id_of l

contains-ids-append :
    (c : ℕ) (l k : List LocalApplication)
    → contains (ids (l ++ k)) c ≡ (contains (ids l) c || contains (ids k) c)
unfolding contains
contains-ids-append c [] k = refl
contains-ids-append c (a ∷ l) k = ground (arith, contains-ids-append c l k)

contains-ids-insert_by_id :
    (c : ℕ) (a : LocalApplication) (l : List LocalApplication)
    → contains (ids (insert_by_id a l)) c ≡ (a.id == c || contains (ids l) c)
unfolding contains insert_by_id if◌then◌else◌
contains-ids-insert_by_id c a [] = refl
contains-ids-insert_by_id c a (b ∷ l) = elim (Bool-cases (leb a.id b.id)) [
  | inl e ↦ rw e refl
  | inr e ↦ rw e (ground (arith, contains-ids-insert_by_id c a l))
]

contains-ids-sort_by_id :
    (c : ℕ) (l : List LocalApplication) → contains (ids (sort_by_id l)) c ≡ contains (ids l) c
unfolding contains sort_by_id
contains-ids-sort_by_id c [] = refl
contains-ids-sort_by_id c (a ∷ l) =
    contains-ids-insert_by_id c a (sort_by_id l)
    ∙ ap (◌||◌ (a.id == c)) (contains-ids-sort_by_id c l)

contains-ids-declare :
    (c : ℕ) (a : LocalApplication) (l : List LocalApplication)
    → contains (ids (declare a l)) c ≡ (a.id == c || contains (ids l) c)
unfolding contains declare first_declared if◌then◌else◌
contains-ids-declare c a [] = refl
contains-ids-declare c a (b ∷ l) = elim (Bool-cases (b.id == a.id)) [
  | inl e ↦ rw e (ground (arith, e))
  | inr e ↦ rw e (ground (arith, contains-ids-declare c a l))
]

contains-ids-merge_loop :
    (c : ℕ) (l r : List LocalApplication)
    → contains (ids (merge_loop r l)) c ≡ (contains (ids r) c || declared c l)
unfolding merge_loop declared if◌then◌else◌
contains-ids-merge_loop c [] r = ground arith
contains-ids-merge_loop c (a ∷ l) r = elim (Bool-cases (a.id == 0)) [
  | inl e ↦ rw e (contains-ids-merge_loop c l r)
  | inr e ↦
      rw e (ground (arith, contains-ids-merge_loop c l (declare a r), contains-ids-declare c a r))
]

offer_id :
    (available : List LocalApplication) (id : ℕ) (kind : String) (vendor : ℕ)
    → (offer available id kind vendor).id ≡ id
unfolding offer if◌then◌else◌
offer_id available id kind vendor = elim (Bool-cases (vendor == 0)) [
  | inl e ↦ rw e refl
  | inr e ↦ rw e refl
]

contains-offer_plain :
    (c : ℕ) (available : List LocalApplication) (kind : String) (l : List Avp)
    → contains (ids (offer_plain available kind l)) c ≡ named_by c l
unfolding contains offer_plain named_by
contains-offer_plain c available kind [] = refl
contains-offer_plain c available kind (a ∷ l) = elim (Option-cases (unsigned_of (payload a))) [
  | inl e ↦ rw e (contains-offer_plain c available kind l)
  | inr (n, e) ↦
      rw (e, maybe, offer_id available n kind 0, contains-offer_plain c available kind l) refl
]

vendor_is_not : (a : ℕ) → (a == vendor_id_code) ≡ true → is_application_code a ≡ false
vendor_is_not a h = ground arith

read_member_id :
    (a n : ℕ) (o : GroupOffer)
    → (read_member a n o).id ≡ (if is_application_code a then n else o.id)
unfolding read_member if◌then◌else◌
read_member_id a n o = elim (Bool-cases (a == vendor_id_code)) [
  | inl e ↦ rw (e, vendor_is_not a e) refl
  | inr e ↦ elim (Bool-cases (a == auth_application_id_code)) [
    | inl h ↦ rw (e, h) refl
    | inr h ↦ elim (Bool-cases (a == acct_application_id_code)) [
      | inl k ↦ rw (e, h, k) refl
      | inr k ↦ rw (e, h, k) refl
    ]
  ]
]

read_member_or_not :
    (b : Bool) (c : ℕ) (d : Option ℕ) (o : GroupOffer)
    → (if b then maybe d o (λ n. read_member c n o) else o).id
      ≡ maybe (if b && is_application_code c then d else none) o.id (λ n. n)
unfolding maybe if◌then◌else◌
read_member_or_not false c d o = refl
read_member_or_not true c none o = elim (Bool-cases (is_application_code c)) [
  | inl e ↦ rw e refl
  | inr e ↦ rw e refl
]
read_member_or_not true c (some n) o = elim (Bool-cases (is_application_code c)) [
  | inl e ↦ rw (read_member_id c n o, e) refl
  | inr e ↦ rw (read_member_id c n o, e) refl
]

or_before :
    (last here : Option ℕ) (x y : ℕ)
    → x ≡ maybe here y (λ n. n)
    → maybe last x (λ n. n) ≡ maybe (maybe last here some) y (λ n. n)
unfolding maybe
or_before none here x y h = h
or_before (some n) here x y h = refl

read_group_id :
    (ms : Avps) (o : GroupOffer) → (read_group ms o).id ≡ maybe (last_application ms) o.id (λ n. n)
unfolding read_group last_application maybe
read_group_id nil o = refl
read_group_id (cons a l) o =
    read_group_id l _
    ∙ or_before (last_application l) _ _ o.id
        (read_member_or_not (is_ietf a) (code a) (unsigned_of (payload a)) o)

contains-offer_group :
    (c : ℕ) (available : List LocalApplication) (d : AvpData) (rest : List LocalApplication)
    → contains (ids (offer_group available d rest)) c ≡ (group_names c d || contains (ids rest) c)
unfolding contains offer_group group_names
contains-offer_group c available nil_data rest = refl
contains-offer_group c available (unknown_data x) rest = refl
contains-offer_group c available (octet_string x) rest = refl
contains-offer_group c available (utf8_string x) rest = refl
contains-offer_group c available (diameter_identity x) rest = refl
contains-offer_group c available (diameter_uri x) rest = refl
contains-offer_group c available (ip_filter_rule x) rest = refl
contains-offer_group c available (qos_filter_rule x) rest = refl
contains-offer_group c available (raw_grouped x) rest = refl
contains-offer_group c available (ipv4 x) rest = refl
contains-offer_group c available (ipv6 x) rest = refl
contains-offer_group c available (unsigned32 x) rest = refl
contains-offer_group c available (unsigned64 x) rest = refl
contains-offer_group c available (float32 x) rest = refl
contains-offer_group c available (float64 x) rest = refl
contains-offer_group c available (integer32 x) rest = refl
contains-offer_group c available (integer64 x) rest = refl
contains-offer_group c available (enumerated x) rest = refl
contains-offer_group c available (time x) rest = refl
contains-offer_group c available (address x y) rest = refl
contains-offer_group c available (grouped ms) rest =
    let o = read_group ms (record { id = 0; vendor = 0; kind = "auth" }) in
    ap (λ n. n == c || contains (ids rest) c)
      (offer_id available o.id o.kind o.vendor
        ∙ read_group_id ms (record { id = 0; vendor = 0; kind = "auth" }))

contains-offer_groups :
    (c : ℕ) (available : List LocalApplication) (l : List Avp)
    → contains (ids (offer_groups available l)) c ≡ grouped_by c l
unfolding contains offer_groups grouped_by
contains-offer_groups c available [] = refl
contains-offer_groups c available (a ∷ l) =
    contains-offer_group c available (payload a) (offer_groups available l)
    ∙ ap (◌||◌ (group_names c (payload a))) (contains-offer_groups c available l)

choice :
    (b : Bool) (c : ℕ) (x y : List LocalApplication) (p q : Bool)
    → contains (ids x) c ≡ p
    → contains (ids y) c ≡ q
    → contains (ids (if b then x else y)) c ≡ (if b then p else q)
unfolding if◌then◌else◌
choice true c x y p q h k = h
choice false c x y p q h k = k

pub contains-advertised_applications :
    (c : ℕ) (cfg : Settings)
    → contains (map id_of (advertised_applications cfg)) c ≡ advertises cfg c
unfolding advertised_applications explicit_applications merge_applications advertises contains
contains-advertised_applications c cfg =
    let known = merge_applications cfg.applications in
    let auth = offer_plain known "auth" (values cfg.auth_application_id) in
    let acct = offer_plain known "acct" (values cfg.acct_application_id) in
    let groups = offer_groups known (values cfg.vendor_specific_application_id) in
    choice (explicit_applications cfg) c (auth ++ (acct ++ groups)) known _ _
      (rw
        (
          contains-ids-append c auth (acct ++ groups),
          contains-ids-append c acct groups,
          contains-offer_plain c known "auth" (values cfg.auth_application_id),
          contains-offer_plain c known "acct" (values cfg.acct_application_id),
          contains-offer_groups c known (values cfg.vendor_specific_application_id),
        )
        refl)
      (contains-ids-sort_by_id c (merge_loop [] cfg.applications)
        ∙ contains-ids-merge_loop c cfg.applications [])
