-- ===== src/Base/Capabilities.antt =====
-- diam/internal/base/capabilities.go: which applications a node advertises, and the checks of its
-- configuration, which here only hold or fail. A nil list of a configuration is `none`; the AVPs in a
-- list are values, none of which is nil.
pub mod Offers
pub mod Sorted
use text.Mathlib.Text.{◌==◌ as str_eq}
use go_diameter.Prelude.{
  ℕ, ◌+◌, String, Bool, true, false, not, ◌&&◌, ◌||◌, Option, none, some, List, [], ◌∷◌, ◌++◌, map,
}
use go_diameter.Prelude.Tests.{◌==◌, leb, maybe, is_some, if◌then◌else◌}
use go_diameter.Prelude.Lists.{sort}
use go_diameter.Diam.Avp.{
  Avp, code, flags, vendor_id, payload, AvpData, unsigned32, grouped, Avps, nil, cons,
}
use go_diameter.Diam.Header.{has_flag}
use go_diameter.Diam.Codec.{vbit, new_avp}
use go_diameter.Diam.Edit.{Body, add_avp}
use go_diameter.Diam.Grammar.{
  auth_application_id_code, acct_application_id_code, vendor_specific_application_id_code, mbit,
}
use go_diameter.Base.Settings.{Settings, LocalApplication}

abbrev pub supported_vendor_id_code : ℕ
supported_vendor_id_code = 265

abbrev pub vendor_id_code : ℕ
vendor_id_code = 266

-- `dict.IsVendorSpecificApplication`.
unfoldable pub is_vendor_specific_application : ℕ → Bool
is_vendor_specific_application id = leb 16777216 id && not (id == 0xffffffff)

-- The suppliers that a declaration adds.
unfoldable pub suppliers : LocalApplication → List ℕ
unfolding if◌then◌else◌
suppliers a = if a.vendor == 0 then a.supported_vendors else a.supported_vendors ++ (a.vendor ∷ [])

-- The first declaration of an application, as it is kept.
unfoldable pub first_declared : LocalApplication → LocalApplication
unfolding suppliers is_vendor_specific_application if◌then◌else◌
first_declared a = record a {
  supported_vendors = suppliers a;
  vendor = if is_vendor_specific_application a.id then a.vendor else 0;
  app_type = if str_eq a.app_type "acct" then a.app_type else "auth";
}

-- A declaration of an application that is listed or is not.
unfoldable pub declare : LocalApplication → List LocalApplication → List LocalApplication
unfolding first_declared suppliers if◌then◌else◌
declare a [] = first_declared a ∷ []
declare a (b ∷ l) =
    let rest = declare a l in
    if b.id == a.id
    then record b { supported_vendors = b.supported_vendors ++ suppliers a } ∷ l
    else b ∷ rest

unfoldable pub merge_loop : List LocalApplication → List LocalApplication → List LocalApplication
unfolding declare if◌then◌else◌
merge_loop result [] = result
merge_loop result (a ∷ l) = merge_loop (if a.id == 0 then result else declare a result) l

-- `slices.SortFunc` by the identifier.
pub insert_by_id : LocalApplication → List LocalApplication → List LocalApplication
unfolding if◌then◌else◌
insert_by_id a [] = a ∷ []
insert_by_id a (b ∷ l) = if leb a.id b.id then a ∷ b ∷ l else b ∷ insert_by_id a l

pub sort_by_id : List LocalApplication → List LocalApplication
unfolding insert_by_id
sort_by_id [] = []
sort_by_id (a ∷ l) = insert_by_id a (sort_by_id l)

-- `mergeApplications`.
unfoldable pub merge_applications : List LocalApplication → List LocalApplication
unfolding merge_loop sort_by_id
merge_applications apps = sort_by_id (merge_loop [] apps)

-- `explicitApplications`.
unfoldable pub explicit_applications : Settings → Bool
explicit_applications cfg =
    is_some cfg.auth_application_id
    || is_some cfg.acct_application_id
    || is_some cfg.vendor_specific_application_id

abbrev pub unsigned_of : AvpData → Option ℕ
unsigned_of (unsigned32 n) = some n
unsigned_of _ = none

abbrev pub values : Option (List Avp) → List Avp
values none = []
values (some l) = l

-- An IETF AVP with an Unsigned32 and a given code.
unfoldable pub is_plain : ℕ → Avp → Bool
unfolding has_flag
is_plain c a =
    is_some (unsigned_of (payload a))
    && code a == c
    && vendor_id a == 0
    && not (has_flag (flags a) vbit)

unfoldable pub all_plain : ℕ → List Avp → Bool
unfolding is_plain
all_plain c [] = true
all_plain c (a ∷ l) = is_plain c a && all_plain c l

abbrev pub is_application_code : ℕ → Bool
is_application_code c = c == auth_application_id_code || c == acct_application_id_code

abbrev pub is_ietf : Avp → Bool
is_ietf a = vendor_id a == 0 && not (has_flag (flags a) vbit)

-- The members of a Vendor-Specific-Application-Id that are read: how many have a code that a test
-- holds of, and whether they are Unsigned32.
unfoldable pub count_members : (ℕ → Bool) → Avps → ℕ
unfolding has_flag if◌then◌else◌
count_members test nil = 0
count_members test (cons a l) = (if is_ietf a && test (code a) then 1 else 0) + count_members test l

unfoldable pub members_unsigned : Avps → Bool
unfolding has_flag
members_unsigned nil = true
members_unsigned (cons a l) =
    (not (is_ietf a)
      || not (code a == vendor_id_code || is_application_code (code a))
      || is_some (unsigned_of (payload a)))
    && members_unsigned l

unfoldable pub valid_group : Avp → Bool
unfolding has_flag count_members members_unsigned
valid_group a = elim (payload a) [
  | grouped ms ↦
      code a == vendor_specific_application_id_code
      && is_ietf a
      && members_unsigned ms
      && count_members (λ c. c == vendor_id_code) ms == 1
      && count_members is_application_code ms == 1
  | _ ↦ false
]

unfoldable pub all_groups : List Avp → Bool
unfolding valid_group
all_groups [] = true
all_groups (a ∷ l) = valid_group a && all_groups l

-- `offer`: an identifier with what the declarations say of it.
unfoldable pub metadata_of : List LocalApplication → ℕ → LocalApplication
unfolding if◌then◌else◌
metadata_of [] id = record { id = 0; app_type = ""; vendor = 0; supported_vendors = [] }
metadata_of (a ∷ l) id = if a.id == id then a else metadata_of l id

unfoldable pub offer : List LocalApplication → ℕ → String → ℕ → LocalApplication
unfolding metadata_of if◌then◌else◌
offer available id kind vendor =
    let app = record (metadata_of available id) { id = id; app_type = kind } in
    if vendor == 0 then app else record app {
      supported_vendors = app.supported_vendors ++ (app.vendor ∷ []);
      vendor = vendor;
    }

unfoldable pub offer_plain : List LocalApplication → String → List Avp → List LocalApplication
unfolding offer maybe
offer_plain available kind [] = []
offer_plain available kind (a ∷ l) =
    let rest = offer_plain available kind l in
    maybe (unsigned_of (payload a)) rest (λ id. offer available id kind 0 ∷ rest)

-- What the loop over a group's members has read: `id`, `vendor` and `kind`.
pub record GroupOffer : Type 0 where
  pub id : ℕ
  pub vendor : ℕ
  pub kind : String

unfoldable pub read_member : ℕ → ℕ → GroupOffer → GroupOffer
unfolding if◌then◌else◌
read_member c n o =
    if c == vendor_id_code
    then record o { vendor = n }
    else if c == auth_application_id_code
    then record o { id = n }
    else if c == acct_application_id_code
    then record o { id = n; kind = "acct" }
    else o

unfoldable pub read_group : Avps → GroupOffer → GroupOffer
unfolding read_member has_flag maybe if◌then◌else◌
read_group nil o = o
read_group (cons a l) o =
    read_group l
      (if is_ietf a then maybe (unsigned_of (payload a)) o (λ n. read_member (code a) n o) else o)

-- One Vendor-Specific-Application-Id; another payload is skipped.
unfoldable pub offer_group :
    List LocalApplication → AvpData → List LocalApplication → List LocalApplication
unfolding offer read_group
offer_group available (grouped ms) rest =
    let o = read_group ms (record { id = 0; vendor = 0; kind = "auth" }) in
    offer available o.id o.kind o.vendor ∷ rest
offer_group available _ rest = rest

unfoldable pub offer_groups : List LocalApplication → List Avp → List LocalApplication
unfolding offer_group
offer_groups available [] = []
offer_groups available (a ∷ l) = offer_group available (payload a) (offer_groups available l)

-- `advertisedApplications`.
unfoldable pub advertised_applications : Settings → List LocalApplication
unfolding merge_applications explicit_applications offer_plain offer_groups if◌then◌else◌
advertised_applications cfg =
    let available = merge_applications cfg.applications in
    if explicit_applications cfg
    then offer_plain available "auth" (values cfg.auth_application_id)
      ++ (offer_plain available "acct" (values cfg.acct_application_id)
          ++ offer_groups available (values cfg.vendor_specific_application_id))
    else available

abbrev pub id_of : LocalApplication → ℕ
id_of a = a.id

abbrev pub no_base : List LocalApplication → Bool
no_base [] = true
no_base (a ∷ l) = not (a.id == 0) && no_base l

-- `ValidateCapabilities`.
unfoldable pub validate_capabilities : Settings → Bool
unfolding all_plain all_groups advertised_applications
validate_capabilities cfg =
    all_plain auth_application_id_code (values cfg.auth_application_id)
    && all_plain acct_application_id_code (values cfg.acct_application_id)
    && all_plain supported_vendor_id_code cfg.supported_vendor_id
    && all_groups (values cfg.vendor_specific_application_id)
    && no_base (advertised_applications cfg)

-- `slices.Compact`.
unfoldable pub compact_front : ℕ → List ℕ → List ℕ
unfolding if◌then◌else◌
compact_front x [] = x ∷ []
compact_front x (y ∷ k) = if x == y then y ∷ k else x ∷ y ∷ k

unfoldable pub compact : List ℕ → List ℕ
unfolding compact_front
compact [] = []
compact (x ∷ l) = compact_front x (compact l)

-- `AdvertisedApplicationIDs`.
unfoldable pub advertised_application_ids : Settings → List ℕ
unfolding advertised_applications sort compact
advertised_application_ids cfg = compact (sort (map id_of (advertised_applications cfg)))

unfoldable pub add_each : List Avp → Body → Body
unfolding add_avp
add_each [] m = m
add_each (a ∷ l) m = add_each l (add_avp a m)

-- What one advertised application adds.
unfoldable pub application_avp : LocalApplication → Avp
unfolding new_avp is_vendor_specific_application if◌then◌else◌
application_avp a =
    let typ =
      if str_eq a.app_type "acct" then acct_application_id_code else auth_application_id_code in
    let id = new_avp typ mbit 0 (unsigned32 a.id) in
    if is_vendor_specific_application a.id && not (a.vendor == 0)
    then new_avp vendor_specific_application_id_code mbit 0
        (grouped (cons (new_avp vendor_id_code mbit 0 (unsigned32 a.vendor)) (cons id nil)))
    else id

-- `addApplications`.
unfoldable pub add_applications : Settings → List LocalApplication → Body → Body
unfolding explicit_applications add_each application_avp if◌then◌else◌
add_applications cfg apps m =
    if explicit_applications cfg
    then add_each
        (values cfg.auth_application_id
          ++ (values cfg.acct_application_id ++ values cfg.vendor_specific_application_id))
        m
    else add_each (map application_avp apps) m
