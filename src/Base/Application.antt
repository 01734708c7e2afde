-- ===== src/Base/Application.antt =====
-- diam/internal/base/app.go: the applications of a received capabilities exchange, and `App` of
-- diam/dict/util.go. The receiver's `id` is threaded through; no AVP of a list is nil.
pub mod Laws
use text.Mathlib.Text.{◌==◌ as str_eq}
use go_diameter.Prelude.{
  ℕ, String, Bool, true, false, not, ◌&&◌, ◌||◌, Option, none, some, List, [], ◌∷◌, ◌++◌,
}
use go_diameter.Prelude.Tests.{◌==◌, maybe, is_some, if◌then◌else◌}
use go_diameter.Prelude.Lists.{contains}
use go_diameter.Diam.Avp.{Avp, code, payload, AvpData, unsigned32, grouped, Avps, nil, cons}
use go_diameter.Diam.Grammar.{auth_application_id_code, acct_application_id_code}

-- `dict.App`, as far as it is looked up.
pub record App : Type 0 where
  pub id : ℕ
  pub type : String

-- The last application of those loaded that a test holds of.
unfoldable pub last_app : (App → Bool) → List App → Option App
unfolding maybe if◌then◌else◌
last_app test [] = none
last_app test (a ∷ l) =
    let rest = last_app test l in maybe rest (if test a then some a else none) some

-- `App` for one type.
unfoldable pub find_app : List App → ℕ → String → Option App
unfolding last_app maybe if◌then◌else◌
find_app apps id typ =
    maybe (last_app (λ a. a.id == id && str_eq a.type typ) apps)
      (maybe (last_app (λ a. a.id == id) apps) none
        (λ a. if str_eq a.type "" || str_eq a.type typ then some a else none))
      some

-- `nil`, `ErrNoCommonApplication`, `ErrMissingApplication` and `ErrUnexpectedAVP`.
pub data AppError : Type 0 where
  fine no_common missing : AppError
  unexpected_avp : Avp → AppError

abbrev pub is_fine : AppError → Bool
is_fine fine = true
is_fine _ = false

-- What a check returns: `failedAVP` and `err`, with the identifiers found so far.
pub record Verdict : Type 0 where
  pub failed_avp : Option Avp
  pub err : AppError
  pub ids : List ℕ

-- What this node knows: the identifiers that it advertises, if they are given, and its dictionary.
pub record Local : Type 0 where
  pub advertised : Option (List ℕ)
  pub apps : List App

abbrev pub relay_id : ℕ
relay_id = 0xffffffff

abbrev unsigned_of : AvpData → Option ℕ
unsigned_of (unsigned32 n) = some n
unsigned_of _ = none

unfoldable pub type_name : ℕ → String
unfolding if◌then◌else◌
type_name c =
    if c == acct_application_id_code
    then "acct"
    else if c == auth_application_id_code
    then "auth"
    else ""

-- Whether an identifier other than the relay's is known here.
unfoldable pub is_known : Local → ℕ → ℕ → Bool
unfolding find_app type_name contains maybe
is_known l app_type id =
    maybe l.advertised (is_some (find_app l.apps id (type_name app_type)))
      (λ k. contains k id || contains k relay_id)

-- `validate`, on the identifier of an AVP and on the AVP.
unfoldable pub validate_id : Local → ℕ → Avp → List ℕ → ℕ → Verdict
unfolding if◌then◌else◌
validate_id l app_type a ids id =
    if id == 0
    then record { failed_avp = some a; err = no_common; ids = ids }
    else if id == relay_id || is_known l app_type id
    then record { failed_avp = none; err = fine; ids = ids ++ (id ∷ []) }
    else record { failed_avp = some a; err = no_common; ids = ids }

unfoldable pub validate_application : Local → ℕ → Avp → List ℕ → Verdict
unfolding validate_id maybe if◌then◌else◌
validate_application l app_type a ids =
    let unexpected : Verdict = record { failed_avp = some a; err = unexpected_avp a; ids = ids } in
    if code a == app_type
    then maybe (unsigned_of (payload a)) unexpected (validate_id l app_type a ids)
    else unexpected

-- `failedAVP`, `err` and `oneFound` of a loop, with the identifiers.
pub record Choice : Type 0 where
  pub failed_avp : Option Avp
  pub err : AppError
  pub one_found : Bool
  pub ids : List ℕ

-- `chooseErr`, and the identifiers of the new verdict.
unfoldable pub choose_err : Choice → Verdict → Choice
unfolding if◌then◌else◌
choose_err c v =
    if is_fine v.err
    then record c { one_found = true; ids = v.ids }
    else if is_fine c.err || (not (is_some c.failed_avp) && is_some v.failed_avp)
    then record c { failed_avp = v.failed_avp; err = v.err; ids = v.ids }
    else record c { ids = v.ids }

unfoldable pub validate_each : Local → ℕ → List Avp → Choice → Choice
unfolding validate_application choose_err
validate_each l app_type [] c = c
validate_each l app_type (a ∷ rest) c =
    validate_each l app_type rest (choose_err c (validate_application l app_type a c.ids))

abbrev none_common : Bool → AppError
none_common true = missing
none_common false = no_common

-- `validateAll`; `client` is whether the local role is Client.
unfoldable pub validate_all : Local → Bool → ℕ → List Avp → List ℕ → Verdict
unfolding validate_each if◌then◌else◌
validate_all l client app_type [] ids = record {
  failed_avp = none;
  err = none_common client;
  ids = ids;
}
validate_all l client app_type (a ∷ rest) ids =
    let c =
      validate_each l app_type (a ∷ rest)
        (record { failed_avp = none; err = fine; one_found = false; ids = ids }) in
    if c.one_found
    then record { failed_avp = none; err = fine; ids = c.ids }
    else record { failed_avp = c.failed_avp; err = c.err; ids = c.ids }

-- The loop of `handleGroup`: the last verdict stands for members of other codes too, and `success`
-- is set by a member of any code while there is no error.
unfoldable pub group_member : Local → Avp → Verdict → Verdict
unfolding validate_application if◌then◌else◌
group_member l a v =
    if code a == acct_application_id_code || code a == auth_application_id_code
    then validate_application l (code a) a v.ids
    else v

unfoldable pub group_loop : Local → Avps → Verdict → Bool → Verdict × Bool
unfolding group_member
group_loop l nil v success = (v, success)
group_loop l (cons a ms) v success =
    let next = group_member l a v in group_loop l ms next (success || is_fine next.err)

unfoldable pub group_outcome : Verdict × Bool → Verdict
group_outcome (v, true) = record { failed_avp = none; err = fine; ids = v.ids }
group_outcome (v, false) = v

unfoldable pub handle_payload : Local → Avp → List ℕ → AvpData → Verdict
unfolding group_loop group_outcome
handle_payload l a ids (grouped ms) =
    group_outcome (group_loop l ms (record { failed_avp = none; err = fine; ids = ids }) false)
handle_payload l a ids x = record { failed_avp = some a; err = unexpected_avp a; ids = ids }

unfoldable pub handle_group : Local → Avp → List ℕ → Verdict
unfolding handle_payload
handle_group l a ids = handle_payload l a ids (payload a)

unfoldable pub handle_groups : Local → List Avp → Choice → Choice
unfolding handle_group choose_err
handle_groups l [] c = c
handle_groups l (a ∷ rest) c = handle_groups l rest (choose_err c (handle_group l a c.ids))

-- The lists of a received message.
pub record Offered : Type 0 where
  pub acct : List Avp
  pub auth : List Avp
  pub vendor_specific : List Avp

abbrev pub has_none : List ℕ → Bool
has_none [] = true
has_none (x ∷ l) = false

-- The choice after the first list, whose verdict sets `oneFound` by its error alone, after the
-- second, and after the third.
unfoldable pub first_choice : Local → Bool → Offered → Choice
unfolding validate_all
first_choice l client o =
    let v = validate_all l client acct_application_id_code o.acct [] in
    record { failed_avp = v.failed_avp; err = v.err; one_found = is_fine v.err; ids = v.ids }

unfoldable pub plain_choice : Local → Bool → Offered → Choice
unfolding first_choice validate_all choose_err
plain_choice l client o =
    let c = first_choice l client o in
    choose_err c (validate_all l client auth_application_id_code o.auth c.ids)

unfoldable pub choose_all : Local → Bool → Offered → Choice
unfolding plain_choice handle_groups
choose_all l client o = handle_groups l o.vendor_specific (plain_choice l client o)

-- The end of `ParseWithApplicationIDs`.
unfoldable pub conclude_parse : Bool → Choice → Verdict
unfolding if◌then◌else◌
conclude_parse client c =
    if not c.one_found
    then record { failed_avp = c.failed_avp; err = c.err; ids = c.ids }
    else if has_none c.ids
    then record { failed_avp = c.failed_avp; err = none_common client; ids = c.ids }
    else record { failed_avp = none; err = fine; ids = c.ids }

-- `ParseWithApplicationIDs`, and `Parse` where no identifiers are advertised.
unfoldable pub parse_with_application_ids : Local → Bool → Offered → Verdict
unfolding choose_all conclude_parse
parse_with_application_ids l client o = conclude_parse client (choose_all l client o)
