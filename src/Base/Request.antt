-- ===== src/Base/Request.antt =====
-- diam/internal/base/validation.go: `SupportsApplication` and `ValidateRequest`.
pub mod Laws
use go_diameter.Prelude.{ℕ, Bool, not, ◌&&◌, ◌||◌, Option, none, some, List, [], ◌∷◌}
use go_diameter.Prelude.Tests.{◌==◌, if◌then◌else◌, maybe}
use go_diameter.Prelude.Lists.{contains}
use go_diameter.Diam.Avp.{Avp}
use go_diameter.Diam.Codes.{
  application_unsupported, avp_unsupported, unsupported_application, unsupported_avp,
  malformed_message, invalid_request,
}
use go_diameter.Diam.Error.{MessageError}
use go_diameter.Diam.Header.{Header, is_request}
use go_diameter.Diam.Message.{Message}
use go_diameter.Base.Settings.{RequestError}
use go_diameter.Base.Interface.{Base}

abbrev pub relay : ℕ
relay = 0xffff_ffff

-- The elements of a slice that may be nil.
abbrev pub elements {ℓ} : {A : Type ℓ} → Option (List A) → List A
elements none = []
elements (some xs) = xs

unfoldable pub supports_application : Option (List ℕ) → ℕ → Bool
supports_application applications app_id =
    app_id == 0 || contains (elements applications) app_id || contains (elements applications) relay

abbrev pub failed_list : Option Avp → List Avp
failed_list none = []
failed_list (some a) = a ∷ []

-- The part behind the membership and mandatory-AVP checks: a decoder's error, then the grammar.
grammar_error : Base → Message → Bool → Option MessageError → Option RequestError
unfolding if◌then◌else◌ maybe
grammar_error b m validate (some e) =
    some
      (record { kind = malformed_message; code = e.result_code; failed = failed_list e.failed_avp })
grammar_error b m validate none =
    if validate
    then maybe (b.validate m) none (λ e.
      some (record {
        kind = invalid_request;
        code = e.result_code;
        failed = failed_list e.failed_avp;
      }))
    else none

-- `len(failed) != 0`.
mandatory_error : List Avp → Option RequestError → Option RequestError
mandatory_error [] next = next
mandatory_error (a ∷ failed) next =
    some (record { kind = unsupported_avp; code = avp_unsupported; failed = a ∷ failed })

-- `h` is the header of `m`, which the source reads without a nil check.
unfoldable pub validate_request :
    Base
    → Message
    → Header
    → Option (List ℕ)
    → Bool
    → Bool
    → Option MessageError
    → Option RequestError
unfolding grammar_error mandatory_error if◌then◌else◌
validate_request b m h applications validate reject_unknown decode_error =
    let grammar = grammar_error b m validate decode_error in
    if not (is_request h)
    then none
    else if validate && not (supports_application applications h.application_id)
    then some
        (record { kind = unsupported_application; code = application_unsupported; failed = [] })
    else if reject_unknown && not (contains (elements applications) relay)
    then mandatory_error (b.unknown_mandatory_avps m) grammar
    else grammar
