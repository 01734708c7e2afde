-- ===== src/Base/Request/Laws.antt =====
-- diam/internal/base/validation.go: the requests that `ValidateRequest` lets through.
use go_diameter.Prelude.{ℕ, Bool, true, false, ◌≡◌, ◌⊎◌, ◌↔◌, Option, none, List, [], arith}
use go_diameter.Prelude.Tests.{if◌then◌else◌, maybe}
use go_diameter.Prelude.Lists.{contains}
use go_diameter.Diam.Error.{MessageError}
use go_diameter.Diam.Header.{Header, is_request}
use go_diameter.Diam.Message.{Message}
use go_diameter.Base.Interface.{Base}
use go_diameter.Base.Request.{relay, elements, supports_application, validate_request}

-- A request passes exactly when, with validation on, its application is the base protocol or one
-- that the connection has, or the connection relays, and its grammar is met; with unknown mandatory AVPs rejected, it has none, or the
-- connection relays; and its decoder reported no error.
pub validate_request_passes :
    (b : Base) (m : Message) (h : Header) (apps : Option (List ℕ)) (validate reject : Bool)
    (e : Option MessageError)
    → is_request h ≡ true
    → (validate_request b m h apps validate reject e ≡ none) ↔ (
        ((validate ≡ false)
          ⊎ (h.application_id ≡ 0)
          ⊎ (contains (elements apps) h.application_id ≡ true)
          ⊎ (contains (elements apps) relay ≡ true))
        × ((reject ≡ false)
            ⊎ (contains (elements apps) relay ≡ true)
            ⊎ (b.unknown_mandatory_avps m ≡ []))
        × (e ≡ none)
        × ((validate ≡ false) ⊎ (b.validate m ≡ none)))
unfolding validate_request supports_application if◌then◌else◌ maybe
validate_request_passes b m h apps validate reject e r = ground arith
