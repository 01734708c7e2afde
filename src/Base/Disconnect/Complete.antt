-- ===== src/Base/Disconnect/Complete.antt =====
-- diam/internal/base/disconnect.go: the messages that the tests let through.
use go_diameter.Prelude.{
  ◌↔◌, ℕ, ◌+◌, refl, Bool, true, false, not, ◌&&◌, ◌||◌, ◌≡◌, Option, some, List, [], ◌∷◌, inl, inr,
  arith,
}
use go_diameter.Prelude.Tests.{◌==◌, if◌then◌else◌, maybe, is_some, Option-cases}
use go_diameter.Prelude.Lists.{All}
use go_diameter.Diam.Avp.{Avp, AvpData, code, vendor_id, payload}
use go_diameter.Diam.Codes.{
  origin_host_code, origin_realm_code, disconnect_cause_code, result_code_code,
}
use go_diameter.Diam.Header.{Header, is_request}
use go_diameter.Diam.Message.{Message}
use go_diameter.Base.Settings.{ok}
use go_diameter.Base.Disconnect.{
  Scan, scan, scan_all, is_identity, is_disconnect, validate_dpr, validate_dpa, disconnect_cause,
  unsigned,
}
use go_diameter.Base.Disconnect.Laws.{
  occurrences, scan-counts, validate_dpr-once, validate_dpa-once,
}

-- The value of an AVP is of the type that its code asks for; AVPs of a vendor and of other codes have
-- no type to keep to.
unfoldable pub is_typed : ℕ → (AvpData → Option ℕ) → Avp → Bool
unfolding if◌then◌else◌
is_typed third read a =
    if not (vendor_id a == 0)
    then true
    else if code a == origin_host_code || code a == origin_realm_code
    then is_identity (payload a)
    else if code a == third
    then is_some (read (payload a))
    else true

module _ (third : ℕ) (read : AvpData → Option ℕ) where
  scan_typed :
      (avps : List Avp) (s : Scan)
      → All (λ a. is_typed third read a ≡ true) avps
      → is_some (scan third read avps s) ≡ true
  unfolding scan is_typed if◌then◌else◌
  scan_typed [] s h = refl
  scan_typed (a ∷ rest) s h = elim (Option-cases (read (payload a))) [
    | inl n ↦ ground (
      arith,
      n,
      h.0,
      scan_typed rest (record s { host = s.host + 1 }) h.1,
      scan_typed rest (record s { realm = s.realm + 1 }) h.1,
      scan_typed rest s h.1,
    )
    | inr (v, e) ↦ ground (
      arith,
      e,
      h.0,
      scan_typed rest (record s { host = s.host + 1 }) h.1,
      scan_typed rest (record s { realm = s.realm + 1 }) h.1,
      scan_typed rest s h.1,
      scan_typed rest (record s { third = s.third + 1; value = v }) h.1,
    )
  ]

  scan_all_accepts :
      (avps : List Avp)
      → (third == origin_host_code) ≡ false
      → (third == origin_realm_code) ≡ false
      → All (λ a. is_typed third read a ≡ true) avps
      → occurrences origin_host_code avps ≡ 1
      → occurrences origin_realm_code avps ≡ 1
      → occurrences third avps ≡ 1
      → (v : ℕ) × (scan_all third read avps ≡ ok v)
  unfolding scan_all if◌then◌else◌
  scan_all_accepts avps p q h a b c =
      let s : Scan = record { host = 0; realm = 0; third = 0; value = 0 } in
      elim (Option-cases (scan third read avps s)) [
        | inl n ↦ ground (arith, n, scan_typed avps s h)
        | inr (t, e) ↦ (t.value, ground (arith, e, a, b, c, scan-counts third read avps s t p q e))
      ]

validate_dpr_accepts :
    (m : Message) (h : Header)
    → m.header ≡ some h
    → (is_disconnect h && is_request h) ≡ true
    → All (λ a. is_typed disconnect_cause_code disconnect_cause a ≡ true) m.avps
    → occurrences origin_host_code m.avps ≡ 1
    → occurrences origin_realm_code m.avps ≡ 1
    → occurrences disconnect_cause_code m.avps ≡ 1
    → (cause : ℕ) × (validate_dpr m ≡ ok cause)
unfolding validate_dpr if◌then◌else◌ maybe
validate_dpr_accepts m h e r t a b c =
    let (v, f) = scan_all_accepts disconnect_cause_code disconnect_cause m.avps refl refl t a b c in
    (v, ground (arith, e, r, f))

validate_dpa_accepts :
    (m : Message) (h : Header)
    → m.header ≡ some h
    → (is_disconnect h && not (is_request h)) ≡ true
    → All (λ a. is_typed result_code_code unsigned a ≡ true) m.avps
    → occurrences origin_host_code m.avps ≡ 1
    → occurrences origin_realm_code m.avps ≡ 1
    → occurrences result_code_code m.avps ≡ 1
    → (result : ℕ) × (validate_dpa m ≡ ok result)
unfolding validate_dpa if◌then◌else◌ maybe
validate_dpa_accepts m h e r t a b c =
    let (v, f) = scan_all_accepts result_code_code unsigned m.avps refl refl t a b c in
    (v, ground (arith, e, r, f))

-- A disconnect request whose AVPs are of the types that their codes ask for, a cause being 0, 1 or 2
-- and an identity not empty, is found valid with some cause exactly when Origin-Host, Origin-Realm and
-- Disconnect-Cause of the base protocol occur once each.
pub validate_dpr_iff :
    (m : Message) (h : Header)
    → m.header ≡ some h
    → (is_disconnect h && is_request h) ≡ true
    → All (λ a. is_typed disconnect_cause_code disconnect_cause a ≡ true) m.avps
    → ((cause : ℕ) × (validate_dpr m ≡ ok cause)) ↔ (
        (occurrences origin_host_code m.avps ≡ 1)
        × (occurrences origin_realm_code m.avps ≡ 1)
        × (occurrences disconnect_cause_code m.avps ≡ 1))
validate_dpr_iff m h e r t = (
  (λ k. let z = validate_dpr-once m k.0 k.1 in (z.1, z.2, z.3)),
  λ k. validate_dpr_accepts m h e r t k.0 k.1 k.2,
)

-- A disconnect answer whose AVPs are of the types that their codes ask for is found valid with some
-- result exactly when Origin-Host, Origin-Realm and Result-Code of the base protocol occur once each.
pub validate_dpa_iff :
    (m : Message) (h : Header)
    → m.header ≡ some h
    → (is_disconnect h && not (is_request h)) ≡ true
    → All (λ a. is_typed result_code_code unsigned a ≡ true) m.avps
    → ((result : ℕ) × (validate_dpa m ≡ ok result)) ↔ (
        (occurrences origin_host_code m.avps ≡ 1)
        × (occurrences origin_realm_code m.avps ≡ 1)
        × (occurrences result_code_code m.avps ≡ 1))
validate_dpa_iff m h e r t =
    (λ k. validate_dpa-once m k.0 k.1, λ k. validate_dpa_accepts m h e r t k.0 k.1 k.2)
