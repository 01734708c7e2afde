-- ===== src/Base/Disconnect.antt =====
-- diam/internal/base/disconnect.go: the required AVPs of DPR and DPA, each exactly once.
pub mod Laws
pub mod Complete
use go_diameter.Prelude.{
  ℕ, suc, ◌+◌, Bool, true, false, not, ◌&&◌, ◌||◌, Option, none, some, List, [], ◌∷◌,
}
use go_diameter.Prelude.Tests.{◌==◌, ltb, if◌then◌else◌, maybe}
use go_diameter.Prelude.Int.{ℤ, pos, negsuc}
use go_diameter.Diam.Avp.{
  Avp, AvpData, unsigned32, enumerated, diameter_identity, code, vendor_id, payload,
}
use go_diameter.Diam.Codes.{
  disconnect_peer, origin_host_code, origin_realm_code, disconnect_cause_code, result_code_code,
}
use go_diameter.Diam.Error.{text}
use go_diameter.Diam.Header.{Header, is_request}
use go_diameter.Diam.Message.{Message}
use go_diameter.Base.Settings.{Checked, ok, bad}

-- The counters of the loops, and the value read last.
pub record Scan : Type 0 where
  pub host : ℕ
  pub realm : ℕ
  pub third : ℕ
  pub value : ℕ

-- `v, ok := a.Data.(datatype.DiameterIdentity); ok && len(v) != 0`.
abbrev pub is_identity : AvpData → Bool
is_identity (diameter_identity (x ∷ xs)) = true
is_identity _ = false

-- A Disconnect-Cause of 0, 1 or 2.
abbrev pub disconnect_cause : AvpData → Option ℕ
disconnect_cause (enumerated (pos n)) = if ltb 2 n then none else some n
disconnect_cause _ = none

abbrev pub unsigned : AvpData → Option ℕ
unsigned (unsigned32 n) = some n
unsigned _ = none

-- The loop of `ValidateDPR` and `ValidateDPA`: `third_code` and `read` are the AVP that they differ
-- in and how its value is read.
module _ (third_code : ℕ) (read : AvpData → Option ℕ) where
  unfoldable pub scan : List Avp → Scan → Option Scan
  unfolding if◌then◌else◌
  scan [] s = some s
  scan (a ∷ rest) s =
      let after_host = scan rest (record s { host = s.host + 1 }) in
      let after_realm = scan rest (record s { realm = s.realm + 1 }) in
      let skipped = scan rest s in
      if not (vendor_id a == 0)
      then skipped
      else if code a == origin_host_code
      then (if is_identity (payload a) then after_host else none)
      else if code a == origin_realm_code
      then (if is_identity (payload a) then after_realm else none)
      else if code a == third_code
      then elim (read (payload a)) [
        | none ↦ none
        | some v ↦ scan rest (record s { third = s.third + 1; value = v })
      ]
      else skipped

  -- The test behind the loop.
  unfoldable pub scan_all : List Avp → Checked ℕ
  unfolding scan if◌then◌else◌
  scan_all avps = elim (scan avps (record { host = 0; realm = 0; third = 0; value = 0 })) [
    | none ↦ bad (text "invalid AVP")
    | some s ↦
        if s.host == 1 && (s.realm == 1 && s.third == 1)
        then ok s.value
        else bad (text "a required AVP is missing or repeated")
  ]

abbrev pub is_disconnect : Header → Bool
is_disconnect h = h.application_id == 0 && h.command_code == disconnect_peer

-- Both are called on messages that have a header; one without is answered like a wrong one.
unfoldable pub validate_dpr : Message → Checked ℕ
unfolding if◌then◌else◌ maybe
validate_dpr m = maybe m.header (bad (text "invalid DPR header")) λ h.
    if is_disconnect h && is_request h
    then scan_all disconnect_cause_code disconnect_cause m.avps
    else bad (text "invalid DPR header")

unfoldable pub validate_dpa : Message → Checked ℕ
unfolding if◌then◌else◌ maybe
validate_dpa m = maybe m.header (bad (text "invalid DPA header")) λ h.
    if is_disconnect h && not (is_request h)
    then scan_all result_code_code unsigned m.avps
    else bad (text "invalid DPA header")
