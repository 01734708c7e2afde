-- ===== src/Base/Disconnect/Laws.antt =====
-- diam/internal/base/disconnect.go against a count of the required AVPs.
use go_diameter.Prelude.{
  ℕ, ◌+◌, ◌≤◌, refl, false, ◌&&◌, ◌≡◌, Option, some, List, [], ◌∷◌, inl, inr, arith,
}
use go_diameter.Prelude.Tests.{◌==◌, if◌then◌else◌, maybe, Option-cases}
use go_diameter.Diam.Avp.{Avp, AvpData, code, vendor_id, payload}
use go_diameter.Diam.Codes.{
  origin_host_code, origin_realm_code, disconnect_cause_code, result_code_code,
}
use go_diameter.Diam.Message.{Message}
use go_diameter.Base.Settings.{ok}
use go_diameter.Base.Disconnect.{
  Scan, scan, scan_all, validate_dpr, validate_dpa, disconnect_cause, unsigned,
}

-- How many AVPs of no vendor have the code.
abbrev pub occurrences : ℕ → List Avp → ℕ
unfolding if◌then◌else◌
occurrences k [] = 0
occurrences k (a ∷ rest) = (if vendor_id a == 0 && code a == k then 1 else 0) + occurrences k rest

module _ (third : ℕ) (read : AvpData → Option ℕ) where
  -- The counters advance by the occurrences of their codes.
  pub scan-counts :
      (avps : List Avp) (s t : Scan)
      → (third == origin_host_code) ≡ false
      → (third == origin_realm_code) ≡ false
      → scan third read avps s ≡ some t
      → (t.host ≡ s.host + occurrences origin_host_code avps)
        × (t.realm ≡ s.realm + occurrences origin_realm_code avps)
        × (t.third ≡ s.third + occurrences third avps)
  unfolding scan if◌then◌else◌
  scan-counts [] s t p q h = ground arith
  scan-counts (a ∷ rest) s t p q h = elim (Option-cases (read (payload a))) [
    | inl n ↦ ground (
      arith,
      n,
      scan-counts rest (record s { host = s.host + 1 }) t p q,
      scan-counts rest (record s { realm = s.realm + 1 }) t p q,
      scan-counts rest s t p q,
    )
    | inr (v, e) ↦ ground (
      arith,
      e,
      scan-counts rest (record s { host = s.host + 1 }) t p q,
      scan-counts rest (record s { realm = s.realm + 1 }) t p q,
      scan-counts rest s t p q,
      scan-counts rest (record s { third = s.third + 1; value = v }) t p q,
    )
  ]

  scan-bound :
      (bound : ℕ) (avps : List Avp) (s t : Scan)
      → ((d : AvpData) (v : ℕ) → read d ≡ some v → v ≤ bound)
      → s.value ≤ bound
      → scan third read avps s ≡ some t
      → t.value ≤ bound
  unfolding scan if◌then◌else◌
  scan-bound bound [] s t r l h = ground arith
  scan-bound bound (a ∷ rest) s t r l h = elim (Option-cases (read (payload a))) [
    | inl n ↦ ground (
      arith,
      n,
      scan-bound bound rest (record s { host = s.host + 1 }) t r l,
      scan-bound bound rest (record s { realm = s.realm + 1 }) t r l,
      scan-bound bound rest s t r l,
    )
    | inr (v, e) ↦ ground (
      arith,
      e,
      scan-bound bound rest (record s { host = s.host + 1 }) t r l,
      scan-bound bound rest (record s { realm = s.realm + 1 }) t r l,
      scan-bound bound rest s t r l,
      scan-bound bound rest (record s { third = s.third + 1; value = v }) t r (r (payload a) v e),
    )
  ]

  -- What the test behind the loop accepts.
  accepted :
      (avps : List Avp) (v : ℕ)
      → scan_all third read avps ≡ ok v
      → (t : Scan) × (scan third read avps (record { host = 0; realm = 0; third = 0; value = 0 })
          ≡ some t)
        × (t.host ≡ 1)
        × (t.realm ≡ 1)
        × (t.third ≡ 1)
        × (t.value ≡ v)
  unfolding scan_all if◌then◌else◌
  accepted avps v h =
      elim (Option-cases
        (scan third read avps (record { host = 0; realm = 0; third = 0; value = 0 }))) [
          | inl n ↦ ground (arith, n)
          | inr (t, e) ↦
              let r : (t.host ≡ 1) × (t.realm ≡ 1) × (t.third ≡ 1) × (t.value ≡ v) =
                ground (arith, e) in
              (t, e, r.0, r.1, r.2, r.3)
        ]

disconnect_cause-bound : (d : AvpData) (v : ℕ) → disconnect_cause d ≡ some v → v ≤ 2
unfolding if◌then◌else◌
disconnect_cause-bound d v h = ground arith

-- A disconnect request that is found valid has an Origin-Host, an Origin-Realm and a
-- Disconnect-Cause of the base protocol exactly once each, and the cause returned is at most 2.
pub validate_dpr-once :
    (m : Message) (cause : ℕ)
    → validate_dpr m ≡ ok cause
    → (cause ≤ 2)
      × (occurrences origin_host_code m.avps ≡ 1)
      × (occurrences origin_realm_code m.avps ≡ 1)
      × (occurrences disconnect_cause_code m.avps ≡ 1)
unfolding validate_dpr if◌then◌else◌ maybe
validate_dpr-once m cause h =
    let (t, e, a, b, c, d) =
      accepted disconnect_cause_code disconnect_cause m.avps cause (ground (arith, h)) in
    let n = scan-counts disconnect_cause_code disconnect_cause m.avps _ t refl refl e in
    let q =
      scan-bound disconnect_cause_code disconnect_cause 2 m.avps _ t disconnect_cause-bound
        (omega arith) e in
    ground (arith, n, q, a, b, c, d)

-- A disconnect answer that is found valid has an Origin-Host, an Origin-Realm and a Result-Code of
-- the base protocol exactly once each.
pub validate_dpa-once :
    (m : Message) (result : ℕ)
    → validate_dpa m ≡ ok result
    → (occurrences origin_host_code m.avps ≡ 1)
      × (occurrences origin_realm_code m.avps ≡ 1)
      × (occurrences result_code_code m.avps ≡ 1)
unfolding validate_dpa if◌then◌else◌ maybe
validate_dpa-once m result h =
    let (t, e, a, b, c, d) = accepted result_code_code unsigned m.avps result (ground (arith, h)) in
    let n = scan-counts result_code_code unsigned m.avps _ t refl refl e in
    ground (arith, n, a, b, c)
