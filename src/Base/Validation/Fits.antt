-- ===== src/Base/Validation/Fits.antt =====
-- `validateTypes` of diam/internal/base/validation.go: the payloads that it lets through.
use go_diameter.Prelude.{ap, ℕ, ◌≡◌, refl, ◌∙◌, Bool, not, ◌&&◌, List}
use go_diameter.Prelude.Tests.{is_some, maybe, if◌then◌else◌}
use go_diameter.Diam.Avp.{
  AvpData, nil_data, unknown_data, octet_string, utf8_string, diameter_identity, diameter_uri,
  ip_filter_rule, qos_filter_rule, raw_grouped, ipv4, ipv6, unsigned32, unsigned64, float32,
  float64, integer32, integer64, enumerated, time, address, grouped,
}
use go_diameter.Diam.Codec.{serialize_data}
use go_diameter.Diam.Codes.{invalid_avp_value}
use go_diameter.Diam.Datatype.{
  TypeId, address_type, diameter_identity_type, utf8_string_type, unsigned32_type, enumerated_type,
  unknown_type, diameter_uri_type, float32_type, float64_type, grouped_type, ip_filter_rule_type,
  ipv4_type, integer32_type, integer64_type, octet_string_type, qos_filter_rule_type, time_type,
  unsigned64_type, ipv6_type, decode_address,
}
use go_diameter.Diam.Datatype.Identity.{valid_identity}
use go_diameter.Base.Validation.{data_type, wrong_type, check_content, bad_value, check_avp}
use go_diameter.Base.Validation.Kinds.{of_type, wrong_type-of_type, allowed, bad_value-allowed}
use go_diameter.Base.Validation.Payload.{
  unsigned32_length, enumerated_length, check_length-invalid, check_address-invalid,
  identity_invalid, utf8_invalid, finish, not-not,
}

module _ (utf8_valid : List ℕ → Bool) where
  -- A payload is of its definition's type; addresses, identities and texts are well formed.
  unfoldable pub fits : TypeId → AvpData → Bool
  unfolding of_type
  fits address_type d = of_type address_type d && is_some (decode_address (serialize_data d))
  fits diameter_identity_type d =
      of_type diameter_identity_type d && valid_identity (serialize_data d)
  fits utf8_string_type d = of_type utf8_string_type d && utf8_valid (serialize_data d)
  fits t d = of_type t d

  content-fits :
      (t : TypeId) (d : AvpData) (n : ℕ)
      → (check_content utf8_valid t d (record { code = n; invalid = wrong_type t d })).invalid
        ≡ not (fits t d)
  unfolding fits check_content if◌then◌else◌
  content-fits address_type d n =
      check_address-invalid d n (wrong_type address_type d)
      ∙ ap (λ b. not (b && is_some (decode_address (serialize_data d))))
          (wrong_type-of_type address_type d)
  content-fits diameter_identity_type d n =
      identity_invalid n (wrong_type diameter_identity_type d) (valid_identity (serialize_data d))
      ∙ ap (λ b. not (b && valid_identity (serialize_data d)))
          (wrong_type-of_type diameter_identity_type d)
  content-fits utf8_string_type d n =
      utf8_invalid (wrong_type utf8_string_type d) (utf8_valid (serialize_data d))
      ∙ ap (λ b. not (b && utf8_valid (serialize_data d))) (wrong_type-of_type utf8_string_type d)
  content-fits unsigned32_type d n =
      check_length-invalid d n (wrong_type unsigned32_type d) (unsigned32_length d)
      ∙ not-not (wrong_type unsigned32_type d)
      ∙ ap not (wrong_type-of_type unsigned32_type d)
  content-fits enumerated_type d n =
      check_length-invalid d n (wrong_type enumerated_type d) (enumerated_length d)
      ∙ not-not (wrong_type enumerated_type d)
      ∙ ap not (wrong_type-of_type enumerated_type d)
  content-fits unknown_type d n =
      not-not (wrong_type unknown_type d) ∙ ap not (wrong_type-of_type unknown_type d)
  content-fits diameter_uri_type d n =
      not-not (wrong_type diameter_uri_type d) ∙ ap not (wrong_type-of_type diameter_uri_type d)
  content-fits float32_type d n =
      not-not (wrong_type float32_type d) ∙ ap not (wrong_type-of_type float32_type d)
  content-fits float64_type d n =
      not-not (wrong_type float64_type d) ∙ ap not (wrong_type-of_type float64_type d)
  content-fits grouped_type d n =
      not-not (wrong_type grouped_type d) ∙ ap not (wrong_type-of_type grouped_type d)
  content-fits ip_filter_rule_type d n =
      not-not (wrong_type ip_filter_rule_type d) ∙ ap not (wrong_type-of_type ip_filter_rule_type d)
  content-fits ipv4_type d n =
      not-not (wrong_type ipv4_type d) ∙ ap not (wrong_type-of_type ipv4_type d)
  content-fits integer32_type d n =
      not-not (wrong_type integer32_type d) ∙ ap not (wrong_type-of_type integer32_type d)
  content-fits integer64_type d n =
      not-not (wrong_type integer64_type d) ∙ ap not (wrong_type-of_type integer64_type d)
  content-fits octet_string_type d n =
      not-not (wrong_type octet_string_type d) ∙ ap not (wrong_type-of_type octet_string_type d)
  content-fits qos_filter_rule_type d n =
      not-not (wrong_type qos_filter_rule_type d)
      ∙ ap not (wrong_type-of_type qos_filter_rule_type d)
  content-fits time_type d n =
      not-not (wrong_type time_type d) ∙ ap not (wrong_type-of_type time_type d)
  content-fits unsigned64_type d n =
      not-not (wrong_type unsigned64_type d) ∙ ap not (wrong_type-of_type unsigned64_type d)
  content-fits ipv6_type d n =
      not-not (wrong_type ipv6_type d) ∙ ap not (wrong_type-of_type ipv6_type d)

  nil-fits : (t : TypeId) → wrong_type t nil_data ≡ not (fits t nil_data)
  unfolding fits wrong_type data_type maybe if◌then◌else◌
  nil-fits address_type = refl
  nil-fits diameter_identity_type = refl
  nil-fits utf8_string_type = refl
  nil-fits unsigned32_type = refl
  nil-fits enumerated_type = refl
  nil-fits unknown_type = refl
  nil-fits diameter_uri_type = refl
  nil-fits float32_type = refl
  nil-fits float64_type = refl
  nil-fits grouped_type = refl
  nil-fits ip_filter_rule_type = refl
  nil-fits ipv4_type = refl
  nil-fits integer32_type = refl
  nil-fits integer64_type = refl
  nil-fits octet_string_type = refl
  nil-fits qos_filter_rule_type = refl
  nil-fits time_type = refl
  nil-fits unsigned64_type = refl
  nil-fits ipv6_type = refl

  pub check_avp-fits :
      (t : TypeId) (c v : ℕ) (d : AvpData)
      → (check_avp utf8_valid t c v d).invalid ≡ not (fits t d && allowed c v d)
  unfolding check_avp if◌then◌else◌
  check_avp-fits t c v nil_data =
      finish _ (fits t nil_data) (bad_value c v nil_data) (allowed c v nil_data) (nil-fits t)
        (bad_value-allowed c v nil_data)
  check_avp-fits t c v (unknown_data x) =
      finish _ (fits t (unknown_data x)) (bad_value c v (unknown_data x))
        (allowed c v (unknown_data x)) (content-fits t (unknown_data x) invalid_avp_value)
        (bad_value-allowed c v (unknown_data x))
  check_avp-fits t c v (octet_string x) =
      finish _ (fits t (octet_string x)) (bad_value c v (octet_string x))
        (allowed c v (octet_string x)) (content-fits t (octet_string x) invalid_avp_value)
        (bad_value-allowed c v (octet_string x))
  check_avp-fits t c v (utf8_string x) =
      finish _ (fits t (utf8_string x)) (bad_value c v (utf8_string x))
        (allowed c v (utf8_string x)) (content-fits t (utf8_string x) invalid_avp_value)
        (bad_value-allowed c v (utf8_string x))
  check_avp-fits t c v (diameter_identity x) =
      finish _ (fits t (diameter_identity x)) (bad_value c v (diameter_identity x))
        (allowed c v (diameter_identity x)) (content-fits t (diameter_identity x) invalid_avp_value)
        (bad_value-allowed c v (diameter_identity x))
  check_avp-fits t c v (diameter_uri x) =
      finish _ (fits t (diameter_uri x)) (bad_value c v (diameter_uri x))
        (allowed c v (diameter_uri x)) (content-fits t (diameter_uri x) invalid_avp_value)
        (bad_value-allowed c v (diameter_uri x))
  check_avp-fits t c v (ip_filter_rule x) =
      finish _ (fits t (ip_filter_rule x)) (bad_value c v (ip_filter_rule x))
        (allowed c v (ip_filter_rule x)) (content-fits t (ip_filter_rule x) invalid_avp_value)
        (bad_value-allowed c v (ip_filter_rule x))
  check_avp-fits t c v (qos_filter_rule x) =
      finish _ (fits t (qos_filter_rule x)) (bad_value c v (qos_filter_rule x))
        (allowed c v (qos_filter_rule x)) (content-fits t (qos_filter_rule x) invalid_avp_value)
        (bad_value-allowed c v (qos_filter_rule x))
  check_avp-fits t c v (raw_grouped x) =
      finish _ (fits t (raw_grouped x)) (bad_value c v (raw_grouped x))
        (allowed c v (raw_grouped x)) (content-fits t (raw_grouped x) invalid_avp_value)
        (bad_value-allowed c v (raw_grouped x))
  check_avp-fits t c v (ipv4 x) =
      finish _ (fits t (ipv4 x)) (bad_value c v (ipv4 x)) (allowed c v (ipv4 x))
        (content-fits t (ipv4 x) invalid_avp_value) (bad_value-allowed c v (ipv4 x))
  check_avp-fits t c v (ipv6 x) =
      finish _ (fits t (ipv6 x)) (bad_value c v (ipv6 x)) (allowed c v (ipv6 x))
        (content-fits t (ipv6 x) invalid_avp_value) (bad_value-allowed c v (ipv6 x))
  check_avp-fits t c v (unsigned32 x) =
      finish _ (fits t (unsigned32 x)) (bad_value c v (unsigned32 x)) (allowed c v (unsigned32 x))
        (content-fits t (unsigned32 x) invalid_avp_value) (bad_value-allowed c v (unsigned32 x))
  check_avp-fits t c v (unsigned64 x) =
      finish _ (fits t (unsigned64 x)) (bad_value c v (unsigned64 x)) (allowed c v (unsigned64 x))
        (content-fits t (unsigned64 x) invalid_avp_value) (bad_value-allowed c v (unsigned64 x))
  check_avp-fits t c v (float32 x) =
      finish _ (fits t (float32 x)) (bad_value c v (float32 x)) (allowed c v (float32 x))
        (content-fits t (float32 x) invalid_avp_value) (bad_value-allowed c v (float32 x))
  check_avp-fits t c v (float64 x) =
      finish _ (fits t (float64 x)) (bad_value c v (float64 x)) (allowed c v (float64 x))
        (content-fits t (float64 x) invalid_avp_value) (bad_value-allowed c v (float64 x))
  check_avp-fits t c v (integer32 x) =
      finish _ (fits t (integer32 x)) (bad_value c v (integer32 x)) (allowed c v (integer32 x))
        (content-fits t (integer32 x) invalid_avp_value) (bad_value-allowed c v (integer32 x))
  check_avp-fits t c v (integer64 x) =
      finish _ (fits t (integer64 x)) (bad_value c v (integer64 x)) (allowed c v (integer64 x))
        (content-fits t (integer64 x) invalid_avp_value) (bad_value-allowed c v (integer64 x))
  check_avp-fits t c v (enumerated x) =
      finish _ (fits t (enumerated x)) (bad_value c v (enumerated x)) (allowed c v (enumerated x))
        (content-fits t (enumerated x) invalid_avp_value) (bad_value-allowed c v (enumerated x))
  check_avp-fits t c v (time x) =
      finish _ (fits t (time x)) (bad_value c v (time x)) (allowed c v (time x))
        (content-fits t (time x) invalid_avp_value) (bad_value-allowed c v (time x))
  check_avp-fits t c v (address x y) =
      finish _ (fits t (address x y)) (bad_value c v (address x y)) (allowed c v (address x y))
        (content-fits t (address x y) invalid_avp_value) (bad_value-allowed c v (address x y))
  check_avp-fits t c v (grouped x) =
      finish _ (fits t (grouped x)) (bad_value c v (grouped x)) (allowed c v (grouped x))
        (content-fits t (grouped x) invalid_avp_value) (bad_value-allowed c v (grouped x))
