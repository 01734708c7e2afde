-- ===== src/Base/Validation/Types.antt =====
-- `validateTypes` of diam/internal/base/validation.go: the AVPs that it lets through.
use go_diameter.Prelude.{
  ℕ, ◌≡◌, refl, Bool, true, false, not, ◌&&◌, ◌||◌, Option, none, some, List, arith,
}
use go_diameter.Prelude.Tests.{◌==◌, is_some, maybe, if◌then◌else◌}
use go_diameter.Diam.Avp.{
  Avp, AvpData, nil_data, unknown_data, octet_string, utf8_string, diameter_identity, diameter_uri,
  ip_filter_rule, qos_filter_rule, raw_grouped, ipv4, ipv6, unsigned32, unsigned64, float32,
  float64, integer32, integer64, enumerated, time, address, grouped, avp, Avps, nil, cons,
}
use go_diameter.Diam.Codec.Decode.{failed_avp_code}
use go_diameter.Diam.Dict.{Definition, Dictionary, find_avp}
use go_diameter.Diam.Error.{MessageError}
use go_diameter.Base.Validation.{
  check_avp, around, invalid_data, avp_error, members_error, validate_types,
}
use go_diameter.Base.Validation.Kinds.{allowed}
use go_diameter.Base.Validation.Fits.{fits, check_avp-fits}

module _ (utf8_valid : List ℕ → Bool) where
  -- Each AVP that the base dictionary defines, but for Failed-AVP, fits its definition and has a value
  -- that its code allows, as do the members of its group. Other AVPs are not looked into.
  unfoldable mutual
    unfolding fits allowed find_avp maybe if◌then◌else◌

    pub typed : Dictionary → Avp → Bool
    typed s (avp c f n v d) =
        let inside = members_typed s d in
        maybe (find_avp s 0 c v) true (λ definition.
          (c == failed_avp_code && v == 0)
          || ((fits utf8_valid definition.type d && allowed c v d) && inside))

    pub members_typed : Dictionary → AvpData → Bool
    members_typed s (grouped ms) = all_typed s ms
    members_typed s _ = true

    pub all_typed : Dictionary → Avps → Bool
    all_typed s nil = true
    all_typed s (cons a l) = typed s a && all_typed s l

  decide_typed :
      (failed wrong good ok : Bool) (e : MessageError) (inside : Option MessageError)
      → wrong ≡ not good
      → is_some inside ≡ not ok
      → is_some (if failed then none else if wrong then some e else inside)
        ≡ not (failed || (good && ok))
  unfolding if◌then◌else◌
  decide_typed true wrong good ok e inside h g = refl
  decide_typed false true good ok e inside h g = ground (arith, h)
  decide_typed false false good ok e inside h g = ground (arith, h, g)

  with_definition :
      (s : Dictionary) (c f n v : ℕ) (d : AvpData) (o : Option Definition)
      (inside : Option MessageError) (ok : Bool)
      → is_some inside ≡ not ok
      → is_some (
          maybe o none (λ definition.
            if c == failed_avp_code && v == 0
            then none
            else if (check_avp utf8_valid definition.type c v d).invalid
            then some
                (invalid_data (check_avp utf8_valid definition.type c v d).code (avp c f n v d))
            else inside))
        ≡ not (
            maybe o true (λ definition.
              (c == failed_avp_code && v == 0)
              || ((fits utf8_valid definition.type d && allowed c v d) && ok)))
  unfolding maybe
  with_definition s c f n v d none inside ok h = refl
  with_definition s c f n v d (some t) inside ok h =
      decide_typed _ _ (fits utf8_valid t.type d && allowed c v d) ok _ inside
        (check_avp-fits utf8_valid t.type c v d) h

  wrapped :
      (o : Option MessageError) (f : MessageError → MessageError) (ok : Bool)
      → is_some o ≡ not ok
      → is_some (maybe o none (λ e. some (f e))) ≡ not ok
  unfolding maybe
  wrapped none f ok h = h
  wrapped (some e) f ok h = h

  joined :
      (o r : Option MessageError) (a b : Bool)
      → is_some o ≡ not a
      → is_some r ≡ not b
      → is_some (maybe o r some) ≡ not (a && b)
  unfolding maybe
  joined none r a b h g = ground (arith, h, g)
  joined (some e) r a b h g = ground (arith, h)

  mutual
    unfolding avp_error typed members_error members_typed validate_types all_typed

    avp_error-typed :
        (s : Dictionary) (a : Avp) → is_some (avp_error utf8_valid s a) ≡ not (typed s a)
    avp_error-typed s (avp c f n v d) =
        with_definition s c f n v d (find_avp s 0 c v) _ (members_typed s d)
          (members_error-typed s c f n v d)

    members_error-typed :
        (s : Dictionary) (c f n v : ℕ) (d : AvpData)
        → is_some (members_error utf8_valid s c f n v d) ≡ not (members_typed s d)
    members_error-typed s c f n v nil_data = refl
    members_error-typed s c f n v (unknown_data x) = refl
    members_error-typed s c f n v (octet_string x) = refl
    members_error-typed s c f n v (utf8_string x) = refl
    members_error-typed s c f n v (diameter_identity x) = refl
    members_error-typed s c f n v (diameter_uri x) = refl
    members_error-typed s c f n v (ip_filter_rule x) = refl
    members_error-typed s c f n v (qos_filter_rule x) = refl
    members_error-typed s c f n v (raw_grouped x) = refl
    members_error-typed s c f n v (ipv4 x) = refl
    members_error-typed s c f n v (ipv6 x) = refl
    members_error-typed s c f n v (unsigned32 x) = refl
    members_error-typed s c f n v (unsigned64 x) = refl
    members_error-typed s c f n v (float32 x) = refl
    members_error-typed s c f n v (float64 x) = refl
    members_error-typed s c f n v (integer32 x) = refl
    members_error-typed s c f n v (integer64 x) = refl
    members_error-typed s c f n v (enumerated x) = refl
    members_error-typed s c f n v (time x) = refl
    members_error-typed s c f n v (address x y) = refl
    members_error-typed s c f n v (grouped x) =
        wrapped _ (around c f n v) (all_typed s x) (every_error-typed s x)

    every_error-typed :
        (s : Dictionary) (items : Avps)
        → is_some (validate_types utf8_valid s items) ≡ not (all_typed s items)
    every_error-typed s nil = refl
    every_error-typed s (cons a l) =
        joined _ _ (typed s a) (all_typed s l) (avp_error-typed s a) (every_error-typed s l)

  -- The checks of the values of a base message find an error exactly when some AVP that the base
  -- dictionary defines is not of its type, or is an ill-formed address, identity or text, or has a
  -- value that its code forbids: a Disconnect-Cause other than 0, 1 and 2 or a Supported-Vendor-Id of
  -- zero. The members of groups count, but Failed-AVP and an AVP without a definition pass with all
  -- that they hold.
  pub validate_types-typed :
      (s : Dictionary) (items : Avps)
      → is_some (validate_types utf8_valid s items) ≡ not (all_typed s items)
  validate_types-typed s items = every_error-typed s items
