-- ===== src/Examples/Negotiation.antt =====
-- The theorems on advertised and common applications, at a node with two applications.
use go_diameter.Prelude.{ℕ, ◌≡◌, refl, true, false, none, some, [], ◌∷◌}
use go_diameter.Prelude.Lists.{contains}
use go_diameter.Diam.Avp.{Avp, avp, unsigned32, grouped, nil, cons}
use go_diameter.Base.Settings.{Settings, LocalApplication}
use go_diameter.Base.Capabilities.{advertised_application_ids}
use go_diameter.Base.Capabilities.Offers.{advertises}
use go_diameter.Base.Capabilities.Sorted.{Ascending, advertised_application_ids-Ascending}
use go_diameter.Base.Application.{
  Local, Offered, is_fine, validate_id, is_known, has_none, handle_group,
  parse_with_application_ids,
}
use go_diameter.Base.Application.Laws.{
  AllCommon, parse_with_application_ids-AllCommon, handle_group-succeeds,
}

abbrev declared : ℕ → LocalApplication
declared id = record { id = id; app_type = "auth"; vendor = 10415; supported_vendors = [] }

abbrev configured : Settings
configured = record {
  origin_host = [];
  origin_realm = [];
  vendor_id = 0;
  product_name = [];
  origin_state_id = 0;
  firmware_revision = 0;
  host_ip_addresses = [];
  supported_vendor_id = [];
  acct_application_id = none;
  auth_application_id = none;
  vendor_specific_application_id = none;
  inband_security_id = 0;
  applications = declared 16777251 ∷ declared 4 ∷ declared 0 ∷ declared 4 ∷ [];
}

advertised_twice : advertised_application_ids configured ≡ 4 ∷ 16777251 ∷ []
unfolding advertised_application_ids
advertised_twice = refl

advertised_application_ids-Ascending_example :
    Ascending (advertised_application_ids configured)
    × (contains (advertised_application_ids configured) 4 ≡ advertises configured 4)
advertised_application_ids-Ascending_example = advertised_application_ids-Ascending configured 4

abbrev node : Local
node = record { advertised = some (4 ∷ 16777251 ∷ []); apps = [] }

abbrev vendor : Avp
vendor = avp 266 64 12 0 (unsigned32 10415)

-- The peer offers an application that is not advertised, and in a group one that is.
abbrev offered : Offered
offered = record {
  acct = [];
  auth = avp 258 64 12 0 (unsigned32 5) ∷ [];
  vendor_specific =
      avp 260 64 32 0 (grouped (cons vendor (cons (avp 258 64 12 0 (unsigned32 16777251)) nil)))
      ∷ [];
}

offer_fine : is_fine (parse_with_application_ids node false offered).err ≡ true
unfolding parse_with_application_ids validate_id is_known
offer_fine = refl

parse_with_application_ids-AllCommon_example :
    (has_none (parse_with_application_ids node false offered).ids ≡ false)
    × AllCommon node (parse_with_application_ids node false offered).ids
parse_with_application_ids-AllCommon_example =
    parse_with_application_ids-AllCommon node false offered offer_fine

-- Application 9 is not advertised.
handle_group-succeeds_example :
    is_fine
      (handle_group node
        (avp 260 64 32 0 (grouped (cons vendor (cons (avp 258 64 12 0 (unsigned32 9)) nil))))
        []).err
    ≡ true
handle_group-succeeds_example =
    handle_group-succeeds node 260 64 32 0 vendor (cons (avp 258 64 12 0 (unsigned32 9)) nil) []
      refl
