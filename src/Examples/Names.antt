-- ===== src/Examples/Names.antt =====
-- The identity "a.b-c.", an Origin-Host that holds it in a group, and the theorems at them.
use go_diameter.Prelude.{ℕ, ◌≡◌, refl, Bool, true, not, ◌&&◌, List, [], ◌∷◌}
use go_diameter.Prelude.Tests.{leb, ltb, is_some}
use go_diameter.Prelude.Lists.{length}
use go_diameter.Diam.Avp.{avp, grouped, diameter_identity, unsigned32, Avps, nil, cons}
use go_diameter.Diam.Datatype.{diameter_identity_type, grouped_type}
use go_diameter.Diam.Dict.{Definition, Dictionary}
use go_diameter.Base.Validation.{validate_types}
use go_diameter.Base.Validation.Types.{all_typed, validate_types-typed}
use go_diameter.Diam.Datatype.Identity.{without_dot, valid_identity}
use go_diameter.Diam.Datatype.Identity.Labels.{labels, all_labels, valid_identity-labels}

abbrev host : List ℕ
host = 97 ∷ 46 ∷ 98 ∷ 45 ∷ 99 ∷ 46 ∷ []

valid_identity-labels_example : valid_identity host ≡ (
    leb 1 (length (without_dot host))
    && (leb (length (without_dot host)) 253 && all_labels (labels (without_dot host))))
valid_identity-labels_example = valid_identity-labels host

abbrev host_definition : Definition
host_definition = record {
  name = "Origin-Host";
  code = 264;
  must = 77 ∷ [];
  must_not = 86 ∷ [];
  vendor_id = 0;
  type = diameter_identity_type;
  enum = [];
  rules = [];
}

abbrev group_definition : Definition
group_definition = record host_definition { name = "Proxy-Info"; code = 284; type = grouped_type }

abbrev base_dictionary : Dictionary
base_dictionary = record {
  command = [];
  avpcode = (0, host_definition) ∷ (0, group_definition) ∷ [];
  avpname = [];
}

-- The second group's member is an Unsigned32.
abbrev groups : Avps
groups =
    cons (avp 284 64 0 0 (grouped (cons (avp 264 64 0 0 (diameter_identity host)) nil)))
      (cons (avp 284 64 0 0 (grouped (cons (avp 264 64 0 0 (unsigned32 7)) nil))) nil)

abbrev ascii : List ℕ → Bool
ascii [] = true
ascii (c ∷ l) = ltb c 128 && ascii l

validate_types-typed_example :
    is_some (validate_types ascii base_dictionary groups)
    ≡ not (all_typed ascii base_dictionary groups)
validate_types-typed_example = validate_types-typed ascii base_dictionary groups

groups_rejected : is_some (validate_types ascii base_dictionary groups) ≡ true
unfolding validate_types
groups_rejected = refl
