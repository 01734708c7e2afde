-- ===== src/Examples/Grammar.antt =====
-- A small dictionary, and the theorems on the checks of messages at its AVPs.
use go_diameter.Prelude.{ℕ, ◌≡◌, ◌≤◌, ◌↔◌, refl, true, false, none, some, List, [], ◌∷◌, arith}
use go_diameter.Prelude.Tests.{maybe}
use go_diameter.Diam.Avp.{Avp, avp, octet_string, grouped, Avps, nil, cons}
use go_diameter.Diam.Datatype.{diameter_identity_type, grouped_type}
use go_diameter.Diam.Dict.{Rule, Definition, Dictionary, find_avp, find_avp_by_name}
use go_diameter.Diam.Dict.Flags.{flag_listed, parse_flags, in_flags, mandatory}
use go_diameter.Diam.Dict.Flags.Agreement.{flag_listed-parse_flags}
use go_diameter.Diam.Grammar.{minimum_count, missing_avp_example, missing}
use go_diameter.Diam.Grammar.Scan.{entry_for, ordered_rules, occurrences, grammar_of, validate_avps}
use go_diameter.Diam.Grammar.Counts.{in_excess}
use go_diameter.Diam.Grammar.Bounds.{validate_avps-in_excess}
use go_diameter.Diam.Grammar.Contents.{InOrder, validate_avps-InOrder}
use go_diameter.Diam.Grammar.Complete.{Conforms}
use go_diameter.Diam.Grammar.Complete.Equivalence.{validate_avps-Conforms}
use go_diameter.Diam.Grammar.Missing.{missing_avp_example-fuel}
use go_diameter.Diam.Grammar.Outgoing.{walk_flags}
use go_diameter.Diam.Grammar.Sending.{first, later, inside, MayBeSent, walk_flags-MayBeSent}

-- "M".
abbrev must_m : List ℕ
must_m = 77 ∷ []

abbrev host_definition : Definition
host_definition = record {
  name = "Origin-Host";
  code = 264;
  must = must_m;
  must_not = 86 ∷ [];
  vendor_id = 0;
  type = diameter_identity_type;
  enum = [];
  rules = [];
}

abbrev session_definition : Definition
session_definition = record host_definition { name = "Session-Id"; code = 263 }

abbrev host_rule : Rule
host_rule = record {
  must_not = [];
  avp = "Origin-Host";
  required = true;
  min = 0;
  max = 1;
  max_set = true;
  fixed = false;
}

abbrev session_rule : Rule
session_rule = record host_rule { avp = "Session-Id"; fixed = true }

abbrev group_definition : Definition
group_definition = record host_definition {
  name = "Proxy-Info";
  code = 284;
  type = grouped_type;
  rules = host_rule ∷ [];
}

abbrev small : Dictionary
small = record {
  command = [];
  avpcode = (0, host_definition) ∷ (0, session_definition) ∷ (0, group_definition) ∷ [];
  avpname = (0, host_definition) ∷ (0, session_definition) ∷ (0, group_definition) ∷ [];
}

abbrev rules : List Rule
rules = session_rule ∷ host_rule ∷ record host_rule { avp = "Proxy-Info" } ∷ []

abbrev open_rules : List Rule
open_rules = host_rule ∷ record host_rule { avp = "AVP"; required = false; max = 2 } ∷ []

abbrev host : Avp
host = avp 264 64 11 0 (octet_string (97 ∷ 98 ∷ 99 ∷ []))

abbrev session : Avp
session = avp 263 64 9 0 (octet_string (120 ∷ []))

abbrev proxy : Avp
proxy = avp 284 64 20 0 (grouped (cons host nil))

abbrev message_avps : Avps
message_avps = cons session (cons proxy (cons host nil))

message_passes : validate_avps message_avps rules 4 small [] ≡ none
unfolding validate_avps
message_passes = refl

-- A second Origin-Host inside the group is one too many.
excess_reported :
    maybe
      (validate_avps
        (cons session
          (cons (avp 284 64 32 0 (grouped (cons host (cons host nil)))) (cons host nil)))
        rules
        4
        small
        [])
      0
      (λ e. e.result_code)
    ≡ 5009
unfolding validate_avps maybe
excess_reported = refl

host_listed :
    entry_for (ordered_rules small 4 rules) 264 0
    ≡ some (record { rule = host_rule; definition = host_definition })
unfolding entry_for ordered_rules
host_listed = refl

validate_avps-in_excess_example :
    (minimum_count host_rule ≤ occurrences message_avps 264 0)
    × (in_excess
          (record { rule = host_rule; definition = host_definition })
          (occurrences message_avps 264 0)
        ≡ false)
validate_avps-in_excess_example =
    validate_avps-in_excess message_avps rules 4 small [] 264 0
      (record { rule = host_rule; definition = host_definition }) message_passes host_listed

validate_avps-InOrder_example : InOrder (grammar_of small 4 [] rules) message_avps
validate_avps-InOrder_example = validate_avps-InOrder message_avps rules 4 small [] message_passes

validate_avps-Conforms_example :
    (validate_avps (cons host (cons session nil)) open_rules 4 small [] ≡ none)
    ↔ Conforms (grammar_of small 4 [] open_rules) (cons host (cons session nil))
validate_avps-Conforms_example =
    validate_avps-Conforms (cons host (cons session nil)) open_rules 4 small (refl, (refl, tt))

flags_pass : walk_flags small 4 [] [] 0 message_avps ≡ none
unfolding walk_flags
flags_pass = refl

-- The Origin-Host inside the Proxy-Info.
walk_flags-MayBeSent_example : MayBeSent small 4 (host_rule ∷ []) host
unfolding maybe find_avp
walk_flags-MayBeSent_example = walk_flags-MayBeSent small 4 0 (later (inside refl first)) flags_pass

flag_listed-parse_flags_example :
    flag_listed (77 ∷ 44 ∷ 86 ∷ []) mandatory
    ≡ maybe (parse_flags (77 ∷ 44 ∷ 86 ∷ [])) false (λ f. in_flags f mandatory)
flag_listed-parse_flags_example = flag_listed-parse_flags (77 ∷ 44 ∷ 86 ∷ []) mandatory

group_named : find_avp_by_name small 4 "Proxy-Info" ≡ some group_definition
unfolding find_avp_by_name
group_named = refl

missing_avp_example-fuel_example :
    missing_avp_example small 4 7 [] group_definition ≡ missing small 4 group_definition
missing_avp_example-fuel_example =
    missing_avp_example-fuel small 4 7 "Proxy-Info" group_definition group_named (omega arith)
