-- ===== src/Diam/Dict.antt =====
-- diam/dict/skel.go and diam/dict/util.go: the definitions of a dictionary and the lookups of a
-- `Snapshot`. The maps are association lists, whose keys an AVP's own fields complete; a rule's
-- bounds are not negative, as `newRegisteredAVP` demands. Flag texts are lists of code points.
pub mod Flags
use text.Mathlib.Text.{◌==◌ as str_eq}
use go_diameter.Prelude.{ℕ, String, Bool, true, false, ◌&&◌, Option, none, some, List, [], ◌∷◌}
use go_diameter.Prelude.Tests.{◌==◌, maybe, if◌then◌else◌}
use go_diameter.Prelude.Int.{ℤ, pos, negsuc}
use go_diameter.Diam.Datatype.{TypeId, enumerated_type}
use go_diameter.Diam.Codec.Evidence.{is_grouped_type}

-- `Rule`; `avp` is the name of the member.
pub record Rule : Type 0 where
  pub must_not : List ℕ
  pub avp : String
  pub required : Bool
  pub min : ℕ
  pub max : ℕ
  pub max_set : Bool
  pub fixed : Bool

-- `Enum`.
pub record EnumItem : Type 0 where
  pub code : ℤ
  pub name : String

-- `AVP`, with the fields of `Data` that are read.
pub record Definition : Type 0 where
  pub name : String
  pub code : ℕ
  pub must : List ℕ
  pub must_not : List ℕ
  pub vendor_id : ℕ
  pub type : TypeId
  pub enum : List EnumItem
  pub rules : List Rule

pub record CommandRule : Type 0 where
  pub proxiable : Option Bool
  pub rules : List Rule

pub record Command : Type 0 where
  pub code : ℕ
  pub request : CommandRule
  pub answer : CommandRule

-- `Snapshot`: what each application's indexes hold.
pub record Dictionary : Type 0 where
  pub command : List (ℕ × Command)
  pub avpcode : List (ℕ × Definition)
  pub avpname : List (ℕ × Definition)

-- A map access for `codeIdx`, `appNameIdx` and `commandIdx`.
unfoldable pub has_code : ℕ → ℕ → Definition → Bool
has_code c v d = d.code == c && d.vendor_id == v

unfoldable pub by_code : List (ℕ × Definition) → ℕ → ℕ → ℕ → Option Definition
unfolding has_code if◌then◌else◌
by_code [] app c v = none
by_code ((a, d) ∷ l) app c v = if a == app && has_code c v d then some d else by_code l app c v

unfoldable pub by_name : List (ℕ × Definition) → ℕ → String → Option Definition
unfolding if◌then◌else◌
by_name [] app n = none
by_name ((a, d) ∷ l) app n = if a == app && str_eq d.name n then some d else by_name l app n

unfoldable pub by_command : List (ℕ × Command) → ℕ → ℕ → Option Command
unfolding if◌then◌else◌
by_command [] app c = none
by_command ((a, d) ∷ l) app c = if a == app && d.code == c then some d else by_command l app c

-- `FindAVP`, that is `lookupAVP`.
unfoldable pub find_avp : Dictionary → ℕ → ℕ → ℕ → Option Definition
unfolding by_code maybe
find_avp s app c v = maybe (by_code s.avpcode app c v) (by_code s.avpcode 0 c v) some

-- One turn of the loop of `FindAVPByName`: the name in one application, resolved from the other.
unfoldable pub resolve_name : Dictionary → ℕ → String → Option Definition → Option Definition
unfolding find_avp maybe if◌then◌else◌
resolve_name s app n found = maybe found none (λ a.
    maybe (find_avp s app a.code a.vendor_id) none (λ d. if str_eq d.name n then some d else none))

-- `FindAVPByName`.
unfoldable pub find_avp_by_name : Dictionary → ℕ → String → Option Definition
unfolding resolve_name by_name maybe
find_avp_by_name s app n =
    maybe (resolve_name s app n (by_name s.avpname app n))
      (resolve_name s app n (by_name s.avpname 0 n)) some

-- `FindCommand`.
unfoldable pub find_command : Dictionary → ℕ → ℕ → Option Command
unfolding by_command maybe
find_command s app c = maybe (by_command s.command app c) (by_command s.command 0 c) some

same_integer : ℤ → ℤ → Bool
same_integer (pos a) (pos b) = a == b
same_integer (negsuc a) (negsuc b) = a == b
same_integer _ _ = false

enum_item : List EnumItem → ℤ → Option EnumItem
unfolding same_integer if◌then◌else◌
enum_item [] n = none
enum_item (e ∷ l) n = if same_integer e.code n then some e else enum_item l n

rule_item : List Rule → String → Option Rule
unfolding if◌then◌else◌
rule_item [] n = none
rule_item (r ∷ l) n = if str_eq r.avp n then some r else rule_item l n

abbrev is_enumerated_type : TypeId → Bool
is_enumerated_type enumerated_type = true
is_enumerated_type _ = false

-- `Enum` and `Rule`; every error is `none`.
unfoldable pub find_enum : Dictionary → ℕ → ℕ → ℕ → ℤ → Option EnumItem
unfolding find_avp enum_item maybe if◌then◌else◌
find_enum s app c v n =
    maybe (find_avp s app c v) none
      (λ d. if is_enumerated_type d.type then enum_item d.enum n else none)

unfoldable pub find_rule : Dictionary → ℕ → ℕ → ℕ → String → Option Rule
unfolding find_avp rule_item maybe if◌then◌else◌
find_rule s app c v n =
    maybe (find_avp s app c v) none
      (λ d. if is_grouped_type d.type then rule_item d.rules n else none)
