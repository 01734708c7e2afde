-- ===== src/Diam/Grammar/Complete/Defined.antt =====
-- A rule of a grammar names an AVP that the dictionary defines.
use go_diameter.Prelude.{ℕ, ◌≡◌, ap, ◌∙◌, String, Option, none, some, List, [], ◌∷◌, arith}
use go_diameter.Prelude.Tests.{maybe, if◌then◌else◌}
use go_diameter.Diam.Dict.{
  Rule, Definition, Dictionary, has_code, by_code, find_avp, resolve_name, by_name,
  find_avp_by_name,
}
use go_diameter.Diam.Grammar.{Entry}
use go_diameter.Diam.Grammar.Scan.{entry_for, ordered_rules}

by_code_key :
    (l : List (ℕ × Definition)) (app c v : ℕ) (d : Definition)
    → by_code l app c v ≡ some d
    → (d.code ≡ c) × (d.vendor_id ≡ v)
unfolding by_code has_code if◌then◌else◌
by_code_key [] app c v d h = absurd (cc)
by_code_key ((a, e) ∷ l) app c v d h = ground (arith, by_code_key l app c v d)

find_avp_key :
    (s : Dictionary) (app c v : ℕ) (d : Definition)
    → find_avp s app c v ≡ some d
    → (d.code ≡ c) × (d.vendor_id ≡ v)
unfolding find_avp maybe
find_avp_key s app c v d h =
    ground (arith, by_code_key s.avpcode app c v d, by_code_key s.avpcode 0 c v d)

abbrev Resolves : Dictionary → ℕ → Definition → Type 0
Resolves s app d = find_avp s app d.code d.vendor_id ≡ some d

resolved_own :
    (s : Dictionary) (app c v : ℕ) (d : Definition) → find_avp s app c v ≡ some d → Resolves s app d
resolved_own s app c v d h =
    let k = find_avp_key s app c v d h in
    ap (λ (x : ℕ). find_avp s app x d.vendor_id) k.0 ∙ (ap (λ (y : ℕ). find_avp s app c y) k.1 ∙ h)

resolve_name-Resolves :
    (s : Dictionary) (app : ℕ) (n : String) (found : Option Definition) (d : Definition)
    → resolve_name s app n found ≡ some d
    → Resolves s app d
unfolding resolve_name if◌then◌else◌ maybe
resolve_name-Resolves s app n none d h = absurd (ground arith)
resolve_name-Resolves s app n (some a) d h = ground (arith, resolved_own s app a.code a.vendor_id d)

find_avp_by_name-Resolves :
    (s : Dictionary) (app : ℕ) (n : String) (d : Definition)
    → find_avp_by_name s app n ≡ some d
    → Resolves s app d
unfolding find_avp_by_name maybe
find_avp_by_name-Resolves s app n d h = ground (
  arith,
  resolve_name-Resolves s app n (by_name s.avpname app n) d,
  resolve_name-Resolves s app n (by_name s.avpname 0 n) d,
)

pub ordered_rules-find_avp :
    (s : Dictionary) (app : ℕ) (rules : List Rule) (c v : ℕ) (e : Entry)
    → entry_for (ordered_rules s app rules) c v ≡ some e
    → find_avp s app c v ≡ some e.definition
unfolding ordered_rules entry_for has_code if◌then◌else◌ maybe
ordered_rules-find_avp s app [] c v e h = cc
ordered_rules-find_avp s app (r ∷ l) c v e h = ground (
  arith,
  ordered_rules-find_avp s app l c v e,
  find_avp_by_name-Resolves s app r.avp e.definition,
)
