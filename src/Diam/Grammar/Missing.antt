-- ===== src/Diam/Grammar/Missing.antt =====
-- `missingAVPExample` of diam/validation.go: the fuel of the model is enough.
use go_diameter.Prelude.{
  ℕ, zero, suc, ◌≤◌, ◌<◌, ◌≡◌, refl, String, Bool, true, false, ◌&&◌, ◌||◌, Option, none, some,
  List, [], ◌∷◌, inl, inr, arith,
}
use go_diameter.Prelude.Tests.{◌==◌, maybe, if◌then◌else◌, Bool-cases, Option-cases}
use go_diameter.Prelude.Lists.{length}
use go_diameter.Diam.Avp.{Avp}
use go_diameter.Diam.Dict.{
  Rule, Definition, Dictionary, has_code, by_code, find_avp, resolve_name, by_name,
  find_avp_by_name,
}
use go_diameter.Diam.Grammar.{seen_key, example_members, missing_avp_example, missing}

-- Whether the index has an entry with the key of a definition, and how many entries have a key that
-- is not among the given ones.
abbrev pub indexed : List (ℕ × Definition) → Definition → Bool
indexed [] d = false
indexed ((a, e) ∷ l) d = (e.code == d.code && e.vendor_id == d.vendor_id) || indexed l d

unseen : List (ℕ × ℕ) → List (ℕ × Definition) → ℕ
unfolding if◌then◌else◌
unseen seen [] = 0
unseen seen ((a, e) ∷ l) =
    let rest = unseen seen l in if seen_key seen e.code e.vendor_id then rest else suc rest

unseen-le-length : (seen : List (ℕ × ℕ)) (l : List (ℕ × Definition)) → unseen seen l ≤ length l
unfolding unseen if◌then◌else◌
unseen-le-length seen [] = omega arith
unseen-le-length seen ((a, e) ∷ l) = ground (arith, unseen-le-length seen l)

-- Another key leaves no more to see, and less where the index has it and it was not seen.
unseen_mono :
    (seen : List (ℕ × ℕ)) (l : List (ℕ × Definition)) (c v : ℕ)
    → unseen ((c, v) ∷ seen) l ≤ unseen seen l
unfolding unseen seen_key if◌then◌else◌
unseen_mono seen [] c v = omega arith
unseen_mono seen ((a, e) ∷ l) c v = ground (arith, unseen_mono seen l c v)

unseen_decreases :
    (seen : List (ℕ × ℕ)) (l : List (ℕ × Definition)) (d : Definition)
    → indexed l d ≡ true
    → seen_key seen d.code d.vendor_id ≡ false
    → unseen ((d.code, d.vendor_id) ∷ seen) l < unseen seen l
unfolding unseen seen_key if◌then◌else◌
unseen_decreases seen [] d i n = cc
unseen_decreases seen ((a, e) ∷ l) d i n =
    ground (arith, unseen_decreases seen l d, unseen_mono seen l d.code d.vendor_id)

by_code-indexed :
    (l : List (ℕ × Definition)) (app c v : ℕ) (d : Definition)
    → by_code l app c v ≡ some d
    → indexed l d ≡ true
unfolding by_code has_code if◌then◌else◌
by_code-indexed [] app c v d h = cc
by_code-indexed ((a, e) ∷ l) app c v d h = ground (arith, by_code-indexed l app c v d)

find_avp-indexed :
    (s : Dictionary) (app c v : ℕ) (d : Definition)
    → find_avp s app c v ≡ some d
    → indexed s.avpcode d ≡ true
unfolding find_avp maybe
find_avp-indexed s app c v d h =
    ground (arith, by_code-indexed s.avpcode app c v d, by_code-indexed s.avpcode 0 c v d)

resolve_name-indexed :
    (s : Dictionary) (app : ℕ) (n : String) (found : Option Definition) (d : Definition)
    → resolve_name s app n found ≡ some d
    → indexed s.avpcode d ≡ true
unfolding resolve_name if◌then◌else◌ maybe
resolve_name-indexed s app n none d h = absurd (ground arith)
resolve_name-indexed s app n (some a) d h =
    ground (arith, find_avp-indexed s app a.code a.vendor_id d)

pub find_avp_by_name-indexed :
    (s : Dictionary) (app : ℕ) (n : String) (d : Definition)
    → find_avp_by_name s app n ≡ some d
    → indexed s.avpcode d ≡ true
unfolding find_avp_by_name maybe
find_avp_by_name-indexed s app n d h = ground (
  arith,
  resolve_name-indexed s app n (by_name s.avpname app n) d,
  resolve_name-indexed s app n (by_name s.avpname 0 n) d,
)

module _ (s : Dictionary) (app : ℕ) where
  example_members_agree :
      (f g : Definition → Avp)
      → ((d : Definition) → indexed s.avpcode d ≡ true → f d ≡ g d)
      → (l : List Rule) → example_members f s app l ≡ example_members g s app l
  unfolding example_members if◌then◌else◌ maybe
  example_members_agree f g same [] = refl
  example_members_agree f g same (r ∷ l) = elim (Option-cases (find_avp_by_name s app r.avp)) [
    | inl e ↦ rw (e, example_members_agree f g same l) refl
    | inr (d, e) ↦
        rw (e, example_members_agree f g same l, same d (find_avp_by_name-indexed s app r.avp d e))
          refl
  ]

  none_unseen :
      (seen : List (ℕ × ℕ)) (d : Definition)
      → indexed s.avpcode d ≡ true
      → unseen seen s.avpcode ≤ 0
      → seen_key seen d.code d.vendor_id ≡ true
  none_unseen seen d i p = elim (Bool-cases (seen_key seen d.code d.vendor_id)) [
    | inl k ↦ k
    | inr k ↦ absurd (omega (arith, unseen_decreases seen s.avpcode d i k))
  ]

  -- A fuel that covers the keys that are not seen gives what any other such fuel gives.
  example_stable :
      (m n : ℕ) (seen : List (ℕ × ℕ)) (d : Definition)
      → indexed s.avpcode d ≡ true
      → unseen seen s.avpcode ≤ m
      → unseen seen s.avpcode ≤ n
      → missing_avp_example s app m seen d ≡ missing_avp_example s app n seen d
  unfolding missing_avp_example if◌then◌else◌
  example_stable zero zero seen d i p q = refl
  example_stable zero (suc n) seen d i p q = rw (none_unseen seen d i p, if◌then◌else◌) refl
  example_stable (suc m) zero seen d i p q = rw (none_unseen seen d i q, if◌then◌else◌) refl
  example_stable (suc m) (suc n) seen d i p q =
      elim (Bool-cases (seen_key seen d.code d.vendor_id)) [
        | inl k ↦ rw (k, if◌then◌else◌) refl
        | inr k ↦
            let less = unseen_decreases seen s.avpcode d i k in
            let same =
              example_members_agree (missing_avp_example s app m ((d.code, d.vendor_id) ∷ seen))
                (missing_avp_example s app n ((d.code, d.vendor_id) ∷ seen))
                (λ e j.
                  example_stable m n ((d.code, d.vendor_id) ∷ seen) e j (omega arith) (omega arith))
                d.rules in
            rw same refl
      ]

-- The example of a missing AVP that a rule names never stops for lack of fuel: more fuel than there
-- are definitions in the index gives the same AVP.
pub missing_avp_example-fuel :
    (s : Dictionary) (app fuel : ℕ) (name : String) (d : Definition)
    → find_avp_by_name s app name ≡ some d
    → length s.avpcode ≤ fuel
    → missing_avp_example s app fuel [] d ≡ missing s app d
missing_avp_example-fuel s app fuel name d h le =
    example_stable s app fuel (suc (length s.avpcode)) [] d
      (find_avp_by_name-indexed s app name d h) (omega (arith, unseen-le-length [] s.avpcode))
      (omega (arith, unseen-le-length [] s.avpcode))
