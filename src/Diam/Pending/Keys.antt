-- ===== src/Diam/Pending/Keys.antt =====
-- Maps from request keys.
use go_diameter.Prelude.{true, false, ◌≡◌, ◌↔◌, ◌∙◌, sym, refl, inl, inr, none, [], ◌∷◌, arith}
use go_diameter.Prelude.Tests.{if◌then◌else◌, Bool-cases}
use go_diameter.Diam.Pending.{RequestKey, same_key, Owners, owner, disown}

pub same_key_iff : (j k : RequestKey) → (same_key j k ≡ true) ↔ (j ≡ k)
unfolding same_key
same_key_iff j k = ground arith

pub same_key_refl : (k : RequestKey) → same_key k k ≡ true
unfolding same_key
same_key_refl k = ground arith

same_key_trans : (i j k : RequestKey) → same_key i j ≡ true → same_key i k ≡ same_key j k
unfolding same_key
same_key_trans i j k e = ground (arith, e)

same_key_sym : (j k : RequestKey) → same_key j k ≡ same_key k j
unfolding same_key
same_key_sym j k = ground arith

same_key_differs :
    (i j k : RequestKey) → same_key i k ≡ false → same_key k j ≡ true → same_key i j ≡ false
same_key_differs i j k e q = elim (Bool-cases (same_key i j)) [
  | inl y ↦
      let back = same_key_trans j i k (sym (same_key_sym i j) ∙ y) in
      absurd (ground (arith, e, q, back, same_key_sym k j))
  | inr n ↦ n
]

pub owner-disown :
    (k j : RequestKey) (m : Owners)
    → owner j (disown k m) ≡ (if same_key k j then none else owner j m)
unfolding owner disown
owner-disown k j [] = elim (Bool-cases (same_key k j)) [ inl e ↦ rw e refl | inr e ↦ rw e refl ]
owner-disown k j ((i, r) ∷ m) =
    let ih = owner-disown k j m in
    elim (Bool-cases (same_key i k)) [
      | inl e ↦
          let through = same_key_trans i k j e in
          elim (Bool-cases (same_key k j)) [
            | inl q ↦ rw (e, through, ih, q) refl
            | inr q ↦ rw (e, through, ih, q) refl
          ]
      | inr e ↦ elim (Bool-cases (same_key k j)) [
        | inl q ↦ let differs = same_key_differs i j k e q in rw (e, differs, ih, q) refl
        | inr q ↦ rw (e, ih, q) refl
      ]
    ]
