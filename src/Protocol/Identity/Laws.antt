-- ===== src/Protocol/Identity/Laws.antt =====
-- diam/internal/protocol/capabilities.go: identities and common applications.
use go_diameter.Prelude.{
  ℕ, ◌≡◌, ◌↔◌, ◌⊎◌, inl, inr, refl, ◌∙◌, Bool, true, false, ◌&&◌, ◌||◌, List, [], ◌∷◌, map, arith,
}
use go_diameter.Prelude.Tests.{◌==◌, if◌then◌else◌, Bool-cases}
use go_diameter.Prelude.Lists.{contains}
use go_diameter.Base.Request.{relay}
use go_diameter.Protocol.Identity.{fold_octet, equal_identity, shared_with, common}

equal-of-fold :
    (xs ys : List ℕ) → map fold_octet xs ≡ map fold_octet ys → equal_identity xs ys ≡ true
unfolding equal_identity
equal-of-fold [] [] e = refl
equal-of-fold [] (y ∷ ys) e = cc
equal-of-fold (x ∷ xs) [] e = cc
equal-of-fold (x ∷ xs) (y ∷ ys) e = ground (arith, equal-of-fold xs ys)

fold-of-equal :
    (xs ys : List ℕ) → equal_identity xs ys ≡ true → map fold_octet xs ≡ map fold_octet ys
unfolding equal_identity
fold-of-equal [] [] e = refl
fold-of-equal [] (y ∷ ys) e = cc
fold-of-equal (x ∷ xs) [] e = cc
fold-of-equal (x ∷ xs) (y ∷ ys) e = ground (arith, fold-of-equal xs ys)

-- Two identities are found equal exactly when they are the same after each ASCII capital has been
-- replaced by its small letter.
pub equal_identity_iff :
    (xs ys : List ℕ) → (equal_identity xs ys ≡ true) ↔ (map fold_octet xs ≡ map fold_octet ys)
equal_identity_iff xs ys = (fold-of-equal xs ys, equal-of-fold xs ys)

contains-if :
    (b : Bool) (x id : ℕ) (r : List ℕ)
    → contains (if b then x ∷ r else r) id ≡ ((b && (x == id)) || contains r id)
unfolding contains if◌then◌else◌
contains-if true x id r = refl
contains-if false x id r = refl

contains_step :
    (apps ids : List ℕ) (x id : ℕ) (t : Bool)
    → t ≡ (contains ids id && (contains apps id || contains apps relay))
    → (((contains apps x || contains apps relay) && (x == id)) || t)
      ≡ (contains (x ∷ ids) id && (contains apps id || contains apps relay))
unfolding contains
contains_step apps ids x id t e = ground arith

contains-shared_with :
    (apps ids : List ℕ) (id : ℕ)
    → contains (shared_with apps ids) id
      ≡ (contains ids id && (contains apps id || contains apps relay))
unfolding shared_with
contains-shared_with apps [] id = unfold contains in refl
contains-shared_with apps (x ∷ ids) id =
    let tail = contains-shared_with apps ids id in
    let head = contains-if (contains apps x || contains apps relay) x id (shared_with apps ids) in
    head ∙ contains_step apps ids x id (contains (shared_with apps ids) id) tail

-- Where the local peer relays, the common applications are all that the other peer advertises;
-- otherwise an application is common exactly when it is advertised locally and the other peer
-- advertises it or relaying.
pub contains-common :
    (local apps : List ℕ) (id : ℕ)
    → (contains (common local apps) id ≡ true) ↔ (
        ((contains local relay ≡ true) × (contains apps id ≡ true))
        ⊎ ((contains local relay ≡ false)
            × (contains local id ≡ true)
            × ((contains apps id ≡ true) ⊎ (contains apps relay ≡ true))))
unfolding common
contains-common local apps id = elim (Bool-cases (contains local relay)) [
  | inl e ↦ rw e (ground (arith, e))
  | inr e ↦ rw (e, contains-shared_with apps local id) (ground (arith, e))
]
