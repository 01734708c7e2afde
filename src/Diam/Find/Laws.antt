-- ===== src/Diam/Find/Laws.antt =====
-- The lookups of diam/message.go against the list of all AVPs with a key, depth first.
use go_diameter.Prelude.{
  ℕ, ◌≡◌, refl, sym, ap, ◌∙◌, Bool, true, false, Option, none, some, List, [], ◌∷◌, ◌++◌, inl, inr,
  ◌⊎◌, ◌↔◌, arith,
}
use mathlib.Core.List.{append_assoc, append-nil}
use go_diameter.Prelude.Tests.{ltb, maybe, if◌then◌else◌, Bool-cases}
use go_diameter.Prelude.Lists.{length, take, length-append}
use go_diameter.Diam.Avp.{Avp, avp, AvpData, grouped, Avps, nil, cons}
use go_diameter.Diam.Edit.{is_avp}
use go_diameter.Diam.Find.{
  find_avps, find_below, find_payload, find_avps_of, find_avp_of, find_all, first_found,
  unless_empty,
}

abbrev single : Bool → Avp → List Avp
single true a = a ∷ []
single false a = []

-- Every AVP with the key: an AVP comes before its members.
unfoldable mutual
  pub every : ℕ → ℕ → Avps → List Avp
  every c v nil = []
  every c v (cons a l) = single (is_avp c v a) a ++ (every_below c v a ++ every c v l)

  pub every_below : ℕ → ℕ → Avp → List Avp
  every_below c v (avp d f n w x) = every_payload c v x

  pub every_payload : ℕ → ℕ → AvpData → List Avp
  every_payload c v (grouped ms) = every c v ms
  every_payload c v x = []

mutual
  unfolding find_avps find_below find_payload every every_below every_payload if◌then◌else◌

  find_avps-every :
      (found : List Avp) (l : Avps) (c v : ℕ) → find_avps found l c v false ≡ found ++ every c v l
  find_avps-every found nil c v = sym (append-nil found)
  find_avps-every found (cons a l) c v = elim (Bool-cases (is_avp c v a)) [
    | inl e ↦ rw e (
        find_avps-every (find_below (found ++ (a ∷ [])) a c v false) l c v
        ∙ (ap (λ (z : List Avp). z ++ every c v l) (find_below-every (found ++ (a ∷ [])) a c v)
            ∙ simp append_assoc))
    | inr e ↦ rw e (
        find_avps-every (find_below found a c v false) l c v
        ∙ (ap (λ (z : List Avp). z ++ every c v l) (find_below-every found a c v)
            ∙ simp append_assoc))
  ]

  find_below-every :
      (found : List Avp) (a : Avp) (c v : ℕ)
      → find_below found a c v false ≡ found ++ every_below c v a
  find_below-every found (avp d f n w x) c v = find_payload-every found x c v

  find_payload-every :
      (found : List Avp) (x : AvpData) (c v : ℕ)
      → find_payload found x c v false ≡ found ++ every_payload c v x
  find_payload-every found (grouped ms) c v = find_avps-every found ms c v
  find_payload-every found x c v = sym (append-nil found)

List-cases : (l : List Avp) → (l ≡ []) ⊎ ((x : Avp) × (k : List Avp) × (l ≡ x ∷ k))
List-cases [] = inl refl
List-cases (x ∷ k) = inr (x, k, refl)

same_length : (found : List Avp) → ltb (length found) (length found) ≡ false
same_length found = ground arith

longer : (found : List Avp) (b : Avp) → ltb (length found) (length (found ++ (b ∷ []))) ≡ true
longer found b = let n = length-append found (b ∷ []) in ground arith

mutual
  unfolding find_avps find_below find_payload every every_below every_payload if◌then◌else◌

  find_avps-first :
      (found : List Avp) (l : Avps) (c v : ℕ)
      → find_avps found l c v true ≡ found ++ take 1 (every c v l)
  find_avps-first found nil c v = sym (append-nil found)
  find_avps-first found (cons a l) c v = elim (Bool-cases (is_avp c v a)) [
    | inl e ↦ rw e refl
    | inr e ↦ elim (List-cases (every_below c v a)) [
      | inl n ↦
          let q : find_below found a c v true ≡ found =
            find_below-first found a c v
            ∙ (ap (λ (z : List Avp). found ++ take 1 z) n ∙ append-nil found) in
          rw (e, q, n, same_length found) (find_avps-first found l c v)
      | inr (b, k, n) ↦
          let q : find_below found a c v true ≡ found ++ (b ∷ []) =
            find_below-first found a c v ∙ ap (λ (z : List Avp). found ++ take 1 z) n in
          rw (e, q, n, longer found b) refl
    ]
  ]

  find_below-first :
      (found : List Avp) (a : Avp) (c v : ℕ)
      → find_below found a c v true ≡ found ++ take 1 (every_below c v a)
  find_below-first found (avp d f n w x) c v = find_payload-first found x c v

  find_payload-first :
      (found : List Avp) (x : AvpData) (c v : ℕ)
      → find_payload found x c v true ≡ found ++ take 1 (every_payload c v x)
  find_payload-first found (grouped ms) c v = find_avps-first found ms c v
  find_payload-first found x c v = sym (append-nil found)

abbrev pub head : List Avp → Option Avp
head [] = none
head (a ∷ l) = some a

head_found : (k : List Avp) → first_found (unless_empty (take 1 k)) ≡ head k
head_found [] = refl
head_found (a ∷ k) = refl

all_found : (k : List Avp) → maybe (unless_empty k) [] (λ z. z) ≡ k
unfolding maybe
all_found [] = refl
all_found (a ∷ k) = refl

none_found : (k : List Avp) → (unless_empty k ≡ none) ↔ (k ≡ [])
none_found [] = (λ h. refl, λ h. refl)
none_found (a ∷ k) = (λ h. absurd (cc), λ h. absurd (cc))

-- `FindAVP` gives the first of the AVPs that `FindAVPs` gives, those with the key at any depth, and
-- both fail where there is none.
pub find_avp_of-find_avps_of :
    (l : Avps) (c v : ℕ)
    → (find_avp_of l c v ≡ head (every c v l))
      × (maybe (find_avps_of l c v) [] (λ k. k) ≡ every c v l)
      × ((find_avps_of l c v ≡ none) ↔ (every c v l ≡ []))
unfolding find_avp_of find_avps_of find_all maybe
find_avp_of-find_avps_of l c v =
    let e : find_avps [] l c v false ≡ every c v l = find_avps-every [] l c v in
    (
      ap (λ (z : List Avp). first_found (unless_empty z)) (find_avps-first [] l c v)
          ∙ head_found (every c v l),
      ap (λ (z : List Avp). maybe (unless_empty z) [] (λ k. k)) e ∙ all_found (every c v l),
      rw e (none_found (every c v l)),
    )
