-- ===== src/Diam/Datatype/Uri/Parts.antt =====
-- What a URI's host, port and brackets are parsed to.
use go_diameter.Prelude.{ℕ, true, false, ◌≡◌, refl, none, some, List, [], ◌∷◌, ◌++◌, arith}
use go_diameter.Prelude.Tests.{◌==◌, ==_refl}
use go_diameter.Prelude.Lists.{All}
use go_diameter.Diam.Datatype.Uri.{has_prefix, cut_first, cut_last}

-- No octet of the list is `k`.
abbrev pub Free : ℕ → List ℕ → Type 0
Free k l = All (λ x. (x == k) ≡ false) l

unprefixed :
    (k : ℕ) (p : List ℕ) (x : ℕ) (l : List ℕ)
    → (x == k) ≡ false
    → has_prefix (k ∷ p) (x ∷ l) ≡ false
unfolding has_prefix
unprefixed k p x l e = ground (arith, e)

prefixed : (k : ℕ) (l : List ℕ) → has_prefix (k ∷ []) (k ∷ l) ≡ true
unfolding has_prefix
prefixed k l = rw (==_refl k) refl

-- A mark that starts with an octet that is not there is not found.
pub cut_first-Free : (k : ℕ) (p l : List ℕ) → Free k l → cut_first (k ∷ p) l ≡ none
unfolding cut_first
cut_first-Free k p [] f = refl
cut_first-Free k p (x ∷ l) f =
    let other : has_prefix (k ∷ p) (x ∷ l) ≡ false = unprefixed k p x l f.0 in
    rw (other, cut_first-Free k p l f.1) refl

-- An octet is found behind a list that is free of it.
pub cut_first-at :
    (k : ℕ) (l rest : List ℕ) → Free k l → cut_first (k ∷ []) (l ++ (k ∷ rest)) ≡ some (l, rest)
unfolding cut_first
cut_first-at k [] rest f = rw (prefixed k rest) refl
cut_first-at k (x ∷ l) rest f =
    let other : has_prefix (k ∷ []) (x ∷ (l ++ (k ∷ rest))) ≡ false =
      unprefixed k [] x (l ++ (k ∷ rest)) f.0 in
    rw (other, cut_first-at k l rest f.1) refl

cut_last-Free : (k : ℕ) (l : List ℕ) → Free k l → cut_last k l ≡ none
unfolding cut_last
cut_last-Free k [] f = refl
cut_last-Free k (x ∷ l) f = rw (cut_last-Free k l f.1, f.0) refl

pub cut_last-at :
    (k : ℕ) (l rest : List ℕ) → Free k rest → cut_last k (l ++ (k ∷ rest)) ≡ some (l, rest)
unfolding cut_last
cut_last-at k [] rest f = rw (cut_last-Free k rest f, ==_refl k) refl
cut_last-at k (x ∷ l) rest f = rw (cut_last-at k l rest f) refl
