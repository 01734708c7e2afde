-- ===== src/Diam/Datatype/Identity/Labels.antt =====
-- diam/datatype/diamident.go: the loop of `DiameterIdentity.Valid` against the labels of a name.
use go_diameter.Prelude.{
  ℕ, ◌+◌, ◌≡◌, refl, ap, ◌∙◌, suc, Bool, true, false, not, ◌&&◌, ◌||◌, List, [], ◌∷◌, arith,
}
use go_diameter.Prelude.Tests.{◌==◌, ltb, leb, if◌then◌else◌}
use go_diameter.Prelude.Lists.{length}
use go_diameter.Diam.Datatype.Identity.{
  dot, dash, is_letter, is_digit, without_dot, label_loop, valid_identity,
}

-- The labels of a name are what stands between its dots.
unfoldable pub first_label : List ℕ → List ℕ
unfolding if◌then◌else◌
first_label [] = []
first_label (c ∷ l) = if c == dot then [] else c ∷ first_label l

unfoldable pub more_labels : List ℕ → List (List ℕ)
unfolding first_label if◌then◌else◌
more_labels [] = []
more_labels (c ∷ l) = let rest = more_labels l in if c == dot then first_label l ∷ rest else rest

unfoldable pub labels : List ℕ → List (List ℕ)
unfolding first_label more_labels
labels l = first_label l ∷ more_labels l

unfoldable pub ends_with_dash : List ℕ → Bool
ends_with_dash [] = false
ends_with_dash (c ∷ []) = c == dash
ends_with_dash (c ∷ d ∷ l) = ends_with_dash (d ∷ l)

unfoldable pub starts_with_dash : List ℕ → Bool
starts_with_dash [] = false
starts_with_dash (c ∷ l) = c == dash

-- A letter, a digit or a dash.
unfoldable pub is_name_character : ℕ → Bool
is_name_character c = is_letter c || is_digit c || c == dash

unfoldable pub all_letters : List ℕ → Bool
all_letters [] = true
all_letters (c ∷ l) = is_name_character c && all_letters l

-- A label of a host name: one to 63 letters, digits and dashes, with no dash at an end.
unfoldable pub is_label : List ℕ → Bool
unfolding starts_with_dash ends_with_dash all_letters
is_label l =
    leb 1 (length l)
    && (leb (length l) 63
        && (all_letters l && (not (starts_with_dash l) && not (ends_with_dash l))))

unfoldable pub all_labels : List (List ℕ) → Bool
unfolding is_label
all_labels [] = true
all_labels (l ∷ r) = is_label l && all_labels r

-- The rest of a label whose first `n` characters, the last of them `p`, the loop has passed.
unfoldable rest_of_label : ℕ → ℕ → List ℕ → Bool
rest_of_label n p [] = ltb 0 n && not (p == dash)
rest_of_label n p (c ∷ l) =
    not (c == dash && n == 0)
    && (is_name_character c && (leb (n + 1) 63 && rest_of_label (n + 1) c l))

longer_step :
    (x a e r : Bool) (n k : ℕ)
    → r ≡ (leb (n + 1 + 1 + k) 63 && (a && not e))
    → (x && (leb (n + 1 + 1) 63 && r)) ≡ (leb (n + 1 + suc k) 63 && ((x && a) && not e))
longer_step x a e r n k h = ground arith

one_longer :
    (x d : Bool) (n : ℕ)
    → (not (d && (n + 1) == 0) && (x && (leb (n + 1 + 1) 63 && (ltb 0 (n + 1 + 1) && not d))))
      ≡ (leb (n + 1 + 1) 63 && ((x && true) && not d))
one_longer x d n = ground arith

not_first : (d x : Bool) (n : ℕ) → (not (d && (n + 1) == 0) && x) ≡ x
not_first d x n = ground arith

rest_of_label-longer :
    (n p c : ℕ) (l : List ℕ)
    → rest_of_label (n + 1) p (c ∷ l)
      ≡ (leb (n + 1 + length (c ∷ l)) 63 && (all_letters (c ∷ l) && not (ends_with_dash (c ∷ l))))
unfolding rest_of_label all_letters ends_with_dash
rest_of_label-longer n p c [] = one_longer (is_name_character c) (c == dash) n
rest_of_label-longer n p c (d ∷ l) =
    not_first (c == dash) _ n
    ∙ longer_step (is_name_character c) (all_letters (d ∷ l)) (ends_with_dash (d ∷ l)) _ n
        (length (d ∷ l)) (rest_of_label-longer (n + 1) c d l)

one_alone :
    (x d : Bool)
    → (not (d && true) && (x && (true && (true && not d)))) ≡ ((x && true) && (not d && not d))
one_alone x d = ground arith

first_step :
    (x d a e r : Bool) (k : ℕ)
    → r ≡ (leb (1 + k) 63 && (a && not e))
    → (not (d && true) && (x && (true && r)))
      ≡ (leb 1 (suc k) && (leb (suc k) 63 && ((x && a) && (not d && not e))))
first_step x d a e r k h = ground arith

rest_of_label-is_label : (p : ℕ) (l : List ℕ) → rest_of_label 0 p l ≡ is_label l
unfolding rest_of_label is_label all_letters ends_with_dash starts_with_dash
rest_of_label-is_label p [] = refl
rest_of_label-is_label p (c ∷ []) = one_alone (is_name_character c) (c == dash)
rest_of_label-is_label p (c ∷ d ∷ l) =
    first_step (is_name_character c) (c == dash) (all_letters (d ∷ l)) (ends_with_dash (d ∷ l)) _
      (length (d ∷ l)) (rest_of_label-longer 0 c d l)

-- The turn at a dot, and at another character.
dot_step :
    (n p : ℕ) (next label more : Bool)
    → next ≡ (label && more)
    → (if n == 0 || p == dash then false else next)
      ≡ ((ltb 0 n && not (p == dash)) && (label && more))
unfolding if◌then◌else◌
dot_step n p next label more h = ground arith

not_dash : (c : ℕ) → (c == dash) ≡ true → (is_letter c || is_digit c) ≡ false
not_dash c h = ground arith

other_step :
    (n : ℕ) (x y d next label more : Bool)
    → (d ≡ true → (x || y) ≡ false)
    → next ≡ (label && more)
    → (if not x && not y && (not d || n == 0)
        then false
        else if ltb 63 (n + 1)
        then false
        else next)
      ≡ ((not (d && n == 0) && ((x || y || d) && (leb (n + 1) 63 && label))) && more)
unfolding if◌then◌else◌
other_step n x y true next label more e h = ground (arith, e refl)
other_step n x y false next label more e h = ground arith

turn :
    (n p c : ℕ) (first : List ℕ) (more : List (List ℕ)) (x y b : Bool)
    → x ≡ (rest_of_label n p [] && all_labels (first ∷ more))
    → y ≡ (rest_of_label n p (c ∷ first) && all_labels more)
    → (if b then x else y) ≡ (
        rest_of_label n p (if b then [] else c ∷ first)
        && all_labels (if b then first ∷ more else more))
unfolding if◌then◌else◌
turn n p c first more x y true h g = h
turn n p c first more x y false h g = g

label_loop-labels :
    (n p : ℕ) (l : List ℕ)
    → label_loop n p l ≡ (rest_of_label n p (first_label l) && all_labels (more_labels l))
unfolding label_loop rest_of_label first_label more_labels all_labels is_name_character
label_loop-labels n p [] = ground arith
label_loop-labels n p (c ∷ l) =
    turn n p c (first_label l) (more_labels l) _ _ (c == dot)
      (dot_step n p (label_loop 0 c l) (is_label (first_label l)) (all_labels (more_labels l)) (
        label_loop-labels 0 c l
        ∙ ap (λ b. b && all_labels (more_labels l)) (rest_of_label-is_label c (first_label l))))
      (other_step n (is_letter c) (is_digit c) (c == dash) (label_loop (n + 1) c l)
        (rest_of_label (n + 1) c (first_label l)) (all_labels (more_labels l)) (not_dash c)
        (label_loop-labels (n + 1) c l))

in_bounds :
    (n : ℕ) (x label more : Bool)
    → x ≡ (label && more)
    → (if n == 0 || ltb 253 n then false else x) ≡ (leb 1 n && (leb n 253 && (label && more)))
unfolding if◌then◌else◌
in_bounds n x label more h = ground arith

-- An identity is valid exactly when, without one dot at its end, it has one to 253 octets and each
-- part between its dots has one to 63 letters, digits and dashes, with no dash at an end.
pub valid_identity-labels :
    (s : List ℕ)
    → valid_identity s ≡ (
        leb 1 (length (without_dot s))
        && (leb (length (without_dot s)) 253 && all_labels (labels (without_dot s))))
unfolding valid_identity all_labels labels
valid_identity-labels s =
    let name = without_dot s in
    in_bounds (length name) (label_loop 0 0 name) (is_label (first_label name))
      (all_labels (more_labels name))
      (label_loop-labels 0 0 name
        ∙ ap (λ b. b && all_labels (more_labels name))
            (rest_of_label-is_label 0 (first_label name)))
