-- ===== src/Diam/Datatype/Identity.antt =====
-- diam/datatype/diamident.go: `DiameterIdentity.Valid`. A name is its octets.
pub mod Labels
use go_diameter.Prelude.{ℕ, ◌+◌, Bool, true, false, not, ◌&&◌, ◌||◌, List, [], ◌∷◌}
use go_diameter.Prelude.Tests.{◌==◌, ltb, leb, if◌then◌else◌}
use go_diameter.Prelude.Lists.{length}

abbrev pub dot : ℕ
dot = 46

abbrev pub dash : ℕ
dash = 45

abbrev pub is_letter : ℕ → Bool
is_letter c = (leb 97 c && leb c 122) || (leb 65 c && leb c 90)

abbrev pub is_digit : ℕ → Bool
is_digit c = leb 48 c && leb c 57

-- The name without one dot at its end.
unfoldable pub without_dot : List ℕ → List ℕ
unfolding if◌then◌else◌
without_dot [] = []
without_dot (c ∷ []) = if c == dot then [] else c ∷ []
without_dot (c ∷ d ∷ l) = c ∷ without_dot (d ∷ l)

-- The loop, with the length of the label so far and `name[i-1]`, and the test after it.
unfoldable pub label_loop : ℕ → ℕ → List ℕ → Bool
unfolding if◌then◌else◌
label_loop label last [] = ltb 0 label && not (last == dash)
label_loop label last (c ∷ l) =
    let next = label_loop 0 c l in
    let more = label_loop (label + 1) c l in
    if c == dot
    then if label == 0 || last == dash then false else next
    else if not (is_letter c) && not (is_digit c) && (not (c == dash) || label == 0)
    then false
    else if ltb 63 (label + 1)
    then false
    else more

unfoldable pub valid_identity : List ℕ → Bool
unfolding without_dot label_loop if◌then◌else◌
valid_identity s =
    let name = without_dot s in
    if length name == 0 || ltb 253 (length name) then false else label_loop 0 0 name
