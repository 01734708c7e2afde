-- ===== src/Diam/Find.antt =====
-- diam/message.go: the lookups of AVPs in a message, `findAVPs`, `avpsWithPath` and their callers. A
-- missed lookup is `none`.
pub mod Laws
use go_diameter.Prelude.{
  ℕ, String, Bool, true, false, ◌&&◌, Option, none, some, List, [], ◌∷◌, ◌++◌,
}
use go_diameter.Prelude.Tests.{◌==◌, ltb, maybe, if◌then◌else◌}
use go_diameter.Prelude.Lists.{length}
use go_diameter.Diam.Avp.{Avp, avp, payload, AvpData, grouped, Avps, nil, cons}
use go_diameter.Diam.Edit.{is_avp}
use go_diameter.Diam.Dict.{Dictionary, Definition, find_avp_by_name}

-- `AVPRef`.
pub record AvpRef : Type 0 where
  pub code : ℕ
  pub vendor_id : ℕ

-- The loop of `findAVPs` in a group, whose members are searched next; a group with no member finds
-- nothing.
unfoldable mutual
  unfolding is_avp if◌then◌else◌

  pub find_avps : List Avp → Avps → ℕ → ℕ → Bool → List Avp
  find_avps found nil c v first = found
  find_avps found (cons a l) c v first =
      let matched = is_avp c v a in
      let here = if matched then found ++ (a ∷ []) else found in
      let below = find_below here a c v first in
      let rest = find_avps below l c v first in
      if matched && first
      then here
      else if first && ltb (length here) (length below)
      then below
      else rest

  pub find_below : List Avp → Avp → ℕ → ℕ → Bool → List Avp
  find_below found (avp d f n w x) c v first = find_payload found x c v first

  pub find_payload : List Avp → AvpData → ℕ → ℕ → Bool → List Avp
  find_payload found (grouped ms) c v first = find_avps found ms c v first
  find_payload found x c v first = found

-- `members`.
unfoldable pub members : AvpData → Avps
members (grouped ms) = ms
members x = nil

abbrev pub to_list : Avps → List Avp
to_list nil = []
to_list (cons a l) = a ∷ to_list l

-- `avpsWithPath` past the first element of a path that has more of them: `deeper` is the call on an
-- AVP's members, and `last` that the path ends here.
unfoldable pub along : AvpRef → Bool → (Avps → List Avp) → Avps → List Avp
unfolding is_avp members if◌then◌else◌
along r last deeper nil = []
along r last deeper (cons a l) =
    let rest = along r last deeper l in
    if is_avp r.code r.vendor_id a
    then if last then a ∷ rest else deeper (members (payload a)) ++ rest
    else rest

unfoldable pub avps_with_path : Avps → List AvpRef → List Avp
unfolding along
avps_with_path l [] = to_list l
avps_with_path l (r ∷ []) = along r true to_list l
avps_with_path l (r ∷ q ∷ path) = along r false (λ ms. avps_with_path ms (q ∷ path)) l

abbrev unless_empty : List Avp → Option (List Avp)
unless_empty [] = none
unless_empty (a ∷ l) = some (a ∷ l)

abbrev first_found : Option (List Avp) → Option Avp
first_found none = none
first_found (some []) = none
first_found (some (a ∷ l)) = some a

-- `findAVP`, and `FindAVPs` and `FindAVP`.
unfoldable pub find_all : Avps → ℕ → ℕ → Bool → Option (List Avp)
unfolding find_avps
find_all l c v first = unless_empty (find_avps [] l c v first)

unfoldable pub find_avps_of : Avps → ℕ → ℕ → Option (List Avp)
unfolding find_all
find_avps_of l c v = find_all l c v false

unfoldable pub find_avp_of : Avps → ℕ → ℕ → Option Avp
unfolding find_all
find_avp_of l c v = first_found (find_all l c v true)

-- `FindAVPsByName` and `FindAVPByName`, in the application of the message's header.
unfoldable pub find_avps_named : Dictionary → ℕ → Avps → String → Option (List Avp)
unfolding find_avp_by_name find_avps_of maybe
find_avps_named s app l name =
    maybe (find_avp_by_name s app name) none (λ d. find_avps_of l d.code d.vendor_id)

unfoldable pub find_avp_named : Dictionary → ℕ → Avps → String → Option Avp
unfolding find_avp_by_name find_avp_of maybe
find_avp_named s app l name =
    maybe (find_avp_by_name s app name) none (λ d. find_avp_of l d.code d.vendor_id)
