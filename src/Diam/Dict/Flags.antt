-- ===== src/Diam/Dict/Flags.antt =====
-- Flag rules such as "M,V" of diam/dict/register.go, and `flagListed` of diam/validation.go, which
-- reads the same texts. A text is its code points; a set of flags has a field for each bit.
pub mod Agreement
use go_diameter.Prelude.{ℕ, Bool, true, false, not, ◌&&◌, ◌||◌, Option, none, some, List, [], ◌∷◌}
use go_diameter.Prelude.Tests.{◌==◌, leb, maybe, if◌then◌else◌}

-- `unicode.IsSpace`.
is_space : ℕ → Bool
is_space c =
    (leb 9 c && leb c 13)
    || c == 0x20
    || c == 0x85
    || c == 0xa0
    || c == 0x1680
    || (leb 0x2000 c && leb c 0x200a)
    || c == 0x2028
    || c == 0x2029
    || c == 0x202f
    || c == 0x205f
    || c == 0x3000

trim_left : List ℕ → List ℕ
unfolding is_space if◌then◌else◌
trim_left [] = []
trim_left (c ∷ s) = if is_space c then trim_left s else c ∷ s

-- Spaces at the end are dropped.
trim_right : List ℕ → List ℕ
unfolding is_space
trim_right [] = []
trim_right (c ∷ s) = elim (trim_right s) [
  | [] ↦ elim (is_space c) [ true ↦ [] | false ↦ c ∷ [] ]
  | d ∷ r ↦ c ∷ d ∷ r
]

-- `strings.TrimSpace`.
trim_space : List ℕ → List ℕ
unfolding trim_left trim_right
trim_space s = trim_right (trim_left s)

add_front : ℕ → List (List ℕ) → List (List ℕ)
add_front c [] = (c ∷ []) ∷ []
add_front c (x ∷ l) = (c ∷ x) ∷ l

-- `strings.Split(s, ",")`, which is never empty.
split_comma : List ℕ → List (List ℕ)
unfolding add_front if◌then◌else◌
split_comma [] = [] ∷ []
split_comma (c ∷ s) = let rest = split_comma s in if c == b',' then [] ∷ rest else add_front c rest

-- An item that names no flag.
is_blank : List ℕ → Bool
is_blank [] = true
is_blank (c ∷ []) = c == b'-'
is_blank (c ∷ d ∷ s) = false

-- `flagM`, `flagP` and `flagV`.
pub record Flags : Type 0 where
  pub m : Bool
  pub p : Bool
  pub v : Bool

abbrev pub no_flags : Flags
no_flags = record { m = false; p = false; v = false }

is_flag : ℕ → Bool
is_flag c = c == b'M' || c == b'P' || c == b'V'

add_flag : ℕ → Flags → Flags
unfolding if◌then◌else◌
add_flag c f =
    if c == b'M'
    then record f { m = true }
    else if c == b'P'
    then record f { p = true }
    else record f { v = true }

-- The inner loop of `parseFlags`.
parse_letters : List ℕ → Flags → Option Flags
unfolding is_flag add_flag if◌then◌else◌
parse_letters [] f = some f
parse_letters (c ∷ s) f = if is_flag c then parse_letters s (add_flag c f) else none

parse_items : List (List ℕ) → Flags → Option Flags
unfolding parse_letters trim_space is_blank maybe if◌then◌else◌
parse_items [] f = some f
parse_items (x ∷ l) f =
    maybe (if is_blank (trim_space x) then some f else parse_letters (trim_space x) f) none
      (λ g. parse_items l g)

-- `parseFlags`; an unknown flag is `none`.
unfoldable pub parse_flags : List ℕ → Option Flags
unfolding parse_items split_comma
parse_flags rule = parse_items (split_comma rule) no_flags

-- `parseMemberProhibitions`.
unfoldable pub parse_member_prohibitions : List ℕ → Option Flags
unfolding parse_flags maybe if◌then◌else◌
parse_member_prohibitions rule = maybe (parse_flags rule) none (λ f. if f.v then none else some f)

-- A flag that `flagListed` asks for; any other text is never listed.
pub data Flag : Type 0 where
  mandatory protected vendor : Flag

letter : Flag → ℕ
letter mandatory = b'M'
letter protected = b'P'
letter vendor = b'V'

is_unknown : ℕ → Bool
is_unknown c = not (c == b'M') && not (c == b'V') && not (c == b'P')

-- The inner loop of `flagListed`; `none` is its early return.
scan_letters : ℕ → List ℕ → Bool → Option Bool
unfolding is_unknown if◌then◌else◌
scan_letters flag [] found = some found
scan_letters flag (c ∷ s) found =
    let rest = scan_letters flag s (found || c == flag) in if is_unknown c then none else rest

scan_items : ℕ → List (List ℕ) → Bool → Bool
unfolding scan_letters trim_space is_blank maybe if◌then◌else◌
scan_items flag [] found = found
scan_items flag (x ∷ l) found =
    maybe (if is_blank (trim_space x) then some found else scan_letters flag (trim_space x) found)
      false (λ f. scan_items flag l f)

unfoldable pub flag_listed : List ℕ → Flag → Bool
unfolding scan_items split_comma letter
flag_listed text flag = scan_items (letter flag) (split_comma text) false

-- The bit that a flag stands for in a set.
unfoldable pub in_flags : Flags → Flag → Bool
in_flags f mandatory = f.m
in_flags f protected = f.p
in_flags f vendor = f.v

-- `sameFlags`.
same_text : List ℕ → List ℕ → Bool
same_text [] [] = true
same_text (a ∷ s) (b ∷ t) = a == b && same_text s t
same_text _ _ = false

same_bit : Bool → Bool → Bool
same_bit true b = b
same_bit false b = not b

unfoldable pub same_flags : List ℕ → List ℕ → Bool
unfolding parse_flags same_text same_bit maybe
same_flags a b = maybe (parse_flags a) (same_text a b) (λ f.
    maybe (parse_flags b) (same_text a b)
      (λ g. same_bit f.m g.m && same_bit f.p g.p && same_bit f.v g.v))
