-- ===== src/Diam/Dict/Flags/Agreement.antt =====
-- `flagListed` of diam/validation.go against `parseFlags` of diam/dict/register.go.
use go_diameter.Prelude.{
  ℕ, ◌≡◌, refl, true, false, not, ◌||◌, none, some, List, [], ◌∷◌, inl, inr, arith,
}
use go_diameter.Prelude.Tests.{◌==◌, maybe, if◌then◌else◌, Bool-cases, Option-cases}
use go_diameter.Diam.Dict.Flags.{
  Flags, no_flags, Flag, mandatory, protected, vendor, letter, in_flags, is_flag, add_flag,
  is_unknown, parse_letters, parse_items, parse_flags, scan_letters, scan_items, flag_listed,
  is_blank, trim_space, split_comma,
}

is_unknown-is_flag : (c : ℕ) → is_unknown c ≡ not (is_flag c)
unfolding is_unknown is_flag
is_unknown-is_flag c = ground arith

found_letter :
    (x : Flag) (c : ℕ) (f : Flags)
    → is_flag c ≡ true
    → (in_flags f x || c == letter x) ≡ in_flags (add_flag c f) x
unfolding is_flag in_flags add_flag letter if◌then◌else◌
found_letter mandatory c f h = ground arith
found_letter protected c f h = ground arith
found_letter vendor c f h = ground arith

scan_letters-parse_letters :
    (x : Flag) (s : List ℕ) (f : Flags)
    → scan_letters (letter x) s (in_flags f x)
      ≡ maybe (parse_letters s f) none (λ g. some (in_flags g x))
unfolding scan_letters parse_letters if◌then◌else◌ maybe
scan_letters-parse_letters x [] f = refl
scan_letters-parse_letters x (c ∷ s) f = elim (Bool-cases (is_flag c)) [
  | inl k ↦
      rw (is_unknown-is_flag c, k, found_letter x c f k)
        (scan_letters-parse_letters x s (add_flag c f))
  | inr k ↦ rw (is_unknown-is_flag c, k) refl
]

scan_items-parse_items :
    (x : Flag) (l : List (List ℕ)) (f : Flags)
    → scan_items (letter x) l (in_flags f x) ≡ maybe (parse_items l f) false (λ g. in_flags g x)
unfolding scan_items parse_items if◌then◌else◌ maybe
scan_items-parse_items x [] f = refl
scan_items-parse_items x (t ∷ l) f = elim (Bool-cases (is_blank (trim_space t))) [
  | inl k ↦ rw k (scan_items-parse_items x l f)
  | inr k ↦ elim (Option-cases (parse_letters (trim_space t) f)) [
    | inl e ↦ rw (k, scan_letters-parse_letters x (trim_space t) f, e) refl
    | inr (g, e) ↦
        rw (k, scan_letters-parse_letters x (trim_space t) f, e) (scan_items-parse_items x l g)
  ]
]

-- A flag is listed in a rule exactly when the rule is well formed and its set holds the flag.
pub flag_listed-parse_flags :
    (text : List ℕ) (x : Flag)
    → flag_listed text x ≡ maybe (parse_flags text) false (λ f. in_flags f x)
unfolding flag_listed parse_flags in_flags
flag_listed-parse_flags text mandatory =
    scan_items-parse_items mandatory (split_comma text) no_flags
flag_listed-parse_flags text protected =
    scan_items-parse_items protected (split_comma text) no_flags
flag_listed-parse_flags text vendor = scan_items-parse_items vendor (split_comma text) no_flags
