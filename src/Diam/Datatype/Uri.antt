-- ===== src/Diam/Datatype/Uri.antt =====
-- diam/datatype/diamuri.go: `Parse` of a DiameterURI, on octets. `strings.EqualFold` is compared by
-- ASCII, which for the seven octets of a scheme is the same.
pub mod Parts
pub mod Forms
use go_diameter.Prelude.{
  ℕ, zero, suc, ◌+◌, ◌-◌, ◌*◌, ◌^◌, Bool, true, false, not, ◌&&◌, ◌||◌, Option, none, some, List,
  [], ◌∷◌, ◌++◌,
}
use go_diameter.Prelude.Tests.{◌==◌, ltb, leb, is_some, maybe, if◌then◌else◌}
use go_diameter.Prelude.Lists.{length, take, drop}

-- `ParsedDiameterURI`.
pub record ParsedUri : Type 0 where
  pub secure : Bool
  pub fqdn : List ℕ
  pub port : ℕ
  pub transport : List ℕ
  pub protocol : List ℕ

abbrev pub aaas : List ℕ
aaas = b'a' ∷ b'a' ∷ b'a' ∷ b's' ∷ b':' ∷ b'/' ∷ b'/' ∷ []

abbrev pub aaa : List ℕ
aaa = b'a' ∷ b'a' ∷ b'a' ∷ b':' ∷ b'/' ∷ b'/' ∷ []

-- `;protocol=` and `;transport=`.
abbrev pub protocol_mark : List ℕ
protocol_mark = b';' ∷ b'p' ∷ b'r' ∷ b'o' ∷ b't' ∷ b'o' ∷ b'c' ∷ b'o' ∷ b'l' ∷ b'=' ∷ []

abbrev pub transport_mark : List ℕ
transport_mark = b';' ∷ b't' ∷ b'r' ∷ b'a' ∷ b'n' ∷ b's' ∷ b'p' ∷ b'o' ∷ b'r' ∷ b't' ∷ b'=' ∷ []

abbrev pub tcp : List ℕ
tcp = b't' ∷ b'c' ∷ b'p' ∷ []

abbrev pub diameter : List ℕ
diameter = b'd' ∷ b'i' ∷ b'a' ∷ b'm' ∷ b'e' ∷ b't' ∷ b'e' ∷ b'r' ∷ []

unfoldable pub fold : ℕ → ℕ
unfolding if◌then◌else◌
fold x = if leb b'A' x && leb x b'Z' then x + 32 else x

unfoldable pub equal_fold : List ℕ → List ℕ → Bool
unfolding fold
equal_fold [] [] = true
equal_fold (x ∷ xs) (y ∷ ys) = fold x == fold y && equal_fold xs ys
equal_fold _ _ = false

unfoldable pub has_prefix : List ℕ → List ℕ → Bool
has_prefix [] s = true
has_prefix (x ∷ p) [] = false
has_prefix (x ∷ p) (y ∷ s) = x == y && has_prefix p s

-- `strings.Index`, as what stands before the first occurrence and what behind it.
unfoldable pub cut_first : List ℕ → List ℕ → Option (List ℕ × List ℕ)
unfolding has_prefix maybe if◌then◌else◌
cut_first p [] = none
cut_first p (x ∷ s) =
    let later = cut_first p s in
    if has_prefix p (x ∷ s)
    then some ([], drop (length p) (x ∷ s))
    else maybe later none (λ c. some (x ∷ c.0, c.1))

-- `strings.LastIndexByte`, likewise.
unfoldable pub cut_last : ℕ → List ℕ → Option (List ℕ × List ℕ)
unfolding maybe if◌then◌else◌
cut_last k [] = none
cut_last k (x ∷ s) =
    let later = cut_last k s in
    maybe later (if x == k then some ([], s) else none) (λ c. some (x ∷ c.0, c.1))

-- `strconv.ParseUint(s, 10, 16)` of text that is not empty; `none` is an error.
unfoldable pub parse_digits : ℕ → List ℕ → Option ℕ
unfolding if◌then◌else◌
parse_digits n [] = some n
parse_digits n (x ∷ s) =
    let m = n * 10 + (x - b'0') in
    let rest = parse_digits m s in
    if not (leb b'0' x && leb x b'9') then none else if leb (2 ^ 16) m then none else rest

unfoldable pub parse_port : List ℕ → Option ℕ
unfolding parse_digits
parse_port [] = none
parse_port (x ∷ s) = parse_digits 0 (x ∷ s)

-- `;protocol=` and `;transport=` with a default.
unfoldable pub take_mark : List ℕ → List ℕ → List ℕ → List ℕ × List ℕ
unfolding cut_first maybe
take_mark mark value raw = maybe (cut_first mark raw) (raw, value) (λ c. c)

abbrev is_empty : List ℕ → Bool
is_empty [] = true
is_empty (x ∷ s) = false

abbrev first_is : ℕ → List ℕ → Bool
first_is k [] = false
first_is k (x ∷ s) = x == k

-- The end of `Parse`: what is left names the host where nothing has.
unfoldable pub named : ParsedUri → List ℕ → Option ParsedUri
unfolding if◌then◌else◌
named p raw =
    let host = if is_empty p.fqdn then raw else p.fqdn in
    if is_empty host then none else some (record p { fqdn = host })

-- `Parse` behind the marks: FQDN and port.
unfoldable pub parse_host : ParsedUri → List ℕ → Option ParsedUri
unfolding maybe if◌then◌else◌
parse_host p raw =
    if is_empty raw
    then none
    else if first_is b'[' raw
    then maybe (cut_first (b']' ∷ []) raw) (named p raw)
        (λ c. named (record p { fqdn = drop 1 c.0 }) c.1)
    else maybe (cut_last b':' raw) (named p raw)
        (λ c. maybe (parse_port c.1) none (λ n. named (record p { fqdn = c.0; port = n }) []))

-- `Parse` behind the scheme.
unfoldable pub parse_rest : Bool → ℕ → List ℕ → Option ParsedUri
parse_rest secure port raw =
    let protocol = take_mark protocol_mark diameter raw in
    let transport = take_mark transport_mark tcp protocol.0 in
    parse_host
      (record {
        secure = secure;
        fqdn = [];
        port = port;
        transport = transport.1;
        protocol = protocol.1;
      })
      transport.0

-- `none` is an error.
unfoldable pub parse : List ℕ → Option ParsedUri
unfolding equal_fold if◌then◌else◌
parse raw =
    if ltb 7 (length raw) && equal_fold (take 7 raw) aaas
    then parse_rest true 5868 (drop 7 raw)
    else if ltb 6 (length raw) && equal_fold (take 6 raw) aaa
    then parse_rest false 3868 (drop 6 raw)
    else none
