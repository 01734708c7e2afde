-- ===== src/Diam/Datatype/Uri/Forms.antt =====
-- The forms of a URI: a host with a port, and an address in brackets.
use go_diameter.Prelude.{
  ℕ, ◌≡◌, ◌∙◌, refl, Bool, true, false, inl, inr, some, List, [], ◌∷◌, ◌++◌, arith,
}
use go_diameter.Prelude.Tests.{Bool-cases, ◌==◌, ltb}
use go_diameter.Prelude.Lists.{length, take}
use go_diameter.Diam.Datatype.Uri.{
  ParsedUri, aaa, aaas, tcp, diameter, parse_port, take_mark, named, parse_host, parse_rest, parse,
  equal_fold, fold,
}
use go_diameter.Diam.Datatype.Uri.Parts.{Free, cut_first-Free, cut_first-at, cut_last-at}

abbrev pub scheme : Bool → List ℕ
scheme true = aaas
scheme false = aaa

abbrev pub default_port : Bool → ℕ
default_port true = 5868
default_port false = 3868

parse-scheme :
    (secure : Bool) (x : ℕ) (raw : List ℕ)
    → parse (scheme secure ++ (x ∷ raw)) ≡ parse_rest secure (default_port secure) (x ∷ raw)
unfolding parse fold
parse-scheme true x raw =
    let long : ltb 7 (length (aaas ++ (x ∷ raw))) ≡ true = ground arith in rw long refl
parse-scheme false x raw =
    let long : ltb 6 (length (aaa ++ (x ∷ raw))) ≡ true = ground arith in
    let other : equal_fold (take 7 (aaa ++ (x ∷ raw))) aaas ≡ false = refl in
    elim (Bool-cases (ltb 7 (length (aaa ++ (x ∷ raw))))) [
      | inl e ↦ rw (e, other, long) refl
      | inr e ↦ rw (e, long) refl
    ]

parse_rest-Free :
    (secure : Bool) (port : ℕ) (raw : List ℕ)
    → Free b';' raw
    → parse_rest secure port raw
      ≡ parse_host
          (record { secure = secure; fqdn = []; port = port; transport = tcp; protocol = diameter })
          raw
unfolding parse_rest take_mark
parse_rest-Free secure port raw f =
    rw (cut_first-Free b';' _ raw f) (rw (cut_first-Free b';' _ raw f) refl)

host_port :
    (p : ParsedUri) (x : ℕ) (host digits : List ℕ) (n : ℕ)
    → (x == b'[') ≡ false
    → Free b':' digits
    → parse_port digits ≡ some n
    → parse_host p (x ∷ (host ++ (b':' ∷ digits))) ≡ some (record p { fqdn = x ∷ host; port = n })
unfolding parse_host named
host_port p x host digits n plain f e = rw (plain, cut_last-at b':' (x ∷ host) digits f, e) refl

brackets :
    (p : ParsedUri) (a : ℕ) (addr rest : List ℕ)
    → Free b']' (a ∷ addr)
    → parse_host p (b'[' ∷ ((a ∷ addr) ++ (b']' ∷ rest))) ≡ some (record p { fqdn = a ∷ addr })
unfolding parse_host named
brackets p a addr rest f = rw (cut_first-at b']' (b'[' ∷ a ∷ addr) rest (refl, f)) refl

-- A URI of either scheme with a host that does not begin with a bracket, a colon and digits of a
-- 16-bit number, and no `;`, parses to that host and port with the default transport and protocol.
pub parse-host_port :
    (secure : Bool) (x : ℕ) (host digits : List ℕ) (n : ℕ)
    → (x == b'[') ≡ false
    → Free b':' digits
    → Free b';' (x ∷ (host ++ (b':' ∷ digits)))
    → parse_port digits ≡ some n
    → parse (scheme secure ++ (x ∷ (host ++ (b':' ∷ digits))))
      ≡ some (record {
        secure = secure;
        fqdn = x ∷ host;
        port = n;
        transport = tcp;
        protocol = diameter;
      })
parse-host_port secure x host digits n plain f whole e =
    let raw = host ++ (b':' ∷ digits) in
    parse-scheme secure x raw
    ∙ (parse_rest-Free secure (default_port secure) (x ∷ raw) whole
        ∙ host_port _ x host digits n plain f e)

-- A URI of either scheme with an address in brackets, and no `;`, parses to the address, whatever
-- stands behind the bracket: a port that is given there is not read, and the port of the result is
-- the scheme's default.
pub parse-brackets :
    (secure : Bool) (a : ℕ) (addr rest : List ℕ)
    → Free b']' (a ∷ addr)
    → Free b';' ((a ∷ addr) ++ (b']' ∷ rest))
    → parse (scheme secure ++ (b'[' ∷ ((a ∷ addr) ++ (b']' ∷ rest))))
      ≡ some (record {
        secure = secure;
        fqdn = a ∷ addr;
        port = default_port secure;
        transport = tcp;
        protocol = diameter;
      })
parse-brackets secure a addr rest f whole =
    let raw = (a ∷ addr) ++ (b']' ∷ rest) in
    parse-scheme secure b'[' raw
    ∙ (parse_rest-Free secure (default_port secure) (b'[' ∷ raw) (refl, whole)
        ∙ brackets _ a addr rest f)
