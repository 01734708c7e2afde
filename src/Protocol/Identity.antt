-- ===== src/Protocol/Identity.antt =====
-- diam/internal/protocol/capabilities.go: comparing identities and negotiating applications; and
-- closing.go: binding a message to the admitted peer.
pub mod Laws
use go_diameter.Prelude.{
  ℕ, ◌+◌, Bool, true, false, not, ◌&&◌, ◌||◌, Option, none, some, List, [], ◌∷◌,
}
use go_diameter.Prelude.Tests.{◌==◌, leb, if◌then◌else◌}
use go_diameter.Prelude.Lists.{contains}
use go_diameter.Diam.Error.{is_error}
use go_diameter.Diam.Message.{Message}
use go_diameter.Base.Interface.{Base}
use go_diameter.Base.Request.{relay, elements}
use go_diameter.Protocol.Types.{Capabilities}
use go_diameter.Protocol.Core.{Core, St, upd}

-- `if x >= 'A' && x <= 'Z' { x += 'a' - 'A' }` on an octet.
unfoldable pub fold_octet : ℕ → ℕ
unfolding if◌then◌else◌
fold_octet x = if leb b'A' x && leb x b'Z' then x + 32 else x

-- Both lists are walked at once: lists of different lengths are found different.
unfoldable pub equal_identity : List ℕ → List ℕ → Bool
unfolding fold_octet
equal_identity [] [] = true
equal_identity [] (y ∷ ys) = false
equal_identity (x ∷ xs) [] = false
equal_identity (x ∷ xs) (y ∷ ys) = fold_octet x == fold_octet y && equal_identity xs ys

-- The loop of `negotiate`.
unfoldable pub shared_with : List ℕ → List ℕ → List ℕ
unfolding if◌then◌else◌
shared_with apps [] = []
shared_with apps (id ∷ ids) =
    let rest = shared_with apps ids in
    if contains apps id || contains apps relay then id ∷ rest else rest

unfoldable pub common : List ℕ → List ℕ → List ℕ
unfolding shared_with if◌then◌else◌
common local apps = if contains local relay then apps else shared_with apps local

-- `c.negotiate(host, realm, apps)`.
unfoldable pub negotiate : List ℕ → List ℕ → List ℕ → St → St
negotiate host realm apps s =
    upd
      (λ c. record c {
        caps = record c.caps {
          host = host;
          realm = realm;
          remote_applications = apps;
          common_applications = common (elements c.caps.local_applications) apps;
        };
      })
      s

-- `c.bound(m, realm)`.
unfoldable pub bound : Base → Core → Message → Bool → Bool
bound b c m realm =
    let (identity, err) = b.parse_dwr m in
    not (is_error err)
    && (equal_identity identity.origin_host c.caps.host
        && (not realm || equal_identity identity.origin_realm c.caps.realm))
