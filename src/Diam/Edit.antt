-- ===== src/Diam/Edit.antt =====
-- diam/message.go: adding and removing the AVPs of a message that has a header. A nil header, on
-- which these methods panic, is not modelled.
pub mod Lengths
use go_diameter.Prelude.{ℕ, ◌+◌, ◌-◌, ◌%◌, ◌^◌, Bool, ◌&&◌, List, [], ◌∷◌, ◌++◌}
use go_diameter.Prelude.Tests.{◌==◌, if◌then◌else◌}
use go_diameter.Diam.Avp.{Avp, code, vendor_id}
use go_diameter.Diam.Codec.{avp_len}

-- `Header.MessageLength`, a uint32, and `AVP`.
pub record Body : Type 0 where
  pub message_length : ℕ
  pub avps : List Avp

unfoldable pub grow : ℕ → Avp → ℕ
grow n a = (n + avp_len a) % 2 ^ 32

unfoldable pub shrink : ℕ → Avp → ℕ
shrink n a = (n + (2 ^ 32 - avp_len a % 2 ^ 32)) % 2 ^ 32

-- `AddAVP`, `InsertAVP` and `DeleteAVP` with its result.
unfoldable pub add_avp : Avp → Body → Body
unfolding grow
add_avp a m = record { message_length = grow m.message_length a; avps = m.avps ++ (a ∷ []) }

unfoldable pub insert_avp : Avp → Body → Body
unfolding grow
insert_avp a m = record { message_length = grow m.message_length a; avps = a ∷ m.avps }

unfoldable pub is_avp : ℕ → ℕ → Avp → Bool
is_avp c v a = code a == c && vendor_id a == v

pub record Deleted : Type 0 where
  pub count : ℕ
  pub body : Body

keep : Avp → Deleted → Deleted
keep a d = record d { body = record d.body { avps = a ∷ d.body.avps } }

unfoldable pub delete_loop : ℕ → ℕ → List Avp → ℕ → Deleted
unfolding is_avp shrink keep if◌then◌else◌
delete_loop c v [] n = record { count = 0; body = record { message_length = n; avps = [] } }
delete_loop c v (a ∷ l) n =
    let without = delete_loop c v l (shrink n a) in
    let with_it = delete_loop c v l n in
    if is_avp c v a then record without { count = without.count + 1 } else keep a with_it

unfoldable pub delete_avp : ℕ → ℕ → Body → Deleted
delete_avp c v m = delete_loop c v m.avps m.message_length
