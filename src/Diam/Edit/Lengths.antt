-- ===== src/Diam/Edit/Lengths.antt =====
-- The Message-Length of an edited message.
use go_diameter.Prelude.{ℕ, ◌+◌, ◌%◌, ◌^◌, ◌≡◌, refl, false, List, [], ◌∷◌, ◌++◌, inl, inr, arith}
use go_diameter.Prelude.Lists.{length, All}
use go_diameter.Prelude.Tests.{Bool-cases}
use go_diameter.Diam.Avp.{Avp}
use go_diameter.Diam.Header.{header_length}
use go_diameter.Diam.Codec.{avp_len}
use go_diameter.Diam.Wire.{avps_len}
use go_diameter.Diam.Edit.{Body, shrink, add_avp, insert_avp, is_avp, delete_loop, delete_avp}

-- The header's length is the message's, as far as 32 bits hold it.
abbrev pub HasLength : Body → Type 0
HasLength m = m.message_length ≡ (header_length + avps_len m.avps) % 2 ^ 32

avps_len-append : (l : List Avp) (a : Avp) → avps_len (l ++ (a ∷ [])) ≡ avps_len l + avp_len a
unfolding avps_len
avps_len-append [] a = omega arith
avps_len-append (b ∷ l) a = omega (arith, avps_len-append l a)

pub add_avp-HasLength : (a : Avp) (m : Body) → HasLength m → HasLength (add_avp a m)
unfolding add_avp
add_avp-HasLength a m h = omega (arith, h, avps_len-append m.avps a)

insert_avp-HasLength : (a : Avp) (m : Body) → HasLength m → HasLength (insert_avp a m)
unfolding insert_avp avps_len
insert_avp-HasLength a m h = omega (arith, h)

shrink_lem : (a : Avp) (n x : ℕ) → n ≡ (avp_len a + x) % 2 ^ 32 → shrink n a ≡ x % 2 ^ 32
unfolding shrink
shrink_lem a n x h = omega (arith, h)

-- `rest` is the octets of what the loop has kept so far.
delete_loop_lem :
    (c v : ℕ) (l : List Avp) (n rest : ℕ)
    → n ≡ (rest + avps_len l) % 2 ^ 32
    → ((delete_loop c v l n).body.message_length
        ≡ (rest + avps_len (delete_loop c v l n).body.avps) % 2 ^ 32)
      × All (λ a. is_avp c v a ≡ false) (delete_loop c v l n).body.avps
      × ((delete_loop c v l n).count + length (delete_loop c v l n).body.avps ≡ length l)
unfolding delete_loop avps_len
delete_loop_lem c v [] n rest h = (h, tt, refl)
delete_loop_lem c v (a ∷ l) n rest h = elim (Bool-cases (is_avp c v a)) [
  | inl e ↦
      let ih =
        delete_loop_lem c v l (shrink n a) rest
          (shrink_lem a n (rest + avps_len l) (omega (arith, h))) in
      rw e (ih.0, ih.1, omega (arith, ih.2))
  | inr e ↦
      let ih = delete_loop_lem c v l n (rest + avp_len a) (omega (arith, h)) in
      rw e (omega (arith, ih.0), (e, ih.1), omega (arith, ih.2))
]

-- Adding, inserting and deleting AVPs keep the header's length that of the message, as far as 32 bits
-- hold it; a deletion leaves no AVP of the code and vendor, and its result is how many are gone.
pub edit-HasLength :
    (m : Body) (a : Avp) (c v : ℕ)
    → HasLength m
    → HasLength (add_avp a m)
      × HasLength (insert_avp a m)
      × HasLength (delete_avp c v m).body
      × All (λ b. is_avp c v b ≡ false) (delete_avp c v m).body.avps
      × ((delete_avp c v m).count + length (delete_avp c v m).body.avps ≡ length m.avps)
unfolding delete_avp
edit-HasLength m a c v h =
    let d = delete_loop_lem c v m.avps m.message_length header_length h in
    (add_avp-HasLength a m h, insert_avp-HasLength a m h, d.0, d.1, d.2)
