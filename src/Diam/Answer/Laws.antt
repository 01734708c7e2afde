-- ===== src/Diam/Answer/Laws.antt =====
-- What `Answer` of diam/message.go makes of a request.
use go_diameter.Prelude.{
  ℕ, zero, suc, ◌+◌, ◌≡◌, refl, sym, ap, ◌∙◌, true, false, ◌&&◌, some, List, [], ◌∷◌, ◌++◌, inl,
  inr, ◌⊎◌, arith,
}
use mathlib.Core.Path.{subst}
use mathlib.Core.List.{append_assoc, append-nil}
use go_diameter.Prelude.Tests.{◌==◌, ltb, leb, maybe, if◌then◌else◌, Bool-cases, Option-cases}
use go_diameter.Prelude.Lists.{length, get_elem?}
use go_diameter.Prelude.Maps.{Map, insert, lookup, lookup-insert}
use go_diameter.Diam.Avp.{Avp, unsigned32}
use go_diameter.Diam.Header.{Header, header_length, has_flag, proxiable_flag, error_flag}
use go_diameter.Diam.Codes.{result_code_code}
use go_diameter.Diam.Codec.{new_avp, new_avp_with_flags, serialize_to}
use go_diameter.Diam.Edit.{Body, add_avp, is_avp}
use go_diameter.Diam.Edit.Lengths.{HasLength, add_avp-HasLength}
use go_diameter.Diam.Wire.{avps_len}
use go_diameter.Diam.Grammar.{proxy_info_code, mbit}
use go_diameter.Diam.Grammar.Scan.{same_octets, is_echoed_proxy}
use go_diameter.Diam.Answer.{
  clone_echo, Answering, echo, echo_step, echo_all, result_avp, answer_body, answer, new_message,
}

-- The copies of the request's Proxy-Info AVPs.
unfoldable pub echo_of : Avp → List Avp
unfolding if◌then◌else◌
echo_of a = if is_avp proxy_info_code 0 a then clone_echo a ∷ [] else []

unfoldable pub echoes_of : List Avp → List Avp
unfolding echo_of
echoes_of [] = []
echoes_of (a ∷ l) = echo_of a ++ echoes_of l

unfoldable pub own_avps : ℕ → List Avp
unfolding if◌then◌else◌
own_avps n = if n == 0 then [] else new_avp result_code_code mbit 0 (unsigned32 n) ∷ []

echo_step-avps : (a : Avp) (s : Answering) → (echo_step a s).body.avps ≡ s.body.avps ++ echo_of a
unfolding echo_step echo echo_of add_avp if◌then◌else◌
echo_step-avps a s = elim (Bool-cases (is_avp proxy_info_code 0 a)) [
  | inl e ↦ rw e refl
  | inr e ↦ rw e (sym (append-nil s.body.avps))
]

echo_all-avps :
    (l : List Avp) (s : Answering) → (echo_all l s).body.avps ≡ s.body.avps ++ echoes_of l
unfolding echo_all echoes_of
echo_all-avps [] s = sym (append-nil s.body.avps)
echo_all-avps (a ∷ l) s =
    echo_all-avps l (echo_step a s)
    ∙ (ap (λ (z : List Avp). z ++ echoes_of l) (echo_step-avps a s)
        ∙ append_assoc s.body.avps (echo_of a) (echoes_of l))

echo_step-echo :
    (a : Avp) (s : Answering) → is_avp proxy_info_code 0 a ≡ true → echo_step a s ≡ echo a s
unfolding echo_step if◌then◌else◌
echo_step-echo a s e = rw e refl

echo_step_other : (a : Avp) (s : Answering) → is_avp proxy_info_code 0 a ≡ false → echo_step a s ≡ s
unfolding echo_step if◌then◌else◌
echo_step_other a s e = rw e refl

echo-HasLength : (a : Avp) (s : Answering) → HasLength s.body → HasLength (echo a s).body
unfolding echo
echo-HasLength a s h = add_avp-HasLength (clone_echo a) s.body h

echo_step-HasLength : (a : Avp) (s : Answering) → HasLength s.body → HasLength (echo_step a s).body
echo_step-HasLength a s h = elim (Bool-cases (is_avp proxy_info_code 0 a)) [
  | inl e ↦
      subst (λ (z : Answering). HasLength z.body) (sym (echo_step-echo a s e))
        (echo-HasLength a s h)
  | inr e ↦ subst (λ (z : Answering). HasLength z.body) (sym (echo_step_other a s e)) h
]

echo_all-HasLength :
    (l : List Avp) (s : Answering) → HasLength s.body → HasLength (echo_all l s).body
unfolding echo_all
echo_all-HasLength [] s h = h
echo_all-HasLength (a ∷ l) s h = echo_all-HasLength l (echo_step a s) (echo_step-HasLength a s h)

same_octets_refl : (b : List ℕ) → same_octets b b ≡ true
unfolding same_octets
same_octets_refl [] = refl
same_octets_refl (x ∷ b) = ground (arith, same_octets_refl b)

-- Every Proxy-Info so far is an echo, as far as it can be written.
Exempt : Answering → Type 0
Exempt s =
    (i : ℕ) (a : Avp) (b : List ℕ)
    → get_elem? s.body.avps i ≡ some a
    → is_avp proxy_info_code 0 a ≡ true
    → serialize_to a ≡ some b
    → is_echoed_proxy s.echoed i a ≡ true

get_elem?-append :
    (l : List Avp) (c a : Avp) (i : ℕ)
    → get_elem? (l ++ (c ∷ [])) i ≡ some a
    → ((i ≡ length l) × (a ≡ c)) ⊎ ((i ≡ length l → ⊥) × (get_elem? l i ≡ some a))
get_elem?-append [] c a zero h = inl (refl, cc)
get_elem?-append [] c a (suc i) h = absurd (cc)
get_elem?-append (x ∷ l) c a zero h = inr ((λ e. absurd (omega arith)), h)
get_elem?-append (x ∷ l) c a (suc i) h = elim (get_elem?-append l c a i h) [
  | inl k ↦ inl (omega (arith, k.0), k.1)
  | inr k ↦ inr ((λ e. k.0 (omega arith)), k.1)
]

-- An echo with the octets that were recorded is exempt, whatever is recorded elsewhere.
recorded :
    (echoes : Map (List ℕ)) (i : ℕ) (a : Avp) (b : List ℕ)
    → is_avp proxy_info_code 0 a ≡ true
    → lookup i echoes ≡ some b
    → serialize_to a ≡ some b
    → is_echoed_proxy echoes i a ≡ true
unfolding is_echoed_proxy is_avp maybe
recorded echoes i a b p l w = let r = same_octets_refl b in ground arith

elsewhere :
    (e f : Map (List ℕ)) (i : ℕ) (a : Avp)
    → lookup i e ≡ lookup i f
    → is_echoed_proxy e i a ≡ is_echoed_proxy f i a
unfolding is_echoed_proxy
elsewhere e f i a h = rw h refl

record_echo : Avp → Answering → Map (List ℕ)
unfolding maybe
record_echo c s = maybe (serialize_to c) s.echoed (λ b. insert (length s.body.avps) b s.echoed)

recorded_own :
    (c : Avp) (s : Answering) (b : List ℕ)
    → serialize_to c ≡ some b
    → lookup (length s.body.avps) (record_echo c s) ≡ some b
unfolding record_echo maybe if◌then◌else◌
recorded_own c s b w =
    let l = lookup-insert (length s.body.avps) (length s.body.avps) b s.echoed in ground arith

recorded_other :
    (c : Avp) (s : Answering) (i : ℕ)
    → (i ≡ length s.body.avps → ⊥)
    → lookup i (record_echo c s) ≡ lookup i s.echoed
unfolding record_echo maybe if◌then◌else◌
recorded_other c s i n = elim (Option-cases (serialize_to c)) [
  | inl e ↦ rw e refl
  | inr (b, e) ↦ elim (Bool-cases (length s.body.avps == i)) [
    | inl t ↦ absurd (n (ground arith))
    | inr f ↦ rw e (lookup-insert (length s.body.avps) i b s.echoed ∙ rw f refl)
  ]
]

echo-Exempt : (a : Avp) (s : Answering) → Exempt s → Exempt (echo a s)
unfolding echo add_avp Exempt record_echo
echo-Exempt a s h i x b g p w = elim (get_elem?-append s.body.avps (clone_echo a) x i g) [
  | inl k ↦
      recorded (record_echo (clone_echo a) s) i x b p
        (ap (λ (j : ℕ). lookup j (record_echo (clone_echo a) s)) k.0
          ∙ recorded_own (clone_echo a) s b (ap serialize_to (sym k.1) ∙ w))
        w
  | inr k ↦
      elsewhere (record_echo (clone_echo a) s) s.echoed i x (recorded_other (clone_echo a) s i k.0)
      ∙ h i x b k.1 p w
]

echo_step-Exempt : (a : Avp) (s : Answering) → Exempt s → Exempt (echo_step a s)
echo_step-Exempt a s h = elim (Bool-cases (is_avp proxy_info_code 0 a)) [
  | inl e ↦ subst Exempt (sym (echo_step-echo a s e)) (echo-Exempt a s h)
  | inr e ↦ subst Exempt (sym (echo_step_other a s e)) h
]

echo_all-Exempt : (l : List Avp) (s : Answering) → Exempt s → Exempt (echo_all l s)
unfolding echo_all
echo_all-Exempt [] s h = h
echo_all-Exempt (a ∷ l) s h = echo_all-Exempt l (echo_step a s) (echo_step-Exempt a s h)

abbrev start : ℕ → Answering
start n = record { body = answer_body n; echoed = [] }

start-avps : (n : ℕ) → (answer_body n).avps ≡ own_avps n
unfolding answer_body own_avps add_avp if◌then◌else◌
start-avps n = elim (Bool-cases (n == 0)) [ inl e ↦ rw e refl | inr e ↦ rw e refl ]

abbrev empty : Body
empty = record { message_length = header_length; avps = [] }

answer_body_zero : (n : ℕ) → (n == 0) ≡ true → answer_body n ≡ empty
unfolding answer_body if◌then◌else◌
answer_body_zero n e = rw e refl

answer_body_result : (n : ℕ) → (n == 0) ≡ false → answer_body n ≡ add_avp (result_avp n) empty
unfolding answer_body if◌then◌else◌
answer_body_result n e = rw e refl

empty-HasLength : HasLength empty
unfolding avps_len
empty-HasLength = omega arith

start-HasLength : (n : ℕ) → HasLength (answer_body n)
start-HasLength n = elim (Bool-cases (n == 0)) [
  | inl e ↦ subst HasLength (sym (answer_body_zero n e)) empty-HasLength
  | inr e ↦
      subst HasLength (sym (answer_body_result n e))
        (add_avp-HasLength (result_avp n) empty empty-HasLength)
]

not_proxy :
    (n i : ℕ) (a : Avp)
    → get_elem? (result_avp n ∷ []) i ≡ some a
    → is_avp proxy_info_code 0 a ≡ false
unfolding new_avp new_avp_with_flags is_avp
not_proxy n zero a h = ground arith
not_proxy n (suc i) a h = absurd (cc)

own_avps_other :
    (n i : ℕ) (a : Avp) → get_elem? (own_avps n) i ≡ some a → is_avp proxy_info_code 0 a ≡ false
unfolding own_avps if◌then◌else◌
own_avps_other n i a h = elim (Bool-cases (n == 0)) [
  | inl e ↦ absurd (ground arith)
  | inr e ↦ let k : get_elem? (result_avp n ∷ []) i ≡ some a = ground arith in not_proxy n i a k
]

start-Exempt : (n : ℕ) → Exempt (start n)
unfolding Exempt
start-Exempt n i a b g p w = let o = own_avps_other n i a (rw (← start-avps n) g) in absurd (cc)

-- An answer with a result code has the request's command, application and identifiers, of its flags
-- only P, and E exactly for a code from 3000 to 3999; its AVPs are the Result-Code, unless the code
-- is 0, and then the copies of the request's top-level Proxy-Info AVPs in their order; and
-- its Message-Length is that of its AVPs.
pub answer_echoes :
    (drawn_hop drawn_end : ℕ) (h : Header) (avps : List Avp) (stream n : ℕ)
    → let r = answer drawn_hop drawn_end h avps stream n in
      (r.avps ≡ own_avps n ++ echoes_of avps)
      × HasLength (record { message_length = r.header.message_length; avps = r.avps })
      × (r.header.command_flags
          ≡ (if has_flag h.command_flags proxiable_flag then proxiable_flag else 0)
            + (if leb 3000 n && ltb n 4000 then error_flag else 0))
      × (r.header.command_code ≡ h.command_code)
      × (r.header.application_id ≡ h.application_id)
      × (r.header.hop_by_hop_id ≡ h.hop_by_hop_id)
      × (r.header.end_to_end_id ≡ h.end_to_end_id)
unfolding answer new_message
answer_echoes drawn_hop drawn_end h avps stream n = (
  echo_all-avps avps (start n) ∙ ap (λ (z : List Avp). z ++ echoes_of avps) (start-avps n),
  echo_all-HasLength avps (start n) (start-HasLength n),
  refl,
  refl,
  refl,
  refl,
  refl,
)

-- Every Proxy-Info of an answer that can be written is an echo, exempt from the rules of a sender.
pub answer-is_echoed_proxy :
    (drawn_hop drawn_end : ℕ) (h : Header) (avps : List Avp) (stream n i : ℕ) (a : Avp) (b : List ℕ)
    → get_elem? (answer drawn_hop drawn_end h avps stream n).avps i ≡ some a
    → is_avp proxy_info_code 0 a ≡ true
    → serialize_to a ≡ some b
    → is_echoed_proxy (answer drawn_hop drawn_end h avps stream n).echoed_proxy_info i a ≡ true
unfolding answer Exempt
answer-is_echoed_proxy drawn_hop drawn_end h avps stream n i a b =
    echo_all-Exempt avps (start n) (start-Exempt n) i a b
