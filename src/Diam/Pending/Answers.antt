-- ===== src/Diam/Pending/Answers.antt =====
-- Which answers are matched.
use go_diameter.Prelude.{Bool, true, false, not, ◌&&◌, ◌≡◌, ◌∙◌, sym, refl, inl, inr, some, arith}
use go_diameter.Prelude.Tests.{is_some, if◌then◌else◌, Bool-cases}
use go_diameter.Diam.Header.{Header, is_request}
use go_diameter.Diam.Message.{Message}
use go_diameter.Diam.Pending.{same_key, owner, disown, Tracker, key_for_request, match_answer}
use go_diameter.Diam.Pending.Keys.{same_key_refl, owner-disown}

match_answer_lem :
    (a : Message) (h : Header) (consume : Bool) (t : Tracker)
    → a.header ≡ some h
    → (match_answer (some a) consume t).0
      ≡ (not (is_request h) && is_some (owner (key_for_request h) t.pending))
unfolding match_answer
match_answer_lem a h consume t e = elim (Bool-cases (is_request h)) [
  | inl q ↦ rw (e, q) refl
  | inr q ↦ elim (Bool-cases (is_some (owner (key_for_request h) t.pending))) [
    | inl o ↦ rw (e, q, o) refl
    | inr o ↦ rw (e, q, o) refl
  ]
]

consumed_lem :
    (a : Message) (h : Header) (t : Tracker)
    → a.header ≡ some h
    → (match_answer (some a) true t).0 ≡ true
    → (match_answer (some a) true t).1.pending ≡ disown (key_for_request h) t.pending
unfolding match_answer
consumed_lem a h t e m =
    let both = sym (match_answer_lem a h true t e) ∙ m in
    let asks : is_request h ≡ false = ground (arith, both) in
    let owned : is_some (owner (key_for_request h) t.pending) ≡ true = ground (arith, both) in
    rw (e, asks, owned) refl

-- A consumed answer is not matched again, and answers to other requests are matched as before.
pub match_answer-once :
    (a : Message) (h : Header) (t : Tracker)
    → a.header ≡ some h
    → (match_answer (some a) true t).0 ≡ true
    → ((consume : Bool)
        → (match_answer (some a) consume (match_answer (some a) true t).1).0 ≡ false)
      × ((b : Message) (h' : Header) (consume : Bool)
          → b.header ≡ some h'
          → same_key (key_for_request h) (key_for_request h') ≡ false
          → (match_answer (some b) consume (match_answer (some a) true t).1).0
            ≡ (match_answer (some b) consume t).0)
unfolding if◌then◌else◌
match_answer-once a h t e m =
    let k = key_for_request h in
    let left = consumed_lem a h t e m in
    let gone = owner-disown k k t.pending in
    let itself = same_key_refl k in
    (
      λ consume.
          match_answer_lem a h consume (match_answer (some a) true t).1 e
          ∙ rw (left, gone, itself) (ground arith),
      λ b h' consume e' differs.
          match_answer_lem b h' consume (match_answer (some a) true t).1 e'
          ∙ (rw (left, owner-disown k (key_for_request h') t.pending, differs) refl
              ∙ sym (match_answer_lem b h' consume t e')),
    )
