-- ===== src/Diam/Pending/Cases.antt =====
-- What a call may leave.
use go_diameter.Prelude.{ℕ, Bool, true, false, ◌≡◌, refl, inl, inr, Option, none, some, List}
use go_diameter.Prelude.Tests.{is_some, if◌then◌else◌, Option-cases}
use go_diameter.Diam.Header.{is_request}
use go_diameter.Diam.Message.{Message}
use go_diameter.Diam.Pending.{
  RequestKey, owner, disown, own, Tracker, new_ticket, publication, publication_header,
  key_for_request, attempt, register, begin_write, match_answer,
}

module _ (P : Tracker → Type 0) where
  -- A rule for branches.
  if-case :
      {A : Type 0} (b : Bool) (x y : A × Tracker)
      → (b ≡ true → P x.1)
      → (b ≡ false → P y.1)
      → P (if b then x else y).1
  unfolding if◌then◌else◌
  if-case true x y hx hy = hx refl
  if-case false x y hx hy = hy refl

  pub attempt-case :
      (r : Option ℕ) (t : Tracker)
      → P t
      → P (record t { held = true })
      → ((q : ℕ)
          → r ≡ some q
          → (t.tickets q).cancelled ≡ false
          → t.closing ≡ false
          → P (record t { held = true; pending = own (t.tickets q).key q t.pending }))
      → P (attempt r t).1
  unfolding attempt
  attempt-case none t same gate owned = if-case t.held _ _ (λ e. same) (λ e. gate)
  attempt-case (some r) t same gate owned =
      if-case t.held _ _ (λ e. same)
        (λ e.
          if-case (t.tickets r).cancelled _ _ (λ c. same)
            (λ c. if-case t.closing _ _ (λ q. same) (λ q. owned r refl c q)))

  pub publication-case :
      (b : List ℕ) (t : Tracker)
      → P t
      → ((k : RequestKey) → owner k t.reserved ≡ none → P (new_ticket k t))
      → P (publication b t).1
  unfolding publication
  publication-case b t same made = elim (Option-cases (publication_header b)) [
    | inl e ↦ rw e same
    | inr (a, e) ↦ elim (Option-cases (owner (key_for_request a) t.reserved)) [
      | inl q ↦ rw (e, q) (made (key_for_request a) q)
      | inr (r, q) ↦ rw (e, q) same
    ]
  ]

  pub begin_write-case :
      (b : List ℕ) (t : Tracker)
      → P t
      → ((k : RequestKey) (r : ℕ)
          → t.closing ≡ false
          → owner k t.reserved ≡ some r
          → (t.tickets r).cancelled ≡ false
          → P (register k r t))
      → ((k : RequestKey)
          → t.closing ≡ false
          → owner k t.reserved ≡ none
          → P (register k t.made (new_ticket k t)))
      → P (begin_write b t).1
  unfolding begin_write
  begin_write-case b t same reserved made = elim (Option-cases (publication_header b)) [
    | inl e ↦ rw e same
    | inr (a, e) ↦ rw e (
        if-case t.closing _ _ (λ c. same)
          (λ c. elim (Option-cases (owner (key_for_request a) t.reserved)) [
            | inl q ↦ rw q (made (key_for_request a) c q)
            | inr (r, q) ↦ rw q (
                if-case (t.tickets r).cancelled _ _ (λ x. same)
                  (λ x. reserved (key_for_request a) r c q x))
          ]))
  ]

  left_case :
      (consume : Bool) (k : RequestKey) (t : Tracker)
      → P t
      → P (record t { pending = disown k t.pending })
      → P (if consume then record t { pending = disown k t.pending } else t)
  unfolding if◌then◌else◌
  left_case true k t same left = left
  left_case false k t same left = same

  pub match_answer-case :
      (m : Option Message) (consume : Bool) (t : Tracker)
      → P t
      → ((k : RequestKey) → P (record t { pending = disown k t.pending }))
      → P (match_answer m consume t).1
  unfolding match_answer
  match_answer-case none consume t same left = same
  match_answer-case (some m) consume t same left = elim (Option-cases m.header) [
    | inl e ↦ rw e same
    | inr (a, e) ↦ rw e (
        if-case (is_request a) _ _ (λ q. same)
          (λ q.
            if-case (is_some (owner (key_for_request a) t.pending)) _ _
              (λ o. left_case consume (key_for_request a) t same (left (key_for_request a)))
              (λ o. same)))
  ]
