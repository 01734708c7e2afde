-- ===== src/Diam/Pending/Owners.antt =====
-- Who owns an answer, over any sequence of calls.
use go_diameter.Prelude.{ℕ, ◌<◌, Bool, ◌≡◌, Option, none, some, List, [], ◌∷◌, arith}
use go_diameter.Diam.Header.{Header}
use go_diameter.Diam.Message.{Message}
use go_diameter.Diam.Pending.{
  Tracker, prepare_write, cancel, release, publication, attempt, begin_write, finish_write, unlock,
  close_admission, match_answer,
}
use go_diameter.Diam.Pending.Kept.{
  Kept, unlock-Kept, attempt-Kept, match_answer-Kept, release-Kept, close_admission-Kept,
  cancel-Kept, prepare_write-Kept, publication-Kept,
}
use go_diameter.Diam.Pending.Overlap.{begin_write-Kept, finish_write-Kept}

-- One call of the tracker or the gate. A ticket is one that was made.
pub data Call : Type 0 where
  prepare : Header → Call
  cancelling releasing : ℕ → Call
  publish beginning : List ℕ → Call
  finishing : ℕ → Bool → Call
  attempting : Option ℕ → Call
  unlocking closing_down : Call
  answered : Option Message → Bool → Call

unfoldable pub call : Call → Tracker → Tracker
call (prepare h) t = (prepare_write h t).1
call (cancelling r) t = cancel r t
call (releasing r) t = release r t
call (publish b) t = (publication b t).1
call (beginning b) t = (begin_write b t).1
call (finishing r written) t = finish_write r written t
call (attempting r) t = (attempt r t).1
call unlocking t = unlock t
call closing_down t = close_admission t
call (answered m consume) t = (match_answer m consume t).1

abbrev pub Made : Call → Tracker → Type 0
Made (cancelling r) t = r < t.made
Made (releasing r) t = r < t.made
Made (finishing r written) t = r < t.made
Made (attempting (some r)) t = r < t.made
Made _ t = Unit {0}

made_ticket : (r : Option ℕ) (q : ℕ) (t : Tracker) → r ≡ some q → Made (attempting r) t → q < t.made
made_ticket none q t e m = absurd (ground (arith, e))
made_ticket (some r) q t e m = ground (arith, e, m)

pub call-Kept : (c : Call) (t : Tracker) → Made c t → Kept t → Kept (call c t)
unfolding call
call-Kept (prepare a) t m h = prepare_write-Kept a t h
call-Kept (cancelling r) t m h = cancel-Kept r t m h
call-Kept (releasing r) t m h = release-Kept r t h
call-Kept (publish b) t m h = publication-Kept b t h
call-Kept (beginning b) t m h = begin_write-Kept b t h
call-Kept (finishing r written) t m h = finish_write-Kept r written t m h
call-Kept (attempting r) t m h = attempt-Kept r t (λ q e. made_ticket r q t e m) h
call-Kept unlocking t m h = unlock-Kept t h
call-Kept closing_down t m h = close_admission-Kept t h
call-Kept (answered a consume) t m h = match_answer-Kept a consume t h

abbrev pub run : List Call → Tracker → Tracker
run [] t = t
run (c ∷ cs) t = run cs (call c t)

abbrev pub AllMade : List Call → Tracker → Type 0
AllMade [] t = Unit {0}
AllMade (c ∷ cs) t = Made c t × AllMade cs (call c t)

pub run-Kept : (cs : List Call) (t : Tracker) → AllMade cs t → Kept t → Kept (run cs t)
run-Kept [] t m h = h
run-Kept (c ∷ cs) t m h = run-Kept cs (call c t) m.1 (call-Kept c t m.0 h)
