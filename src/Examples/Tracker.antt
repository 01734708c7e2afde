-- ===== src/Examples/Tracker.antt =====
-- Two requests on a connection: one is cancelled while its writer waits, the other is answered.
use go_diameter.Prelude.{
  ℕ, true, false, none, some, List, [], ◌∷◌, ◌≡◌, ◌≢◌, ◌≤◌, Bool, refl, arith,
}
use go_diameter.Prelude.Maps.{update}
use go_diameter.Diam.Header.{Header, has_flag, decode_from_bytes}
use go_diameter.Diam.Message.{Message}
use go_diameter.Diam.Pending.{
  RequestKey, unlock, same_key, owner, prepare_write, cancel, attempt, close_admission,
  match_answer, key_for_request, locked, begin_write, finish_write, publication_header, release,
}
use go_diameter.Diam.Pending.Owners.{
  Call, prepare, attempting, releasing, unlocking, call, run, AllMade,
}
use go_diameter.Diam.Pending.Ends.{owns, fresh_tracker, cancelled_for_good, closed_admission}
use go_diameter.Diam.Pending.Restores.{failed_write-restores}
use go_diameter.Diam.Pending.Answers.{match_answer-once}
use go_diameter.Examples.{request_header}

abbrev other_header : Header
other_header = record request_header { hop_by_hop_id = 13 }

abbrev answer_header : Header
answer_header = record request_header { command_flags = 0 }

abbrev answer : Message
answer = record { header = some answer_header; avps = []; stream = 0 }

-- Both tickets, and the gate held for the first.
abbrev writes : List Call
writes = prepare request_header ∷ prepare other_header ∷ attempting (some 0) ∷ []

writes-AllMade : AllMade writes fresh_tracker
unfolding call prepare_write attempt update
writes-AllMade = omega arith

two_made : (run writes fresh_tracker).made ≡ 2
unfolding call prepare_write attempt update
two_made = refl

cancelled_for_good_example :
    owns 1
      (key_for_request other_header)
      (run (unlocking ∷ attempting (some 1) ∷ []) (cancel 1 (run writes fresh_tracker)))
    ≡ false
unfolding call prepare_write attempt update cancel unlock
cancelled_for_good_example =
    cancelled_for_good writes (unlocking ∷ attempting (some 1) ∷ []) 1
      (key_for_request other_header) writes-AllMade (omega (arith, two_made)) (omega arith)

closed_admission_example :
    ((k : RequestKey) (q : ℕ)
      → owner k
          (run (attempting (some 1) ∷ []) (close_admission (run writes fresh_tracker))).pending
        ≡ some q
      → (p : ℕ) × (owner k (run writes fresh_tracker).pending ≡ some p) × (q ≤ p))
    × ((r : ℕ)
        → (attempt
            (some r)
            (run (attempting (some 1) ∷ []) (close_admission (run writes fresh_tracker)))).0
          ≢ locked)
    × ((b : List ℕ)
        → begin_write b
            (run (attempting (some 1) ∷ []) (close_admission (run writes fresh_tracker)))
          ≡ (none, run (attempting (some 1) ∷ []) (close_admission (run writes fresh_tracker))))
unfolding call prepare_write attempt update close_admission
closed_admission_example =
    closed_admission writes (attempting (some 1) ∷ []) writes-AllMade (omega arith)

answer_matches : (match_answer (some answer) true (run writes fresh_tracker)).0 ≡ true
unfolding match_answer call prepare_write attempt update owner key_for_request same_key has_flag
answer_matches = refl

match_answer-once_example :
    ((consume : Bool)
      → (match_answer
          (some answer)
          consume
          (match_answer (some answer) true (run writes fresh_tracker)).1).0
        ≡ false)
    × ((b : Message) (h' : Header) (consume : Bool)
        → b.header ≡ some h'
        → same_key (key_for_request answer_header) (key_for_request h') ≡ false
        → (match_answer
            (some b)
            consume
            (match_answer (some answer) true (run writes fresh_tracker)).1).0
          ≡ (match_answer (some b) consume (run writes fresh_tracker)).0)
match_answer-once_example =
    match_answer-once answer answer_header (run writes fresh_tracker) refl answer_matches

-- The request's octets, and a first write of it that has been admitted and has returned.
abbrev octets : List ℕ
octets = 1 ∷ 0 ∷ 0 ∷ 20 ∷ 128 ∷ 0 ∷ 1 ∷ 16 ∷ 0 ∷ 0 ∷ 0 ∷ 4 ∷ 0 ∷ 0 ∷ 0 ∷ 11 ∷ 0 ∷ 0 ∷ 0 ∷ 12 ∷ []

abbrev first_write : List Call
first_write = prepare request_header ∷ attempting (some 0) ∷ releasing 0 ∷ []

octets_header : publication_header octets ≡ some request_header
unfolding publication_header decode_from_bytes has_flag
octets_header = refl

first_write-AllMade : AllMade first_write fresh_tracker
unfolding call prepare_write attempt update
first_write-AllMade = omega arith

write_again : (begin_write octets (run first_write fresh_tracker)).0 ≡ some 1
unfolding call prepare_write attempt release update begin_write publication_header decode_from_bytes
    has_flag
write_again = refl

first_owner :
    owner (key_for_request request_header) (run first_write fresh_tracker).pending ≡ some 0
unfolding call prepare_write attempt release update owner key_for_request
first_owner = refl

first_kept : ((run first_write fresh_tracker).tickets 0).failed ≡ false
unfolding call prepare_write attempt release update
first_kept = refl

first_fits :
    (q : ℕ)
    → owner (key_for_request request_header) (run first_write fresh_tracker).pending ≡ some q
    → (q ≢ 1) × (((run first_write fresh_tracker).tickets q).failed ≡ false)
first_fits q e =
    let same : 0 ≡ q = ground (arith, e, first_owner) in
    rw (← same) (λ w. omega (arith, w), first_kept)

failed_write-restores_example :
    owner
      (key_for_request request_header)
      (finish_write 1 false (begin_write octets (run first_write fresh_tracker)).1).pending
    ≡ owner (key_for_request request_header) (run first_write fresh_tracker).pending
failed_write-restores_example =
    failed_write-restores first_write octets request_header 1 (key_for_request request_header)
      first_write-AllMade octets_header write_again first_fits
