-- ===== src/Diam/Pending.antt =====
-- diam/pending_requests.go and diam/write_gate.go: who owns the answer to a request that a native
-- connection writes. A `*RequestWrite` is the number of a cell; `done` is closed exactly when the
-- ticket is cancelled. The blocking of `lock` between two calls of `attempt` is not modelled.
pub mod Keys
pub mod Cases
pub mod Chain
pub mod Kept
pub mod Overlap
pub mod Owners
pub mod Answers
pub mod Ends
pub mod Rollback
pub mod Restores
use go_diameter.Prelude.{
  ℕ, zero, suc, ◌+◌, Bool, true, false, not, ◌&&◌, ◌||◌, ◌≡◌, Option, none, some, List, [], ◌∷◌,
}
use go_diameter.Prelude.Tests.{◌==◌, maybe, is_some, if◌then◌else◌}
use go_diameter.Prelude.Lists.{length}
use go_diameter.Prelude.Maps.{update}
use go_diameter.Diam.Codes.{disconnect_peer}
use go_diameter.Diam.Error.{is_error}
use go_diameter.Diam.Header.{Header, decode_from_bytes, is_request}
use go_diameter.Diam.Message.{Message}

-- `requestKey`.
pub record RequestKey : Type 0 where
  pub hop : ℕ
  pub end : ℕ
  pub command : ℕ
  pub application : ℕ

unfoldable pub key_for_request : Header → RequestKey
key_for_request h = record {
  hop = h.hop_by_hop_id;
  end = h.end_to_end_id;
  command = h.command_code;
  application = h.application_id;
}

unfoldable pub same_key : RequestKey → RequestKey → Bool
same_key j k =
    (j.hop == k.hop)
    && (j.end == k.end)
    && (j.command == k.command)
    && (j.application == k.application)

-- `map[requestKey]*RequestWrite`.
abbrev pub Owners : Type 0
Owners = List (RequestKey × ℕ)

unfoldable pub owner : RequestKey → Owners → Option ℕ
unfolding same_key if◌then◌else◌
owner k [] = none
owner k ((j, r) ∷ m) = if same_key j k then some r else owner k m

unfoldable pub disown : RequestKey → Owners → Owners
unfolding same_key if◌then◌else◌
disown k [] = []
disown k ((j, r) ∷ m) = let rest = disown k m in if same_key j k then rest else (j, r) ∷ rest

abbrev pub own : RequestKey → ℕ → Owners → Owners
unfolding disown
own k r m = (k, r) ∷ disown k m

-- `RequestWrite`.
pub record Ticket : Type 0 where
  pub key : RequestKey
  pub cancelled : Bool
  pub previous : Option ℕ
  pub failed : Bool

-- `PendingRequests` with the tickets made so far, and the connection's `writeGate`.
pub record Tracker : Type 0 where
  pub tickets : ℕ → Ticket
  pub made : ℕ
  pub pending : Owners
  pub reserved : Owners
  pub closing : Bool
  pub held : Bool

-- `&RequestWrite{…}`, whose number is the count so far.
abbrev pub new_ticket : RequestKey → Tracker → Tracker
unfolding update
new_ticket k t = record t {
  tickets =
      update t.tickets t.made
        (record { key = k; cancelled = false; previous = none; failed = false });
  made = t.made + 1;
}

abbrev zero_header : Header
zero_header = record {
  version = 0;
  message_length = 0;
  command_flags = 0;
  command_code = 0;
  application_id = 0;
  hop_by_hop_id = 0;
  end_to_end_id = 0;
}

-- `publicationHeader`.
unfoldable pub publication_header : List ℕ → Option Header
unfolding if◌then◌else◌
publication_header b =
    let d = decode_from_bytes zero_header b in
    let h = d.header in
    if is_error d.err || not (h.message_length == length b)
    then none
    else if not (is_request h) || (h.application_id == 0 && h.command_code == disconnect_peer)
    then none
    else some h

-- The methods below return the tracker that they leave, with their result.
unfoldable pub prepare_write : Header → Tracker → ℕ × Tracker
unfolding own key_for_request
prepare_write h t = (
  t.made,
  record (new_ticket (key_for_request h) t) {
    reserved = own (key_for_request h) t.made t.reserved;
  },
)

unfoldable pub cancel : ℕ → Tracker → Tracker
unfolding owner disown update maybe if◌then◌else◌
cancel r t =
    let k = (t.tickets r).key in
    let owned = maybe (owner k t.pending) false (λ (o : ℕ). o == r) in
    record t {
      tickets = update t.tickets r (record (t.tickets r) { cancelled = true });
      pending = if owned then disown k t.pending else t.pending;
    }

unfoldable pub release : ℕ → Tracker → Tracker
unfolding owner disown maybe if◌then◌else◌
release r t =
    let k = (t.tickets r).key in
    let owned = maybe (owner k t.reserved) false (λ (o : ℕ). o == r) in
    record t { reserved = if owned then disown k t.reserved else t.reserved }

unfoldable pub publication : List ℕ → Tracker → Option ℕ × Tracker
unfolding owner key_for_request maybe
publication b t =
    maybe (publication_header b) (none, t)
      (λ h.
        maybe (owner (key_for_request h) t.reserved) (some t.made, new_ticket (key_for_request h) t)
          (λ (r : ℕ). (some r, t)))

-- `writeGate.attempt` and, with a ticket, `RequestWrite.admit`. A gate that is held answers without
-- an error and without acquiring.
pub data Attempt : Type 0 where
  locked busy request_completed connection_closing : Attempt

unfoldable pub attempt : Option ℕ → Tracker → Attempt × Tracker
unfolding own if◌then◌else◌
attempt none t = if t.held then (busy, t) else (locked, record t { held = true })
attempt (some r) t =
    if t.held
    then (busy, t)
    else if (t.tickets r).cancelled
    then (request_completed, t)
    else if t.closing
    then (connection_closing, t)
    else (locked, record t { held = true; pending = own (t.tickets r).key r t.pending })

-- `BeginWrite`. The ticket is the one whose outcome the returned function reports; with `none` that
-- function does nothing.
unfoldable pub overlap : ℕ → Option ℕ → Tracker → Tracker
unfolding update
overlap r prior t = record t {
  tickets = update t.tickets r (record (t.tickets r) { previous = prior });
}

unfoldable pub register : RequestKey → ℕ → Tracker → Tracker
unfolding own owner overlap maybe if◌then◌else◌
register k r t =
    let prior = owner k t.pending in
    let u = if maybe prior false (λ (q : ℕ). q == r) then t else overlap r prior t in
    record u { pending = own k r u.pending }

unfoldable pub begin_write : List ℕ → Tracker → Option ℕ × Tracker
unfolding owner key_for_request register maybe if◌then◌else◌
begin_write b t =
    maybe (publication_header b) (none, t)
      (λ h.
        let k = key_for_request h in
        if t.closing
        then (none, t)
        else maybe (owner k t.reserved) (some t.made, register k t.made (new_ticket k t))
            (λ (r : ℕ). if (t.tickets r).cancelled then (none, t) else (some r, register k r t)))

-- The loop over `previous`, on fuel: the first ticket that neither failed nor is cancelled.
unfoldable pub rollback_to : (ℕ → Ticket) → ℕ → Option ℕ → Option ℕ
unfolding if◌then◌else◌
rollback_to f n none = none
rollback_to f zero (some q) = none
rollback_to f (suc n) (some q) =
    let rest = rollback_to f n (f q).previous in
    if (f q).failed || (f q).cancelled then rest else some q

-- A map access that is set, or deleted.
unfoldable pub reown : RequestKey → Option ℕ → Owners → Owners
unfolding own disown
reown k none m = disown k m
reown k (some q) m = own k q m

-- The returned function, with the outcome of the write.
unfoldable pub finish_write : ℕ → Bool → Tracker → Tracker
unfolding owner overlap rollback_to reown update maybe if◌then◌else◌
finish_write r written t =
    let k = (t.tickets r).key in
    let failed = update t.tickets r (record (t.tickets r) { failed = true }) in
    let owned = maybe (owner k t.pending) false (λ (o : ℕ). o == r) in
    let left = reown k (rollback_to failed t.made (failed r).previous) t.pending in
    if written
    then overlap r none t
    else record t { tickets = failed; pending = if owned then left else t.pending }

unfoldable pub unlock : Tracker → Tracker
unlock t = record t { held = false }

unfoldable pub close_admission : Tracker → Tracker
close_admission t = record t { closing = true }

unfoldable pub has_pending : Tracker → Bool
has_pending t = not (length t.pending == 0)

unfoldable pub match_answer : Option Message → Bool → Tracker → Bool × Tracker
unfolding owner disown key_for_request maybe if◌then◌else◌
match_answer m consume t =
    maybe m (false, t)
      (λ (a : Message).
        maybe a.header (false, t)
          (λ (h : Header).
            let k = key_for_request h in
            let left = record t { pending = disown k t.pending } in
            if is_request h
            then (false, t)
            else if is_some (owner k t.pending)
            then (true, if consume then left else t)
            else (false, t)))
