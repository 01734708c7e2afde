-- ===== src/Examples/Peers.antt =====
-- The theorems on the watchdog, the disconnect messages and the negotiation, at concrete peers.
use go_diameter.Prelude.{
  Option, none, ℕ, ◌&&◌, refl, true, false, some, [], ◌∷◌, ◌≡◌, ◌≢◌, ◌↔◌, ◌⊎◌, ◌≤◌, arith,
}
use go_diameter.Prelude.Tests.{if◌then◌else◌}
use go_diameter.Prelude.Lists.{contains, All}
use go_diameter.Prelude.Int.{pos}
use go_diameter.Diam.Avp.{Avp, avp, enumerated, diameter_identity}
use go_diameter.Diam.Codes.{origin_host_code, origin_realm_code, disconnect_cause_code}
use go_diameter.Diam.Header.{Header, has_flag, is_request}
use go_diameter.Diam.Error.{MessageError}
use go_diameter.Diam.Message.{Message}
use go_diameter.Base.Disconnect.{validate_dpr, is_disconnect, disconnect_cause}
use go_diameter.Base.Disconnect.Complete.{is_typed, validate_dpr_iff}
use go_diameter.Base.Disconnect.Laws.{occurrences}
use go_diameter.Base.Request.{relay, elements, validate_request}
use go_diameter.Base.Request.Laws.{validate_request_passes}
use go_diameter.Examples.{lenient, request, request_header}
use go_diameter.Base.Settings.{ok}
use go_diameter.Protocol.Identity.{common}
use go_diameter.Protocol.Identity.Laws.{contains-common}
use go_diameter.Watchdog.{
  Machine, okay, suspect, down, reopen, connection_up, expired, receive_dwa, step,
}
use go_diameter.Watchdog.Table.{step-failover_failback}
use go_diameter.Watchdog.Traces.{run, answers, IsBounded, recovery_needs_answers, run-IsBounded}

abbrev lost : Machine
lost = record { state = down; pending = false; num_dwa = pos 0 }

abbrev probing : Machine
probing = record { state = okay; pending = true; num_dwa = pos 0 }

step-failover_failback_example :
    (((step probing expired).1.failover ≡ true)
      ↔ ((probing.state ≡ okay) × ((step probing expired).0.state ≢ okay)))
    × (((step probing expired).1.failback ≡ true) ↔ (
        ((probing.state ≡ suspect) ⊎ (probing.state ≡ reopen))
        × ((step probing expired).0.state ≡ okay)))
step-failover_failback_example = step-failover_failback probing expired

settled : (step probing receive_dwa).0.pending ≡ false
unfolding step
settled = refl

probed : (step lost connection_up).1.send ≡ true
unfolding step
probed = refl

recovered : (run lost (connection_up ∷ receive_dwa ∷ receive_dwa ∷ receive_dwa ∷ [])).state ≡ okay
unfolding run step if◌then◌else◌
recovered = refl

recovery_needs_answers_example :
    3 ≤ answers (connection_up ∷ receive_dwa ∷ receive_dwa ∷ receive_dwa ∷ [])
recovery_needs_answers_example =
    recovery_needs_answers lost (connection_up ∷ receive_dwa ∷ receive_dwa ∷ receive_dwa ∷ []) refl
      recovered

lost-IsBounded : IsBounded lost
lost-IsBounded = record { counter = ground arith }

run-IsBounded_example : IsBounded (run lost (connection_up ∷ receive_dwa ∷ expired ∷ expired ∷ []))
run-IsBounded_example =
    run-IsBounded lost (connection_up ∷ receive_dwa ∷ expired ∷ expired ∷ []) lost-IsBounded

contains-common_example : (contains (common (4 ∷ 5 ∷ []) (5 ∷ 6 ∷ [])) 5 ≡ true) ↔ (
    ((contains (4 ∷ 5 ∷ []) relay ≡ true) × (contains (5 ∷ 6 ∷ []) 5 ≡ true))
    ⊎ ((contains (4 ∷ 5 ∷ []) relay ≡ false)
        × (contains (4 ∷ 5 ∷ []) 5 ≡ true)
        × ((contains (5 ∷ 6 ∷ []) 5 ≡ true) ⊎ (contains (5 ∷ 6 ∷ []) relay ≡ true))))
contains-common_example = contains-common (4 ∷ 5 ∷ []) (5 ∷ 6 ∷ []) 5

abbrev host_avp : Avp
host_avp = avp origin_host_code 64 9 0 (diameter_identity (97 ∷ []))

abbrev realm_avp : Avp
realm_avp = avp origin_realm_code 64 9 0 (diameter_identity (98 ∷ []))

-- A disconnect request for reason BUSY, and an answer to it.
abbrev dpr : Message
dpr = record {
  header = some (record {
    version = 1;
    message_length = 20;
    command_flags = 0x80;
    command_code = 282;
    application_id = 0;
    hop_by_hop_id = 1;
    end_to_end_id = 1;
  });
  avps = host_avp ∷ realm_avp ∷ avp disconnect_cause_code 64 12 0 (enumerated (pos 1)) ∷ [];
  stream = 0;
}

abbrev dpr_header : Header
dpr_header = record {
  version = 1;
  message_length = 20;
  command_flags = 0x80;
  command_code = 282;
  application_id = 0;
  hop_by_hop_id = 1;
  end_to_end_id = 1;
}

dpr-kind : (is_disconnect dpr_header && is_request dpr_header) ≡ true
unfolding has_flag
dpr-kind = refl

dpr_typed : All (λ a. is_typed disconnect_cause_code disconnect_cause a ≡ true) dpr.avps
unfolding is_typed if◌then◌else◌
dpr_typed = (refl, (refl, (refl, tt)))

validate_dpr_iff_example : ((cause : ℕ) × (validate_dpr dpr ≡ ok cause)) ↔ (
    (occurrences origin_host_code dpr.avps ≡ 1)
    × (occurrences origin_realm_code dpr.avps ≡ 1)
    × (occurrences disconnect_cause_code dpr.avps ≡ 1))
validate_dpr_iff_example = validate_dpr_iff dpr dpr_header refl dpr-kind dpr_typed

abbrev no_decode_error : Option MessageError
no_decode_error = none

request-kind : is_request request_header ≡ true
unfolding has_flag
request-kind = refl

validate_request_passes_example :
    (validate_request lenient request request_header (some (4 ∷ [])) true false no_decode_error
      ≡ none)
    ↔ (((true ≡ false)
          ⊎ (request_header.application_id ≡ 0)
          ⊎ (contains (elements (some (4 ∷ []))) 4 ≡ true)
          ⊎ (contains (elements (some (4 ∷ []))) relay ≡ true))
        × ((false ≡ false)
            ⊎ (contains (elements (some (4 ∷ []))) relay ≡ true)
            ⊎ (lenient.unknown_mandatory_avps request ≡ []))
        × (no_decode_error ≡ none)
        × ((true ≡ false) ⊎ (lenient.validate request ≡ none)))
validate_request_passes_example =
    validate_request_passes lenient request request_header (some (4 ∷ [])) true false
      no_decode_error request-kind
