-- ===== src/Examples.antt =====
-- Concrete connections, messages and inputs, and the theorems at them.
mod Engine
mod Wire
mod Table
mod Tracker
mod Uri
mod Names
mod Negotiation
mod Answers
mod Grammar
mod Peers
use go_diameter.Prelude.{ℕ, Bool, true, false, Option, none, some, List, [], ◌∷◌}
use go_diameter.Prelude.Int.{ℤ, pos}
use go_diameter.Diam.Error.{no_error, text}
use go_diameter.Diam.Header.{Header}
use go_diameter.Diam.Message.{Message}
use go_diameter.Base.Interface.{Base}
use go_diameter.Base.Settings.{Settings, Cer, Cea, Dwr, ok, bad}
use go_diameter.Watchdog
use go_diameter.Protocol.Types.{Config, Role, Phase, Input, InputKind, no_input, written_stage}
use go_diameter.Protocol.Core.{Core, Operation}
use go_diameter.Protocol.Admission.{initial_core}
use go_diameter.Diam.Message.{no_metadata}

abbrev nobody : Cer
nobody = record {
  host_ip_addresses = [];
  origin_host = [];
  origin_realm = [];
  origin_state_id = none;
  inband_security_id = none;
  acct_application_id = none;
  auth_application_id = none;
  vendor_specific_application_id = none;
  app_id = [];
}

abbrev nothing : Cea
nothing = record {
  host_ip_addresses = [];
  result_code = 0;
  origin_host = [];
  origin_realm = [];
  origin_state_id = 0;
  vendor_id = 0;
  product_name = [];
  supported_vendor_id = [];
  acct_application_id = none;
  auth_application_id = none;
  vendor_specific_application_id = none;
  failed_avp = [];
  error_message = [];
  app_id = [];
}

-- A base layer that accepts every message and builds none.
abbrev lenient : Base
lenient = record {
  validate_message = λ m. none;
  validate = λ m. none;
  unknown_mandatory_avps = λ m. [];
  parse_cer = λ m tls apps. (nobody, text "unread");
  parse_cea = λ m apps. (nothing, text "unread");
  parse_dwr =
      λ m. (record { origin_host = []; origin_realm = []; origin_state_id = none }, no_error);
  parse_dwa = λ m. (2001, no_error);
  build_cer = λ s. bad (text "unbuilt");
  build_dwr = λ s n. bad (text "unbuilt");
  build_dpr = λ s n. bad (text "unbuilt");
  build_cea = λ m s n. bad (text "unbuilt");
  build_dwa = λ m s. bad (text "unbuilt");
  build_dpa_result = λ m s n. bad (text "unbuilt");
  build_error_answer = λ m s n avps e. bad (text "unbuilt");
  validate_capabilities = λ s. no_error;
  advertised_application_ids = λ s. some (4 ∷ []);
  len = λ m. 20;
}

abbrev settings : Settings
settings = record {
  origin_host = 97 ∷ [];
  origin_realm = 98 ∷ [];
  vendor_id = 0;
  product_name = [];
  origin_state_id = 1;
  firmware_revision = 0;
  host_ip_addresses = [];
  supported_vendor_id = [];
  acct_application_id = none;
  auth_application_id = none;
  vendor_specific_application_id = none;
  inband_security_id = 0;
  applications = [];
}

abbrev config : Config
config = record {
  validate_requests = true;
  reject_unknown_mandatory_avps = false;
  connection = record { inst = 7; generation = 1 };
  role = Role.responder;
  local = settings;
  expected_host = [];
  tls = false;
  queue_writes = true;
  hooks = false;
  handshake_timeout = pos 10;
  cer_interval = pos 2;
  closing_timeout = pos 5;
  max_retransmits = 3;
  watchdog = false;
  watchdog_interval = pos 0;
  recovery = false;
  candidate_deadline_owned_by_peer = false;
  ignore_bound_headerless_input = false;
  reader_owns_message_error_closure = false;
  close_cer_on_invalid_header_bits_only = false;
  local_disconnect_in_closing = false;
  skip_dwr_grammar_after_hook = false;
  keep_cer_deadline_after_transport_loss = false;
}

-- A credit-control request.
abbrev request_header : Header
request_header = record {
  version = 1;
  message_length = 20;
  command_flags = 0x80;
  command_code = 272;
  application_id = 4;
  hop_by_hop_id = 11;
  end_to_end_id = 12;
}

abbrev request : Message
request = record { header = some request_header; avps = []; stream = 0 }

abbrev fresh : Core
unfolding initial_core
fresh = initial_core lenient config

-- Open and released.
abbrev open_core : Core
unfolding fresh
open_core = record fresh { phase = Phase.opened; started = true; ready = true; admission = 3 }

-- The start of the handshake's timer, and its expiry with the token that it got.
abbrev start_input : Input
start_input = record no_input { connection = record { inst = 7; generation = 1 }; at = 100 }

abbrev expiry : Input
expiry = record no_input {
  kind = InputKind.timer_expired;
  connection = record { inst = 7; generation = 1 };
  at = 110;
  timer = 0;
  token = 1;
}

abbrev receipt : Input
receipt = record no_input {
  kind = InputKind.receive;
  connection = record { inst = 7; generation = 1 };
  message = some request;
}

-- A queued and reported answer, and the result of its write.
abbrev queued : Operation
queued = record {
  control = none;
  message = no_metadata;
  length = 20;
  required = true;
  close_after = false;
  handshake = false;
  reported = true;
  queued = true;
  notice = none;
}

abbrev waiting_core : Core
unfolding open_core
waiting_core = record open_core { operations = (5, queued) ∷ [] }

abbrev written : Input
written = record no_input {
  kind = InputKind.write_result;
  connection = record { inst = 7; generation = 1 };
  token = 5;
  stage = written_stage;
  bytes = 20;
}
