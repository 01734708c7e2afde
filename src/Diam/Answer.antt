-- ===== src/Diam/Answer.antt =====
-- diam/message.go: `NewMessage`, `NewRequest` and `Answer` with the copies of Proxy-Info that it
-- makes. The random identifiers that stand for zero are arguments; a pointer to an echoed AVP is its
-- place in the answer. A pointer to an Address is not modelled, nor is one AVP held in two places.
pub mod Laws
use go_diameter.Prelude.{
  ℕ, ◌+◌, ◌*◌, ◌/◌, Bool, true, false, not, ◌&&◌, Option, none, some, List, [], ◌∷◌, ◌++◌,
}
use go_diameter.Prelude.Tests.{◌==◌, ltb, leb, maybe, if◌then◌else◌}
use go_diameter.Prelude.Lists.{length}
use go_diameter.Prelude.Maps.{Map, insert}
use go_diameter.Diam.Avp.{
  Avp, avp, AvpData, nil_data, unknown_data, octet_string, utf8_string, diameter_identity,
  diameter_uri, ip_filter_rule, qos_filter_rule, raw_grouped, ipv4, ipv6, unsigned32, unsigned64,
  float32, float64, integer32, integer64, enumerated, time, address, grouped, Avps, nil, cons,
}
use go_diameter.Diam.Datatype.{
  TypeId, unknown_type, address_type, diameter_identity_type, diameter_uri_type, enumerated_type,
  float32_type, float64_type, grouped_type, ip_filter_rule_type, ipv4_type, integer32_type,
  integer64_type, octet_string_type, qos_filter_rule_type, time_type, utf8_string_type,
  unsigned32_type, unsigned64_type, ipv6_type, decode_value,
}
use go_diameter.Diam.Header.{
  Header, header_length, has_flag, request_flag, proxiable_flag, error_flag,
}
use go_diameter.Diam.Codec.{new_avp, serialize_data, serialize_to}
use go_diameter.Diam.Codes.{result_code_code}
use go_diameter.Diam.Edit.{Body, add_avp, is_avp}
use go_diameter.Diam.Dict.{Dictionary, Command, find_command}
use go_diameter.Diam.Grammar.{proxy_info_code, mbit}

-- `Data.Type()`.
unfoldable pub type_of : AvpData → TypeId
type_of nil_data = unknown_type
type_of (unknown_data b) = unknown_type
type_of (octet_string b) = octet_string_type
type_of (utf8_string b) = utf8_string_type
type_of (diameter_identity b) = diameter_identity_type
type_of (diameter_uri b) = diameter_uri_type
type_of (ip_filter_rule b) = ip_filter_rule_type
type_of (qos_filter_rule b) = qos_filter_rule_type
type_of (raw_grouped b) = grouped_type
type_of (ipv4 b) = ipv4_type
type_of (ipv6 b) = ipv6_type
type_of (unsigned32 n) = unsigned32_type
type_of (unsigned64 n) = unsigned64_type
type_of (float32 n) = float32_type
type_of (float64 n) = float64_type
type_of (integer32 n) = integer32_type
type_of (integer64 n) = integer64_type
type_of (enumerated n) = enumerated_type
type_of (time t) = time_type
type_of (address family b) = address_type
type_of (grouped ms) = grouped_type

-- A value written and read back.
unfoldable pub reread : AvpData → AvpData
unfolding type_of serialize_data decode_value maybe
reread d =
    let raw = serialize_data d in maybe (decode_value (type_of d) raw) (unknown_data raw) (λ v. v)

-- `cloneEchoAVP`; `flags &^ 0x1f` of an octet.
unfoldable mutual
  unfolding reread

  pub clone_echo : Avp → Avp
  clone_echo (avp c f n v d) = avp c (f / 32 * 32) n v (clone_data d)

  pub clone_data : AvpData → AvpData
  clone_data nil_data = nil_data
  clone_data (grouped ms) = grouped (clone_members ms)
  clone_data (address family b) = address family b
  clone_data d = reread d

  pub clone_members : Avps → Avps
  clone_members nil = nil
  clone_members (cons a l) = cons (clone_echo a) (clone_members l)

-- `NewMessage`, for the two numbers that it may draw.
unfoldable pub new_message : ℕ → ℕ → ℕ → ℕ → ℕ → ℕ → ℕ → Header
unfolding if◌then◌else◌
new_message drawn_hop drawn_end cmd flags app hop end_to_end = record {
  version = 1;
  message_length = header_length;
  command_flags = flags;
  command_code = cmd;
  application_id = app;
  hop_by_hop_id = if hop == 0 then drawn_hop else hop;
  end_to_end_id = if end_to_end == 0 then drawn_end else end_to_end;
}

abbrev is_proxiable : Option Bool → Bool
is_proxiable (some true) = true
is_proxiable _ = false

-- `NewRequest`.
unfoldable pub new_request : ℕ → ℕ → ℕ → ℕ → Dictionary → Header
unfolding new_message find_command maybe if◌then◌else◌
new_request drawn_hop drawn_end cmd app s =
    let h = new_message drawn_hop drawn_end cmd request_flag app 0 0 in
    maybe (find_command s app cmd) h (λ c.
      if is_proxiable c.request.proxiable
      then record h { command_flags = request_flag + proxiable_flag }
      else h)

-- An answer under construction: the Message-Length and the AVPs, and `echoedProxyInfo`.
pub record Answering : Type 0 where
  pub body : Body
  pub echoed : Map (List ℕ)

-- What the loop does with one AVP of the request.
unfoldable pub echo : Avp → Answering → Answering
unfolding clone_echo add_avp serialize_to insert maybe
echo a s =
    let copied = clone_echo a in
    record {
      body = add_avp copied s.body;
      echoed = maybe (serialize_to copied) s.echoed (λ b. insert (length s.body.avps) b s.echoed);
    }

unfoldable pub echo_step : Avp → Answering → Answering
unfolding echo is_avp if◌then◌else◌
echo_step a s = if is_avp proxy_info_code 0 a then echo a s else s

unfoldable pub echo_all : List Avp → Answering → Answering
unfolding echo_step
echo_all [] s = s
echo_all (a ∷ l) s = echo_all l (echo_step a s)

abbrev result_avp : ℕ → Avp
result_avp n = new_avp result_code_code mbit 0 (unsigned32 n)

unfoldable pub answer_body : ℕ → Body
unfolding new_avp add_avp if◌then◌else◌
answer_body result_code =
    let empty : Body = record { message_length = header_length; avps = [] } in
    if result_code == 0 then empty else add_avp (result_avp result_code) empty

pub record Answered : Type 0 where
  pub header : Header
  pub avps : List Avp
  pub echoed_proxy_info : Map (List ℕ)
  pub stream : ℕ

-- `Answer`, on the request's header, AVPs and stream.
unfoldable pub answer : ℕ → ℕ → Header → List Avp → ℕ → ℕ → Answered
unfolding new_message answer_body echo_all has_flag if◌then◌else◌
answer drawn_hop drawn_end h avps stream result_code =
    let p = if has_flag h.command_flags proxiable_flag then proxiable_flag else 0 in
    let fresh =
      new_message drawn_hop drawn_end h.command_code p h.application_id h.hop_by_hop_id
        h.end_to_end_id in
    let e = if leb 3000 result_code && ltb result_code 4000 then error_flag else 0 in
    let s = echo_all avps (record { body = answer_body result_code; echoed = [] }) in
    record {
      header = record fresh {
        message_length = s.body.message_length;
        command_flags = p + e;
        hop_by_hop_id = h.hop_by_hop_id;
        end_to_end_id = h.end_to_end_id;
      };
      avps = s.body.avps;
      echoed_proxy_info = s.echoed;
      stream = stream;
    }
