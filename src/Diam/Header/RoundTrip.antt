-- ===== src/Diam/Header/RoundTrip.antt =====
-- What a header decodes to, and what it is serialized as.
use go_diameter.Prelude.{ℕ, ◌%◌, ◌<◌, ◌≤◌, ◌^◌, ◌≡◌, List, ◌++◌, arith}
use go_diameter.Prelude.Lists.{length, All}
use go_diameter.Diam.Error.{no_error}
use go_diameter.Diam.Header.{Header, header_length, decode_from_bytes, serialize}

-- The ranges of the fields' Go types, with the 24 bits that the wire has for two of them.
pub record InRange (h : Header) : Type 0 where
  pub version : h.version < 256
  pub message_length : h.message_length < 2 ^ 24
  pub command_flags : h.command_flags < 256
  pub command_code : h.command_code < 2 ^ 24
  pub application_id : h.application_id < 2 ^ 32
  pub hop_by_hop_id : h.hop_by_hop_id < 2 ^ 32
  pub end_to_end_id : h.end_to_end_id < 2 ^ 32

-- The checks that RFC 6733 section 3 asks of a header.
pub record IsValid (h : Header) : Type 0 where
  pub version : h.version ≡ 1
  pub covers : header_length ≤ h.message_length
  pub aligned : h.message_length % 4 ≡ 0

-- A header within its fields' ranges that passes the checks is read back whole from its
-- serialization, whatever follows it and whatever the receiver held.
pub decode_from_bytes-serialize :
    (h old : Header) (rest : List ℕ)
    → InRange h
    → IsValid h
    → decode_from_bytes old (serialize h ++ rest) ≡ record { header = h; err = no_error }
unfolding decode_from_bytes serialize
decode_from_bytes-serialize h old rest r v = ground arith

-- The serialization of any header is exactly twenty numbers, each below 256.
pub serialize_shape : (h : Header) → (length (serialize h) ≡ 20) × All (λ b. b < 256) (serialize h)
unfolding serialize
serialize_shape h = omega arith

-- What decodes without an error passes the checks, for any input.
pub decode_from_bytes-IsValid :
    (old : Header) (octets : List ℕ)
    → (decode_from_bytes old octets).err ≡ no_error
    → (header_length ≤ length octets) × IsValid (decode_from_bytes old octets).header
unfolding decode_from_bytes
decode_from_bytes-IsValid old octets e = ground arith
