-- ===== src/Diam/Message.antt =====
-- diam/message.go: what the base protocol reads of a message, and the metadata of
-- diam/protocol_error.go. A nil `*Message` or `*Header` is `none`.
use go_diameter.Prelude.{ℕ, Option, none, some, List}
use go_diameter.Diam.Avp.{Avp}
use go_diameter.Diam.Header.{Header}

pub record Message : Type 0 where
  pub header : Option Header
  pub avps : List Avp
  pub stream : ℕ

-- `ProtocolMessageMetadata`; no header is `HasHeader = false`.
pub record MessageMetadata : Type 0 where
  pub header : Option Header
  pub stream : ℕ

abbrev pub no_metadata : MessageMetadata
no_metadata = record { header = none; stream = 0 }

-- `metadata` of diam/internal/protocol/control.go.
unfoldable pub metadata : Option Message → MessageMetadata
metadata none = no_metadata
metadata (some m) = record { header = m.header; stream = m.stream }
