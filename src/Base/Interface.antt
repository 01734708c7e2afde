-- ===== src/Base/Interface.antt =====
-- What the protocol core calls to read and to build base messages: the reflection-based parsers,
-- the dictionary's grammar and the builders of diam/internal/base and diam, at the connection's
-- dictionary.
use go_diameter.Prelude.{ℕ, Bool, Option, List}
use go_diameter.Diam.Avp.{Avp}
use go_diameter.Diam.Error.{Err, MessageError}
use go_diameter.Diam.Message.{Message}
use go_diameter.Base.Settings.{Settings, Cer, Cea, Dwr, Checked}

pub record Base : Type 0 where
  -- `base.ValidateMessage`, `Message.Validate` and `Message.UnknownMandatoryAVPs`.
  pub validate_message : Message → Option MessageError
  pub validate : Message → Option MessageError
  pub unknown_mandatory_avps : Message → List Avp
  -- `CER.Parse` at the server with the TLS option, and `CEA.Parse` at the client: the fields that
  -- were filled in, and the error.
  pub parse_cer : Message → Bool → Option (List ℕ) → (Cer × Err)
  pub parse_cea : Message → Option (List ℕ) → (Cea × Err)
  pub parse_dwr : Message → (Dwr × Err)
  -- `DWA.Parse`: the Result-Code.
  pub parse_dwa : Message → (ℕ × Err)
  pub build_cer : Settings → Checked Message
  pub build_dwr : Settings → ℕ → Checked Message
  pub build_dpr : Settings → ℕ → Checked Message
  pub build_cea : Message → Settings → ℕ → Checked Message
  pub build_dwa : Message → Settings → Checked Message
  pub build_dpa_result : Message → Settings → ℕ → Checked Message
  pub build_error_answer : Message → Settings → ℕ → List Avp → Bool → Checked Message
  pub validate_capabilities : Settings → Err
  pub advertised_application_ids : Settings → Option (List ℕ)
  -- `Message.Len`.
  pub len : Message → ℕ
