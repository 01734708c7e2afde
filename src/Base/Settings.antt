-- ===== src/Base/Settings.antt =====
-- diam/internal/base: the records of builders.go, cer.go, cea.go, dwr.go and validation.go. Text and
-- identities are lists of octets. A slice whose absence the code tells from an empty one is optional.
use go_diameter.Prelude.{ℕ, Option, List, String}
use go_diameter.Diam.Avp.{Avp}
use go_diameter.Diam.Error.{Err}
use go_diameter.Diam.Codes.{ProtocolErrorKind}

-- A `datatype.Address`: its family and octets.
pub record Address : Type 0 where
  pub family : ℕ
  pub octets : List ℕ

pub record LocalApplication : Type 0 where
  pub id : ℕ
  pub app_type : String
  pub vendor : ℕ
  pub supported_vendors : List ℕ

-- `Settings`, less the resolver, which `New` refuses.
pub record Settings : Type 0 where
  pub origin_host : List ℕ
  pub origin_realm : List ℕ
  pub vendor_id : ℕ
  pub product_name : List ℕ
  pub origin_state_id : ℕ
  pub firmware_revision : ℕ
  pub host_ip_addresses : List Address
  pub supported_vendor_id : List Avp
  pub acct_application_id : Option (List Avp)
  pub auth_application_id : Option (List Avp)
  pub vendor_specific_application_id : Option (List Avp)
  pub inband_security_id : ℕ
  pub applications : List LocalApplication

-- A parsed CER; `app_id` is what `Applications` returns.
pub record Cer : Type 0 where
  pub host_ip_addresses : List Address
  pub origin_host : List ℕ
  pub origin_realm : List ℕ
  pub origin_state_id : Option Avp
  pub inband_security_id : Option Avp
  pub acct_application_id : Option (List Avp)
  pub auth_application_id : Option (List Avp)
  pub vendor_specific_application_id : Option (List Avp)
  pub app_id : List ℕ

pub record Cea : Type 0 where
  pub host_ip_addresses : List Address
  pub result_code : ℕ
  pub origin_host : List ℕ
  pub origin_realm : List ℕ
  pub origin_state_id : ℕ
  pub vendor_id : ℕ
  pub product_name : List ℕ
  pub supported_vendor_id : List Avp
  pub acct_application_id : Option (List Avp)
  pub auth_application_id : Option (List Avp)
  pub vendor_specific_application_id : Option (List Avp)
  pub failed_avp : List Avp
  pub error_message : List ℕ
  pub app_id : List ℕ

pub record Dwr : Type 0 where
  pub origin_host : List ℕ
  pub origin_realm : List ℕ
  pub origin_state_id : Option Avp

pub record RequestError : Type 0 where
  pub kind : ProtocolErrorKind
  pub code : ℕ
  pub failed : List Avp

-- What a function that returns a value and an error returns.
pub data Checked (A : Type 0) : Type 0 where
  ok : A → Checked A
  bad : Err → Checked A

-- `if err != nil { ... }` behind such a call: what to do with an error, and with a value.
unfoldable pub checked : {A B : Type 0} → Checked A → (Err → B) → (A → B) → B
checked (bad e) f g = f e
checked (ok a) f g = g a
