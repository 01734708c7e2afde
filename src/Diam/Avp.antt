-- ===== src/Diam/Avp.antt =====
-- diam/avp.go, diam/group.go and diam/datatype: attribute-value pairs and their data. An octet is a
-- number below 256. The members of a Grouped AVP are a list of the same block.
use go_diameter.Prelude.{ℕ, List}
use go_diameter.Prelude.Int.{ℤ}

mutual
  -- Code, Flags, Length, VendorID and Data.
  pub data Avp : Type 0 where
    avp : ℕ → ℕ → ℕ → ℕ → AvpData → Avp

  -- A float is its bits, a time is a number of seconds since 1970. `grouped` is `*GroupedAVP`, and
  -- `raw_grouped` the octets that `datatype.Grouped` keeps undecoded.
  pub data AvpData : Type 0 where
    nil_data : AvpData
    unknown_data octet_string utf8_string diameter_identity diameter_uri : List ℕ → AvpData
    ip_filter_rule qos_filter_rule raw_grouped ipv4 ipv6 : List ℕ → AvpData
    unsigned32 unsigned64 float32 float64 : ℕ → AvpData
    integer32 integer64 enumerated time : ℤ → AvpData
    address : ℕ → List ℕ → AvpData
    grouped : Avps → AvpData

  pub data Avps : Type 0 where
    nil : Avps
    cons : Avp → Avps → Avps

abbrev pub code : Avp → ℕ
code (avp c f n v d) = c

abbrev pub flags : Avp → ℕ
flags (avp c f n v d) = f

abbrev pub length_field : Avp → ℕ
length_field (avp c f n v d) = n

abbrev pub vendor_id : Avp → ℕ
vendor_id (avp c f n v d) = v

abbrev pub payload : Avp → AvpData
payload (avp c f n v d) = d
