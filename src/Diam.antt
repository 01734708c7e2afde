-- ===== src/Diam.antt =====
-- Package diam: message headers, AVPs, messages, error values, command and result codes.
pub mod Avp
pub mod Edit
pub mod Error
pub mod Datatype
pub mod Header
pub mod Message
pub mod Pending
pub mod Wire
pub mod Codec
pub mod Dict
pub mod Grammar
pub mod Find
pub mod Answer
pub mod Codes
