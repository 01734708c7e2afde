-- ===== src/Base.antt =====
-- diam/internal/base: settings, the base messages' header and request checks, the disconnect
-- messages, and the interface to the parsers and builders that the protocol core calls.
pub mod Validation
pub mod Capabilities
pub mod Application
pub mod Settings
pub mod Header
pub mod Request
pub mod Disconnect
pub mod Interface
