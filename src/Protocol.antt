-- ===== src/Protocol.antt =====
-- diam/internal/protocol: the Diameter base protocol of one connection generation.
pub mod Types
pub mod Core
pub mod Send
pub mod Ending
pub mod Identity
pub mod Watch
pub mod Closing
pub mod Handshake
pub mod Results
pub mod Receive
pub mod Dispatch
pub mod Timers
pub mod Handle
pub mod Tracking
pub mod Executor
pub mod Over
pub mod Shutdown
pub mod Admission
pub mod Replies
