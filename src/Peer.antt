-- ===== src/Peer.antt =====
-- Package diam/peer: the manager of peers.
pub mod Transition
