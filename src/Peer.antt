-- ===== src/Peer.antt =====
-- src/peer: the wire protocol, the handshake, the session loop and the extension handshake.
pub mod Message
pub mod Connection
pub mod Session
pub mod Metadata
pub mod Extension
