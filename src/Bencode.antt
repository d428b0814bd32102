-- ===== src/Bencode.antt =====
-- src/bencode.rs and the values of serde_json that it reads and writes.
pub mod Decimal
pub mod Value
pub mod Encode
pub mod Parser
pub mod Scan
pub mod Steps
pub mod Wire
pub mod Roundtrip
pub mod Totality
