-- ===== src/Utils.antt =====
-- src/utils: byte strings as texts and back, machine words in network order, percent encoding.
pub mod RawBytes
pub mod Words
pub mod Url
pub mod Strings
pub mod Ranges
pub mod Log
