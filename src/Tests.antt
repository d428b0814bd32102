-- ===== src/Tests.antt =====
-- Runs of the models at concrete inputs.
mod Wire
mod Sessions
mod Shared
mod Parsing
mod Pieces
mod Texts
mod Values
mod Extensions
mod Links
mod Fetching
mod Downloads
