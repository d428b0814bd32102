-- ===== src/Download.antt =====
-- src/download: the piece queue and the worker that fills pieces.
pub mod Queue
pub mod Worker
pub mod Manager
