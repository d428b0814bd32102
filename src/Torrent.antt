-- ===== src/Torrent.antt =====
-- src/torrent: the metainfo of a torrent and magnet links.
pub mod Metainfo
pub mod Magnet
