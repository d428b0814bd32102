-- ===== src/Main/MagnetCommands.antt =====
-- The commands of src/main.rs that take a magnet link.
use codecrafters_bittorrent.Prelude.{
  ℕ, Bool, true, false, List, [], ◌∷◌, ◌++◌, Bytes, Option, none, some, Result, ok, err, ◌>>=◌,
}
use codecrafters_bittorrent.Utils.RawBytes.{Text}
use codecrafters_bittorrent.Bencode.Decimal.{decimal}
use codecrafters_bittorrent.Torrent.Metainfo.{TorrentMetainfo, Codec, Panic}
use codecrafters_bittorrent.Torrent.Magnet.{get_hash}
use codecrafters_bittorrent.Torrent.Magnet.Link.{UrlCrate, LinkError, parse}
use codecrafters_bittorrent.Peer.Message.{codes}
use codecrafters_bittorrent.Peer.Session.{Attempt}
use codecrafters_bittorrent.Peer.Metadata.Fetcher.{MetadataFetcher}
use codecrafters_bittorrent.Peer.Metadata.Fetch
use codecrafters_bittorrent.Peer.Metadata.Fetch.{
  LinkFetcher, MetadataFetchResult, FetchError, World, run_fetcher, first,
}
use codecrafters_bittorrent.Download.Worker.{PeerWorker}
use codecrafters_bittorrent.Download.Manager.{Environment, Started}
use codecrafters_bittorrent.Main.{client_id, print_metainfo}
use codecrafters_bittorrent.Main.Piece.{
  PieceEnd, download_piece_with_metainfo, download_with_manager,
}

-- Why a command gives nothing: a panic, or a session that waits for more of the network.
pub data NoResult : Type 0 where
  panicked waiting : NoResult

abbrev pub or_panic {ℓ} : {A : Type ℓ} → Option A → Result NoResult A
or_panic none = err panicked
or_panic (some a) = ok a

abbrev pub or_panicked {ℓ} : {A : Type ℓ} → Result Panic A → Result NoResult A
or_panicked (ok a) = ok a
or_panicked (err e) = err panicked

abbrev pub expect_link {ℓ} : {A : Type ℓ} → Result LinkError A → Result NoResult A
expect_link (ok a) = ok a
expect_link (err x) = err panicked

-- The printed lines.
unfoldable pub parse_magnet_link :
    {Url : Type 0} → UrlCrate Url → Text → Result NoResult (List Text)
unfolding parse
parse_magnet_link c link = do
  magnet_link ← expect_link (parse c link)
  url ← or_panic (first magnet_link.trackers)
  topic ← or_panic (first magnet_link.exact_topics)
  info_hash_hex ← or_panic (get_hash topic)
  ok ((codes "Tracker URL: " ++ c.to_string url) ∷ (codes "Info Hash: " ++ info_hash_hex) ∷ [])

abbrev pub fetched :
    Result FetchError MetadataFetchResult × MetadataFetcher → Result NoResult MetadataFetchResult
fetched (ok r, f) = ok r
fetched (err FetchError.pending, f) = err waiting
fetched (err x, f) = err panicked

abbrev pub peer_id_lines : Codec → Option Bytes → List Text
peer_id_lines c none = []
peer_id_lines c (some peer_id) = (codes "Peer ID: " ++ c.hex peer_id) ∷ []

abbrev pub extension_lines : Option ℕ → List Text
extension_lines none = []
extension_lines (some id) = (codes "Peer Metadata Extension ID: " ++ decimal id) ∷ []

abbrev pub metainfo_lines : Codec → Option TorrentMetainfo → List Text
metainfo_lines c none = []
metainfo_lines c (some metainfo) = print_metainfo c metainfo

module _ {Url : Type 0} (e : World Url) where
  -- A fetcher for the link that is run.
  unfoldable pub fetch : Text → Bool → Result NoResult MetadataFetchResult
  unfolding run_fetcher Fetch.new
  fetch link handshake_only = do
    f ← expect_link (Fetch.new e.urls link client_id handshake_only)
    fetched (run_fetcher e f)

  unfoldable pub magnet_handshake : Text → Result NoResult (List Text)
  unfolding fetch
  magnet_handshake link = do
    r ← fetch link true
    ok (peer_id_lines e.metainfo_codec r.peer_id ++ extension_lines r.peer_metadata_id)

  unfoldable pub magnet_info : Text → Result NoResult (List Text)
  unfolding fetch
  magnet_info link = do
    r ← fetch link false
    ok (
        peer_id_lines e.metainfo_codec r.peer_id
        ++ (extension_lines r.peer_metadata_id ++ metainfo_lines e.metainfo_codec r.metainfo))

  unfoldable pub fetch_metainfo : Text → Result NoResult TorrentMetainfo
  unfolding fetch
  fetch_metainfo link = do r ← fetch link false; or_panic r.metainfo

  unfoldable pub download_magnet_piece :
      Environment → (ℕ → List (Attempt PeerWorker)) → Text → Text → ℕ → Result NoResult PieceEnd
  unfolding fetch_metainfo download_piece_with_metainfo
  download_magnet_piece env network output_file_path link piece_index = do
    metainfo ← fetch_metainfo link
    ok (download_piece_with_metainfo env network metainfo output_file_path piece_index)

  unfoldable pub download_magnet_file : Environment → Text → Text → Result NoResult Started
  unfolding fetch_metainfo download_with_manager
  download_magnet_file env output_file_path link = do
    metainfo ← fetch_metainfo link
    or_panicked (download_with_manager env metainfo output_file_path)
