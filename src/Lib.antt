-- ===== src/Lib.antt =====
-- A BitTorrent client: it reads a torrent file, or fetches its metainfo from a peer that a magnet link leads
-- to, asks a tracker for peers, connects to them, and downloads the pieces in parallel, one worker thread
-- for each peer.
--
-- The parts, and the modules that model them:
--
-- - Utils.RawBytes, Utils.Url: src/utils/bytes.rs and src/utils/url.rs. Bytes are kept in texts, one
--   character each. Utils.Words has the 32-bit words of the standard library.
-- - Torrent.Metainfo: src/torrent/metainfo.rs. `TorrentMetainfo` has the fields of the code's; bencode of
--   the serde_bencode crate, SHA-1 and hexadecimal are the fields of `Codec`, a parameter.
-- - Torrent.Magnet: the topics and addresses of src/torrent/magnet.rs; Torrent.Magnet.Select its
--   `parse_select_only`, and Torrent.Magnet.Link `MagnetLink::parse` over the query pairs of the url
--   crate, a parameter; its child modules relate a link to these pairs. Utils.Strings and Utils.Ranges
--   have what these use of `str` and of ranges.
-- - Tracker.Client: `parse_peers` of src/tracker/client.rs. Tracker.Client.Address: the parsing and
--   printing of a `Peer`. Tracker.Announce: its `announce`, where the request of reqwest is a parameter,
--   over the parser of Bencode.
-- - Bencode: src/bencode.rs. Bencode.Value has the values of serde_json, Bencode.Decimal the numbers of
--   `format!` and `parse`, Bencode.Encode `encode`, and Bencode.Parser the parser with its state, the
--   input and the index; `insert` of a serde_json map is a parameter. Bencode.Scan, Steps and Wire carry
--   the round trip, Bencode.Totality the bound on the calls.
-- - Peer.Message: src/peer/message.rs. Peer.Connection: `read_one_message` and `write_one_message` of
--   src/peer/connection.rs, over the bytes that are left on the stream; Peer.Connection.Reader its reader
--   thread and `update_state`; Peer.Connection.Handshake its `new`, where `Transport` says what the
--   network does.
-- - Peer.Extension: src/peer/extension.rs, over serde_bencode as a parameter.
-- - Peer.Metadata: the handler of src/peer/metadata.rs, for Peer.Session; Peer.Metadata.Fetcher its state
--   and its data, Peer.Metadata.Fetch its `new` and `run`, over url, hex and serde_bencode as parameters.
--   Peer.Metadata.Sets, Buffer, Requests and Assembly have the sets, the buffer, what a request changes,
--   and the specification that a message refines: the set of the pieces that have arrived. Fetch.Verified
--   and Fetch.Honest are about whole runs.
-- - Peer.Session: src/peer/session.rs. `run` takes a handler, the configuration and the network, a list
--   of attempts to connect with the events that arrive on each. `event_loop` is the inner loop,
--   `after_connect` and `after_loop` what surrounds it. Peer.Session.Rounds, Stops, Safety
--   and Endings reason on runs.
-- - Download.Queue: src/download/queue.rs. Each operation is one critical section of the mutex;
--   Download.Queue.Fleet has the interleavings of any number of workers, Download.Queue.Condvar the
--   sleepers on the condition variable.
-- - Download.Worker: src/download/worker.rs, a handler for Peer.Session over the queue. The monad `M`
--   passes on the worker's state and stops at an error. `Setting` holds what stays as it is, and what the
--   worker does not implement: SHA-1, whether sends and writes succeed, and what becomes of the queue
--   while a `pop` waits. Download.Worker.Ledger and Callbacks relate a callback to steps
--   of the fleet.
--   Download.Worker.Requests and Assembly have the invariant on its requests and its buffer, Integrity
--   what reaches the file, Composed the worker inside a session, and Single a worker with a queue of one
--   piece. Download.Worker.Length also has the formula of src/main.rs.
-- - Download.Manager: src/download/manager.rs, and `new` and `run` of the worker. `Environment` says what
--   the tracker, the file system and the other threads do; the workers run as in Download.Queue.Fleet.
-- - Main: the commands of src/main.rs, and what they print. Main.Piece: the download of one piece from
--   the peers in turn. Main.MagnetCommands: the commands that take a magnet link.
-- - Utils.Log: src/utils/log.rs, with the global level and the global handler as its state.
-- - Tests: runs at concrete inputs.
--
-- Bounds and fuel. `reader` makes as many rounds as it is given; it never makes more than the stream has
-- bytes, plus one. `run` takes one attempt of the network for each round, and at most `max_retries`
-- are needed. `chunks` is called with the length of its list, and each chunk takes at least one element.
-- `parse_bytes` gives its parser two calls for each byte and one more; a call reads a byte or is made
-- behind one that was read. `decimal` writes at most 20 digits, as many as 64 bits need.
-- 32- and 64-bit arithmetic wraps, as in a release build.
--
-- The SHA-1 of src/utils/hash.rs is the sha1 crate's, a parameter wherever it is used, and so are
-- serde_bencode, the conversion to serde_json, hex, url, reqwest and the `insert` of a map. A handshake that
-- does not succeed and a read that runs into its time-out appear as results of the network.
--
-- Not modelled: `ToSocketAddrs` of a peer, which hands its address to the standard library; the joining of
-- the worker threads at the end of a download; mutexes that a panic has poisoned, and allocations that fail.
-- Reading and writing of files is a parameter of the commands. The writes of src/peer/connection.rs are
-- modelled by the bytes they write; whether they succeed is a parameter of the callers. The functions that
-- log are modelled in Utils.Log, and their calls in the other files are left out.
pub mod Prelude
pub mod Utils
pub mod Peer
pub mod Torrent
pub mod Tracker
pub mod Download
pub mod Bencode
pub mod Main
pub mod Tests
