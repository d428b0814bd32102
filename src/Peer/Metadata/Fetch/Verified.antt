-- ===== src/Peer/Metadata/Fetch/Verified.antt =====
-- What `MetadataFetcher::run` of src/peer/metadata.rs returns.
use codecrafters_bittorrent.Prelude.{
  ℕ, ◌+◌, ◌≡◌, refl, sym, ap, subst, ◌∙◌, List, [], ◌∷◌, Bytes, Option, none, some, arith, Result,
  ok, err, list_eq, list_eq→eq, list_eq_refl, Bool-cases, Option-cases, Result-cases, inl, inr,
}
use codecrafters_bittorrent.Utils.RawBytes.{Text}
use codecrafters_bittorrent.Torrent.Metainfo.{TorrentMetainfo, Codec, Panic, from_info_bytes}
use codecrafters_bittorrent.Torrent.Magnet.{ExactTopic, get_hash}
use codecrafters_bittorrent.Tracker.Client.{Peer}
use codecrafters_bittorrent.Peer.Session.{Attempt, run, aggressive}
use codecrafters_bittorrent.Peer.Metadata.Fetcher.{Setting, MetadataFetcher}
use codecrafters_bittorrent.Peer.Metadata.{handler}
use codecrafters_bittorrent.Peer.Metadata.Fetch.{
  LinkFetcher, MetadataFetchResult, FetchError, SessionEnd, succeeded, refused, crashed, waiting,
  session_end, check_hash, verified_metainfo, fetch_result, next_peer, try_peers, World, run_with,
  run_topic, run_fetcher, info_hash_of, first,
}

-- Where a result has metainfo, its hash is the one that was asked for, and the buffer has that hash.
pub record Sound (m : Codec) (tracker_url : Text) (info_hash : Bytes)
    (out : Result FetchError MetadataFetchResult × MetadataFetcher) (metainfo : TorrentMetainfo)
    : Type 0 where
  pub bytes : Bytes
  pub in_buffer : out.1.metadata_bytes ≡ some bytes
  pub hashed : m.sha1 bytes ≡ info_hash
  pub decoded : from_info_bytes m tracker_url bytes ≡ ok metainfo
  pub hash_kept : metainfo.info_hash ≡ info_hash

pub check_hash_same :
    (m : Codec) (metainfo : TorrentMetainfo)
    → check_hash m metainfo.info_hash metainfo ≡ ok (some metainfo)
unfolding check_hash
check_hash_same m metainfo = rw (list_eq_refl metainfo.info_hash) refl

module _ (m : Codec) (tracker_url : Text) (info_hash : Bytes) where
  sha1-from_info_bytes :
      (bytes : Bytes) (metainfo : TorrentMetainfo)
      → from_info_bytes m tracker_url bytes ≡ ok metainfo
      → m.sha1 bytes ≡ metainfo.info_hash
  unfolding from_info_bytes
  sha1-from_info_bytes bytes metainfo e = ground arith

  check_hash-ok :
      (metainfo checked : TorrentMetainfo)
      → check_hash m info_hash metainfo ≡ ok (some checked)
      → (metainfo ≡ checked) × (metainfo.info_hash ≡ info_hash)
  unfolding check_hash
  check_hash-ok metainfo checked e = elim (Bool-cases (list_eq metainfo.info_hash info_hash)) [
    | inl b ↦ (ground arith, list_eq→eq _ _ b)
    | inr b ↦ ground arith
  ]

  pub verified_metainfo-some :
      (bytes : Bytes) (parsed : TorrentMetainfo)
      → from_info_bytes m tracker_url bytes ≡ ok parsed
      → verified_metainfo m tracker_url info_hash (some bytes) ≡ check_hash m info_hash parsed
  unfolding verified_metainfo
  verified_metainfo-some bytes parsed p = rw (p, verified_metainfo) refl

  verified_metainfo-panicked :
      (bytes : Bytes) (x : Panic)
      → from_info_bytes m tracker_url bytes ≡ err x
      → verified_metainfo m tracker_url info_hash (some bytes) ≡ err FetchError.panicked
  unfolding verified_metainfo
  verified_metainfo-panicked bytes x p = rw (p, verified_metainfo) refl

  verified_metainfo-ok :
      (o : Option Bytes) (metainfo : TorrentMetainfo)
      → verified_metainfo m tracker_url info_hash o ≡ ok (some metainfo)
      → (bytes : Bytes) × (o ≡ some bytes)
        × (from_info_bytes m tracker_url bytes ≡ ok metainfo)
        × (metainfo.info_hash ≡ info_hash)
  verified_metainfo-ok none metainfo e = unfold verified_metainfo in cc
  verified_metainfo-ok (some bytes) metainfo e =
      elim (Result-cases (from_info_bytes m tracker_url bytes)) [
        | inl (parsed, p) ↦
            let (same, hash) =
              check_hash-ok parsed metainfo (sym (verified_metainfo-some bytes parsed p) ∙ e) in
            (bytes, refl, p ∙ ap ok same, ap (λ t. t.info_hash) (sym same) ∙ hash)
        | inr (x, p) ↦ cc (verified_metainfo-panicked bytes x p)
      ]

  fetch_result-ok :
      (f : MetadataFetcher) (r : MetadataFetchResult)
      → fetch_result m tracker_url info_hash f ≡ ok r
      → verified_metainfo m tracker_url info_hash f.metadata_bytes ≡ ok r.metainfo
  unfolding fetch_result
  fetch_result-ok f r e =
      elim (Result-cases (verified_metainfo m tracker_url info_hash f.metadata_bytes)) [
        | inl (o, p) ↦ p ∙ ap ok (result_of o p)
        | inr (x, p) ↦ cc
      ]
    where
      result_of :
          (o : Option TorrentMetainfo)
          → verified_metainfo m tracker_url info_hash f.metadata_bytes ≡ ok o
          → o ≡ r.metainfo
      result_of o p = ground arith

  fetch_result-Sound :
      (f : MetadataFetcher) (r : MetadataFetchResult) (metainfo : TorrentMetainfo)
      → fetch_result m tracker_url info_hash f ≡ ok r
      → r.metainfo ≡ some metainfo
      → Sound m tracker_url info_hash (fetch_result m tracker_url info_hash f, f) metainfo
  fetch_result-Sound f r metainfo e has =
      let (bytes, in_buffer, decoded, hash) =
        verified_metainfo-ok f.metadata_bytes metainfo (fetch_result-ok f r e ∙ ap ok has) in
      record {
        bytes = bytes;
        in_buffer = in_buffer;
        hashed = sha1-from_info_bytes bytes metainfo decoded ∙ hash;
        decoded = decoded;
        hash_kept = hash;
      }

  next_peer-Sound :
      (s : SessionEnd) (f : MetadataFetcher)
      (more : MetadataFetcher → Result FetchError MetadataFetchResult × MetadataFetcher)
      (r : MetadataFetchResult) (metainfo : TorrentMetainfo)
      → ((g : MetadataFetcher)
          → (more g).0 ≡ ok r
          → Sound m tracker_url info_hash (more g) metainfo)
      → (next_peer m tracker_url info_hash s f more).0 ≡ ok r
      → r.metainfo ≡ some metainfo
      → Sound m tracker_url info_hash (next_peer m tracker_url info_hash s f more) metainfo
  next_peer-Sound succeeded f more r metainfo k e has = fetch_result-Sound f r metainfo e has
  next_peer-Sound refused f more r metainfo k e has = k f e
  next_peer-Sound crashed f more r metainfo k e has = cc
  next_peer-Sound waiting f more r metainfo k e has = cc

  module _ (c : Setting) (network : ℕ → List (Attempt MetadataFetcher)) where
    try_peers-Sound :
        (peers : List Peer) (n : ℕ) (f : MetadataFetcher) (r : MetadataFetchResult)
        (metainfo : TorrentMetainfo)
        → (try_peers m c network tracker_url info_hash peers n f).0 ≡ ok r
        → r.metainfo ≡ some metainfo
        → Sound m tracker_url info_hash
            (try_peers m c network tracker_url info_hash peers n f)
            metainfo
    unfolding try_peers
    try_peers-Sound [] n f r metainfo e has = cc
    try_peers-Sound (peer ∷ peers) n f r metainfo e has =
        let s = run (handler c) aggressive (network n) f in
        next_peer-Sound (session_end s.outcome) s.state
          (try_peers m c network tracker_url info_hash peers (n + 1)) r metainfo
          (λ g q. try_peers-Sound peers (n + 1) g r metainfo q has) e has

info_hash_of-ok :
    (hex_decode : Text → Option Bytes) (topics : List ExactTopic) (info_hash : Bytes)
    → info_hash_of hex_decode topics ≡ ok info_hash
    → (topic : ExactTopic) × (hash : Text) × (first topics ≡ some topic)
      × (get_hash topic ≡ some hash)
      × (hex_decode hash ≡ some info_hash)
unfolding info_hash_of
info_hash_of-ok hex_decode [] info_hash e = cc
info_hash_of-ok hex_decode (topic ∷ topics) info_hash e = elim (Option-cases (get_hash topic)) [
  | inl g ↦ absurd (ground arith)
  | inr (hash, g) ↦ elim (Option-cases (hex_decode hash)) [
    | inl d ↦ absurd (ground arith)
    | inr (bytes, d) ↦ (topic, hash, refl, g, d ∙ ap some (decoded_bytes hash bytes g d))
  ]
]
  where
    decoded_bytes :
        (hash : Text) (bytes : Bytes)
        → get_hash topic ≡ some hash
        → hex_decode hash ≡ some bytes
        → bytes ≡ info_hash
    decoded_bytes hash bytes g d = ground arith

module _ {Url : Type 0} (e : World Url) (f : LinkFetcher Url) (r : MetadataFetchResult)
    (metainfo : TorrentMetainfo) (has : r.metainfo ≡ some metainfo) where
  run_with-Sound :
      (tracker_url : Text) (info_hash : Bytes) (peers : Result FetchError (List Peer))
      → (run_with e tracker_url info_hash f peers).0 ≡ ok r
      → Sound e.metainfo_codec tracker_url info_hash
          (run_with e tracker_url info_hash f peers)
          metainfo
  unfolding run_with
  run_with-Sound tracker_url info_hash (err x) k = cc
  run_with-Sound tracker_url info_hash (ok peers) k =
      try_peers-Sound e.metainfo_codec tracker_url info_hash e.setting e.network peers 0 f.fetcher r
        metainfo k has

  -- What the run is sound about.
  abbrev FromTopic :
      Text
      → Result FetchError Bytes
      → Result FetchError MetadataFetchResult × MetadataFetcher
      → Type 0
  FromTopic tracker_url hash out =
      (hash ≡ ok metainfo.info_hash)
      × Sound e.metainfo_codec tracker_url metainfo.info_hash out metainfo

  run_topic-Sound :
      (tracker_url : Text) (hash : Result FetchError Bytes)
      → (run_topic e tracker_url f hash).0 ≡ ok r
      → FromTopic tracker_url hash (run_topic e tracker_url f hash)
  unfolding run_topic
  run_topic-Sound tracker_url (err x) k = cc
  run_topic-Sound tracker_url (ok info_hash) k =
      let s = run_with-Sound tracker_url info_hash _ k in
      (
        ap ok (sym s.hash_kept),
        subst
            (λ h.
              Sound e.metainfo_codec tracker_url h (run_topic e tracker_url f (ok info_hash))
                metainfo)
            (sym s.hash_kept) s,
      )

  run_fetcher-some :
      (url : Url)
      → first f.magnet_link.trackers ≡ some url
      → run_fetcher e f
        ≡ run_topic e
            (e.urls.to_string url)
            f
            (info_hash_of e.hex_decode f.magnet_link.exact_topics)
  unfolding run_fetcher
  run_fetcher-some url t = rw (t, run_fetcher) refl

  run_fetcher-none :
      first f.magnet_link.trackers ≡ none → (run_fetcher e f).0 ≡ err FetchError.no_trackers
  unfolding run_fetcher
  run_fetcher-none t = rw (t, run_fetcher) refl

  -- `run` gives metainfo only when its hash is the one of the first topic of the link, decoded; then
  -- the bytes that it fetched have this SHA-1, and the metainfo is what they decode to, under the URL
  -- of the link's first tracker.
  pub run_fetcher-Sound :
      (run_fetcher e f).0 ≡ ok r
      → (url : Url) × (topic : ExactTopic) × (hash : Text) × (first f.magnet_link.trackers
          ≡ some url)
        × (first f.magnet_link.exact_topics ≡ some topic)
        × (get_hash topic ≡ some hash)
        × (e.hex_decode hash ≡ some metainfo.info_hash)
        × Sound e.metainfo_codec
            (e.urls.to_string url)
            metainfo.info_hash
            (run_fetcher e f)
            metainfo
  run_fetcher-Sound k = elim (Option-cases (first f.magnet_link.trackers)) [
    | inl t ↦ cc (run_fetcher-none t)
    | inr (url, t) ↦
        let same = run_fetcher-some url t in
        let (from, sound) =
          run_topic-Sound (e.urls.to_string url)
            (info_hash_of e.hex_decode f.magnet_link.exact_topics)
            (ap (λ out. out.0) (sym same) ∙ k) in
        let (topic, hash, found, hashes, decodes) =
          info_hash_of-ok e.hex_decode f.magnet_link.exact_topics metainfo.info_hash from in
        (url, topic, hash, t, found, hashes, decodes, rw same sound)
  ]
