-- ===== src/Torrent/Magnet/Link/Parsed.antt =====
-- What `MagnetLink::parse` of src/torrent/magnet.rs reads: each part of the link against the pairs of the
-- query, without the map that the code collects them into.
use codecrafters_bittorrent.Prelude.{
  ℕ, take, ◌≡◌, refl, sym, subst, ap, ◌∙◌, false, inl, inr, Bool-cases, Option-cases, List, [], ◌∷◌,
  map, some, ok, list_eq, list_eq→eq, All,
}
use mathlib.Core.Option
use codecrafters_bittorrent.Utils.RawBytes.{Text}
use codecrafters_bittorrent.Peer.Message.{codes}
use codecrafters_bittorrent.Bencode.Decimal.{parse_usize}
use codecrafters_bittorrent.Torrent.Magnet.{parse_exact_topic, parse_peer}
use codecrafters_bittorrent.Torrent.Magnet.Select.{parse_select_only}
use codecrafters_bittorrent.Torrent.Magnet.Link.{
  UrlCrate, MagnetLink, Params, collect_params, get, remove, last, last_of, values_of, collect_urls,
  parse_params, parse_url_params, parse,
}
use codecrafters_bittorrent.Torrent.Magnet.Link.Values.{
  values, get-remove_other, get-collected, get_found, last_of-values_of,
}
use codecrafters_bittorrent.Torrent.Magnet.Link.Parts.{
  ok-value, >>=-ok, collect_peers-ok, parse_length-ok, parse_selection-ok, parse_urls-ok,
}

-- The keys that `parse` takes out of the parameters.
abbrev pub removed_keys : List Text
removed_keys =
    codes "xt"
    ∷ codes "tr"
    ∷ codes "ws"
    ∷ codes "as"
    ∷ codes "xs"
    ∷ codes "x.pe"
    ∷ codes "xl"
    ∷ codes "so"
    ∷ []

-- What a link has of the pairs of a query.
pub record IsReading {Url : Type 0} (c : UrlCrate Url) (pairs : List (Text × Text))
    (m : MagnetLink Url) : Type 0 where
  pub exact_topics : m.exact_topics ≡ map parse_exact_topic (values (codes "xt") pairs)
  pub display_name : m.display_name ≡ last (values (codes "dn") pairs)
  pub trackers : map c.parse_url (values (codes "tr") pairs) ≡ map some m.trackers
  pub web_seeds : map c.parse_url (values (codes "ws") pairs) ≡ map some m.web_seeds
  pub acceptable_sources :
      map c.parse_url (values (codes "as") pairs) ≡ map some m.acceptable_sources
  pub exact_sources : map c.parse_url (values (codes "xs") pairs) ≡ map some m.exact_sources
  pub peers : map parse_peer (values (codes "x.pe") pairs) ≡ map ok m.peers
  pub length : Option.map parse_usize (last (values (codes "xl") pairs)) ≡ Option.map some m.length
  pub select_only :
      Option.map parse_select_only (last (values (codes "so") pairs)) ≡ Option.map ok m.select_only
  pub other_params :
      (k : Text)
      → All (λ key. list_eq key k ≡ false) removed_keys
      → values_of (get k m.other_params) ≡ values k pairs

-- The parameters without some keys.
removing : List Text → Params → Params
removing [] params = params
removing (key ∷ keys) params = removing keys (remove key params)

get-removing :
    (k : Text) (keys : List Text) (params : Params)
    → All (λ key. list_eq key k ≡ false) keys
    → get k (removing keys params) ≡ get k params
unfolding removing
get-removing k [] params h = refl
get-removing k (key ∷ keys) params h =
    get-removing k keys (remove key params) h.1 ∙ get-remove_other k key params h.0

module _ {Url : Type 0} (c : UrlCrate Url) where
  module _ (pairs : List (Text × Text)) where
    values-removing :
        (k : Text) (n : ℕ)
        → All (λ key. list_eq key k ≡ false) (take n removed_keys)
        → values_of (get k (removing (take n removed_keys) (collect_params [] pairs)))
          ≡ values k pairs
    values-removing k n h =
        ap values_of (get-removing k (take n removed_keys) (collect_params [] pairs) h)
        ∙ get-collected k pairs

    last-removing :
        (k : Text) (n : ℕ)
        → All (λ key. list_eq key k ≡ false) (take n removed_keys)
        → last_of (get k (removing (take n removed_keys) (collect_params [] pairs)))
          ≡ last (values k pairs)
    last-removing k n h =
        last_of-values_of (get k (removing (take n removed_keys) (collect_params [] pairs)))
        ∙ ap last (values-removing k n h)

    urls-removing :
        (k : Text) (n : ℕ) (urls : List Url)
        → All (λ key. list_eq key k ≡ false) (take n removed_keys)
        → collect_urls c k (get k (removing (take n removed_keys) (collect_params [] pairs)))
          ≡ ok urls
        → map c.parse_url (values k pairs) ≡ map some urls
    unfolding collect_urls
    urls-removing k n urls h e =
        parse_urls-ok c k (values k pairs) urls (rw (values-removing k n h) at e)

    parse_params-IsReading :
        (xt_values : List Text) (m : MagnetLink Url)
        → get (codes "xt") (collect_params [] pairs) ≡ some xt_values
        → parse_params c xt_values (remove (codes "xt") (collect_params [] pairs)) ≡ ok m
        → IsReading c pairs m
    unfolding parse_params removing
    parse_params-IsReading xt_values m x h =
        let (trackers, h₁, r₁) = >>=-ok _ _ m h in
        let (web_seeds, h₂, r₂) = >>=-ok _ _ m r₁ in
        let (acceptable_sources, h₃, r₃) = >>=-ok _ _ m r₂ in
        let (exact_sources, h₄, r₄) = >>=-ok _ _ m r₃ in
        let (peers, h₅, r₅) = >>=-ok _ _ m r₄ in
        let (length, h₆, r₆) = >>=-ok _ _ m r₅ in
        let (select_only, h₇, r₇) = >>=-ok _ _ m r₆ in
        let made = ok-value r₇ in
        let topics : xt_values ≡ values (codes "xt") pairs =
          sym (ap values_of x) ∙ get-collected (codes "xt") pairs in
        subst (IsReading c pairs) made (record {
          exact_topics = ap (map parse_exact_topic) topics;
          display_name = last-removing (codes "dn") 1 (refl, tt);
          trackers = urls-removing (codes "tr") 1 trackers (refl, tt) h₁;
          web_seeds = urls-removing (codes "ws") 2 web_seeds (refl, (refl, tt)) h₂;
          acceptable_sources =
              urls-removing (codes "as") 3 acceptable_sources (refl, (refl, (refl, tt))) h₃;
          exact_sources =
              urls-removing (codes "xs") 4 exact_sources (refl, (refl, (refl, (refl, tt)))) h₄;
          peers =
              sym (
                ap (map parse_peer)
                  (values-removing (codes "x.pe") 5 (refl, (refl, (refl, (refl, (refl, tt)))))))
              ∙ collect_peers-ok _ peers h₅;
          length =
              sym (
                ap (Option.map parse_usize)
                  (last-removing (codes "xl") 6 (refl, (refl, (refl, (refl, (refl, (refl, tt))))))))
              ∙ parse_length-ok _ length h₆;
          select_only =
              sym (
                ap (Option.map parse_select_only) (
                  last-removing (codes "so") 7
                    (refl, (refl, (refl, (refl, (refl, (refl, (refl, tt)))))))))
              ∙ parse_selection-ok _ select_only h₇;
          other_params = λ k apart. values-removing k 8 apart;
        })

  module _ (m : MagnetLink Url) where
    parse_url_params-IsReading :
        (url : Url)
        → parse_url_params c url ≡ ok m
        → let pairs = c.query_pairs url in
          (c.scheme url ≡ codes "magnet")
          × (¬ (values (codes "xt") pairs ≡ []))
          × IsReading c pairs m
    unfolding parse_url_params
    parse_url_params-IsReading url h = elim (Bool-cases (list_eq (c.scheme url) (codes "magnet"))) [
      | inr b ↦ absurd (cc (rw (b, parse_url_params) at h))
      | inl b ↦ elim (Option-cases (get (codes "xt") (collect_params [] (c.query_pairs url)))) [
        | inl x ↦ absurd (cc (rw (b, x, parse_url_params) at h))
        | inr (xt_values, x) ↦
            let read =
              parse_params-IsReading (c.query_pairs url) xt_values m x
                (rw (b, x, parse_url_params) at h) in
            (list_eq→eq _ _ b, get_found (codes "xt") (c.query_pairs url) xt_values x, read)
      ]
    ]

    -- A text that parses is a URL with the scheme `magnet` and at least one `xt`. The link has every
    -- value of each parameter that may be repeated, in order, and the last one of `dn`, `xl` and `so`;
    -- each of these has parsed; and every other key keeps its values.
    pub parse-IsReading :
        (input : Text)
        → parse c input ≡ ok m
        → (url : Url) × (c.parse_url input ≡ some url)
          × (c.scheme url ≡ codes "magnet")
          × (¬ (values (codes "xt") (c.query_pairs url) ≡ []))
          × IsReading c (c.query_pairs url) m
    unfolding parse
    parse-IsReading input h = elim (Option-cases (c.parse_url input)) [
      | inl u ↦ absurd (cc (rw (u, parse) at h))
      | inr (url, u) ↦
          let (scheme, given, read) = parse_url_params-IsReading url (rw (u, parse) at h) in
          (url, u, scheme, given, read)
    ]
