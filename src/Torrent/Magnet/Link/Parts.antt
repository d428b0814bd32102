-- ===== src/Torrent/Magnet/Link/Parts.antt =====
-- What the parts of `MagnetLink::parse` of src/torrent/magnet.rs give when they succeed.
use codecrafters_bittorrent.Prelude.{
  ℕ, ◌≡◌, refl, ap, inl, inr, Option-cases, List, [], ◌∷◌, map, Option, none, some, Result, ok, err,
  ◌>>=◌, Result-cases,
}
use mathlib.Core.Option
use codecrafters_bittorrent.Utils.RawBytes.{Text}
use codecrafters_bittorrent.Bencode.Decimal.{parse_usize}
use codecrafters_bittorrent.Torrent.Magnet.{PeerAddress, parse_peer}
use codecrafters_bittorrent.Torrent.Magnet.Select.{parse_select_only}
use codecrafters_bittorrent.Torrent.Magnet.Link.{
  UrlCrate, collect_peers, parse_length, parse_selection, parse_urls,
}

pub ok-value {ℓ κ} : {E : Type ℓ} {A : Type κ} {a b : A} → Path (Result E A) (ok a) (ok b) → a ≡ b
ok-value h = cc

pub >>=-ok {ℓ κ κ'} :
    {E : Type ℓ} {A : Type κ} {B : Type κ'} (r : Result E A) (f : A → Result E B) (b : B)
    → r >>= f ≡ ok b
    → (a : A) × (r ≡ ok a) × (f a ≡ ok b)
>>=-ok (ok a) f b h = (a, refl, h)
>>=-ok (err e) f b h = absurd (cc)

pub collect_peers-ok :
    (vs : List Text) (peers : List PeerAddress)
    → collect_peers vs ≡ ok peers
    → map parse_peer vs ≡ map ok peers
unfolding collect_peers
collect_peers-ok [] [] h = refl
collect_peers-ok [] (p ∷ peers) h = cc
collect_peers-ok (v ∷ vs) peers h = elim (Result-cases (parse_peer v)) [
  | inr (e, r) ↦ absurd (cc (rw (r, collect_peers) at h))
  | inl (peer, r) ↦
      let (rest, s, t) = >>=-ok (collect_peers vs) _ peers (rw (r, collect_peers) at h) in
      let ih = collect_peers-ok vs rest s in
      let whole : peer ∷ rest ≡ peers = ok-value t in rw (r, ih) (ap (map ok) whole)
]

pub parse_length-ok :
    (o : Option Text) (length : Option ℕ)
    → parse_length o ≡ ok length
    → Option.map parse_usize o ≡ Option.map some length
unfolding parse_length
parse_length-ok none length h = ap (Option.map some) (ok-value h)
parse_length-ok (some s) length h = elim (Option-cases (parse_usize s)) [
  | inl r ↦ absurd (cc (rw (r, parse_length) at h))
  | inr (n, r) ↦
      let whole : some n ≡ length = ok-value (rw (r, parse_length) at h) in
      rw r (ap (Option.map some) whole)
]

pub parse_selection-ok :
    (o : Option Text) (selected : Option (List ℕ))
    → parse_selection o ≡ ok selected
    → Option.map parse_select_only o ≡ Option.map ok selected
unfolding parse_selection
parse_selection-ok none selected h = ap (Option.map ok) (ok-value h)
parse_selection-ok (some s) selected h = elim (Result-cases (parse_select_only s)) [
  | inr (e, r) ↦ absurd (cc (rw (r, parse_selection) at h))
  | inl (indices, r) ↦
      let whole : some indices ≡ selected = ok-value (rw (r, parse_selection) at h) in
      rw r (ap (Option.map ok) whole)
]

module _ {Url : Type 0} (c : UrlCrate Url) where
  pub parse_urls-ok :
      (key : Text) (vs : List Text) (urls : List Url)
      → parse_urls c key vs ≡ ok urls
      → map c.parse_url vs ≡ map some urls
  unfolding parse_urls
  parse_urls-ok key [] [] h = refl
  parse_urls-ok key [] (u ∷ urls) h = cc
  parse_urls-ok key (v ∷ vs) urls h = elim (Option-cases (c.parse_url v)) [
    | inl r ↦ absurd (cc (rw (r, parse_urls) at h))
    | inr (url, r) ↦
        let (rest, s, t) = >>=-ok (parse_urls c key vs) _ urls (rw (r, parse_urls) at h) in
        let ih = parse_urls-ok key vs rest s in
        let whole : url ∷ rest ≡ urls = ok-value t in rw (r, ih) (ap (map some) whole)
  ]
