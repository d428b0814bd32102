-- ===== src/Torrent/Magnet/Addresses.antt =====
-- Addresses and topics of src/torrent/magnet.rs against their texts.
use codecrafters_bittorrent.Prelude.{
  ◌⊎◌, inl, inr, ◌↔◌, Bool-cases, Option-cases, ℕ, ◌^◌, ◌-◌, ◌<◌, ◌≡◌, refl, ap, ◌∙◌, false, [],
  ◌∷◌, ◌++◌, All, none, some, ok, ◌==◌, ==_refl, arith,
}
use codecrafters_bittorrent.Utils.RawBytes.{Text}
use codecrafters_bittorrent.Peer.Message.{codes}
use codecrafters_bittorrent.Bencode.Decimal.{
  IsDigit, decimal, decimal-IsDigit, parse_unsigned-decimal,
}
use codecrafters_bittorrent.Torrent.Magnet.{
  get_hash, strip_prefix, parse_exact_topic, rsplit_once, parse_peer,
}

rsplit_once-digits : (s : Text) → All IsDigit s → rsplit_once 58 s ≡ none
unfolding rsplit_once
rsplit_once-digits [] h = refl
rsplit_once-digits (c ∷ s) h =
    let other : (c == 58) ≡ false = ground arith in
    rw (rsplit_once-digits s h.1, other, rsplit_once) refl

rsplit_once-append :
    (host port : Text)
    → rsplit_once 58 port ≡ none
    → rsplit_once 58 (host ++ 58 ∷ port) ≡ some (host, port)
unfolding rsplit_once
rsplit_once-append [] port h = rw (h, rsplit_once) refl
rsplit_once-append (c ∷ host) port h = rw (rsplit_once-append host port h, rsplit_once) refl

-- An address with a port of 16 bits is read whole, whatever its host is, one with colons too.
pub parse_peer-decimal :
    (host : Text) (port : ℕ)
    → port < 2 ^ 16
    → parse_peer (host ++ 58 ∷ decimal port) ≡ ok (record { host = host; port = port })
unfolding parse_peer
parse_peer-decimal host port h =
    rw
      (
        rsplit_once-append host (decimal port)
            (rsplit_once-digits (decimal port) (decimal-IsDigit port)),
        parse_unsigned-decimal (2 ^ 16 - 1) port (omega arith) (omega arith),
        parse_peer,
      )
      refl

strip_prefix-eq : (prefix s rest : Text) → strip_prefix prefix s ≡ some rest → s ≡ prefix ++ rest
unfolding strip_prefix
strip_prefix-eq [] s rest e = cc
strip_prefix-eq (p ∷ prefix) [] rest e = cc
strip_prefix-eq (p ∷ prefix) (c ∷ s) rest e = elim (Bool-cases (p == c)) [
  | inl b ↦
      let same : p ≡ c = ground arith in
      let more : s ≡ prefix ++ rest = strip_prefix-eq prefix s rest (rw b at e) in cc
  | inr b ↦ absurd (cc (rw b at e))
]

strip_prefix-append : (prefix rest : Text) → strip_prefix prefix (prefix ++ rest) ≡ some rest
unfolding strip_prefix
strip_prefix-append [] rest = refl
strip_prefix-append (p ∷ prefix) rest =
    rw (==_refl p, strip_prefix-append prefix rest, strip_prefix) refl

strip_btih-btmh : (h : Text) → strip_prefix (codes "urn:btih:") (codes "urn:btmh:" ++ h) ≡ none
unfolding strip_prefix
strip_btih-btmh h = refl

topic_btih :
    (xt rest : Text)
    → strip_prefix (codes "urn:btih:") xt ≡ some rest
    → get_hash (parse_exact_topic xt) ≡ some rest
unfolding parse_exact_topic get_hash
topic_btih xt rest f = rw (f, parse_exact_topic) refl

topic_btmh :
    (xt rest : Text)
    → strip_prefix (codes "urn:btih:") xt ≡ none
    → strip_prefix (codes "urn:btmh:") xt ≡ some rest
    → get_hash (parse_exact_topic xt) ≡ some rest
unfolding parse_exact_topic get_hash
topic_btmh xt rest f g = rw (f, g, parse_exact_topic) refl

topic_other :
    (xt : Text)
    → strip_prefix (codes "urn:btih:") xt ≡ none
    → strip_prefix (codes "urn:btmh:") xt ≡ none
    → get_hash (parse_exact_topic xt) ≡ none
unfolding parse_exact_topic get_hash
topic_other xt f g = rw (f, g, parse_exact_topic) refl

-- A topic has a hash exactly when it is `urn:btih:` or `urn:btmh:` followed by that hash.
pub get_hash-parse_exact_topic :
    (xt h : Text)
    → (get_hash (parse_exact_topic xt) ≡ some h)
      ↔ ((xt ≡ codes "urn:btih:" ++ h) ⊎ (xt ≡ codes "urn:btmh:" ++ h))
get_hash-parse_exact_topic xt h = (split, whole)
  where
    split :
        get_hash (parse_exact_topic xt) ≡ some h
        → (xt ≡ codes "urn:btih:" ++ h) ⊎ (xt ≡ codes "urn:btmh:" ++ h)
    split e = elim (Option-cases (strip_prefix (codes "urn:btih:") xt)) [
      | inr (rest, f) ↦
          let same : rest ≡ h = cc (topic_btih xt rest f, e) in
          inl
            (strip_prefix-eq (codes "urn:btih:") xt rest f ∙ ap (λ l. codes "urn:btih:" ++ l) same)
      | inl f ↦ elim (Option-cases (strip_prefix (codes "urn:btmh:") xt)) [
        | inr (rest, g) ↦
            let same : rest ≡ h = cc (topic_btmh xt rest f g, e) in
            inr (
              strip_prefix-eq (codes "urn:btmh:") xt rest g ∙ ap (λ l. codes "urn:btmh:" ++ l) same)
        | inl g ↦ absurd (cc (topic_other xt f g, e))
      ]
    ]

    whole :
        (xt ≡ codes "urn:btih:" ++ h) ⊎ (xt ≡ codes "urn:btmh:" ++ h)
        → get_hash (parse_exact_topic xt) ≡ some h
    whole (inl e) =
        topic_btih xt h
          (ap (strip_prefix (codes "urn:btih:")) e ∙ strip_prefix-append (codes "urn:btih:") h)
    whole (inr e) =
        topic_btmh xt h (ap (strip_prefix (codes "urn:btih:")) e ∙ strip_btih-btmh h)
          (ap (strip_prefix (codes "urn:btmh:")) e ∙ strip_prefix-append (codes "urn:btmh:") h)
