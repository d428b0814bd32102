-- ===== src/Peer/Extension/Negotiated.antt =====
-- The extension ids of a handshake of src/peer/extension.rs, sent and received.
use codecrafters_bittorrent.Prelude.{
  ℕ, ◌≡◌, refl, sym, ap, ◌∙◌, Bool, true, false, List, [], ◌∷◌, Bytes, Option, none, some, list_eq,
  list_eq→eq, if◌then◌else◌, Bool-cases, inl, inr, arith,
}
use codecrafters_bittorrent.Utils.RawBytes.{Text}
use codecrafters_bittorrent.Bencode.Encode.{text_ltb}
use codecrafters_bittorrent.Peer.Extension.{
  ExtensionHandshakeSerde, ExtensionHandshakePayload, SerdeBencode, insert, collect, encode, decode,
  find_id, get_extension_id,
}

-- The id of the last entry with the name, or else of the map.
abbrev pub last_id : Text → Option ℕ → List (Text × ℕ) → Option ℕ
last_id name default [] = default
last_id name default ((n, i) ∷ entries) =
    last_id name (if list_eq n name then some i else default) entries

text_ltb_irrefl : (xs : Text) → text_ltb xs xs ≡ false
unfolding text_ltb
text_ltb_irrefl [] = refl
text_ltb_irrefl (x ∷ xs) = ground (arith, text_ltb_irrefl xs)

find_id-insert :
    (name key : Text) (id : ℕ) (entries : List (Text × ℕ))
    → find_id name (insert key id entries)
      ≡ (if list_eq key name then some id else find_id name entries)
unfolding insert
find_id-insert name key id [] = refl
find_id-insert name key id ((n, i) ∷ entries) =
    let rest = find_id-insert name key id entries in
    elim (Bool-cases (text_ltb n key)) [
      | inl before ↦ elim (Bool-cases (list_eq n name)) [
        | inr other ↦ rw (before, other) rest
        | inl this ↦ elim (Bool-cases (list_eq key name)) [
          | inr differs ↦ rw (before, this, differs) refl
          | inl equal ↦
              let same : n ≡ key = list_eq→eq n name this ∙ sym (list_eq→eq key name equal) in
              absurd (cc (text_ltb_irrefl key, ap (λ m. text_ltb m key) same, before))
        ]
      ]
      | inr after ↦ elim (Bool-cases (list_eq n key)) [
        | inr new_key ↦ rw (after, new_key) refl
        | inl replaced ↦
            rw (after, replaced, list_eq→eq n key replaced) (by_name (list_eq key name))
      ]
    ]
  where
    by_name :
        (b : Bool)
        → (if b then some id else find_id name entries)
          ≡ (if b then some id else if b then some i else find_id name entries)
    by_name true = refl
    by_name false = refl

find_id-collect :
    (name : Text) (map entries : List (Text × ℕ))
    → find_id name (collect map entries) ≡ last_id name (find_id name map) entries
unfolding collect
find_id-collect name map [] = refl
find_id-collect name map ((n, i) ∷ entries) =
    find_id-collect name (insert n i map) entries
    ∙ ap (λ o. last_id name o entries) (find_id-insert name n i map)

-- Where the decoder of serde_bencode undoes its encoder: what a peer decodes from an encoded extension
-- handshake has the same metadata size and client name, and finds under each name the id of the last
-- extension of that name.
pub decode-encode :
    (c : SerdeBencode) (p : ExtensionHandshakePayload) (bytes : Bytes)
    → ((s : ExtensionHandshakeSerde) (bs : Bytes)
        → c.serialize s ≡ some bs
        → c.deserialize bs ≡ some s)
    → encode c p ≡ some bytes
    → (q : ExtensionHandshakePayload) × (decode c bytes ≡ some q)
      × (q.metadata_size ≡ p.metadata_size)
      × (q.client_name ≡ p.client_name)
      × ((name : Text) → get_extension_id q name ≡ last_id name none p.extensions)
unfolding encode decode get_extension_id
decode-encode c p bytes undoes e = (
  record {
    extensions = collect [] p.extensions;
    metadata_size = p.metadata_size;
    client_name = p.client_name;
  },
  rw (undoes _ bytes e, decode) refl,
  refl,
  refl,
  λ name. find_id-collect name [] p.extensions,
)
