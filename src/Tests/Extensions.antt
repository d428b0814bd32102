-- ===== src/Tests/Extensions.antt =====
-- Runs of src/peer/extension.rs.
use codecrafters_bittorrent.Prelude.{ℕ, ◌≡◌, refl, ap, List, [], ◌∷◌, Bytes, Option, none, some}
use codecrafters_bittorrent.Utils.RawBytes.{Text}
use codecrafters_bittorrent.Bencode.Encode.{text_ltb}
use codecrafters_bittorrent.Peer.Extension.{
  ExtensionHandshakePayload, ExtensionHandshakeSerde, SerdeBencode, encode, decode, insert, collect,
  get_extension_id,
}
use codecrafters_bittorrent.Peer.Extension.Negotiated.{last_id, decode-encode}

-- A format for a single extension and nothing else.
abbrev write_one : List (Text × ℕ) → Option ℕ → Option Text → Option Bytes
write_one ((name, id) ∷ []) none none = some (id ∷ name)
write_one _ _ _ = none

abbrev read_one : Bytes → Option ExtensionHandshakeSerde
read_one [] = none
read_one (id ∷ name) =
    some (record { extensions = (name, id) ∷ []; metadata_size = none; client_name = none })

abbrev format : SerdeBencode
format = record {
  serialize = λ s. write_one s.extensions s.metadata_size s.client_name;
  deserialize = read_one;
}

read_one-write_one :
    (extensions : List (Text × ℕ)) (size : Option ℕ) (name : Option Text) (bytes : Bytes)
    → write_one extensions size name ≡ some bytes
    → read_one bytes
      ≡ some (record { extensions = extensions; metadata_size = size; client_name = name })
read_one-write_one ((n, i) ∷ []) none none bytes e =
    let same : bytes ≡ i ∷ n = cc in ap read_one same
read_one-write_one ((n, i) ∷ []) (some size) name bytes e = cc
read_one-write_one ((n, i) ∷ []) none (some name) bytes e = cc
read_one-write_one [] size name bytes e = cc
read_one-write_one (x ∷ y ∷ extensions) size name bytes e = cc

-- The name `ut`, twice.
abbrev repeated : ExtensionHandshakePayload
repeated = record {
  extensions = (117 ∷ 116 ∷ [], 1) ∷ (117 ∷ 116 ∷ [], 3) ∷ [];
  metadata_size = none;
  client_name = none;
}

encode-repeated : encode format repeated ≡ some (3 ∷ 117 ∷ 116 ∷ [])
unfolding encode collect insert text_ltb
encode-repeated = refl

decode-encode_example :
    (q : ExtensionHandshakePayload) × (decode format (3 ∷ 117 ∷ 116 ∷ []) ≡ some q)
    × (q.metadata_size ≡ none)
    × (q.client_name ≡ none)
    × ((name : Text) → get_extension_id q name ≡ last_id name none repeated.extensions)
decode-encode_example =
    decode-encode format repeated (3 ∷ 117 ∷ 116 ∷ [])
      (λ s bytes. read_one-write_one s.extensions s.metadata_size s.client_name bytes)
      encode-repeated
