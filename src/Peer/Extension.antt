-- ===== src/Peer/Extension.antt =====
-- src/peer/extension.rs: the payload of an extension handshake. Its bencode is serde_bencode's, a
-- parameter; a map of the standard library is the list of its entries, in the order of their keys.
pub mod Negotiated
use codecrafters_bittorrent.Prelude.{
  ℕ, true, false, List, [], ◌∷◌, Bytes, Option, none, some, list_eq, if◌then◌else◌,
}
use codecrafters_bittorrent.Utils.RawBytes.{Text}
use codecrafters_bittorrent.Bencode.Encode.{text_ltb}

pub record ExtensionHandshakePayload : Type 0 where
  pub extensions : List (Text × ℕ)
  pub metadata_size : Option ℕ
  pub client_name : Option Text

pub record ExtensionMessage : Type 0 where
  pub msg_id : ℕ
  pub payload : Bytes

-- The entries of `extensions` are those of a `BTreeMap`.
pub record ExtensionHandshakeSerde : Type 0 where
  pub extensions : List (Text × ℕ)
  pub metadata_size : Option ℕ
  pub client_name : Option Text

pub record SerdeBencode : Type 0 where
  pub serialize : ExtensionHandshakeSerde → Option Bytes
  pub deserialize : Bytes → Option ExtensionHandshakeSerde

unfoldable pub new : List (Text × ℕ) → ExtensionHandshakePayload
new extensions = record { extensions = extensions; metadata_size = none; client_name = none }

-- `BTreeMap::insert`: the keys stay in order, and the value of a key that is there is replaced.
unfoldable pub insert : Text → ℕ → List (Text × ℕ) → List (Text × ℕ)
insert name id [] = (name, id) ∷ []
insert name id ((n, i) ∷ entries) =
    let rest = insert name id entries in
    if text_ltb n name
    then (n, i) ∷ rest
    else if list_eq n name
    then (name, id) ∷ entries
    else (name, id) ∷ (n, i) ∷ entries

-- `collect` into a map: the entries are inserted in turn.
unfoldable pub collect : List (Text × ℕ) → List (Text × ℕ) → List (Text × ℕ)
unfolding insert
collect map [] = map
collect map ((name, id) ∷ extensions) = collect (insert name id map) extensions

module _ (c : SerdeBencode) where
  -- `none` is the error of the encoder.
  unfoldable pub encode : ExtensionHandshakePayload → Option Bytes
  unfolding collect
  encode p = c.serialize (record {
    extensions = collect [] p.extensions;
    metadata_size = p.metadata_size;
    client_name = p.client_name;
  })

  -- `none` is the error of the decoder.
  unfoldable pub decode : Bytes → Option ExtensionHandshakePayload
  decode bytes = elim (c.deserialize bytes) [
    | none ↦ none
    | some payload ↦ some (record {
      extensions = payload.extensions;
      metadata_size = payload.metadata_size;
      client_name = payload.client_name;
    })
  ]

abbrev pub find_id : Text → List (Text × ℕ) → Option ℕ
find_id extension_name [] = none
find_id extension_name ((name, ext_id) ∷ extensions) =
    let rest = find_id extension_name extensions in
    if list_eq name extension_name then some ext_id else rest

unfoldable pub get_extension_id : ExtensionHandshakePayload → Text → Option ℕ
get_extension_id p extension_name = find_id extension_name p.extensions

unfoldable pub to_bytes : ExtensionMessage → Bytes
to_bytes m = m.msg_id ∷ m.payload
