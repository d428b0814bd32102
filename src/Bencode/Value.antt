-- ===== src/Bencode/Value.antt =====
-- The values of serde_json.
use codecrafters_bittorrent.Prelude.{ℕ, Bool}
use codecrafters_bittorrent.Utils.RawBytes.{Text}

-- `neg_int n` is the number -(n + 1). What a float is does not matter here.
pub data Number : Type 0 where
  pos_int : ℕ → Number
  neg_int : ℕ → Number
  float : Number

-- `fields` are those of a map, in the order in which it is iterated over.
mutual
  pub data Value : Type 0 where
    null : Value
    bool : Bool → Value
    number : Number → Value
    string : Text → Value
    array : Items → Value
    object : Fields → Value

  pub data Items : Type 0 where
    nil : Items
    cons : Value → Items → Items

  pub data Fields : Type 0 where
    end : Fields
    field : Text → Value → Fields → Fields
