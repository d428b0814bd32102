-- ===== src/Peer/Connection/Codec.antt =====
-- Framing and decoding of src/peer/connection.rs: what `read_one_message` makes of the bytes that a
-- peer or `write_one_message` puts on the stream.
use codecrafters_bittorrent.Prelude.{
  ℕ, suc, ◌+◌, ◌-◌, ◌%◌, ◌<◌, ◌≡◌, refl, sym, [], ◌∷◌, ◌++◌, arith, Bytes, length, length-append,
  take-append_exact, drop-append_exact, append_assoc, ok, ◌>>=◌,
}
use codecrafters_bittorrent.Peer.Message.{as_u8}
use codecrafters_bittorrent.Peer.Connection.{
  PeerEvent, PeerCommand, read_exact, word, decode, read_body, read_one_message, write_one_message,
  three_words,
}
use codecrafters_bittorrent.Utils.Words.{
  u32_mod, to_be_bytes, from_be_bytes, from_be_bytes-to_be_bytes,
}

pub read_exact-append :
    (n : ℕ) (xs ys : Bytes) → n ≡ length xs → read_exact n (xs ++ ys) ≡ ok (xs, ys)
unfolding read_exact
read_exact-append n xs ys h =
    rw (take-append_exact n xs ys h, drop-append_exact n xs ys h)
      (ground (arith, length-append xs ys))

pub word-to_be_bytes : (n : ℕ) → n < u32_mod → word (to_be_bytes n) ≡ ok n
unfolding word to_be_bytes
word-to_be_bytes n h = rw (from_be_bytes-to_be_bytes n h)

pub length-to_be_bytes : (n : ℕ) → length (to_be_bytes n) ≡ 4
unfolding to_be_bytes
length-to_be_bytes n = refl

-- A message as the protocol has it: the length of what follows, the id and the payload.
pub frame : ℕ → Bytes → Bytes
frame id payload = to_be_bytes (suc (length payload)) ++ id ∷ payload

read_body-append :
    (id : ℕ) (payload rest : Bytes)
    → read_body (suc (length payload)) (id ∷ (payload ++ rest))
      ≡ (decode id payload >>= λ evt. ok (evt, rest))
unfolding read_body
read_body-append id payload rest =
    rw
      (
        read_exact-append 1 (id ∷ []) (payload ++ rest) refl,
        read_exact-append (suc (length payload) - 1) payload rest (omega arith),
      )
      (ground arith)

-- A framed message of fewer than 2^32 bytes is read whole: its event is what decoding makes of the
-- payload, a panic included, and exactly the bytes behind the frame are left.
pub read_one_message-frame :
    (id : ℕ) (payload rest : Bytes)
    → suc (length payload) < u32_mod
    → read_one_message (frame id payload ++ rest) ≡ (decode id payload >>= λ evt. ok (evt, rest))
unfolding read_one_message frame
read_one_message-frame id payload rest h =
    rw
      (
        append_assoc (to_be_bytes (suc (length payload))) (id ∷ payload) rest,
        read_exact-append 4 (to_be_bytes (suc (length payload))) (id ∷ (payload ++ rest))
            (sym (length-to_be_bytes _)),
        word-to_be_bytes (suc (length payload)) h,
      )
      (read_body-append id payload rest)

-- The event that the peer at the other end reads for a command.
pub event_of : PeerCommand → PeerEvent
event_of PeerCommand.keep_alive = PeerEvent.keep_alive
event_of PeerCommand.interested = PeerEvent.interested
event_of PeerCommand.not_interested = PeerEvent.not_interested
event_of (PeerCommand.request i b n) = PeerEvent.request i b n
event_of (PeerCommand.cancel i b n) = PeerEvent.cancel i b n
event_of (PeerCommand.extended e p) = PeerEvent.extended e p

-- The numbers of the command are in the range of their types, and its length prefix does not wrap.
abbrev pub IsSendable : PeerCommand → Type 0
IsSendable PeerCommand.keep_alive = Unit
IsSendable PeerCommand.interested = Unit
IsSendable PeerCommand.not_interested = Unit
IsSendable (PeerCommand.request i b n) = (i < u32_mod) × (b < u32_mod) × (n < u32_mod)
IsSendable (PeerCommand.cancel i b n) = (i < u32_mod) × (b < u32_mod) × (n < u32_mod)
IsSendable (PeerCommand.extended e p) = length p + 2 < u32_mod

decode-three_words :
    (i b n : ℕ) (event : ℕ → ℕ → ℕ → PeerEvent)
    → i < u32_mod
    → b < u32_mod
    → n < u32_mod
    → three_words event (to_be_bytes i ++ (to_be_bytes b ++ to_be_bytes n)) ≡ ok (event i b n)
unfolding three_words to_be_bytes
decode-three_words i b n event hi hb hn =
    rw (
      from_be_bytes-to_be_bytes i hi,
      from_be_bytes-to_be_bytes b hb,
      from_be_bytes-to_be_bytes n hn,
    )

-- The payload of the commands with three numbers.
abbrev three : ℕ → ℕ → ℕ → Bytes
three i b n = to_be_bytes i ++ (to_be_bytes b ++ to_be_bytes n)

framed :
    (written : Bytes) (id : ℕ) (payload rest : Bytes) (e : PeerEvent)
    → written ≡ frame id payload
    → suc (length payload) < u32_mod
    → decode id payload ≡ ok e
    → read_one_message (written ++ rest) ≡ ok (e, rest)
framed written id payload rest e w h d = rw (w, read_one_message-frame id payload rest h, d)

write-request :
    (i b n : ℕ)
    → (write_one_message (PeerCommand.request i b n) ≡ frame 6 (three i b n))
      × (write_one_message (PeerCommand.cancel i b n) ≡ frame 8 (three i b n))
      × (length (three i b n) ≡ 12)
unfolding write_one_message frame as_u8 to_be_bytes
write-request i b n = (refl, refl, refl)

write-extended :
    (e : ℕ) (p : Bytes)
    → length p + 2 < u32_mod
    → write_one_message (PeerCommand.extended e p) ≡ frame 20 (e ∷ p)
unfolding write_one_message frame as_u8
write-extended e p h =
    let wrapped : (2 + length p % u32_mod) % u32_mod ≡ suc (suc (length p)) = omega arith in
    rw wrapped

-- A command whose numbers fit their types, and whose length prefix does not wrap, is read back as its
-- event from what was written, whatever follows on the stream, which is left.
pub read_one_message-write_one_message :
    (cmd : PeerCommand) (rest : Bytes)
    → IsSendable cmd
    → read_one_message (write_one_message cmd ++ rest) ≡ ok (event_of cmd, rest)
unfolding event_of decode
read_one_message-write_one_message PeerCommand.keep_alive rest h =
    unfold write_one_message read_one_message read_body to_be_bytes read_exact word from_be_bytes in
    ground arith
read_one_message-write_one_message PeerCommand.interested rest h =
    framed _ 2 [] rest _ (unfold write_one_message frame as_u8 in refl) (omega arith) refl
read_one_message-write_one_message PeerCommand.not_interested rest h =
    framed _ 3 [] rest _ (unfold write_one_message frame as_u8 in refl) (omega arith) refl
read_one_message-write_one_message (PeerCommand.request i b n) rest h =
    let (w, _, size) = write-request i b n in
    framed _ 6 (three i b n) rest _ w (omega arith) (decode-three_words i b n _ h.0 h.1 h.2)
read_one_message-write_one_message (PeerCommand.cancel i b n) rest h =
    let (_, w, size) = write-request i b n in
    framed _ 8 (three i b n) rest _ w (omega arith) (decode-three_words i b n _ h.0 h.1 h.2)
read_one_message-write_one_message (PeerCommand.extended e p) rest h =
    framed _ 20 (e ∷ p) rest _ (write-extended e p h) (omega arith) refl
