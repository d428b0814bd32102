-- ===== src/Peer/Connection/Reader.antt =====
-- The reader thread of src/peer/connection.rs and the state that it keeps.
use codecrafters_bittorrent.Prelude.{
  ℕ, zero, suc, ◌+◌, ◌-◌, ◌≤◌, ◌<◌, ◌≡◌, refl, Bool, true, false, List, [], ◌∷◌, ◌++◌, map, arith,
  Bytes, length, length-drop, All, ok, err, ◌==◌, inl, inr, Bool-cases, Result-cases,
}
use codecrafters_bittorrent.Peer.Connection.{
  PeerEvent, PeerCommand, io, panicked, read_exact, word, read_body, read_one_message,
  write_one_message,
}
use codecrafters_bittorrent.Peer.Connection.Codec.{
  event_of, IsSendable, read_one_message-write_one_message,
}

pub record PeerStateSnapshot : Type 0 where
  pub choked : Bool
  pub interested : Bool
  pub peer_interested : Bool
  pub extension_supported : Bool

unfoldable pub update_state : PeerStateSnapshot → PeerEvent → PeerStateSnapshot
update_state s PeerEvent.choke = record s { choked = true }
update_state s PeerEvent.unchoke = record s { choked = false }
update_state s PeerEvent.interested = record s { peer_interested = true }
update_state s PeerEvent.not_interested = record s { peer_interested = false }
update_state s (PeerEvent.handshake_complete peer_id reserved supported) = record s {
  extension_supported = supported;
}
update_state s _ = s

-- The events that the thread sends and the state that it leaves. It makes `rounds` rounds of its loop
-- unless the stream ends it first: then the shutdown flag is set, or the receiver is gone. A panic ends
-- the thread without an event.
unfoldable pub reader : ℕ → PeerStateSnapshot → Bytes → List PeerEvent × PeerStateSnapshot
reader zero s stream = ([], s)
reader (suc rounds) s stream = elim (read_one_message stream) [
  | ok (evt, rest) ↦ let (evts, s') = reader rounds (update_state s evt) rest in (evt ∷ evts, s')
  | err io ↦ (PeerEvent.io_error ∷ [], s)
  | err panicked ↦ ([], s)
]

-- All that a peer puts on the stream for a list of commands.
pub write_all : List PeerCommand → Bytes
write_all [] = []
write_all (c ∷ cs) = write_one_message c ++ write_all cs

pub update_states : PeerStateSnapshot → List PeerEvent → PeerStateSnapshot
update_states s [] = s
update_states s (e ∷ es) = update_states (update_state s e) es

read_one_message-nil : read_one_message [] ≡ err io
unfolding read_one_message read_exact
read_one_message-nil = refl

-- With more rounds than there are commands, whose numbers fit their types and whose length prefixes do
-- not wrap: the reader thread passes on the event of every one that a peer writes, in order, then
-- reports the end of the stream, and leaves the state that all these events give.
pub reader-write_all :
    (rounds : ℕ) (s : PeerStateSnapshot) (cmds : List PeerCommand)
    → All IsSendable cmds
    → length cmds < rounds
    → reader rounds s (write_all cmds)
      ≡ (map event_of cmds ++ PeerEvent.io_error ∷ [], update_states s (map event_of cmds))
unfolding write_all update_states reader
reader-write_all zero s cmds h enough = absurd (omega arith)
reader-write_all (suc rounds) s [] h enough = rw (read_one_message-nil, reader)
reader-write_all (suc rounds) s (c ∷ cs) h enough = rw (
  read_one_message-write_one_message c (write_all cs) h.0,
  reader,
  reader-write_all rounds (update_state s (event_of c)) cs h.1 (omega arith),
)

-- A message takes at least the four bytes of its length off the stream.
read_exact-length :
    (n : ℕ) (s : Bytes) {xs ys : Bytes} → read_exact n s ≡ ok (xs, ys) → length ys + n ≤ length s
unfolding read_exact
read_exact-length n s e = ground (arith, length-drop n s)

read_body-length :
    (size : ℕ) (s : Bytes) (evt : PeerEvent) (rest : Bytes)
    → read_body size s ≡ ok (evt, rest)
    → length rest ≤ length s
unfolding read_body
read_body-length size s evt rest e = elim (Bool-cases (size == 0)) [
  | inl none_left ↦ ground arith
  | inr some_left ↦ elim (Result-cases (read_exact 1 s)) [
    | inl ((ids, s₁), e₁) ↦ elim (Result-cases (read_exact (size - 1) s₁)) [
      | inl ((payload, s₂), e₂) ↦
          ground (arith, read_exact-length 1 s e₁, read_exact-length (size - 1) s₁ e₂)
      | inr (x, e₂) ↦ ground arith
    ]
    | inr (x, e₁) ↦ ground arith
  ]
]

read_one_message-length :
    (s : Bytes) (evt : PeerEvent) (rest : Bytes)
    → read_one_message s ≡ ok (evt, rest)
    → length rest + 4 ≤ length s
unfolding read_one_message
read_one_message-length s evt rest e = elim (Result-cases (read_exact 4 s)) [
  | inl ((buf, s₁), e₁) ↦ elim (Result-cases (word buf)) [
    | inl (size, e₂) ↦ ground (arith, read_exact-length 4 s e₁, read_body-length size s₁ evt rest)
    | inr (x, e₂) ↦ ground arith
  ]
  | inr (x, e₁) ↦ ground arith
]

-- On a stream with fewer bytes than the reader thread has rounds, further rounds change nothing: the
-- thread has ended by itself.
pub reader_ends :
    (rounds more : ℕ) (s : PeerStateSnapshot) (stream : Bytes)
    → length stream < rounds
    → reader (rounds + more) s stream ≡ reader rounds s stream
unfolding reader
reader_ends zero more s stream h = absurd (omega arith)
reader_ends (suc rounds) more s stream h =
    let next : suc rounds + more ≡ suc (rounds + more) = omega arith in
    rw next (elim (Result-cases (read_one_message stream)) [
      | inl ((evt, rest), e) ↦ rw (
        e,
        reader,
        reader_ends rounds more (update_state s evt) rest
            (omega (arith, read_one_message-length stream evt rest e)),
      )
      | inr (io, e) ↦ rw (e, reader)
      | inr (panicked, e) ↦ rw (e, reader)
    ])
