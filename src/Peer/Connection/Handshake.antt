-- ===== src/Peer/Connection/Handshake.antt =====
-- `PeerConnection::new` of src/peer/connection.rs: the request goes out, the answer is read field by
-- field and compared with the request.
use codecrafters_bittorrent.Prelude.{
  ℕ, ◌≡◌, refl, ap, sym, ◌∙◌, ◌↔◌, Bool, true, false, not, [], ◌∷◌, ◌++◌, arith, Bytes, length,
  length-take, take-append-drop, Option, some, Result, ok, err, ◌>>=◌, if◌then◌else◌, list_eq,
  list_eq_refl, list_eq→eq, inl, inr, Bool-cases, Result-cases,
}
use codecrafters_bittorrent.Utils.RawBytes.{to_raw_string, to_raw_string_lem}
use codecrafters_bittorrent.Peer.Message.{
  HandshakeRequest, HandshakeError, as_bytes, has_extension_support,
}
use codecrafters_bittorrent.Peer.Connection.{PeerEvent, ReadError, read_exact, first_byte}
use codecrafters_bittorrent.Peer.Connection.Codec.{read_exact-append}
use codecrafters_bittorrent.Peer.Connection.Reader.{PeerStateSnapshot}

-- What the network does during the call: whether the connection is made and configured, whether the
-- request can be written, whether the stream can be cloned, and the bytes that the peer sends.
pub record Transport : Type 0 where
  pub connects : Bool
  pub writes : Bool
  pub clones : Bool
  pub incoming : Bytes

pub data ConnectError : Type 0 where
  not_connected not_written not_cloned pstr_mismatch info_hash_mismatch : ConnectError
  bad_request : HandshakeError → ConnectError
  read_failed : ReadError → ConnectError

pub record PeerConnection : Type 0 where
  pub peer_id : Option Bytes
  pub reserved : Bytes
  pub state : PeerStateSnapshot
  -- the first event of the channel
  pub first : PeerEvent
  -- what the reader thread will read
  pub stream : Bytes

abbrev ensure : Bool → ConnectError → Result ConnectError (Unit {0})
ensure true e = ok tt
ensure false e = err e

abbrev lift_read : Result ReadError (Bytes × Bytes) → Result ConnectError (Bytes × Bytes)
lift_read (ok a) = ok a
lift_read (err e) = err (read_failed e)

abbrev lift_request : Result HandshakeError Bytes → Result ConnectError Bytes
lift_request (ok a) = ok a
lift_request (err e) = err (bad_request e)

-- pstr, reserved bytes, info hash and peer id, and what is left on the stream.
pub record Answer : Type 0 where
  pub pstr : Bytes
  pub reserved : Bytes
  pub info_hash : Bytes
  pub peer_id : Bytes
  pub stream : Bytes

unfoldable pub read_answer : Bytes → Result ConnectError Answer
read_answer s = do
  (pstrlen_buf, s₁) ← lift_read (read_exact 1 s)
  (pstr_buf, s₂) ← lift_read (read_exact (first_byte pstrlen_buf) s₁)
  (reserved, s₃) ← lift_read (read_exact 8 s₂)
  (info_hash, s₄) ← lift_read (read_exact 20 s₃)
  (peer_id, s₅) ← lift_read (read_exact 20 s₄)
  ok (record {
    pstr = pstr_buf;
    reserved = reserved;
    info_hash = info_hash;
    peer_id = peer_id;
    stream = s₅;
  })

abbrev pub established : Answer → PeerConnection
established a =
    let supports_ext = has_extension_support a.reserved in
    record {
      peer_id = some a.peer_id;
      reserved = a.reserved;
      state = record {
        choked = true;
        interested = false;
        peer_interested = false;
        extension_supported = supports_ext;
      };
      first = PeerEvent.handshake_complete (some a.peer_id) a.reserved supports_ext;
      stream = a.stream;
    }

unfoldable pub check_answer : Bool → HandshakeRequest → Answer → Result ConnectError PeerConnection
check_answer clones req a =
    if not (list_eq (to_raw_string a.pstr) req.pstr)
    then err pstr_mismatch
    else if not (list_eq a.info_hash req.info_hash)
    then err info_hash_mismatch
    else if clones
    then ok (established a)
    else err not_cloned

unfoldable pub connect : Transport → HandshakeRequest → Result ConnectError PeerConnection
connect t req =
    if t.connects
    then (do
      payload ← lift_request (as_bytes req)
      written ← ensure t.writes not_written
      a ← read_answer t.incoming
      check_answer t.clones req a)
    else err not_connected

-- The bytes of a handshake, as the protocol has them.
abbrev pub layout : Answer → Bytes
layout a = length a.pstr ∷ (a.pstr ++ (a.reserved ++ (a.info_hash ++ (a.peer_id ++ a.stream))))

-- An answer that is laid out as the protocol says is read field by field.
read_answer-layout :
    (a : Answer)
    → length a.reserved ≡ 8
    → length a.info_hash ≡ 20
    → length a.peer_id ≡ 20
    → read_answer (layout a) ≡ ok a
unfolding read_answer
read_answer-layout a h₁ h₂ h₃ = rw (
  read_exact-append 1 (length a.pstr ∷ []) _ refl,
  read_exact-append (length a.pstr) a.pstr _ refl,
  read_exact-append 8 a.reserved _ (sym h₁),
  read_exact-append 20 a.info_hash _ (sym h₂),
  read_exact-append 20 a.peer_id a.stream (sym h₃),
)

read_exact-eq :
    (n : ℕ) (s xs ys : Bytes) → read_exact n s ≡ ok (xs, ys) → (s ≡ xs ++ ys) × (length xs ≡ n)
unfolding read_exact
read_exact-eq n s xs ys e = ground (arith, take-append-drop n s, length-take n s)

-- What follows from a read that succeeded on the way to a result.
by_read :
    {A P : Type 0} (n : ℕ) (s : Bytes) (f : Bytes × Bytes → Result ConnectError A) {b : A}
    → (lift_read (read_exact n s) >>= f) ≡ ok b
    → ((xs ys : Bytes) → s ≡ xs ++ ys → length xs ≡ n → f (xs, ys) ≡ ok b → P)
    → P
by_read n s f e next = elim (Result-cases (read_exact n s)) [
  | inl ((xs, ys), r) ↦
      let (split, size) = read_exact-eq n s xs ys r in next xs ys split size (rw r at e)
  | inr (x, r) ↦ absurd (cc (rw r at e))
]

singleton-eq : (xs : Bytes) → length xs ≡ 1 → xs ≡ first_byte xs ∷ []
unfolding first_byte
singleton-eq [] h = absurd (omega arith)
singleton-eq (x ∷ []) h = refl
singleton-eq (x ∷ y ∷ xs) h = absurd (omega arith)

read_answer-eq :
    (s : Bytes) (a : Answer)
    → read_answer s ≡ ok a
    → (s ≡ layout a) × (length a.reserved ≡ 8) × (length a.info_hash ≡ 20) × (length a.peer_id ≡ 20)
unfolding read_answer
read_answer-eq s a e = by_read 1 s _ e λ buf s₁ p₁ l₁ e₁.
    by_read (first_byte buf) s₁ _ e₁ λ pstr s₂ p₂ l₂ e₂. by_read 8 s₂ _ e₂ λ reserved s₃ p₃ l₃ e₃.
      by_read 20 s₃ _ e₃ λ info_hash s₄ p₄ l₄ e₄.
        by_read 20 s₄ _ e₄ λ peer_id s₅ p₅ l₅ e₅. ground (arith, singleton-eq buf l₁)

-- What has to be the case for a connection to be made: the network does its part, the request can be
-- sent, and the peer answers with the same protocol name and info hash.
pub record Agrees (t : Transport) (req : HandshakeRequest) (a : Answer) : Type 0 where
  pub connects : t.connects ≡ true
  pub writes : t.writes ≡ true
  pub clones : t.clones ≡ true
  pub sent : (payload : Bytes) × (as_bytes req ≡ ok payload)
  pub answered : t.incoming ≡ layout a
  pub reserved_size : length a.reserved ≡ 8
  pub info_hash_size : length a.info_hash ≡ 20
  pub peer_id_size : length a.peer_id ≡ 20
  pub same_pstr : a.pstr ≡ req.pstr
  pub same_info_hash : a.info_hash ≡ req.info_hash

check_answer-ok :
    (clones : Bool) (req : HandshakeRequest) (a : Answer)
    → clones ≡ true
    → a.pstr ≡ req.pstr
    → a.info_hash ≡ req.info_hash
    → check_answer clones req a ≡ ok (established a)
unfolding check_answer
check_answer-ok clones req a h p i =
    ground (arith, to_raw_string_lem a.pstr, list_eq_refl req.pstr, list_eq_refl req.info_hash)

check_answer-eq :
    (clones : Bool) (req : HandshakeRequest) (a : Answer) (c : PeerConnection)
    → check_answer clones req a ≡ ok c
    → (clones ≡ true) × (a.pstr ≡ req.pstr) × (a.info_hash ≡ req.info_hash) × (c ≡ established a)
unfolding check_answer
check_answer-eq clones req a c e = ground (
  arith,
  to_raw_string_lem a.pstr,
  list_eq→eq (to_raw_string a.pstr) req.pstr,
  list_eq→eq a.info_hash req.info_hash,
)

connect-ok :
    (t : Transport) (req : HandshakeRequest) (a : Answer)
    → Agrees t req a
    → connect t req ≡ ok (established a)
unfolding connect
connect-ok t req a h =
    rw
      (
        h.connects,
        h.writes,
        h.sent.1,
        h.answered,
        read_answer-layout a h.reserved_size h.info_hash_size h.peer_id_size,
      )
      (check_answer-ok t.clones req a h.clones h.same_pstr h.same_info_hash)

connect-Agrees :
    (t : Transport) (req : HandshakeRequest) (c : PeerConnection)
    → connect t req ≡ ok c
    → (a : Answer) × Agrees t req a × (c ≡ established a)
unfolding connect
connect-Agrees t req c e = elim (Bool-cases t.connects) [
  | inr down ↦ absurd (cc (rw down at e))
  | inl up ↦ elim (Result-cases (as_bytes req)) [
    | inr (x, bad) ↦ absurd (cc (rw (up, bad) at e))
    | inl (payload, sent) ↦ elim (Bool-cases t.writes) [
      | inr stuck ↦ absurd (cc (rw (up, sent, stuck) at e))
      | inl written ↦ elim (Result-cases (read_answer t.incoming)) [
        | inr (x, bad) ↦ absurd (cc (rw (up, sent, written, bad) at e))
        | inl (a, got) ↦
            let checked = check_answer-eq t.clones req a c (rw (up, sent, written, got) at e) in
            let (answered, h₁, h₂, h₃) = read_answer-eq t.incoming a got in
            (
              a,
              record {
                connects = up;
                writes = written;
                clones = checked.0;
                sent = (payload, sent);
                answered = answered;
                reserved_size = h₁;
                info_hash_size = h₂;
                peer_id_size = h₃;
                same_pstr = checked.1;
                same_info_hash = checked.2;
              },
              checked.3,
            )
      ]
    ]
  ]
]

-- A connection is made exactly when the network does its part, the request can be sent and the peer
-- answers, in the protocol's layout, with the request's protocol name and info hash; it carries the
-- peer's id and reserved bytes, and the reader starts right behind the answer.
pub connect_iff :
    (t : Transport) (req : HandshakeRequest) (c : PeerConnection)
    → (connect t req ≡ ok c) ↔ ((a : Answer) × Agrees t req a × (c ≡ established a))
connect_iff t req c =
    (connect-Agrees t req c, λ (a, h, same). connect-ok t req a h ∙ ap ok (sym same))
