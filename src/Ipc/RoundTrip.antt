-- ===== src/Ipc/RoundTrip.antt =====
-- What one peer writes another reads: `Message::serialize` against `Message::new` and the loops.
use native.Mathlib.Nat.{mod-eq_of_lt}
use rust_torrent_client.Prelude.{
  ℕ, suc, ◌+◌, ◌<◌, ◌≡◌, refl, ap, List, [], ◌∷◌, ◌++◌, append_assoc, append-nil, ◌∙◌, Bytes,
  AreBytes, u32_mod, some, length, ok, err, or_panic, ◌>>=◌, arith, All,
}
use rust_torrent_client.Stream.{unexpected_eof, read_n, read_n-append}
use rust_torrent_client.Ipc.{
  Message, keep_alive, choke, un_choke, interested, not_interested, have, bitfield, request, piece,
  cancel, port, new, new_triple, u32_at, payload, serialize, bytes_to_u32, u32_to_bytes,
}
use rust_torrent_client.Ipc.Words.{length-u32_to_bytes, bytes_to_u32-u32_to_bytes, word}
use rust_torrent_client.Ipc.Frames.{receive, read_message, conn_read_loop, conn_write_loop}

-- The fields of a message are `u32`s, and its frame is shorter than 2 ^ 32 bytes. A piece is left
-- out.
abbrev pub Fits : Message → Type 0
Fits (have index) = index < u32_mod
Fits (bitfield bytes) = length bytes + 1 < u32_mod
Fits (request index offset length) = (index < u32_mod) × (offset < u32_mod) × (length < u32_mod)
Fits (piece index offset block) = ⊥
Fits (cancel index offset length) = (index < u32_mod) × (offset < u32_mod) × (length < u32_mod)
Fits _ = Unit

u32_read_back : (n : ℕ) → n < u32_mod → bytes_to_u32 (u32_to_bytes n) ≡ some n
u32_read_back n h = rw append-nil at (bytes_to_u32-u32_to_bytes n [] h)

-- A frame: its length as four bytes, then an id and a body.
read_message-frame :
    (id : ℕ) (body rest : Bytes)
    → length body + 1 < u32_mod
    → read_message (u32_to_bytes (suc (length body)) ++ (id ∷ body ++ rest))
      ≡ (do m ← or_panic (new id body); ok (m, rest))
unfolding read_message
read_message-frame id body rest fits =
    rw
      (read_n-append (u32_to_bytes (suc (length body))) (id ∷ body ++ rest) 4
        (length-u32_to_bytes (suc (length body))))
      (rw (u32_read_back (suc (length body)) (omega arith))
        (rw (read_n-append (id ∷ body) rest (suc (length body)) refl) (ground arith)))

-- A message whose payload is an id and a body that `Message::new` reads back is received.
pub read_message-payload :
    (m sent : Message) (id : ℕ) (body rest : Bytes)
    → payload sent ≡ id ∷ body
    → length body + 1 < u32_mod
    → new id body ≡ some m
    → read_message (serialize sent ++ rest) ≡ ok (m, rest)
unfolding serialize
read_message-payload m sent id body rest is fits parsed = rw is (
    rw (mod-eq_of_lt {n = suc (length body)} {m = u32_mod} (omega arith))
      (rw append_assoc (read_message-frame id body rest fits ∙ rw parsed)))

new_triple_lem :
    (index offset len : ℕ)
    → index < u32_mod
    → offset < u32_mod
    → len < u32_mod
    → (new 6 (u32_to_bytes index ++ (u32_to_bytes offset ++ u32_to_bytes len))
        ≡ some (request index offset len))
      × (new 8 (u32_to_bytes index ++ (u32_to_bytes offset ++ u32_to_bytes len))
          ≡ some (cancel index offset len))
unfolding new new_triple u32_at u32_to_bytes bytes_to_u32
new_triple_lem index offset len h k l = (ground arith, ground arith)

triple_size :
    (index offset len : ℕ)
    → length (u32_to_bytes index ++ (u32_to_bytes offset ++ u32_to_bytes len)) ≡ 12
unfolding u32_to_bytes
triple_size index offset len = refl

-- Every message but a piece, if its fields are words and its frame is shorter than 2 ^ 32 bytes,
-- is read back as it was written, and exactly its own bytes are taken from the stream.
pub read_message-serialize :
    (m : Message) (rest : Bytes) → Fits m → read_message (serialize m ++ rest) ≡ ok (m, rest)
unfolding new payload
read_message-serialize keep_alive rest fits =
    unfold serialize read_message read_n u32_to_bytes bytes_to_u32 in ground arith
read_message-serialize choke rest fits =
    read_message-payload choke choke 0 [] rest refl (omega arith) refl
read_message-serialize un_choke rest fits =
    read_message-payload un_choke un_choke 1 [] rest refl (omega arith) refl
read_message-serialize interested rest fits =
    read_message-payload interested interested 2 [] rest refl (omega arith) refl
read_message-serialize not_interested rest fits =
    read_message-payload not_interested not_interested 3 [] rest refl (omega arith) refl
read_message-serialize (have index) rest fits =
    read_message-payload (have index) (have index) 4 (u32_to_bytes index) rest refl
      (omega (arith, length-u32_to_bytes index)) (rw (u32_read_back index fits))
read_message-serialize (bitfield bytes) rest fits =
    read_message-payload (bitfield bytes) (bitfield bytes) 5 bytes rest refl fits refl
read_message-serialize (request index offset len) rest fits =
    read_message-payload (request index offset len) (request index offset len) 6 _ rest refl
      (omega (arith, triple_size index offset len))
      (new_triple_lem index offset len fits.0 fits.1 fits.2).0
read_message-serialize (piece index offset block) rest fits = absurd fits
read_message-serialize (cancel index offset len) rest fits =
    read_message-payload (cancel index offset len) (cancel index offset len) 8 _ rest refl
      (omega (arith, triple_size index offset len))
      (new_triple_lem index offset len fits.0 fits.1 fits.2).1
read_message-serialize port rest fits =
    read_message-payload port port 9 [] rest refl (omega arith) refl

-- A piece is written under the id of a request: if its fields are words, its block has four bytes
-- or more and its frame is shorter than 2 ^ 32 bytes, it is read as a request whose length is the
-- first four bytes of the block.
pub read_message-piece :
    (index offset a b c d : ℕ) (block rest : Bytes)
    → index < u32_mod
    → offset < u32_mod
    → AreBytes (a ∷ b ∷ c ∷ d ∷ [])
    → length block + 13 < u32_mod
    → read_message (serialize (piece index offset (a ∷ b ∷ c ∷ d ∷ block)) ++ rest)
      ≡ ok (request index offset (word a b c d), rest)
unfolding payload
read_message-piece index offset a b c d block rest hi ho bytes fits =
    read_message-payload (request index offset (word a b c d))
      (piece index offset (a ∷ b ∷ c ∷ d ∷ block)) 6 _ rest refl
      (unfold u32_to_bytes in omega arith)
      (unfold new new_triple u32_at u32_to_bytes bytes_to_u32 in ground arith)

conn_read_loop-step :
    (fuel : ℕ) (stream : Bytes) {m : Message} {rest : Bytes}
    → read_message stream ≡ ok (m, rest)
    → conn_read_loop (suc fuel) stream ≡ receive m (conn_read_loop fuel rest)
unfolding conn_read_loop
conn_read_loop-step fuel stream e = rw (e, conn_read_loop)

-- If no message is a piece, and their fields are words and their frames shorter than 2 ^ 32 bytes,
-- then the read loop delivers the messages that the write loop was given, in their order, and then
-- meets the end of the stream.
pub conn_read_loop-conn_write_loop :
    (messages : List Message)
    → All Fits messages
    → conn_read_loop (suc (length messages)) (conn_write_loop messages).0
      ≡ record { received = messages; ended = err unexpected_eof }
unfolding conn_write_loop
conn_read_loop-conn_write_loop [] fits = unfold conn_read_loop read_message read_n in refl
conn_read_loop-conn_write_loop (m ∷ messages) fits =
    conn_read_loop-step (suc (length messages)) _
      (read_message-serialize m (conn_write_loop messages).0 fits.0)
    ∙ ap (receive m) (conn_read_loop-conn_write_loop messages fits.1)
