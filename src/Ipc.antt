-- ===== src/Ipc.antt =====
-- bt/src/base/ipc.rs: the messages of the peer protocol and their bytes.
pub mod Words
pub mod Frames
pub mod Panics
pub mod RoundTrip
unfoldable pub use Words.{bytes_to_u32, u32_to_bytes}
use rust_torrent_client.Prelude.{
  ℕ, ◌%◌, List, [], ◌∷◌, ◌++◌, Bytes, u32_mod, Option, none, some, Bool, true, false, ◌==◌,
  if◌then◌else◌, length, slice,
}

pub data Message : Type 0 where
  keep_alive choke un_choke interested not_interested : Message
  have : ℕ → Message
  bitfield : Bytes → Message
  request : ℕ → ℕ → ℕ → Message
  piece : ℕ → ℕ → Bytes → Message
  cancel : ℕ → ℕ → ℕ → Message
  port : Message

-- What the tasks of the client send to a peer's task.
pub data Ipc : Type 0 where
  block_completed : ℕ → ℕ → Ipc
  piece_completed : ℕ → Ipc
  download_completed : Ipc
  message : Message → Ipc
  block_uploaded : Ipc

-- The panics of `Message::new` are `none`.
infixl 5 ◌>>=◌
abbrev pub ◌>>=◌ : {A B : Type 0} → Option A → (A → Option B) → Option B
none >>= f = none
some a >>= f = f a

-- `bytes_to_u32(&body[lo..hi])`
unfoldable pub u32_at : Bytes → ℕ → ℕ → Option ℕ
u32_at body lo hi = do part ← slice body lo hi; bytes_to_u32 part

-- The bodies of the arms for the ids 6, 7 and 8 of `Message::new`.
unfoldable pub new_triple : (ℕ → ℕ → ℕ → Message) → Bytes → Option Message
new_triple make body = do
  index ← u32_at body 0 4
  offset ← u32_at body 4 8
  length ← u32_at body 8 12
  some (make index offset length)

unfoldable pub new_piece : Bytes → Option Message
new_piece body = do
  index ← u32_at body 0 4
  offset ← u32_at body 4 8
  block ← slice body 8 (length body)
  some (piece index offset block)

-- `Message::new`
unfoldable pub new : ℕ → Bytes → Option Message
new id body =
    if id == 0
    then some choke
    else if id == 1
    then some un_choke
    else if id == 2
    then some interested
    else if id == 3
    then some not_interested
    else if id == 4
    then (do index ← bytes_to_u32 body; some (have index))
    else if id == 5
    then some (bitfield body)
    else if id == 6
    then new_triple request body
    else if id == 7
    then new_piece body
    else if id == 8
    then new_triple cancel body
    else if id == 9
    then some port
    else none

-- The payload that `Message::serialize` builds. It writes the id 6 for a piece.
unfoldable pub payload : Message → Bytes
payload keep_alive = []
payload choke = 0 ∷ []
payload un_choke = 1 ∷ []
payload interested = 2 ∷ []
payload not_interested = 3 ∷ []
payload (have index) = 4 ∷ u32_to_bytes index
payload (bitfield bytes) = 5 ∷ bytes
payload (request index offset length) =
    6 ∷ (u32_to_bytes index ++ (u32_to_bytes offset ++ u32_to_bytes length))
payload (piece index offset block) = 6 ∷ (u32_to_bytes index ++ (u32_to_bytes offset ++ block))
payload (cancel index offset length) =
    8 ∷ (u32_to_bytes index ++ (u32_to_bytes offset ++ u32_to_bytes length))
payload port = 9 ∷ []

-- `Message::serialize`: the length of the payload, as a `u32`, stands in front of it.
unfoldable pub serialize : Message → Bytes
serialize m = u32_to_bytes (length (payload m) % u32_mod) ++ payload m
