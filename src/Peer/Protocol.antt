-- ===== src/Peer/Protocol.antt =====
-- What a connection promises its peer, as a state machine: the flags of the two sides and the
-- messages sent. `hear` says how what arrives changes the flags, and `Act` when which message may be
-- sent; bt/src/peer/peer_connection.rs is proved to take no other step in `Peer.Refinement`.
pub mod Rules
use rust_torrent_client.Prelude.{
  ℕ, ◌+◌, ◌≡◌, List, [], ◌∷◌, ◌++◌, Bool, true, false, not, Bytes, if◌then◌else◌,
}
use rust_torrent_client.Ipc.{
  Message, choke, un_choke, interested, not_interested, have, bitfield, request, piece, cancel, Ipc,
  message, block_uploaded,
}
use rust_torrent_client.Peer.State.{PeerConnection}

pub record View : Type 0 where
  pub am_choked : Bool
  pub am_interested : Bool
  pub he_choked : Bool
  pub he_interested : Bool
  pub uploading : Bool
  pub sent : List Message

abbrev pub view : PeerConnection → View
view c = record {
  am_choked = c.me.is_choked;
  am_interested = c.me.is_interested;
  he_choked = c.he.is_choked;
  he_interested = c.he.is_interested;
  uploading = c.upload_in_progress;
  sent = c.sent;
}

abbrev pub send : Message → View → View
send m v = record v { sent = v.sent ++ m ∷ [] }

abbrev pub interest_message : Bool → Message
interest_message b = if b then interested else not_interested

-- The flags that only the peer and the write loop change: whether the peer chokes us, whether it is
-- interested, and whether a block is on its way.
abbrev pub choked_after : Ipc → Bool → Bool
choked_after (message choke) b = true
choked_after (message un_choke) b = false
choked_after _ b = b

abbrev pub interest_after : Ipc → Bool → Bool
interest_after (message interested) b = true
interest_after (message not_interested) b = false
interest_after _ b = b

abbrev pub uploading_after : Ipc → Bool → Bool
uploading_after block_uploaded b = false
uploading_after _ b = b

abbrev pub hear : Ipc → View → View
hear i v = record v {
  am_choked = choked_after i v.am_choked;
  he_interested = interest_after i v.he_interested;
  uploading = uploading_after i v.uploading;
}

pub data Act : View → View → Type 0 where
  -- the peer is no longer choked, and is told so
  unchoke : (v : View) → v.he_choked ≡ true → Act v (send un_choke (record v { he_choked = false }))
  -- a block is asked for only while the peer does not choke us and we are interested
  ask :
      (v : View) (p o n : ℕ)
      → v.am_choked ≡ false
      → v.am_interested ≡ true
      → Act v (send (request p o n) v)
  -- our interest is announced only when it changes
  announce :
      (v : View) (b : Bool)
      → v.am_interested ≡ not b
      → Act v (send (interest_message b) (record v { am_interested = b }))
  -- a block is sent only to an interested peer that is not choked, and while no other is on its way
  serve :
      (v : View) (p o : ℕ) (block : Bytes)
      → v.uploading ≡ false
      → v.he_choked ≡ false
      → v.he_interested ≡ true
      → Act v (send (piece p o block) (record v { uploading = true }))
  withdraw : (v : View) (p o n : ℕ) → Act v (send (cancel p o n) v)
  tell_piece : (v : View) (p : ℕ) → Act v (send (have p) v)
  tell_bits : (v : View) (bytes : Bytes) → Act v (send (bitfield bytes) v)

pub data Acts (u : View) : View → Type 0 where
  here : Acts u u
  next : {v w : View} → Acts u v → Act v w → Acts u w

pub Acts-trans : {u v w : View} → Acts u v → Acts v w → Acts u w
Acts-trans a here = a
Acts-trans a (next b s) = next (Acts-trans a b) s

pub one : {u v : View} → Act u v → Acts u v
one a = next here a
