-- ===== src/Peer/Invariant/Parts.antt =====
-- The invariant under a change of one of its parts.
use rust_torrent_client.Prelude.{
  ℕ, suc, ◌≤◌, ◌<◌, ◌≡◌, refl, [], ◌∷◌, ◌++◌, true, false, Bool-cases, inl, inr, arith,
  length-append,
}
use rust_torrent_client.Peer.Queue.{RequestQueue, has, add, remove, len}
use rust_torrent_client.Peer.Queue.Laws.{
  Unique, has-add, has-remove, add-Unique, remove-Unique, remove_result,
}
use rust_torrent_client.Peer.ToRequest
use rust_torrent_client.Peer.ToRequest.{ToRequest, Entry, Block, contains_key, insert}
use rust_torrent_client.Peer.ToRequest.Laws.{
  Agrees, contains_key-insert, contains_key-remove, insert-Distinct, remove-Distinct,
}
use rust_torrent_client.Peer.Actions.{max_concurrent_requests}
use rust_torrent_client.Peer.Invariant.{Valid}

-- `add` of a new block lengthens the queue by one.
pub len-add :
    (q : RequestQueue) (p b offset n : ℕ)
    → has q p b ≡ false
    → len (add q p b offset n).0 ≡ suc (len q)
unfolding add len
len-add q p b offset n fresh = rw fresh (omega (arith, length-append {0} q.requests))

pub add-new :
    (q : RequestQueue) (p b offset n : ℕ)
    → has q p b ≡ false
    → (add q p b offset n).0.requests
      ≡ q.requests
        ++ record { piece_index = p; block_index = b; offset = offset; block_length = n } ∷ []
unfolding add
add-new q p b offset n fresh = rw fresh refl

len-remove : (q : RequestQueue) (p b : ℕ) → len (remove q p b).0 ≤ len q
len-remove q p b = elim (Bool-cases (has q p b)) [
  | inl h ↦ let (_, _, _, shorter) = (remove_result q p b).0 h in omega (arith, shorter)
  | inr h ↦ rw ((remove_result q p b).1 h) (omega arith)
]

module _ {mine his : RequestQueue} {m : ToRequest} (v : Valid mine his m) where
  pub Valid-his : {his' : RequestQueue} → Unique his'.requests → Valid mine his' m
  Valid-his u = record {
    my_requests = v.my_requests;
    his_requests = u;
    keys = v.keys;
    apart = v.apart;
    window = v.window;
  }

  -- A request goes: the peer answered it, or the block came from another peer.
  pub Valid-answered : (p b : ℕ) → Valid (remove mine p b).0 his m
  Valid-answered p b = record {
    my_requests = remove-Unique mine p b v.my_requests;
    his_requests = v.his_requests;
    keys = v.keys;
    apart = λ p' b' h. ground (arith, has-remove mine p b p' b' v.my_requests, v.apart p' b' h);
    window = omega (arith, v.window, len-remove mine p b);
  }

  pub Valid-dropped : (p b : ℕ) → Valid mine his (ToRequest.remove p b m)
  Valid-dropped p b = record {
    my_requests = v.my_requests;
    his_requests = v.his_requests;
    keys = remove-Distinct p b m v.keys;
    apart = λ p' b' h. ground (arith, contains_key-remove p b p' b' m v.keys, v.apart p' b');
    window = v.window;
  }

  pub Valid-queued :
      (p b n : ℕ)
      → has mine p b ≡ false
      → Valid mine his
          (insert p b (record { piece_index = p; block_index = b; block_length = n }) m)
  Valid-queued p b n fresh = record {
    my_requests = v.my_requests;
    his_requests = v.his_requests;
    keys = insert-Distinct p b n m v.keys;
    apart = λ p' b' h. ground (
      arith,
      contains_key-insert p b p' b' (record { piece_index = p; block_index = b; block_length = n })
          m,
      v.apart p' b',
      fresh,
    );
    window = v.window;
  }

  -- A block that waited is requested: it was not requested before.
  module _ (e : Entry) (agrees : Agrees e)
      (inside : contains_key e.key_piece e.key_block m ≡ true) where
    pub first-fresh : has mine e.value.piece_index e.value.block_index ≡ false
    first-fresh = ground (arith, v.apart e.key_piece e.key_block inside, agrees.0, agrees.1)

    pub Valid-requested :
        (offset n : ℕ)
        → len mine < max_concurrent_requests
        → Valid
            (add mine e.value.piece_index e.value.block_index offset n).0
            his
            (ToRequest.remove e.key_piece e.key_block m)
    Valid-requested offset n room = record {
      my_requests = add-Unique mine e.value.piece_index e.value.block_index offset n v.my_requests;
      his_requests = v.his_requests;
      keys = remove-Distinct e.key_piece e.key_block m v.keys;
      apart = λ p' b' h. ground (
        arith,
        contains_key-remove e.key_piece e.key_block p' b' m v.keys,
        (has-add mine e.value.piece_index e.value.block_index p' b' offset n).0,
        v.apart p' b',
        agrees.0,
        agrees.1,
      );
      window =
          omega (
            arith,
            room,
            len-add mine e.value.piece_index e.value.block_index offset n first-fresh,
          );
    }
