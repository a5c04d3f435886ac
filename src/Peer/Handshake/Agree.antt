-- ===== src/Peer/Handshake/Agree.antt =====
-- Two clients that share a torrent accept each other's handshake.
use rust_torrent_client.Prelude.{
  [], ◌∷◌, ◌++◌, append_assoc, Bytes, true, not, ◌≡◌, ◌↔◌, refl, replicate, if◌then◌else◌, length,
  ok, err, arith,
}
use rust_torrent_client.Stream.{read_n-append, invalid_info_hash, connecting_to_self}
use rust_torrent_client.Peer.Handshake.{protocol, bytes_eq, handshake_message, receive_handshake}

pub bytes_eq_iff : (xs ys : Bytes) → (bytes_eq xs ys ≡ true) ↔ (xs ≡ ys)
unfolding bytes_eq
bytes_eq_iff [] [] = ground arith
bytes_eq_iff [] (y ∷ ys) = ground arith
bytes_eq_iff (x ∷ xs) [] = ground arith
bytes_eq_iff (x ∷ xs) (y ∷ ys) = ground (arith, bytes_eq_iff xs ys)

-- A handshake with a hash and an id of 20 bytes is accepted exactly if it is for the same torrent
-- and from another client: the wrong torrent is reported before the connection to oneself, and
-- what follows the handshake stays in the stream.
pub receive_handshake-handshake_message :
    (info_hash our_peer_id his_info_hash his_peer_id rest : Bytes)
    → length his_info_hash ≡ 20
    → length his_peer_id ≡ 20
    → receive_handshake info_hash our_peer_id (handshake_message his_info_hash his_peer_id ++ rest)
      ≡ (if not (bytes_eq his_info_hash info_hash)
          then err invalid_info_hash
          else if bytes_eq his_peer_id our_peer_id
          then err connecting_to_self
          else ok rest)
unfolding receive_handshake handshake_message
receive_handshake-handshake_message info_hash our_peer_id his_info_hash his_peer_id rest h p =
    let tail_3 = his_info_hash ++ (his_peer_id ++ rest) in
    let tail_2 = replicate 8 0 ++ tail_3 in
    simp append_assoc (
      rw (read_n-append (19 ∷ []) (protocol ++ tail_2) 1 refl) (
        rw (read_n-append protocol tail_2 19 refl) (
          rw (read_n-append (replicate 8 0) tail_3 8 refl) (
            rw (read_n-append his_info_hash (his_peer_id ++ rest) 20 h)
              (rw (read_n-append his_peer_id rest 20 p))))))
