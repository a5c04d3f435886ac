-- ===== src/Stream.antt =====
-- `read_n` of bt/src/peer/peer_connection.rs, and the errors that end a task.
use rust_torrent_client.Prelude.{
  ℕ, ◌≡◌, ◌++◌, Bytes, ltb, le→ltb, if◌then◌else◌, length, length-append, take, drop, take-append,
  drop-append, Outcome, ok, err, arith,
}

-- `Box<dyn Error>`: a closed channel, a stream that ended, a failed file operation, and the texts
-- that the code turns into errors.
pub data Error : Type 0 where
  send_error canceled unexpected_eof io_error : Error
  unknown_request_type invalid_info_hash connecting_to_self missing_piece_data : Error

-- The bytes read and what is left of the stream; `read_exact` reports that the stream ended.
unfoldable pub read_n : Bytes → ℕ → Outcome Error (Bytes × Bytes)
read_n stream n =
    if ltb (length stream) n then err unexpected_eof else ok (take n stream, drop n stream)

pub read_n-append :
    (xs rest : Bytes) (n : ℕ) → length xs ≡ n → read_n (xs ++ rest) n ≡ ok (xs, rest)
unfolding read_n
read_n-append xs rest n e = rw (← e) (
    rw (le→ltb (length (xs ++ rest)) (length xs) (omega (arith, length-append xs rest)))
      (rw (take-append xs rest, drop-append xs rest)))
