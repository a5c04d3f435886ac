-- ===== src/Bencode/Hash/Lists.antt =====
-- The hashes of the pieces, as bt/src/bencode reads them from a torrent.
use rust_torrent_client.Prelude.{
  ℕ, zero, suc, ◌+◌, ◌-◌, ◌*◌, ◌/◌, ◌≤◌, ◌<◌, ◌≡◌, refl, ap, ◌∙◌, List, ◌∷◌, ◌++◌, some, true,
  Bytes, leb, leb→le, length, get_elem?, take, drop, arith, ok, err, Returns, returned, Returns-if,
  Returns-bind, Returns-weaken, u64_mod,
}
use rust_torrent_client.Bencode.Utf8.{is_utf8}
use rust_torrent_client.Bencode.Encode.{Value, bytes, string, encode}
use rust_torrent_client.Bencode.Decode.{extraneous_data, decode}
use rust_torrent_client.Bencode.RoundTrip.{decode-write_bytes}
use rust_torrent_client.Bencode.Hash.{sha1_from, sha1_list, hashes_from_value}

-- The hashes of the input from the index `j` on.
record Hashes (input : Bytes) (j : ℕ) (hashes : List Bytes) : Type 0 where
  count : 20 * (j + length hashes) ≤ length input
  all_found : length input < 20 * (j + length hashes) + 20
  each :
      (k : ℕ) (hash : Bytes)
      → get_elem? hashes k ≡ some hash
      → hash ≡ take 20 (drop (20 * (j + k)) input)

sha1_from-Hashes :
    (input : Bytes) (fuel i j : ℕ)
    → i ≡ 20 * j + 20
    → 20 * j ≤ length input
    → length input < fuel + 20 * j
    → Returns (Hashes input j) (sha1_from fuel i input)
unfolding sha1_from
sha1_from-Hashes input zero i j e inside enough = absurd (omega arith)
sha1_from-Hashes input (suc fuel) i j e inside enough =
    Returns-if (leb i (length input))
      (λ fits.
        let le = leb→le i (length input) fits in
        Returns-bind
          (sha1_from-Hashes input fuel (i + 20) (j + 1) (omega (arith, e)) (omega (arith, e, le))
            (omega (arith, e)))
          λ rest h. returned (record {
            count = omega (arith, h.count);
            all_found = omega (arith, h.all_found);
            each = each rest h;
          }))
      (λ short. returned (record {
        count = omega (arith, e);
        all_found = ground (arith, e, short);
        each = λ k hash at. cc at;
      }))
  where
    each :
        (rest : List Bytes)
        → Hashes input (j + 1) rest
        → (k : ℕ) (hash : Bytes) → get_elem? (take 20 (drop (i - 20) input) ∷ rest) k ≡ some hash
        → hash ≡ take 20 (drop (20 * (j + k)) input)
    each rest h zero hash at =
        ground (arith, at, ap (λ n. take 20 (drop n input)) {x = i - 20} {y = 20 * (j + 0)}, e)
    each rest h (suc k) hash at =
        h.each k hash at
        ∙ ap (λ n. take 20 (drop n input)) {x = 20 * (j + 1 + k)} {y = 20 * (j + suc k)}
            (omega arith)

-- `sha1_list` returns as many hashes as fit into the bytes, each the next twenty of them, and needs
-- no more rounds than there are bytes.
pub sha1_list_lem :
    (input : Bytes)
    → Returns
        (λ hashes.
          (length hashes ≡ length input / 20)
          × ((k : ℕ) (hash : Bytes)
              → get_elem? hashes k ≡ some hash
              → hash ≡ take 20 (drop (20 * k) input)))
        (sha1_list input)
unfolding sha1_list
sha1_list_lem input =
    Returns-weaken
      (sha1_from-Hashes input (suc (length input)) 20 0 refl (omega arith) (omega arith))
      λ hashes h. (
        omega (arith, h.count, h.all_found),
        λ k hash at.
            h.each k hash at
            ∙ ap (λ n. take 20 (drop n input)) {x = 20 * (0 + k)} {y = 20 * k} (omega arith),
      )

-- Hashes, shorter than 2 ^ 64 bytes in all, are lost if their bytes happen to be UTF-8: the
-- decoder takes them for a string, and that is refused where a list of hashes is expected.
pub hashes_from_value-decode :
    (fuel : ℕ) (hashes rest : Bytes)
    → length hashes < u64_mod
    → is_utf8 hashes ≡ true
    → (v : Value) × (decode (suc fuel) (encode (bytes hashes) ++ rest) ≡ ok (v, rest))
      × (hashes_from_value v ≡ err extraneous_data)
unfolding hashes_from_value encode
hashes_from_value-decode fuel hashes rest fits valid =
    (string hashes, decode-write_bytes fuel hashes rest fits ∙ rw valid, refl)
