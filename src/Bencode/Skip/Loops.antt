-- ===== src/Bencode/Skip/Loops.antt =====
-- The loops of `skip_item` of bt/src/bencode/decode.rs next to those that decode.
use rust_torrent_client.Prelude.{
  ℕ, zero, suc, ◌≤◌, ◌<◌, ◌≡◌, refl, [], ◌∷◌, Bool-cases, inl, inr, Bytes, ◌==◌, length, arith, ok,
  Ensures, holds, failed, Ensures-bind, Ensures-weaken,
}
use rust_torrent_client.Bencode.Encode.{Value, Entries, insert}
use rust_torrent_client.Bencode.Decode.{Read, peek_byte, read_str, read_items, read_entries}
use rust_torrent_client.Bencode.Skip.{Skip, skip_items, skip_entries}
use rust_torrent_client.Bencode.Skip.Strings.{Skips}

pub peek-run : (input : Bytes) → Ensures (λ b. peek_byte input ≡ ok b) (peek_byte input)
unfolding peek_byte
peek-run [] = failed
peek-run (b ∷ rest) = holds refl

module _ (dec : Bytes → Read Value) (sk : Skip) (bound : ℕ)
    (values : (input : Bytes) → length input < bound → Ensures (Skips input (sk input)) (dec input))
    (strings : (input : Bytes)
      → length input < bound
      → Ensures (Skips input (sk input)) (read_str input)) where
  pub items_skip :
      (fuel : ℕ) (input : Bytes)
      → length input < bound
      → length input < fuel
      → Ensures
          (λ (v, rest). (skip_items sk fuel input ≡ ok rest) × (length rest ≤ length input))
          (read_items dec fuel input)
  unfolding read_items skip_items
  items_skip zero input small enough = absurd (omega arith)
  items_skip (suc fuel) input small enough = Ensures-bind (peek-run input) λ b at.
      elim (Bool-cases (b == 101)) [
        | inl last ↦ rw last (holds (rw at (rw last), omega arith))
        | inr going ↦ rw going (
            Ensures-bind (values input small) λ (v, rest) (passed, less).
              Ensures-bind (items_skip fuel rest (omega (arith, less)) (omega (arith, less)))
                λ (vs, rest_1) (passed_1, less_1).
                  holds (rw at (rw going (rw (passed, passed_1))), omega (arith, less, less_1)))
      ]

  pub entries_skip :
      (fuel : ℕ) (map : Entries) (input : Bytes)
      → length input < bound
      → length input < fuel
      → Ensures
          (λ (v, rest). (skip_entries sk fuel input ≡ ok rest) × (length rest ≤ length input))
          (read_entries dec fuel map input)
  unfolding read_entries skip_entries
  entries_skip zero map input small enough = absurd (omega arith)
  entries_skip (suc fuel) map input small enough = Ensures-bind (peek-run input) λ b at.
      elim (Bool-cases (b == 101)) [
        | inl last ↦ rw last (holds (rw at (rw last), omega arith))
        | inr going ↦ rw going (
            Ensures-bind (strings input small) λ (key, rest) (passed, less).
              Ensures-bind (values rest (omega (arith, less))) λ (v, rest_1) (passed_1, less_1).
                Ensures-weaken
                  (entries_skip fuel (insert key v map) rest_1 (omega (arith, less, less_1))
                    (omega (arith, less, less_1)))
                  λ (m, rest_2) (passed_2, less_2). (
                    rw at (rw going (rw (passed, passed_1, passed_2))),
                    omega (arith, less, less_1, less_2),
                  ))
      ]
