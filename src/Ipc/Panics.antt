-- ===== src/Ipc/Panics.antt =====
-- On which frames `Message::new` panics.
use rust_torrent_client.Prelude.{
  ℕ, ◌+◌, ◌-◌, ◌≤◌, ◌<◌, ◌≡◌, ◌≢◌, ◌↔◌, ◌⊎◌, ◌∷◌, Bytes, none, ◌==◌, if◌then◌else◌, length,
  length-drop, length-take, take, drop, arith,
}
use rust_torrent_client.Ipc.{
  Message, new, u32_at, new_piece, new_triple, request, cancel, bytes_to_u32,
}

bytes_to_u32-ne-none : (bs : Bytes) → 4 ≤ length bs → bytes_to_u32 bs ≢ none
unfolding bytes_to_u32
bytes_to_u32-ne-none (a ∷ b ∷ c ∷ d ∷ bs) h = cc
bytes_to_u32-ne-none _ h = absurd (omega arith)

bytes_to_u32-none : (bs : Bytes) → length bs < 4 → bytes_to_u32 bs ≡ none
unfolding bytes_to_u32
bytes_to_u32-none (a ∷ b ∷ c ∷ d ∷ bs) h = absurd (omega arith)
bytes_to_u32-none _ h = ground arith

module _ (body : Bytes) (lo hi : ℕ) where
  u32_at-ne-none : lo + 4 ≡ hi → hi ≤ length body → u32_at body lo hi ≢ none
  unfolding u32_at
  u32_at-ne-none e h = ground (
    arith,
    bytes_to_u32-ne-none (take (hi - lo) (drop lo body)),
    length-take (hi - lo) (drop lo body),
    length-drop lo body,
  )

  u32_at-none : length body < hi → u32_at body lo hi ≡ none
  unfolding u32_at
  u32_at-none h = ground arith

-- How many bytes of the body the arm of an id reads.
abbrev pub needed : ℕ → ℕ
needed id =
    if id == 4 then 4 else if id == 6 then 12 else if id == 7 then 8 else if id == 8 then 12 else 0

module _ (body : Bytes) where
  new_triple-none_iff :
      (make : ℕ → ℕ → ℕ → Message) → (new_triple make body ≡ none) ↔ (length body < 12)
  unfolding new_triple
  new_triple-none_iff make = ground (
    arith,
    u32_at-ne-none body 0 4,
    u32_at-ne-none body 4 8,
    u32_at-ne-none body 8 12,
    u32_at-none body 8 12,
  )

  new_piece-none_iff : (new_piece body ≡ none) ↔ (length body < 8)
  unfolding new_piece
  new_piece-none_iff =
      ground (arith, u32_at-ne-none body 0 4, u32_at-ne-none body 4 8, u32_at-none body 4 8)

-- `Message::new` panics exactly on an unknown id and on a body that is too short for the id.
pub new-none_iff :
    (id : ℕ) (body : Bytes) → (new id body ≡ none) ↔ ((9 < id) ⊎ (length body < needed id))
unfolding new
new-none_iff id body = ground (
  arith,
  bytes_to_u32-ne-none body,
  bytes_to_u32-none body,
  new_triple-none_iff body request,
  new_triple-none_iff body cancel,
  new_piece-none_iff body,
)
