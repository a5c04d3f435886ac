-- ===== src/Ipc/Words.antt =====
-- `bytes_to_u32` and `u32_to_bytes` of bt/src/base/ipc.rs.
use rust_torrent_client.Prelude.{
  ℕ, ◌+◌, ◌-◌, ◌*◌, ◌/◌, ◌%◌, ◌<◌, ◌≡◌, refl, ap, [], ◌∷◌, ◌++◌, Bytes, AreBytes, u8_mod, u32_mod,
  Option, none, some, arith, length,
}

abbrev pub byte_0 : ℕ
byte_0 = 16_777_216

abbrev pub byte_1 : ℕ
byte_1 = 65_536

abbrev pub byte_2 : ℕ
byte_2 = 256

abbrev pub byte_3 : ℕ
byte_3 = 1

-- `none` is the panic of an index past the slice. More than four bytes may be given.
unfoldable pub bytes_to_u32 : Bytes → Option ℕ
bytes_to_u32 (b₀ ∷ b₁ ∷ b₂ ∷ b₃ ∷ _) =
    some ((b₀ * byte_0 + b₁ * byte_1 + b₂ * byte_2 + b₃ * byte_3) % u32_mod)
bytes_to_u32 _ = none

unfoldable pub u32_to_bytes : ℕ → Bytes
u32_to_bytes integer =
    let rest = integer in
    let first = rest / byte_0 in
    let rest_1 = rest - first * byte_0 in
    let second = rest_1 / byte_1 in
    let rest_2 = rest_1 - second * byte_1 in
    let third = rest_2 / byte_2 in
    let fourth = rest_2 - third * byte_2 in
    first % u8_mod ∷ second % u8_mod ∷ third % u8_mod ∷ fourth % u8_mod ∷ []

pub length-u32_to_bytes : (n : ℕ) → length (u32_to_bytes n) ≡ 4
unfolding u32_to_bytes
length-u32_to_bytes n = refl

pub u32_to_bytes-AreBytes : (n : ℕ) → AreBytes (u32_to_bytes n)
unfolding u32_to_bytes
u32_to_bytes-AreBytes n = omega arith

-- The four bytes of a `u32` read back as that number, whatever follows them.
pub bytes_to_u32-u32_to_bytes :
    (n : ℕ) (rest : Bytes) → n < u32_mod → bytes_to_u32 (u32_to_bytes n ++ rest) ≡ some n
unfolding u32_to_bytes bytes_to_u32
bytes_to_u32-u32_to_bytes n rest h = ap some (omega arith)

-- Four bytes as a number, the first one the highest.
abbrev pub word : ℕ → ℕ → ℕ → ℕ → ℕ
word a b c d = a * byte_0 + b * byte_1 + c * byte_2 + d * byte_3

word-lt : (a b c d : ℕ) → AreBytes (a ∷ b ∷ c ∷ d ∷ []) → word a b c d < u32_mod
word-lt a b c d bytes = omega arith

-- Four bytes, each below 256, are read as a number that is a `u32` and is written as these four
-- bytes, whatever follows them.
pub u32_to_bytes-bytes_to_u32 :
    (a b c d n : ℕ) (rest : Bytes)
    → AreBytes (a ∷ b ∷ c ∷ d ∷ [])
    → bytes_to_u32 (a ∷ b ∷ c ∷ d ∷ rest) ≡ some n
    → (u32_to_bytes n ≡ a ∷ b ∷ c ∷ d ∷ []) × (n < u32_mod)
unfolding bytes_to_u32 u32_to_bytes
u32_to_bytes-bytes_to_u32 a b c d n rest bytes e =
    let n_is : word a b c d ≡ n = ground (arith, word-lt a b c d bytes) in
    (ground (arith, n_is), omega (arith, n_is, word-lt a b c d bytes))
