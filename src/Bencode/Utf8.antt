-- ===== src/Bencode/Utf8.antt =====
-- `String::from_utf8`, which bt/src/bencode calls: whether bytes are UTF-8.
use rust_torrent_client.Prelude.{
  ℕ, zero, suc, [], ◌∷◌, Option, none, some, Bool, false, Bytes, ltb, ◌==◌, if◌then◌else◌,
}

-- Inside of a character: how many bytes are to come, and between which bounds the next one lies.
pub record State : Type 0 where
  pub left : ℕ
  pub lo : ℕ
  pub hi : ℕ

abbrev after : ℕ → ℕ → ℕ → Option State
after left lo hi = some (record { left = left; lo = lo; hi = hi })

-- The state behind the first byte of a character.
unfoldable pub first_byte : ℕ → Option State
first_byte b =
    if ltb b 0x80
    then after 0 0 0
    else if ltb b 0xC2
    then none
    else if ltb b 0xE0
    then after 1 0x80 0xBF
    else if b == 0xE0
    then after 2 0xA0 0xBF
    else if b == 0xED
    then after 2 0x80 0x9F
    else if ltb b 0xF0
    then after 2 0x80 0xBF
    else if b == 0xF0
    then after 3 0x90 0xBF
    else if ltb b 0xF4
    then after 3 0x80 0xBF
    else if b == 0xF4
    then after 3 0x80 0x8F
    else none

unfoldable pub next_byte : State → ℕ → ℕ → Option State
next_byte s zero b = first_byte b
next_byte s (suc left) b =
    if ltb b s.lo then none else if ltb s.hi b then none else after left 0x80 0xBF

unfoldable pub run : Option State → Bytes → Bool
run none bytes = false
run (some s) [] = s.left == 0
run (some s) (b ∷ bytes) = run (next_byte s s.left b) bytes

unfoldable pub is_utf8 : Bytes → Bool
is_utf8 bytes = run (after 0 0 0) bytes
