-- ===== src/Download/Files/Buffer.antt =====
-- The buffer that `read` of bt/src/base/download.rs fills part by part.
use rust_torrent_client.Prelude.{
  ℕ, zero, suc, ◌+◌, ◌-◌, ◌≤◌, ◌≡◌, refl, ap, [], ◌∷◌, ◌++◌, Bytes, ltb, if◌then◌else◌, length,
  length-append, get_or, replicate, take, drop, length-take, length-drop, arith,
}
use rust_torrent_client.Download.Files.{patch}
use rust_torrent_client.Download.Files.Contents.{in_range}
use rust_torrent_client.Download.Files.Overwrite.{get_or-take, get_or-drop}

get_or-append :
    (xs ys : Bytes) (k : ℕ)
    → get_or (xs ++ ys) k 0
      ≡ (if ltb k (length xs) then get_or xs k 0 else get_or ys (k - length xs) 0)
get_or-append [] ys k = ground (arith, ap (λ m. get_or ys m 0) {x = k} {y = k - 0})
get_or-append (x ∷ xs) ys zero = ground arith
get_or-append (x ∷ xs) ys (suc k) = ground (
  arith,
  get_or-append xs ys k,
  ap (λ m. get_or ys m 0) {x = k - length xs} {y = suc k - suc (length xs)},
)

module _ (buffer : Bytes) (ptr : ℕ) (got : Bytes) (fits : ptr + length got ≤ length buffer) where
  pub length-patch : length (patch buffer ptr got) ≡ length buffer
  length-patch = omega (
    arith,
    length-append (take ptr buffer) (got ++ drop (ptr + length got) buffer),
    length-append got (drop (ptr + length got) buffer),
    length-take ptr buffer,
    length-drop (ptr + length got) buffer,
  )

  pub get_or-patch :
      (k : ℕ)
      → get_or (patch buffer ptr got) k 0
        ≡ (if in_range k ptr (length got) then get_or got (k - ptr) 0 else get_or buffer k 0)
  get_or-patch k = ground (
    arith,
    length-take ptr buffer,
    get_or-append (take ptr buffer) (got ++ drop (ptr + length got) buffer) k,
    get_or-append got (drop (ptr + length got) buffer) (k - length (take ptr buffer)),
    get_or-take ptr k buffer,
    get_or-drop (ptr + length got) (k - length (take ptr buffer) - length got) buffer,
    ap (λ m. get_or got m 0) {x = k - length (take ptr buffer)} {y = k - ptr},
    ap (λ m. get_or buffer m 0) {x = ptr + length got + (k - length (take ptr buffer) - length got)}
        {y = k},
  )

pub get_or-zeros : (n k : ℕ) → get_or {A = ℕ} (replicate n 0) k 0 ≡ 0
get_or-zeros zero k = refl
get_or-zeros (suc n) zero = refl
get_or-zeros (suc n) (suc k) = get_or-zeros n k
