-- ===== src/Bencode/Fields/Laws.antt =====
-- What `into_value` makes of bt/src/bencode/value.rs makes, `from_value` reads.
use rust_torrent_client.Prelude.{
  ℕ, zero, suc, ◌+◌, ◌-◌, ◌*◌, ◌≤◌, ◌<◌, ◌≡◌, refl, sym, ap, ◌∙◌, List, [], ◌∷◌, ◌++◌, append_assoc,
  Bytes, All, length, length-append, take, drop, take-append, drop-append, ok, arith, u64_mod,
}
use rust_torrent_client.Bencode.Encode.{Value}
use rust_torrent_client.Bencode.Hash.{sha1_from, sha1_list, hashes_from_value}
use rust_torrent_client.Bencode.Fields.{
  FromValue, wrap, wrap_i64, unsigned_from_value, unsigned_into_value, concat, hashes_into_value,
  items_from_values, values_from,
}

wrap-wrap_i64 : (n : ℕ) → n < u64_mod → wrap u64_mod (wrap_i64 n) ≡ n
wrap-wrap_i64 n h = ground arith

pub unsigned_from_value-into_value :
    (n : ℕ) → n < u64_mod → unsigned_from_value u64_mod (unsigned_into_value n) ≡ ok n
unfolding unsigned_from_value unsigned_into_value
unsigned_from_value-into_value n h = ap ok (wrap-wrap_i64 n h)

abbrev pub IsHash : Bytes → Type 0
IsHash hash = length hash ≡ 20

length-concat :
    (hashes : List Bytes) → All IsHash hashes → length (concat hashes) ≡ 20 * length hashes
unfolding concat
length-concat [] h = omega arith
length-concat (hash ∷ hashes) h =
    omega (arith, length-append hash (concat hashes), h.0, length-concat hashes h.1)

sha1_from-end :
    (fuel i : ℕ) (input : Bytes) → length input < i → sha1_from (suc fuel) i input ≡ ok []
unfolding sha1_from
sha1_from-end fuel i input h = ground arith

sha1_from-step :
    (fuel i : ℕ) (input : Bytes) (rest : List Bytes)
    → i ≤ length input
    → sha1_from fuel (i + 20) input ≡ ok rest
    → sha1_from (suc fuel) i input ≡ ok (take 20 (drop (i - 20) input) ∷ rest)
unfolding sha1_from
sha1_from-step fuel i input rest h e = rw e (ground (arith, h))

take-drop :
    (before hash after : Bytes) (i : ℕ)
    → i ≡ length before + 20
    → IsHash hash
    → take 20 (drop (i - 20) (before ++ (hash ++ after))) ≡ hash
take-drop before hash after i e h =
    ap (λ n. take 20 (drop n (before ++ (hash ++ after)))) {x = i - 20} {y = length before}
      (omega (arith, e))
    ∙ rw (drop-append before (hash ++ after)) (
        ap (λ n. take n (hash ++ after)) {x = 20} {y = length hash} (omega (arith, h))
        ∙ take-append hash after)

sha1_from-concat :
    (hashes : List Bytes) (before : Bytes) (fuel i : ℕ)
    → All IsHash hashes
    → i ≡ length before + 20
    → length hashes < fuel
    → sha1_from fuel i (before ++ concat hashes) ≡ ok hashes
unfolding concat
sha1_from-concat hashes before zero i h e enough = absurd (omega arith)
sha1_from-concat [] before (suc fuel) i h e enough =
    sha1_from-end fuel i (before ++ []) (omega (arith, e, length-append before []))
sha1_from-concat (hash ∷ hashes) before (suc fuel) i h e enough =
    sha1_from-step fuel i (before ++ (hash ++ concat hashes)) hashes
      (omega (
        arith,
        e,
        h.0,
        length-append before (hash ++ concat hashes),
        length-append hash (concat hashes),
      ))
      (ap (sha1_from fuel (i + 20)) (sym (append_assoc before hash (concat hashes)))
        ∙ sha1_from-concat hashes (before ++ hash) fuel (i + 20) h.1
            (omega (arith, e, h.0, length-append before hash)) (omega (arith, enough)))
    ∙ ap (λ x. ok (x ∷ hashes)) (take-drop before hash (concat hashes) i e h.0)

pub hashes_from_value-into_value :
    (hashes : List Bytes)
    → All IsHash hashes
    → hashes_from_value (hashes_into_value hashes) ≡ ok hashes
unfolding hashes_from_value hashes_into_value sha1_list
hashes_from_value-into_value hashes h =
    sha1_from-concat hashes [] (suc (length (concat hashes))) 20 h refl
      (omega (arith, length-concat hashes h))

pub items_from_values-values_from :
    {A : Type 0} (from : FromValue A) (into : A → Value) (items : List A)
    → All (λ a. from (into a) ≡ ok a) items
    → items_from_values from (values_from into items) ≡ ok items
unfolding items_from_values values_from
items_from_values-values_from from into [] h = refl
items_from_values-values_from from into (item ∷ items) h =
    rw (h.0, items_from_values-values_from from into items h.1) refl
