-- ===== src/Bencode/Fields/Inverse.antt =====
-- What `from_value` of bt/src/bencode/value.rs reads from a value that was decoded, `into_value`
-- turns back into that value.
use rust_torrent_client.Prelude.{
  ℕ, zero, suc, ◌+◌, ◌-◌, ◌*◌, ◌%◌, ◌≤◌, ◌<◌, ◌≡◌, refl, sym, ap, ◌∙◌, [], ◌∷◌, ◌++◌, Option, none,
  some, Bytes, leb, length, take, drop, take-append-drop, arith, Outcome, ◌>>=◌, Ensures, holds,
  failed, Ensures-bind, Ensures-weaken, leb→le, Ensures-if, u64_mod,
}
use mathlib.Core.Option
use rust_torrent_client.Bencode.Decimal.{pos, negsuc}
use rust_torrent_client.Bencode.Encode.{
  Value, integer, bytes, string, list, dict, Values, empty_list, value, Entries,
}
use rust_torrent_client.Bencode.Decode.{DecodeError}
use rust_torrent_client.Bencode.RoundTrip.{IsEncodable, AllEncodable}
use rust_torrent_client.Bencode.Hash.{sha1_from, sha1_list, hashes_from_value}
use rust_torrent_client.Bencode.Fields.{
  FromValue, lookup, get_field, get_option_field, or_missing, from_option, string_from_value,
  unsigned_from_value, unsigned_into_value, concat, hashes_into_value, items_from_values,
  vec_from_value, values_from, vec_into_value,
}

-- What was read is what the value holds.
abbrev pub Inverts : {A : Type 0} → (A → Value) → Value → Outcome DecodeError A → Type 0
Inverts into v r = Ensures (λ a. into a ≡ v) r

module _ {A : Type 0} (from : FromValue A) (into : A → Value) (key : Bytes) (map : Entries) where
  abbrev Reads : Type 0
  Reads = (v : Value) → lookup key map ≡ some v → Inverts into v (from v)

  read_field :
      (o : Option Value)
      → ((v : Value) → o ≡ some v → Inverts into v (from v))
      → Ensures (λ a. o ≡ some (into a)) (or_missing key o >>= from)
  read_field none h = failed
  read_field (some v) h = Ensures-weaken (h v refl) λ a e. ap some (sym e)

  read_option :
      (o : Option Value)
      → ((v : Value) → o ≡ some v → Inverts into v (from v))
      → Ensures (λ a. o ≡ Option.map into a) (from_option from o)
  read_option none h = holds refl
  read_option (some v) h = Ensures-bind (h v refl) λ a e. holds (ap some (sym e))

  pub get_field-Inverts :
      Reads → Ensures (λ a. lookup key map ≡ some (into a)) (get_field from key (dict map))
  unfolding get_field
  get_field-Inverts h = read_field (lookup key map) h

  pub get_option_field-Inverts :
      Reads
      → Ensures (λ o. lookup key map ≡ Option.map into o) (get_option_field from key (dict map))
  unfolding get_option_field
  get_option_field-Inverts h = read_option (lookup key map) h

pub string_from_value-Inverts : (v : Value) → IsEncodable v → Inverts string v (string_from_value v)
unfolding string_from_value IsEncodable
string_from_value-Inverts (integer i) w = failed
string_from_value-Inverts (bytes b) w = rw w.0 failed
string_from_value-Inverts (string s) w = holds refl
string_from_value-Inverts (list values) w = failed
string_from_value-Inverts (dict map) w = failed

pub unsigned_from_value-Inverts :
    (v : Value) → IsEncodable v → Inverts unsigned_into_value v (unsigned_from_value u64_mod v)
unfolding unsigned_from_value unsigned_into_value IsEncodable
unsigned_from_value-Inverts (integer (pos n)) w = holds (ground arith)
unsigned_from_value-Inverts (integer (negsuc n)) w = holds (ground arith)
unsigned_from_value-Inverts (bytes b) w = failed
unsigned_from_value-Inverts (string s) w = failed
unsigned_from_value-Inverts (list values) w = failed
unsigned_from_value-Inverts (dict map) w = failed

drop-drop : (m n k : ℕ) (xs : Bytes) → k ≡ n + m → drop m (drop n xs) ≡ drop k xs
drop-drop m zero k xs e = ap (λ i. drop i xs) {x = m} {y = k} (omega (arith, e))
drop-drop m (suc n) zero xs e = absurd (omega (arith, e))
drop-drop zero (suc n) (suc k) [] e = refl
drop-drop (suc m) (suc n) (suc k) [] e = refl
drop-drop m (suc n) (suc k) (x ∷ xs) e = drop-drop m n k xs (omega (arith, e))

drop-length : (n : ℕ) (xs : Bytes) → length xs ≤ n → drop n xs ≡ []
drop-length zero [] h = refl
drop-length zero (x ∷ xs) h = absurd (omega arith)
drop-length (suc n) [] h = refl
drop-length (suc n) (x ∷ xs) h = drop-length n xs (omega arith)

sha1_from-Inverts :
    (input : Bytes) (fuel i j : ℕ)
    → length input % 20 ≡ 0
    → i ≡ 20 * j + 20
    → 20 * j ≤ length input
    → length input < fuel + 20 * j
    → Ensures (λ hashes. concat hashes ≡ drop (20 * j) input) (sha1_from fuel i input)
unfolding sha1_from concat
sha1_from-Inverts input zero i j whole e inside enough = absurd (omega arith)
sha1_from-Inverts input (suc fuel) i j whole e inside enough =
    Ensures-if (leb i (length input))
      (λ fits.
        Ensures-bind
          (sha1_from-Inverts input fuel (i + 20) (j + 1) whole (omega (arith, e))
            (omega (arith, e, leb→le i (length input) fits)) (omega arith))
          λ rest h. holds (
            ap (λ n. take 20 (drop n input) ++ concat rest) {x = i - 20} {y = 20 * j}
              (omega (arith, e))
            ∙ ap (λ x. take 20 (drop (20 * j) input) ++ x)
                (h
                  ∙ ap (λ n. drop n input) {x = 20 * (j + 1)} {y = 20 * j + 20} (omega arith)
                  ∙ sym (drop-drop 20 (20 * j) (20 * j + 20) input refl))
            ∙ take-append-drop 20 (drop (20 * j) input)))
      (λ short. holds (sym (drop-length (20 * j) input (ground (arith, short, e, whole)))))

-- A byte string that is as many whole hashes.
abbrev pub IsWhole : Value → Type 0
IsWhole (bytes b) = length b % 20 ≡ 0
IsWhole _ = Unit

pub hashes_from_value-Inverts :
    (v : Value) → IsWhole v → Inverts hashes_into_value v (hashes_from_value v)
unfolding hashes_from_value hashes_into_value sha1_list
hashes_from_value-Inverts (integer i) w = failed
hashes_from_value-Inverts (bytes b) w =
    Ensures-weaken
      (sha1_from-Inverts b (suc (length b)) 20 0 w (omega arith) (omega arith) (omega arith))
      λ hashes h. ap bytes h
hashes_from_value-Inverts (string s) w = failed
hashes_from_value-Inverts (list values) w = failed
hashes_from_value-Inverts (dict map) w = failed

-- Every item of a list.
abbrev pub AllValues : (Value → Type 0) → Values → Type 0
AllValues P empty_list = Unit
AllValues P (value v values) = P v × AllValues P values

pub items_from_values-Inverts :
    {A : Type 0} (from : FromValue A) (into : A → Value) (values : Values)
    → AllValues (λ v. Inverts into v (from v)) values
    → Ensures (λ items. values_from into items ≡ values) (items_from_values from values)
unfolding items_from_values values_from
items_from_values-Inverts from into empty_list h = holds refl
items_from_values-Inverts from into (value v values) h = Ensures-bind h.0 λ a e.
    Ensures-bind (items_from_values-Inverts from into values h.1) λ items es. holds (cc (e, es))

abbrev pub AllOf : (Value → Type 0) → Value → Type 0
AllOf P (list values) = AllValues P values
AllOf P _ = Unit

pub vec_from_value-Inverts :
    {A : Type 0} (from : FromValue A) (into : A → Value) (v : Value)
    → AllOf (λ item. Inverts into item (from item)) v
    → Inverts (vec_into_value into) v (vec_from_value from v)
unfolding vec_from_value vec_into_value
vec_from_value-Inverts from into (integer i) h = failed
vec_from_value-Inverts from into (bytes b) h = failed
vec_from_value-Inverts from into (string s) h = failed
vec_from_value-Inverts from into (list values) h =
    Ensures-weaken (items_from_values-Inverts from into values h) λ items e. ap list e
vec_from_value-Inverts from into (dict map) h = failed

AllEncodable-AllValues :
    (P : Value → Type 0) (values : Values)
    → ((v : Value) → IsEncodable v → P v)
    → AllEncodable values
    → AllValues P values
unfolding AllEncodable IsEncodable
AllEncodable-AllValues P empty_list h w = tt
AllEncodable-AllValues P (value v values) h w = (h v w.0, AllEncodable-AllValues P values h w.1)

pub IsEncodable-AllOf :
    (P : Value → Type 0) (v : Value)
    → ((item : Value) → IsEncodable item → P item)
    → IsEncodable v
    → AllOf P v
unfolding IsEncodable AllEncodable
IsEncodable-AllOf P (integer i) h w = tt
IsEncodable-AllOf P (bytes b) h w = tt
IsEncodable-AllOf P (string s) h w = tt
IsEncodable-AllOf P (list values) h w = AllEncodable-AllValues P values h w
IsEncodable-AllOf P (dict map) h w = tt
