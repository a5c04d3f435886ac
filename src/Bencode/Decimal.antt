-- ===== src/Bencode/Decimal.antt =====
-- Numbers in decimal, as `format!` writes and `parse` reads them in bt/src/bencode.
use rust_torrent_client.Prelude.{
  ℕ, zero, suc, ◌+◌, ◌-◌, ◌*◌, ◌/◌, ◌%◌, ◌≤◌, ◌<◌, ◌≡◌, [], ◌∷◌, ◌++◌, Option, none, some, Bool,
  true, false, Bytes, ltb, ◌==◌, if◌then◌else◌, if_prop, arith, All, All-append,
}

pub data ℤ : Type 0 where
  pos negsuc : ℕ → ℤ

abbrev pub i64_max : ℕ
i64_max = 0x8000_0000_0000_0000

-- `b'0'..=b'9'`
abbrev pub is_digit : ℕ → Bool
is_digit b = if ltb b 48 then false else ltb b 58

-- The digits of a number, with fuel for them.
unfoldable pub digits : ℕ → ℕ → Bytes
digits zero n = (48 + n) ∷ []
digits (suc fuel) n =
    let front = digits fuel (n / 10) in
    if ltb n 10 then (48 + n) ∷ [] else front ++ (48 + n % 10) ∷ []

abbrev pub print : ℕ → Bytes
print n = digits n n

abbrev pub print_int : ℤ → Bytes
print_int (pos n) = print n
print_int (negsuc n) = 45 ∷ print (suc n)

-- The value of digits, after those that make `acc`.
unfoldable pub parse_digits : ℕ → Bytes → Option ℕ
parse_digits acc [] = some acc
parse_digits acc (b ∷ bytes) =
    let rest = parse_digits (acc * 10 + (b - 48)) bytes in if is_digit b then rest else none

abbrev pub below : ℕ → Option ℕ → Option ℕ
below bound none = none
below bound (some n) = if ltb n bound then some n else none

-- `parse` into a `usize`, and into an `i64`. Too large a number is an error.
unfoldable pub parse_usize : Bytes → Option ℕ
parse_usize [] = none
parse_usize (b ∷ bytes) = below 0x1_0000_0000_0000_0000 (parse_digits 0 (b ∷ bytes))

abbrev positive : Option ℕ → Option ℤ
positive none = none
positive (some n) = some (pos n)

abbrev negative : Option ℕ → Option ℤ
negative none = none
negative (some zero) = some (pos 0)
negative (some (suc n)) = some (negsuc n)

unfoldable pub parse_i64 : Bytes → Option ℤ
parse_i64 [] = none
parse_i64 (b ∷ []) = positive (below i64_max (parse_digits 0 (b ∷ [])))
parse_i64 (b ∷ c ∷ bytes) =
    if b == 45
    then negative (below (i64_max + 1) (parse_digits 0 (c ∷ bytes)))
    else positive (below i64_max (parse_digits 0 (b ∷ c ∷ bytes)))

abbrev pub IsDigit : ℕ → Type 0
IsDigit b = is_digit b ≡ true

parse_digits-append :
    (acc : ℕ) (xs : Bytes) (b n : ℕ)
    → parse_digits acc xs ≡ some n
    → is_digit b ≡ true
    → parse_digits acc (xs ++ b ∷ []) ≡ some (n * 10 + (b - 48))
unfolding parse_digits
parse_digits-append acc [] b n e h = ground (arith, e, h)
parse_digits-append acc (x ∷ xs) b n e h =
    ground (arith, h, e, parse_digits-append (acc * 10 + (x - 48)) xs b n)

pub parse_digits-digits : (fuel n : ℕ) → n ≤ fuel → parse_digits 0 (digits fuel n) ≡ some n
unfolding parse_digits digits
parse_digits-digits zero n h = ground arith
parse_digits-digits (suc fuel) n h = ground (
  arith,
  parse_digits-digits fuel (n / 10),
  parse_digits-append 0 (digits fuel (n / 10)) (48 + n % 10) (n / 10),
)

pub digits-IsDigit : (fuel n : ℕ) → n ≤ fuel → All IsDigit (digits fuel n)
unfolding digits
digits-IsDigit zero n h = (ground arith, tt)
digits-IsDigit (suc fuel) n h =
    if_prop (All IsDigit) (ltb n 10) (λ small. (ground (arith, small), tt))
      (λ large.
        All-append IsDigit (digits fuel (n / 10)) ((48 + n % 10) ∷ [])
          (digits-IsDigit fuel (n / 10) (omega arith)) (ground arith, tt))

-- The first digit, which is zero only for the number zero.
pub data Leads : ℕ → Bytes → Type 0 where
  leads_zero : Leads 0 (48 ∷ [])
  leads : {n d : ℕ} {ds : Bytes} → 48 < d → d < 58 → 0 < n → Leads n (d ∷ ds)

Leads-append : {n m : ℕ} {ds : Bytes} (b : ℕ) → Leads n ds → 0 < n → 0 < m → Leads m (ds ++ b ∷ [])
Leads-append b leads_zero h k = absurd (omega arith)
Leads-append b (leads lo hi some_n) h k = leads lo hi k

pub digits-Leads : (fuel n : ℕ) → n ≤ fuel → Leads n (digits fuel n)
unfolding digits
digits-Leads zero zero h = leads_zero
digits-Leads zero (suc n) h = absurd (omega arith)
digits-Leads (suc fuel) zero h = leads_zero
digits-Leads (suc fuel) (suc n) h =
    if_prop (Leads (suc n)) (ltb (suc n) 10)
      (λ small. leads (omega arith) (ground (arith, small)) (omega arith))
      (λ large.
        Leads-append (48 + suc n % 10) (digits-Leads fuel (suc n / 10) (omega arith))
          (ground (arith, large)) (omega arith))
