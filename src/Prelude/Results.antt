-- ===== src/Prelude/Results.antt =====
-- The outcome of a Rust function that returns a `Result` and may panic.
use Prim.Native.Nat.{ℕ, ◌-◌, ◌<◌, ◌≤◌}
use mathlib.Core.Path.{◌≡◌, refl, subst}
use mathlib.Core.Bool.{Bool, true, false}
use mathlib.Core.Option.{Option, none, some}
use rust_torrent_client.Prelude.Tests.{ltb, ltb→lt, lt→ltb, le→ltb, if◌then◌else◌}

-- `ok` and `err` are Rust's. `panic` is a slice or an index out of bounds, an `unwrap`, `assert!` or
-- `panic!`. `out_of_fuel` has no counterpart in the program.
pub data Outcome {ℓ κ} (E : Type κ) (A : Type ℓ) : Type (ℓ ⊔ κ) where
  ok : A → Outcome E A
  err : E → Outcome E A
  panic out_of_fuel : Outcome E A

infixl 5 ◌>>=◌ ◌>>◌
abbrev pub ◌>>=◌ {ℓ κ ι} :
    {E : Type κ} {A : Type ℓ} {B : Type ι} → Outcome E A → (A → Outcome E B) → Outcome E B
ok a >>= f = f a
err e >>= f = err e
panic >>= f = panic
out_of_fuel >>= f = out_of_fuel

abbrev pub ◌>>◌ {ℓ κ} : {E : Type κ} {B : Type ℓ} → Outcome E (Unit {0}) → Outcome E B → Outcome E B
m >> k = m >>= λ _. k

-- An index or an `unwrap` on `none` panics.
abbrev pub or_panic {ℓ κ} : {E : Type κ} {A : Type ℓ} → Option A → Outcome E A
or_panic none = panic
or_panic (some a) = ok a

-- Checked arithmetic, as in a debug build: a result that does not fit the word panics.
abbrev pub checked {κ} : {E : Type κ} → ℕ → ℕ → Outcome E ℕ
checked word n = if ltb n word then ok n else panic

abbrev pub minus {κ} : {E : Type κ} → ℕ → ℕ → Outcome E ℕ
minus a b = if ltb a b then panic else ok (a - b)

-- The run returns a value, and that satisfies `P`.
pub data Returns {ℓ κ ι} {E : Type κ} {A : Type ℓ} (P : A → Type ι)
    : Outcome E A → Type (ℓ ⊔ κ ⊔ ι) where
  returned : {a : A} → P a → Returns P (ok a)

-- If the run returns a value, that satisfies `P`; the fuel sufficed.
pub data Ensures {ℓ κ ι} {E : Type κ} {A : Type ℓ} (P : A → Type ι)
    : Outcome E A → Type (ℓ ⊔ κ ⊔ ι) where
  holds : {a : A} → P a → Ensures P (ok a)
  failed : {e : E} → Ensures P (err e)
  panicked : Ensures P panic

module _ {ℓ κ ι} {E : Type κ} {A : Type ℓ} {P : A → Type ι} where
  pub Ensures-ok : {r : Outcome E A} {a : A} → Ensures P r → r ≡ ok a → P a
  Ensures-ok (holds h) e = subst P (cc) h
  Ensures-ok failed e = cc
  Ensures-ok panicked e = cc

  pub Ensures-if :
      (b : Bool) {x y : Outcome E A}
      → (b ≡ true → Ensures P x)
      → (b ≡ false → Ensures P y)
      → Ensures P (if b then x else y)
  Ensures-if true hx hy = hx refl
  Ensures-if false hx hy = hy refl

  pub Ensures-or_panic :
      (o : Option A) → ((a : A) → o ≡ some a → P a) → Ensures {E = E} P (or_panic o)
  Ensures-or_panic none h = panicked
  Ensures-or_panic (some a) h = holds (h a refl)

  pub Ensures-bind {ℓ' ι'} :
      {B : Type ℓ'} {Q : B → Type ι'} {r : Outcome E A} {f : A → Outcome E B}
      → Ensures P r
      → ((a : A) → P a → Ensures Q (f a))
      → Ensures Q (r >>= f)
  Ensures-bind (holds {a} h) k = k a h
  Ensures-bind failed k = failed
  Ensures-bind panicked k = panicked

  pub Ensures-weaken {ι'} :
      {Q : A → Type ι'} {r : Outcome E A} → Ensures P r → ((a : A) → P a → Q a) → Ensures Q r
  Ensures-weaken (holds {a} h) k = holds (k a h)
  Ensures-weaken failed k = failed
  Ensures-weaken panicked k = panicked

module _ {κ} {E : Type κ} where
  pub Ensures-checked : (word n : ℕ) → Ensures {E = E} (λ m. (m ≡ n) × (n < word)) (checked word n)
  Ensures-checked word n =
      Ensures-if (ltb n word) (λ h. holds (refl, ltb→lt n word h)) (λ _. panicked)

module _ {ℓ κ ι} {E : Type κ} {A : Type ℓ} {P : A → Type ι} where
  pub Returns-if :
      (b : Bool) {x y : Outcome E A}
      → (b ≡ true → Returns P x)
      → (b ≡ false → Returns P y)
      → Returns P (if b then x else y)
  Returns-if true hx hy = hx refl
  Returns-if false hx hy = hy refl

  pub Returns-bind {ℓ' ι'} :
      {B : Type ℓ'} {Q : B → Type ι'} {r : Outcome E A} {f : A → Outcome E B}
      → Returns P r
      → ((a : A) → P a → Returns Q (f a))
      → Returns Q (r >>= f)
  Returns-bind (returned {a} h) k = k a h

  pub Returns-weaken {ι'} :
      {Q : A → Type ι'} {r : Outcome E A} → Returns P r → ((a : A) → P a → Q a) → Returns Q r
  Returns-weaken (returned {a} h) k = returned (k a h)

  pub Returns-ok : {r : Outcome E A} → Returns P r → (a : A) × (r ≡ ok a) × P a
  Returns-ok (returned {a} h) = (a, refl, h)

module _ {ℓ κ} {E : Type κ} {A : Type ℓ} where
  pub Returns-or_panic :
      {o : Option A} {a : A} → o ≡ some a → Returns {E = E} (λ b. b ≡ a) (or_panic o)
  Returns-or_panic {o} {a} e = rw e (returned refl)

module _ {κ} {E : Type κ} where
  pub Returns-checked : (word n : ℕ) → n < word → Returns {E = E} (λ m. m ≡ n) (checked word n)
  Returns-checked word n h = rw (lt→ltb n word h) (returned refl)

  pub Returns-minus : (a b : ℕ) → b ≤ a → Returns {E = E} (λ m. m ≡ a - b) (minus a b)
  Returns-minus a b h = rw (le→ltb a b h) (returned refl)

-- The run returns a value, and that satisfies `P`, or it returns an error; it does not panic.
pub data Runs {ℓ κ ι} {E : Type κ} {A : Type ℓ} (P : A → Type ι)
    : Outcome E A → Type (ℓ ⊔ κ ⊔ ι) where
  ran : {a : A} → P a → Runs P (ok a)
  erred : {e : E} → Runs P (err e)

module _ {ℓ κ ι} {E : Type κ} {A : Type ℓ} {P : A → Type ι} where
  pub Runs-Returns : {r : Outcome E A} → Returns P r → Runs P r
  Runs-Returns (returned h) = ran h

  pub Runs-ok : {r : Outcome E A} {a : A} → Runs P r → r ≡ ok a → P a
  Runs-ok (ran h) e = subst P (cc) h
  Runs-ok erred e = cc

  pub Runs-if :
      (b : Bool) {x y : Outcome E A}
      → (b ≡ true → Runs P x)
      → (b ≡ false → Runs P y)
      → Runs P (if b then x else y)
  Runs-if true hx hy = hx refl
  Runs-if false hx hy = hy refl

  pub Runs-bind {ℓ' ι'} :
      {B : Type ℓ'} {Q : B → Type ι'} {r : Outcome E A} {f : A → Outcome E B}
      → Runs P r
      → ((a : A) → P a → Runs Q (f a))
      → Runs Q (r >>= f)
  Runs-bind (ran {a} h) k = k a h
  Runs-bind erred k = erred

  pub Runs-weaken {ι'} :
      {Q : A → Type ι'} {r : Outcome E A} → Runs P r → ((a : A) → P a → Q a) → Runs Q r
  Runs-weaken (ran {a} h) k = ran (k a h)
  Runs-weaken erred k = erred
