-- ===== src/Prelude/Loops.antt =====
-- Checking every value of a small range by evaluation.
use Prim.Native.Nat.{ℕ, zero, suc, ◌<◌}
use mathlib.Core.Path.{◌≡◌}
use mathlib.Core.Bool.{Bool, true, false}
use native.Mathlib.Omega.{arith}
use rust_torrent_client.Prelude.Tests.{if◌then◌else◌}

-- The test is true of every number below the bound.
unfoldable pub forall_lt : (ℕ → Bool) → ℕ → Bool
forall_lt test zero = true
forall_lt test (suc bound) = let lower = forall_lt test bound in if test bound then lower else false

pub forall_lt-at :
    (test : ℕ → Bool) (bound i : ℕ) → i < bound → forall_lt test bound ≡ true → test i ≡ true
unfolding forall_lt
forall_lt-at test zero i inside checked = absurd (omega arith)
forall_lt-at test (suc bound) i inside checked = ground (arith, forall_lt-at test bound i)
