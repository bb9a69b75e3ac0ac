-- ===== src/Prelude/Word.antt =====
-- `std::uint64_t`: the values are numbers below 2 ^ 64, and the operators wrap around.
use Prim.Native.Nat.{ℕ, ◌+◌, ◌-◌, ◌%◌, ◌^◌, ◌<◌, ◌≤◌}
use mathlib.Core.Path.{◌≡◌}
use native.Mathlib.Omega.{arith}

abbrev pub u64_mod : ℕ
u64_mod = 2 ^ 64

unfoldable pub add64 : ℕ → ℕ → ℕ
add64 a b = (a + b) % u64_mod

unfoldable pub sub64 : ℕ → ℕ → ℕ
sub64 a b = (a + u64_mod - b) % u64_mod

-- `a -= b` where `b` does not exceed `a` is the plain difference.
pub sub64-eq-sub : (a b : ℕ) → a < u64_mod → b ≤ a → sub64 a b ≡ a - b
unfolding sub64
sub64-eq-sub a b h k = omega arith

pub add64-lt : (a b : ℕ) → add64 a b < u64_mod
unfolding add64
add64-lt a b = omega arith

pub sub64-lt : (a b : ℕ) → sub64 a b < u64_mod
unfolding sub64
sub64-lt a b = omega arith

-- A running total that is kept modulo 2 ^ 64 stays right when one item joins or leaves.
pub add64-mod : (s a : ℕ) → add64 (s % u64_mod) a ≡ (s + a) % u64_mod
unfolding add64
add64-mod s a = omega arith

pub sub64-mod : (s a : ℕ) → a ≤ s → a < u64_mod → sub64 (s % u64_mod) a ≡ (s - a) % u64_mod
unfolding sub64
sub64-mod s a h k = omega arith
