-- ===== src/Prelude/Words.antt =====
-- `size_t` of an LP64 machine: sums and differences modulo 2^64, as the C standard defines them.
use Prim.Native.Nat.{ℕ, ◌+◌, ◌-◌, ◌*◌, ◌%◌, ◌^◌, ◌≤◌, ◌<◌}
use mathlib.Core.Path.{◌≡◌}
use native.Mathlib.Omega.{arith}

abbrev pub size_mod : ℕ
size_mod = 2 ^ 64

abbrev pub add_size : ℕ → ℕ → ℕ
add_size a b = (a + b) % 2 ^ 64

abbrev pub sub_size : ℕ → ℕ → ℕ
sub_size a b = (a + 2 ^ 64 - b) % 2 ^ 64

abbrev pub mul_size : ℕ → ℕ → ℕ
mul_size a b = (a * b) % 2 ^ 64

pub sub_size-eq-sub : (a b : ℕ) → b ≤ a → a < 2 ^ 64 → sub_size a b ≡ a - b
sub_size-eq-sub a b h k = omega arith
