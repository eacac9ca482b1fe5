-- ===== src/Bits.antt =====
-- The order of bits, libdsys/bits.c. An unsigned int has 32 bits.
pub mod Reverse
mod Tests
use libdsys.Prelude.{ℕ, zero, suc, ◌+◌, ◌*◌, ◌/◌, ◌%◌, ◌^◌}

-- The loop of `bc_bit_reverse` with `n` rounds left. After the shift the lowest bit of `reverse` is 0, so
-- that `|` with a bit is a sum.
unfoldable pub reverse_loop : ℕ → ℕ → ℕ → ℕ
reverse_loop zero reverse num = reverse
reverse_loop (suc n) reverse num = reverse_loop n ((reverse * 2) % 2 ^ 32 + num % 2) (num / 2)

-- `bc_bit_reverse`
unfoldable pub bit_reverse : ℕ → ℕ → ℕ
bit_reverse num nbits = reverse_loop nbits 0 num
