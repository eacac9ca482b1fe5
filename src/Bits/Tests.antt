-- ===== src/Bits/Tests.antt =====
-- Six in three bits.
use libdsys.Prelude.{◌≡◌, refl, arith}
use libdsys.Bits.{reverse_loop, bit_reverse}
use libdsys.Bits.Reverse.{value, onto, bits_of, bit_reverse_lem}

six : bit_reverse 6 3 ≡ 3
unfolding bit_reverse reverse_loop
six = refl

bit_reverse_lem_example : (bit_reverse 6 3 ≡ 3) × (bit_reverse (bit_reverse 6 3) 3 ≡ 6)
unfolding value onto bits_of
bit_reverse_lem_example = bit_reverse_lem 6 3 (omega arith) (omega arith)
