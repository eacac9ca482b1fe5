-- ===== src/Bits/Reverse.antt =====
-- The loop of libdsys/bits.c on the list of the bits of a number.
use libdsys.Prelude.{
  ℕ, zero, suc, ◌+◌, ◌*◌, ◌/◌, ◌%◌, ◌^◌, ◌<◌, ◌≤◌, ◌≡◌, refl, sym, ap, ◌∙◌, Bool, true, false, List,
  [], ◌∷◌, arith, length, ◌==◌, if◌then◌else◌,
}
use native.Mathlib.Nat.{pow-suc, pow-le-pow_right}
use libdsys.Bits.{reverse_loop, bit_reverse}

-- The number that bits stand for, the lowest first.
unfoldable pub value : List Bool → ℕ
value [] = 0
value (b ∷ bs) = (if b then 1 else 0) + 2 * value bs

-- The bits in the opposite order, before others.
unfoldable pub onto : List Bool → List Bool → List Bool
onto [] acc = acc
onto (b ∷ bs) acc = onto bs (b ∷ acc)

double : (k : ℕ) → 2 ^ suc k ≡ 2 * 2 ^ k
double k = pow-suc 2 k ∙ omega arith

value-lt : (bs : List Bool) → value bs < 2 ^ length bs
unfolding value
value-lt [] = omega arith
value-lt (true ∷ bs) = omega (arith, value-lt bs, double (length bs))
value-lt (false ∷ bs) = omega (arith, value-lt bs, double (length bs))

power_fits : (k : ℕ) → k ≤ 31 → 2 ^ k ≤ 2 ^ 31
power_fits k b = pow-le-pow_right (omega arith) b

next_round :
    (b : Bool) (acc bs : List Bool)
    → length acc ≤ 31
    → ((value acc * 2) % 2 ^ 32 + value (b ∷ bs) % 2 ≡ value (b ∷ acc))
      × (value (b ∷ bs) / 2 ≡ value bs)
unfolding value
next_round true acc bs l = (omega (arith, value-lt acc, power_fits (length acc) l), omega arith)
next_round false acc bs l = (omega (arith, value-lt acc, power_fits (length acc) l), omega arith)

one_round :
    (n reverse num reverse' num' : ℕ)
    → (reverse * 2) % 2 ^ 32 + num % 2 ≡ reverse'
    → num / 2 ≡ num'
    → reverse_loop (suc n) reverse num ≡ reverse_loop n reverse' num'
unfolding reverse_loop
one_round n reverse num reverse' num' low rest = rw (low, rest) refl

loop_lem :
    (bs acc : List Bool)
    → length bs + length acc ≤ 32
    → reverse_loop (length bs) (value acc) (value bs) ≡ value (onto bs acc)
unfolding reverse_loop onto
loop_lem [] acc l = refl
loop_lem (b ∷ bs) acc l =
    let (low, rest) = next_round b acc bs (omega arith) in
    one_round (length bs) (value acc) (value (b ∷ bs)) (value (b ∷ acc)) (value bs) low rest
    ∙ loop_lem bs (b ∷ acc) (omega arith)

-- The `n` lowest bits of a number.
unfoldable pub bits_of : ℕ → ℕ → List Bool
bits_of zero num = []
bits_of (suc n) num = (num % 2 == 1) ∷ bits_of n (num / 2)

length-bits_of : (n num : ℕ) → length (bits_of n num) ≡ n
unfolding bits_of
length-bits_of zero num = refl
length-bits_of (suc n) num = ap suc (length-bits_of n (num / 2))

bit_is : (b : ℕ) → b < 2 → (if b == 1 then 1 else 0) ≡ b
bit_is b l = ground arith

value-bits_of : (n num : ℕ) → num < 2 ^ n → value (bits_of n num) ≡ num
unfolding value bits_of
value-bits_of zero num l = omega arith
value-bits_of (suc n) num l =
    rw (value-bits_of n (num / 2) (omega (arith, double n)), bit_is (num % 2) (omega arith))
      (omega arith)

onto-onto : (bs acc : List Bool) → onto (onto bs acc) [] ≡ onto acc bs
unfolding onto
onto-onto [] acc = refl
onto-onto (b ∷ bs) acc = onto-onto bs (b ∷ acc)

length-onto : (bs acc : List Bool) → length (onto bs acc) ≡ length bs + length acc
unfolding onto
length-onto [] acc = omega arith
length-onto (b ∷ bs) acc = omega (arith, length-onto bs (b ∷ acc))

reverse_bits :
    (n : ℕ) (bs : List Bool)
    → n ≤ 32
    → length bs ≡ n
    → bit_reverse (value bs) n ≡ value (onto bs [])
unfolding bit_reverse value
reverse_bits n bs b l = ap (λ k. reverse_loop k 0 (value bs)) (sym l) ∙ loop_lem bs [] (omega arith)

-- For up to 32 bits, the reversed number is the one whose bits are those of the number in the opposite
-- order, and reversing it again gives the number back.
pub bit_reverse_lem :
    (num n : ℕ)
    → n ≤ 32
    → num < 2 ^ n
    → (bit_reverse num n ≡ value (onto (bits_of n num) []))
      × (bit_reverse (bit_reverse num n) n ≡ num)
unfolding onto
bit_reverse_lem num n b l =
    let once : bit_reverse num n ≡ value (onto (bits_of n num) []) =
      ap (λ x. bit_reverse x n) (sym (value-bits_of n num l))
      ∙ reverse_bits n (bits_of n num) b (length-bits_of n num) in
    let again : bit_reverse (value (onto (bits_of n num) [])) n
        ≡ value (onto (onto (bits_of n num) []) []) =
      reverse_bits n (onto (bits_of n num) []) b
        (omega (arith, length-onto (bits_of n num) [], length-bits_of n num)) in
    (
      once,
      ap (λ x. bit_reverse x n) once
          ∙ again
          ∙ ap value (onto-onto (bits_of n num) [])
          ∙ value-bits_of n num l,
    )
