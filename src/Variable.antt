-- ===== src/Variable.antt =====
-- Operations on values of the built-in data types, libdsys/variable.c. A value is its bit pattern, a
-- number below 2 ^ w for a type of w bits. What a sum or a product comes to that C leaves undefined is a
-- parameter, and so are the floating types.
use libdsys.Prelude.{
  not, ◌&&◌, leb, ℕ, ◌+◌, ◌-◌, ◌*◌, ◌%◌, ◌^◌, Bool, true, false, ltb, if◌then◌else◌,
}
use libdsys.Prelude.Int.{ℤ, pos, negsuc, ltb_ℤ}

-- The codes of libdsys/dtype.h.
pub data Code : Type 0 where
  char uchar short ushort int uint float long ulong double long_double custom : Code

-- `BC_VARIABLE_ADD` to `BC_VARIABLE_MIN`
pub data Mode : Type 0 where
  add multiply maximum minimum : Mode

-- The arithmetic of float, double and long double on their bit patterns, and the patterns of small
-- numbers; `undefined` is what an integer operation gives that C leaves undefined.
pub record Floats : Type 0 where
  pub sum : Code → ℕ → ℕ → ℕ
  pub product : Code → ℕ → ℕ → ℕ
  pub gt : Code → ℕ → ℕ → Bool
  pub lt : Code → ℕ → ℕ → Bool
  pub of_nat : Code → ℕ → ℕ
  pub undefined : Code → Mode → ℕ → ℕ → ℕ

-- How a switch of libdsys/variable.c treats a type: as integers, signed or not, of a width on an LP64
-- machine, as floating, or not at all.
pub data Treated : Type 0 where
  whole : Bool → ℕ → Treated
  floating : Treated
  passed_over : Treated

-- The cases of the switches of `bc_variable_operation`.
unfoldable pub operand : Code → Treated
operand char = passed_over
operand uchar = passed_over
operand short = whole true 16
operand ushort = whole false 16
operand int = whole true 32
operand uint = whole false 32
operand float = floating
operand long = whole true 64
operand ulong = whole false 64
operand double = floating
operand long_double = floating
operand custom = passed_over

-- The cases of the switch of `bc_variable_assign`, which has char and unsigned char too.
unfoldable pub assigned : Code → Treated
assigned char = whole true 8
assigned uchar = whole false 8
assigned short = whole true 16
assigned ushort = whole false 16
assigned int = whole true 32
assigned uint = whole false 32
assigned float = floating
assigned long = whole true 64
assigned ulong = whole false 64
assigned double = floating
assigned long_double = floating
assigned custom = passed_over

-- The number that a pattern stands for.
abbrev pub number : Bool → ℕ → ℕ → ℤ
number signed w x =
    if signed then (if ltb x (2 ^ (w - 1)) then pos x else negsuc (2 ^ w - x - 1)) else pos x

abbrev pub less : Bool → ℕ → ℕ → ℕ → Bool
less signed w x y = ltb_ℤ (number signed w x) (number signed w y)

-- The sign and the size of the number that a pattern of a signed type stands for.
abbrev pub is_negative : ℕ → ℕ → Bool
is_negative w x = leb (2 ^ (w - 1)) x

abbrev pub size_of : ℕ → ℕ → ℕ
size_of w x = if is_negative w x then 2 ^ w - x else x

abbrev pub same_sign : Bool → Bool → Bool
same_sign true b = b
same_sign false b = not b

-- Whether a number of a sign and a size is outside of a signed type.
abbrev pub is_outside : ℕ → Bool → ℕ → Bool
is_outside w negative size = if negative then ltb (2 ^ (w - 1)) size else leb (2 ^ (w - 1)) size

-- Whether a sum or a product of signed numbers leaves their type.
unfoldable pub leaves : ℕ → Mode → ℕ → ℕ → Bool
leaves w add y z =
    same_sign (is_negative w y) (is_negative w z)
    && is_outside w (is_negative w y) (size_of w y + size_of w z)
leaves w multiply y z =
    is_outside w (not (same_sign (is_negative w y) (is_negative w z))) (size_of w y * size_of w z)
leaves w maximum y z = false
leaves w minimum y z = false

-- Whether C leaves the operation undefined. A short operand is promoted to a signed int, which has
-- room for sums and products of shorts but not for every product of unsigned shorts; the conversion
-- back to short keeps the low bits.
unfoldable pub is_undefined : Bool → ℕ → Mode → ℕ → ℕ → Bool
is_undefined true w mode y z = if ltb w 32 then false else leaves w mode y z
is_undefined false w multiply y z = if ltb w 32 then leb (2 ^ 31) (y * z) else false
is_undefined false w add y z = if ltb w 32 then leb (2 ^ 31) (y + z) else false
is_undefined false w maximum y z = false
is_undefined false w minimum y z = false

-- The operations on integers; `undefined` gives the result of those that are undefined.
unfoldable pub on_whole : (Mode → ℕ → ℕ → ℕ) → Bool → ℕ → Mode → ℕ → ℕ → ℕ
on_whole undefined signed w add y z =
    if is_undefined signed w add y z then undefined add y z else (y + z) % 2 ^ w
on_whole undefined signed w multiply y z =
    if is_undefined signed w multiply y z then undefined multiply y z else (y * z) % 2 ^ w
on_whole undefined signed w maximum y z = if less signed w z y then y else z
on_whole undefined signed w minimum y z = if less signed w y z then y else z

unfoldable pub on_floating : Floats → Code → Mode → ℕ → ℕ → ℕ
on_floating f c add y z = f.sum c y z
on_floating f c multiply y z = f.product c y z
on_floating f c maximum y z = if f.gt c y z then y else z
on_floating f c minimum y z = if f.lt c y z then y else z

-- `bc_variable_operation`: the new value of `x`, which was `old`.
unfoldable pub variable_operation : Floats → Code → Mode → ℕ → ℕ → ℕ → ℕ
variable_operation f c mode old y z = elim (operand c) [
  | whole signed w ↦ on_whole (f.undefined c) signed w mode y z
  | floating ↦ on_floating f c mode y z
  | passed_over ↦ old
]

-- `bc_variable_assign` of a small number; the library assigns 0 and 1 only.
unfoldable pub variable_assign : Floats → Code → ℕ → ℕ → ℕ
variable_assign f c old value = elim (assigned c) [
  | whole signed w ↦ value % 2 ^ w
  | floating ↦ f.of_nat c value
  | passed_over ↦ old
]
