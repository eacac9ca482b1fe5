-- ===== src/Reduce/Sums.antt =====
-- The sums and the products of libdsys/reduce.c over integers.
use native.Mathlib.Nat.{mod-add-mod, div-add-mod, add-mul-mod_self_left, mul_assoc}
use mathlib.Core.Path.{subst}
use libdsys.Prelude.{
  ℕ, ◌+◌, ◌*◌, ◌/◌, ◌%◌, ◌^◌, ◌≤◌, ◌<◌, ◌≡◌, refl, sym, ◌∙◌, ap, Bool, true, false, List, [], ◌∷◌,
  arith, ltb, if◌then◌else◌, if_of_true, if_of_false, length, get_or,
}
use libdsys.Variable.{
  Code, char, uchar, short, ushort, int, uint, float, long, ulong, double, long_double, custom,
  Mode, add, multiply, maximum, minimum, is_undefined, Floats, whole, operand, assigned, on_whole,
  variable_operation, variable_assign,
}
use libdsys.Reduce.{done, get_requests, assign_units, combine_rows, sum_reduce, mul_reduce}
use libdsys.Reduce.Rows.{
  AllLong, column, fold, step, get_or-assign_units, length-assign_units, get_or-combine_rows,
}

unfoldable pub total : List ℕ → ℕ
total [] = 0
total (x ∷ xs) = x + total xs

unfoldable pub product : List ℕ → ℕ
product [] = 1
product (x ∷ xs) = x * product xs

mod-mul-mod : (a x m : ℕ) → (a % m * x) % m ≡ (a * x) % m
mod-mul-mod a x m =
    sym (add-mul-mod_self_left (a % m * x) m (a / m * x))
    ∙ ap (λ k. k % m) (omega (arith, ap (λ (t : ℕ). t * x) (div-add-mod a m)))

-- The pattern of a sum or a product, where it is defined.
abbrev pub result : ℕ → Mode → ℕ → ℕ → ℕ
result w add y z = (y + z) % 2 ^ w
result w multiply y z = (y * z) % 2 ^ w
result w maximum y z = z
result w minimum y z = z

-- No step of a sum or a product of several values, from a value on, is undefined.
unfoldable pub AllDefined : Bool → ℕ → Mode → ℕ → List ℕ → Type 0
AllDefined s w mode acc [] = Unit {0}
AllDefined s w mode acc (x ∷ xs) =
    (is_undefined s w mode acc x ≡ false) × AllDefined s w mode (result w mode acc x) xs

module _ (f : Floats) (c : Code) (s : Bool) (w : ℕ) (is : operand c ≡ whole s w) where
  step_whole : (mode : Mode) (x z : ℕ) → step f c mode x z ≡ on_whole (f.undefined c) s w mode x z
  unfolding variable_operation
  step_whole mode x z = rw (variable_operation, is) refl

  defined_add : (y z : ℕ) → is_undefined s w add y z ≡ false → step f c add y z ≡ (y + z) % 2 ^ w
  unfolding on_whole
  defined_add y z d = step_whole add y z ∙ if_of_false (is_undefined s w add y z) _ _ d

  defined_multiply :
      (y z : ℕ) → is_undefined s w multiply y z ≡ false → step f c multiply y z ≡ (y * z) % 2 ^ w
  unfolding on_whole
  defined_multiply y z d =
      step_whole multiply y z ∙ if_of_false (is_undefined s w multiply y z) _ _ d

  fold_add :
      (xs : List ℕ) (acc : ℕ)
      → AllDefined s w add (acc % 2 ^ w) xs
      → fold (step f c add) (acc % 2 ^ w) xs ≡ (acc + total xs) % 2 ^ w
  unfolding fold total AllDefined
  fold_add [] acc d = ap (λ k. k % 2 ^ w) (omega arith)
  fold_add (x ∷ xs) acc (d, ds) =
      ap (λ k. fold (step f c add) k xs) (defined_add (acc % 2 ^ w) x d ∙ mod-add-mod acc (2 ^ w) x)
      ∙ fold_add xs (acc + x) (subst (λ k. AllDefined s w add k xs) (mod-add-mod acc (2 ^ w) x) ds)
      ∙ ap (λ k. k % 2 ^ w) (omega arith)

  fold_multiply :
      (xs : List ℕ) (acc : ℕ)
      → AllDefined s w multiply (acc % 2 ^ w) xs
      → fold (step f c multiply) (acc % 2 ^ w) xs ≡ (acc * product xs) % 2 ^ w
  unfolding fold product AllDefined
  fold_multiply [] acc d = ap (λ k. k % 2 ^ w) (omega arith)
  fold_multiply (x ∷ xs) acc (d, ds) =
      ap (λ k. fold (step f c multiply) k xs)
        (defined_multiply (acc % 2 ^ w) x d ∙ mod-mul-mod acc x (2 ^ w))
      ∙ fold_multiply xs (acc * x)
          (subst (λ k. AllDefined s w multiply k xs) (mod-mul-mod acc x (2 ^ w)) ds)
      ∙ ap (λ k. k % 2 ^ w) (mul_assoc acc x (product xs))

-- The initial values.
assign_whole :
    (f : Floats) (c : Code) (s : Bool) (w old value : ℕ)
    → operand c ≡ whole s w
    → variable_assign f c old value ≡ value % 2 ^ w
unfolding operand assigned variable_assign
assign_whole f char s w old value is = ground arith
assign_whole f uchar s w old value is = ground arith
assign_whole f short s w old value is = ground arith
assign_whole f ushort s w old value is = ground arith
assign_whole f int s w old value is = ground arith
assign_whole f uint s w old value is = ground arith
assign_whole f float s w old value is = ground arith
assign_whole f long s w old value is = ground arith
assign_whole f ulong s w old value is = ground arith
assign_whole f double s w old value is = ground arith
assign_whole f long_double s w old value is = ground arith
assign_whole f custom s w old value is = ground arith

-- For a type that the switch treats as integers of `w` bits, and producers that all send `du` units:
-- with memory given, the sum and the product reductions ask every producer once. Where C defines every
-- step of the sum of the units `j` of all producers from 0 on, unit `j` of the result has the pattern of
-- that sum modulo 2 ^ w, and likewise for the product from 1 on, whatever the local data were. Beyond
-- `du` units these stay as they were. A step on int or long must not leave the type, and a product of
-- unsigned shorts must not leave int.
pub sum_mul_lem :
    (f : Floats) (c : Code) (s : Bool) (w : ℕ) (ranks tags : List ℕ) (du : ℕ) (rows : List (List ℕ))
    (local : List ℕ)
    → operand c ≡ whole s w
    → du ≤ length local
    → AllLong rows du
    → (sums products : List ℕ) × (sum_reduce f c true ranks tags du rows local
        ≡ done (get_requests ranks tags du) sums)
      × (mul_reduce f c true ranks tags du rows local ≡ done (get_requests ranks tags du) products)
      × ((j : ℕ)
          → j < du
          → (AllDefined s w add (0 % 2 ^ w) (column rows j)
              → get_or sums j 0 ≡ total (column rows j) % 2 ^ w)
            × (AllDefined s w multiply (1 % 2 ^ w) (column rows j)
                → get_or products j 0 ≡ product (column rows j) % 2 ^ w))
      × ((j : ℕ)
          → du ≤ j
          → (get_or sums j 0 ≡ get_or local j 0) × (get_or products j 0 ≡ get_or local j 0))
unfolding sum_reduce mul_reduce
sum_mul_lem f c s w ranks tags du rows local is h a = (
  combine_rows f c add du rows (assign_units f c 0 du local),
  combine_rows f c multiply du rows (assign_units f c 1 du local),
  refl,
  refl,
  λ j b. (
    λ d.
        at add 0 j
        ∙ if_of_true (ltb j du) _ _ (ground arith)
        ∙ fold_add f c s w is (column rows j) 0 d
        ∙ ap (λ k. k % 2 ^ w) (omega arith),
    λ d.
        at multiply 1 j
        ∙ if_of_true (ltb j du) _ _ (ground arith)
        ∙ fold_multiply f c s w is (column rows j) 1 d
        ∙ ap (λ k. k % 2 ^ w) (omega arith),
  ),
  λ j b. (
    at add 0 j ∙ if_of_false (ltb j du) _ _ (ground arith),
    at multiply 1 j ∙ if_of_false (ltb j du) _ _ (ground arith),
  ),
)
  where
    at :
        (mode : Mode) (value j : ℕ)
        → get_or (combine_rows f c mode du rows (assign_units f c value du local)) j 0 ≡ (
            if ltb j du
            then fold (step f c mode) (value % 2 ^ w) (column rows j)
            else get_or local j 0)
    at mode value j = ground (
      arith,
      get_or-combine_rows f c mode du rows (assign_units f c value du local) j,
      length-assign_units f c value du local,
      get_or-assign_units f c value du local j,
      assign_whole f c s w (get_or local j 0) value,
    )
