-- ===== src/Reduce/Tests.antt =====
-- Reductions of libdsys/reduce.c on small rows, and instances of the theorems.
use libdsys.Prelude.{
  take, ℕ, ◌+◌, ◌*◌, ◌%◌, ◌^◌, ◌≤◌, ◌<◌, ◌≡◌, refl, true, false, none, some, List, [], ◌∷◌, ◌++◌,
  arith, get_or,
}
use libdsys.Variable.{
  add, multiply, short, char, Floats, operand, assigned, is_undefined, leaves, on_whole,
  variable_operation, variable_assign, whole,
}
use libdsys.Reduce.{
  Request, done, get_requests, sum_reduce, mul_reduce, max_reduce, min_reduce, minmax_reduce,
  pick_reduce, combine_rows, combine_units, assign_units, collect, collect_any,
}
use libdsys.Reduce.Rows.{AllLong, column}
use libdsys.Reduce.Sums.{AllDefined, total, product, sum_mul_lem}
use libdsys.Reduce.Extremes.{extremes_lem}
use libdsys.Reduce.Picks.{IsLeast, IsGreatest}
use libdsys.Reduce.Store.{units_asked, collect_lem}
use libdsys.Reduce.Poll.{one_each, rounds_of, silent, silent_rounds, collect_any_lem}

abbrev exact : Floats
exact = record {
  sum = λ c x y. x + y;
  product = λ c x y. x * y;
  gt = λ c x y. false;
  lt = λ c x y. true;
  of_nat = λ c n. n;
  undefined = λ c m x y. 0;
}

abbrev ranks : List ℕ
ranks = 1 ∷ 3 ∷ []

abbrev tags : List ℕ
tags = 0 ∷ 5 ∷ []

abbrev first : List ℕ
first = 65535 ∷ 4 ∷ []

abbrev second : List ℕ
second = 3 ∷ 40000 ∷ []

abbrev local : List ℕ
local = 8 ∷ 8 ∷ 8 ∷ 8 ∷ 8 ∷ []

rows_long : AllLong (first ∷ second ∷ []) 2
unfolding AllLong
rows_long = (omega arith, (omega arith, tt))

is_short : operand short ≡ whole true 16
unfolding operand
is_short = refl

-- The pattern 65535 of a short is -1.
least_short :
    min_reduce exact short true ranks tags 2 (first ∷ second ∷ []) local
    ≡ done (get_requests ranks tags 2) (65535 ∷ 40000 ∷ 8 ∷ 8 ∷ 8 ∷ [])
unfolding min_reduce pick_reduce combine_rows combine_units variable_operation operand on_whole
least_short = refl

-- The sum of characters is not formed.
sum_char :
    sum_reduce exact char true ranks tags 1 ((5 ∷ []) ∷ (6 ∷ []) ∷ []) local
    ≡ done (get_requests ranks tags 1) (0 ∷ 8 ∷ 8 ∷ 8 ∷ 8 ∷ [])
unfolding sum_reduce combine_rows combine_units assign_units variable_assign assigned
    variable_operation operand
sum_char = refl

-- Sums and products of shorts are always defined.
short_defined :
    (j : ℕ)
    → j < 2
    → AllDefined true 16 add (0 % 2 ^ 16) (column (first ∷ second ∷ []) j)
      × AllDefined true 16 multiply (1 % 2 ^ 16) (column (first ∷ second ∷ []) j)
unfolding AllDefined is_undefined
short_defined j b = ((refl, (refl, tt)), (refl, (refl, tt)))

-- The sum of two ints that leaves the type.
int_leaves : is_undefined true 32 add 2000000000 2000000000 ≡ true
unfolding is_undefined leaves
int_leaves = refl

ushort_leaves : is_undefined false 16 multiply 60000 60000 ≡ true
unfolding is_undefined
ushort_leaves = refl

minus_one_fits : is_undefined true 32 multiply 4294967295 4294967295 ≡ false
unfolding is_undefined leaves
minus_one_fits = refl

sum_mul_lem_example :
    (sums products : List ℕ) × (sum_reduce exact short true ranks tags 2 (first ∷ second ∷ []) local
      ≡ done (get_requests ranks tags 2) sums)
    × (mul_reduce exact short true ranks tags 2 (first ∷ second ∷ []) local
        ≡ done (get_requests ranks tags 2) products)
    × ((j : ℕ)
        → j < 2
        → (AllDefined true 16 add (0 % 2 ^ 16) (column (first ∷ second ∷ []) j)
            → get_or sums j 0 ≡ total (column (first ∷ second ∷ []) j) % 2 ^ 16)
          × (AllDefined true 16 multiply (1 % 2 ^ 16) (column (first ∷ second ∷ []) j)
              → get_or products j 0 ≡ product (column (first ∷ second ∷ []) j) % 2 ^ 16))
    × ((j : ℕ)
        → 2 ≤ j
        → (get_or sums j 0 ≡ get_or local j 0) × (get_or products j 0 ≡ get_or local j 0))
sum_mul_lem_example =
    sum_mul_lem exact short true 16 ranks tags 2 (first ∷ second ∷ []) local is_short (omega arith)
      rows_long

extremes_lem_example :
    (high low both : List ℕ) × (max_reduce exact short true ranks tags 2 (first ∷ second ∷ []) local
      ≡ done (get_requests ranks tags 2) high)
    × (min_reduce exact short true ranks tags 2 (first ∷ second ∷ []) local
        ≡ done (get_requests ranks tags 2) low)
    × (minmax_reduce exact short true ranks tags 2 (first ∷ second ∷ []) local
        ≡ done (get_requests ranks tags 2) both)
    × ((j : ℕ)
        → j < 2
        → IsGreatest true 16 (get_or high j 0) (column (first ∷ second ∷ []) j)
          × IsLeast true 16 (get_or low j 0) (column (first ∷ second ∷ []) j)
          × (get_or both j 0 ≡ get_or low j 0)
          × (get_or both (2 + j) 0 ≡ get_or high j 0))
    × ((j : ℕ) → 2 ≤ j → (get_or high j 0 ≡ get_or local j 0) × (get_or low j 0 ≡ get_or local j 0))
    × ((j : ℕ) → 2 + 2 ≤ j → get_or both j 0 ≡ get_or local j 0)
extremes_lem_example =
    extremes_lem exact short true 16 ranks tags 2 first (second ∷ []) local is_short rows_long

collect_lem_example :
    (asked : List Request) × (after : List ℕ) × (collect ranks tags 2 (first ∷ second ∷ []) local
      ≡ (asked, after))
    × (units_asked asked ≡ 2 * 2)
    × ((i j : ℕ)
        → i < 2
        → j < 2
        → get_or after (i * 2 + j) 0 ≡ get_or (get_or (first ∷ second ∷ []) i []) j 0)
    × ((j : ℕ) → get_or after (2 * 2 + j) 0 ≡ get_or local (2 * 2 + j) 0)
collect_lem_example = collect_lem ranks tags 2 (first ∷ second ∷ []) local refl refl rows_long

collect_any_lem_example :
    (collect_any ranks tags 2 (silent_rounds 2 3) local ≡ none)
    × (1 < 2
        → 2 ≤ 2
        → (after : List ℕ) × (collect_any ranks tags 2
              (silent_rounds 2 3 ++ (silent 1 ++ some second ∷ []) ∷ [])
              local
            ≡ some (rounds_of 3 (one_each ranks tags 2) ++ take 2 (one_each ranks tags 2), after))
          × ((j : ℕ) → j < 2 → get_or after j 0 ≡ get_or second j 0)
          × ((j : ℕ) → 2 ≤ j → get_or after j 0 ≡ get_or local j 0))
collect_any_lem_example = collect_any_lem ranks tags 2 local 3 1 second [] [] refl
