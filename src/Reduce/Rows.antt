-- ===== src/Reduce/Rows.antt =====
-- The loops of libdsys/reduce.c over units and producers, unit by unit.
use libdsys.Prelude.{
  ℕ, zero, suc, ◌≤◌, ◌≡◌, refl, ◌∙◌, ap, List, [], ◌∷◌, arith, ltb, if◌then◌else◌, length, get_or,
  map,
}
use libdsys.Variable.{Code, Mode, Floats, variable_operation, variable_assign}
use libdsys.Reduce.{assign_units, combine_units, combine_rows}

-- Every row has `du` units.
unfoldable pub AllLong : List (List ℕ) → ℕ → Type 0
AllLong [] du = Unit {0}
AllLong (row ∷ rows) du = (du ≤ length row) × AllLong rows du

-- The values at one place of all rows.
abbrev pub column : List (List ℕ) → ℕ → List ℕ
column rows j = map (λ row. get_or row j 0) rows

unfoldable pub fold : (ℕ → ℕ → ℕ) → ℕ → List ℕ → ℕ
fold op acc [] = acc
fold op acc (x ∷ xs) = fold op (op acc x) xs

module _ (f : Floats) (c : Code) where
  pub get_or-assign_units :
      (value n : ℕ) (local : List ℕ) (j : ℕ)
      → n ≤ length local
      → get_or (assign_units f c value n local) j 0
        ≡ (if ltb j n then variable_assign f c (get_or local j 0) value else get_or local j 0)
  unfolding assign_units
  get_or-assign_units value zero local j h = ground arith
  get_or-assign_units value (suc n) [] j h = absurd (omega arith)
  get_or-assign_units value (suc n) (x ∷ local) zero h = ground arith
  get_or-assign_units value (suc n) (x ∷ local) (suc j) h =
      ground (arith, get_or-assign_units value n local j)

  pub length-assign_units :
      (value n : ℕ) (local : List ℕ) → length (assign_units f c value n local) ≡ length local
  unfolding assign_units
  length-assign_units value zero local = refl
  length-assign_units value (suc n) [] = refl
  length-assign_units value (suc n) (x ∷ local) = ap suc (length-assign_units value n local)

  module _ (mode : Mode) where
    -- `x = x (op) z`
    abbrev pub step : ℕ → ℕ → ℕ
    step x z = variable_operation f c mode x x z

    get_or-combine_units :
        (n : ℕ) (out temp : List ℕ) (j : ℕ)
        → n ≤ length out
        → n ≤ length temp
        → get_or (combine_units f c mode n out temp) j 0
          ≡ (if ltb j n then step (get_or out j 0) (get_or temp j 0) else get_or out j 0)
    unfolding combine_units
    get_or-combine_units zero out temp j h k = ground arith
    get_or-combine_units (suc n) [] temp j h k = absurd (omega arith)
    get_or-combine_units (suc n) (x ∷ out) [] j h k = absurd (omega arith)
    get_or-combine_units (suc n) (x ∷ out) (t ∷ temp) zero h k = ground arith
    get_or-combine_units (suc n) (x ∷ out) (t ∷ temp) (suc j) h k =
        ground (arith, get_or-combine_units n out temp j)

    pub length-combine_units :
        (n : ℕ) (out temp : List ℕ) → length (combine_units f c mode n out temp) ≡ length out
    unfolding combine_units
    length-combine_units zero out temp = refl
    length-combine_units (suc n) [] temp = refl
    length-combine_units (suc n) (x ∷ out) [] = refl
    length-combine_units (suc n) (x ∷ out) (t ∷ temp) = ap suc (length-combine_units n out temp)

    pub length-combine_rows :
        (n : ℕ) (rows : List (List ℕ)) (local : List ℕ)
        → length (combine_rows f c mode n rows local) ≡ length local
    unfolding combine_rows
    length-combine_rows n [] local = refl
    length-combine_rows n (temp ∷ rows) local =
        length-combine_rows n rows (combine_units f c mode n local temp)
        ∙ length-combine_units n local temp

    -- A unit that is received is the operation over its place in all rows; any other is as before.
    pub get_or-combine_rows :
        (n : ℕ) (rows : List (List ℕ)) (local : List ℕ) (j : ℕ)
        → n ≤ length local
        → AllLong rows n
        → get_or (combine_rows f c mode n rows local) j 0
          ≡ (if ltb j n then fold step (get_or local j 0) (column rows j) else get_or local j 0)
    unfolding combine_rows fold AllLong
    get_or-combine_rows n [] local j h a = ground arith
    get_or-combine_rows n (temp ∷ rows) local j h (k, a) = ground (
      arith,
      get_or-combine_rows n rows (combine_units f c mode n local temp) j,
      get_or-combine_units n local temp j,
      length-combine_units n local temp,
    )
