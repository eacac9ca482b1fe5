-- ===== src/Reduce/Extremes.antt =====
-- The greatest and the least values of libdsys/reduce.c over integers.
use mathlib.Core.Path.{subst}
use libdsys.Prelude.{
  ℕ, ◌+◌, ◌≤◌, ◌<◌, ◌≡◌, refl, sym, ◌∙◌, ap, Bool, true, List, [], ◌∷◌, ◌++◌, arith, ltb,
  if◌then◌else◌, length, get_or, take, drop, length-take, length-append, get_or-append, get_or-take,
  get_or-drop, ◌-◌, if_of_true, if_of_false,
}
use libdsys.Variable.{Code, Mode, maximum, minimum, Floats, whole, operand}
use libdsys.Reduce.{
  done, get_requests, combine_units, pick_reduce, combine_rows, max_reduce, min_reduce, minmax_rows,
  minmax_reduce,
}
use libdsys.Reduce.Rows.{AllLong, column, fold, step, length-combine_rows, get_or-combine_rows}
use libdsys.Reduce.Picks.{IsGreatest, IsLeast, fold_maximum-IsGreatest, fold_minimum-IsLeast}

-- The loop of the combined reduction is the two loops.
minmax_rows_lem :
    (f : Floats) (c : Code) (du : ℕ) (rows : List (List ℕ)) (low high : List ℕ)
    → minmax_rows f c du rows low high
      ≡ (combine_rows f c minimum du rows low, combine_rows f c maximum du rows high)
unfolding minmax_rows combine_rows
minmax_rows_lem f c du [] low high = refl
minmax_rows_lem f c du (temp ∷ rows) low high =
    minmax_rows_lem f c du rows (combine_units f c minimum du low temp)
      (combine_units f c maximum du high temp)

abbrev picked : Floats → Code → Mode → ℕ → List ℕ → List (List ℕ) → List ℕ → List ℕ
picked f c mode du first rows local = combine_rows f c mode du rows (take du first ++ drop du local)

abbrev half : Floats → Code → Mode → ℕ → List ℕ → List (List ℕ) → List ℕ
half f c mode du first rows = combine_rows f c mode du rows (take du first)

module _ (f : Floats) (c : Code) (mode : Mode) (du : ℕ) (first : List ℕ) (rows : List (List ℕ))
    (h : du ≤ length first) (a : AllLong rows du) where
  get_or-picked :
      (local : List ℕ) (j : ℕ)
      → get_or (picked f c mode du first rows local) j 0 ≡ (
          if ltb j du
          then fold (step f c mode) (get_or first j 0) (column rows j)
          else get_or local j 0)
  get_or-picked local j = ground (
    arith,
    get_or-combine_rows f c mode du rows (take du first ++ drop du local) j,
    length-append (take du first) (drop du local),
    length-take du first,
    get_or-append (take du first) (drop du local) j 0,
    get_or-take du first j 0,
    get_or-drop du local (j - du) 0,
  )

  length-half : length (half f c mode du first rows) ≡ du
  length-half =
      length-combine_rows f c mode du rows (take du first) ∙ omega (arith, length-take du first)

  get_or-half :
      (j : ℕ)
      → j < du
      → get_or (half f c mode du first rows) j 0
        ≡ fold (step f c mode) (get_or first j 0) (column rows j)
  get_or-half j b = ground (
    arith,
    get_or-combine_rows f c mode du rows (take du first) j,
    length-take du first,
    get_or-take du first j 0,
  )

get_or-halves :
    (low high rest : List ℕ) (du j : ℕ)
    → length low ≡ du
    → length high ≡ du
    → get_or (low ++ high ++ rest) j 0 ≡ (
        if ltb j (du + du)
        then (if ltb j du then get_or low j 0 else get_or high (j - du) 0)
        else get_or rest (j - (du + du)) 0)
get_or-halves low high rest du j h k =
    rw
      (
        get_or-append (low ++ high) rest j 0,
        get_or-append low high j 0,
        length-append low high,
        h,
        k,
      )
      refl

-- For a type that the switch treats as integers, with memory given, at least one producer, and
-- producers that all send `du` units: the greatest and the least values are found, unit by unit. Each
-- reduction asks every producer once. Unit `j` of the result of the maximum is a value that a producer
-- sent as its unit `j` and that is less than none of the others' units `j`, in the order of the signed
-- or unsigned type, and likewise for the minimum. The combined reduction has the minima in its first
-- `du` units and the maxima in the next `du`. Local data further on stay.
pub extremes_lem :
    (f : Floats) (c : Code) (s : Bool) (w : ℕ) (ranks tags : List ℕ) (du : ℕ) (first : List ℕ)
    (rows : List (List ℕ)) (local : List ℕ)
    → operand c ≡ whole s w
    → AllLong (first ∷ rows) du
    → (high low both : List ℕ) × (max_reduce f c true ranks tags du (first ∷ rows) local
        ≡ done (get_requests ranks tags du) high)
      × (min_reduce f c true ranks tags du (first ∷ rows) local
          ≡ done (get_requests ranks tags du) low)
      × (minmax_reduce f c true ranks tags du (first ∷ rows) local
          ≡ done (get_requests ranks tags du) both)
      × ((j : ℕ)
          → j < du
          → IsGreatest s w (get_or high j 0) (column (first ∷ rows) j)
            × IsLeast s w (get_or low j 0) (column (first ∷ rows) j)
            × (get_or both j 0 ≡ get_or low j 0)
            × (get_or both (du + j) 0 ≡ get_or high j 0))
      × ((j : ℕ)
          → du ≤ j
          → (get_or high j 0 ≡ get_or local j 0) × (get_or low j 0 ≡ get_or local j 0))
      × ((j : ℕ) → du + du ≤ j → get_or both j 0 ≡ get_or local j 0)
unfolding max_reduce min_reduce pick_reduce minmax_reduce AllLong
extremes_lem f c s w ranks tags du first rows local is (h, a) =
    let least = picked f c minimum du first rows local in
    let greatest = picked f c maximum du first rows local in
    let low = half f c minimum du first rows in
    let high = half f c maximum du first rows in
    let both = low ++ high ++ drop (du + du) local in
    let split = λ (j : ℕ).
      get_or-halves low high (drop (du + du) local) du j (length-half f c minimum du first rows h a)
        (length-half f c maximum du first rows h a) in
    (
      greatest,
      least,
      both,
      refl,
      refl,
      ap
          (λ (p : List ℕ × List ℕ).
            done (get_requests ranks tags du) (p.0 ++ p.1 ++ drop (du + du) local))
          (minmax_rows_lem f c du rows (take du first) (take du first)),
      λ j b.
          let least_at : get_or least j 0
              ≡ fold (step f c minimum) (get_or first j 0) (column rows j) =
            get_or-picked f c minimum du first rows h a local j
            ∙ if_of_true (ltb j du) _ _ (ground arith) in
          let greatest_at : get_or greatest j 0
              ≡ fold (step f c maximum) (get_or first j 0) (column rows j) =
            get_or-picked f c maximum du first rows h a local j
            ∙ if_of_true (ltb j du) _ _ (ground arith) in
          (
            subst (λ r. IsGreatest s w r (column (first ∷ rows) j)) (sym greatest_at)
                (fold_maximum-IsGreatest f c s w is (column rows j) (get_or first j 0)),
            subst (λ r. IsLeast s w r (column (first ∷ rows) j)) (sym least_at)
                (fold_minimum-IsLeast f c s w is (column rows j) (get_or first j 0)),
            ground (arith, split j, get_or-half f c minimum du first rows h a j b, least_at),
            ground (
              arith,
              split (du + j),
              ap (λ i. get_or high i 0) (right j),
              get_or-half f c maximum du first rows h a j b,
              greatest_at,
            ),
          ),
      λ j b. (
        get_or-picked f c maximum du first rows h a local j
            ∙ if_of_false (ltb j du) _ _ (ground arith),
        get_or-picked f c minimum du first rows h a local j
            ∙ if_of_false (ltb j du) _ _ (ground arith),
      ),
      λ j b. ground (arith, split j, get_or-drop (du + du) local (j - (du + du)) 0, at j b),
    )
  where
    at : (j : ℕ) → du + du ≤ j → get_or local (du + du + (j - (du + du))) 0 ≡ get_or local j 0
    at j b = ap (λ i. get_or local i 0) (omega arith)

    right : (j : ℕ) → du + j - du ≡ j
    right j = omega arith
