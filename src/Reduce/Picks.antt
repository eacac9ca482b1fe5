-- ===== src/Reduce/Picks.antt =====
-- Picking the better of two values in turn, the loops for maximum and minimum of libdsys/reduce.c.
use libdsys.Prelude.{
  ℕ, zero, suc, ◌<◌, ◌≡◌, ◌⊎◌, refl, sym, ◌∙◌, ap, Bool, true, false, List, [], ◌∷◌, arith,
  if◌then◌else◌, inl, inr, Bool-cases, length, get_or,
}
use libdsys.Prelude.Int.{ltb_ℤ_irrefl, ltb_ℤ_asymm, ltb_ℤ_neg_trans}
use libdsys.Variable.{
  Code, Mode, maximum, minimum, Floats, whole, operand, number, less, on_whole, variable_operation,
}
use libdsys.Reduce.Rows.{fold, step}

pub each :
    (p : ℕ → Type 0) (x : ℕ) (xs : List ℕ) (k : ℕ)
    → p x
    → ((m : ℕ) → m < length xs → p (get_or xs m 0))
    → k < length (x ∷ xs)
    → p (get_or (x ∷ xs) k 0)
each p x xs zero h all b = h
each p x xs (suc m) h all b = all m (omega arith)

module _ (beats : ℕ → ℕ → Bool) (irrefl : (a : ℕ) → beats a a ≡ false)
    (asymm : (a b : ℕ) → beats a b ≡ true → beats b a ≡ false)
    (neg_trans : (a b c : ℕ) → beats a b ≡ false → beats b c ≡ false → beats a c ≡ false)
    (pick : ℕ → ℕ → ℕ) (pick_lem : (a b : ℕ) → pick a b ≡ (if beats a b then a else b)) where
  -- Picking the better one in turn leaves one that none beats.
  pub fold_pick :
      (xs : List ℕ) (acc : ℕ)
      → (beats acc (fold pick acc xs) ≡ false)
        × ((k : ℕ) → k < length xs → beats (get_or xs k 0) (fold pick acc xs) ≡ false)
        × ((fold pick acc xs ≡ acc)
            ⊎ ((k : ℕ) × (k < length xs) × (fold pick acc xs ≡ get_or xs k 0)))
  unfolding fold
  fold_pick [] acc = (irrefl acc, λ k b. elim b [ ], inl refl)
  fold_pick (x ∷ xs) acc =
      let (old, all, one) = fold_pick xs (pick acc x) in
      let r = fold pick (pick acc x) xs in
      elim (Bool-cases (beats acc x)) [
        | inl better ↦
            let same : pick acc x ≡ acc = rw (pick_lem acc x, better) refl in
            let kept : beats acc r ≡ false = ap (λ a. beats a r) (sym same) ∙ old in
            (
              kept,
              λ k.
                  each (λ a. beats a r ≡ false) x xs k (neg_trans x acc r (asymm acc x better) kept)
                    all,
              elim one [ inl e ↦ inl (e ∙ same) | inr (m, b, e) ↦ inr (suc m, omega arith, e) ],
            )
        | inr worse ↦
            let same : pick acc x ≡ x = rw (pick_lem acc x, worse) refl in
            let kept : beats x r ≡ false = ap (λ a. beats a r) (sym same) ∙ old in
            (
              neg_trans acc x r worse kept,
              λ k. each (λ a. beats a r ≡ false) x xs k kept all,
              elim one [
                | inl e ↦ inr (0, omega arith, e ∙ same)
                | inr (m, b, e) ↦ inr (suc m, omega arith, e)
              ],
            )
      ]

-- A value of a list that no other is less than, and one that is less than no other.
abbrev pub IsLeast : Bool → ℕ → ℕ → List ℕ → Type 0
IsLeast s w r xs =
    ((k : ℕ) → k < length xs → less s w (get_or xs k 0) r ≡ false)
    × (k : ℕ) × (k < length xs)
    × (r ≡ get_or xs k 0)

abbrev pub IsGreatest : Bool → ℕ → ℕ → List ℕ → Type 0
IsGreatest s w r xs =
    ((k : ℕ) → k < length xs → less s w r (get_or xs k 0) ≡ false)
    × (k : ℕ) × (k < length xs)
    × (r ≡ get_or xs k 0)

module _ (f : Floats) (c : Code) (s : Bool) (w : ℕ) (is : operand c ≡ whole s w) where
  pub step_whole :
      (mode : Mode) (x z : ℕ) → step f c mode x z ≡ on_whole (f.undefined c) s w mode x z
  unfolding variable_operation
  step_whole mode x z = rw (variable_operation, is) refl

  pub less_irrefl : (a : ℕ) → less s w a a ≡ false
  less_irrefl a = ltb_ℤ_irrefl (number s w a)

  pub less_asymm : (a b : ℕ) → less s w a b ≡ true → less s w b a ≡ false
  less_asymm a b = ltb_ℤ_asymm (number s w a) (number s w b)

  pub less_neg_trans :
      (a b d : ℕ) → less s w a b ≡ false → less s w b d ≡ false → less s w a d ≡ false
  less_neg_trans a b d = ltb_ℤ_neg_trans (number s w a) (number s w b) (number s w d)

  pub fold_minimum-IsLeast :
      (xs : List ℕ) (x : ℕ) → IsLeast s w (fold (step f c minimum) x xs) (x ∷ xs)
  unfolding on_whole
  fold_minimum-IsLeast xs x =
      let r = fold (step f c minimum) x xs in
      let (old, all, one) =
        fold_pick (less s w) less_irrefl less_asymm less_neg_trans (step f c minimum)
          (step_whole minimum) xs x in
      let every = λ (k : ℕ). each (λ a. less s w a r ≡ false) x xs k old all in
      elim one [
        | inl e ↦ (every, 0, omega arith, e)
        | inr (m, b, e) ↦ (every, suc m, omega arith, e)
      ]

  pub fold_maximum-IsGreatest :
      (xs : List ℕ) (x : ℕ) → IsGreatest s w (fold (step f c maximum) x xs) (x ∷ xs)
  unfolding on_whole
  fold_maximum-IsGreatest xs x =
      let r = fold (step f c maximum) x xs in
      let (old, all, one) =
        fold_pick (λ a b. less s w b a) less_irrefl (λ a b. less_asymm b a)
          (λ a b d h k. less_neg_trans d b a k h) (step f c maximum) (step_whole maximum) xs x in
      let every = λ (k : ℕ). each (λ a. less s w r a ≡ false) x xs k old all in
      elim one [
        | inl e ↦ (every, 0, omega arith, e)
        | inr (m, b, e) ↦ (every, suc m, omega arith, e)
      ]
