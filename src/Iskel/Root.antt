-- ===== src/Iskel/Root.antt =====
-- The smallest rank of a list, the root of an exchange of libdsys/iskel.c.
use mathlib.Core.Path.{subst}
use libdsys.Prelude.{
  ◌≤◌, ◌≡◌, sym, ap, ◌∙◌, true, false, List, [], ◌∷◌, arith, length, get_or, drop, if_of_true,
  if_of_false, Bool-cases, inl, inr,
}
use libdsys.Prelude.Int.{
  ℤ, pos, ltb_ℤ, ltb_ℤ_irrefl, ltb_ℤ_asymm, ltb_ℤ_neg_trans, eqb, eqb_iff, eqb_refl,
}
use libdsys.Plist.Members.{elem}
use libdsys.Iskel.Hub.{smallest}

-- A value that is in the list and that no value of the list is less than.
abbrev pub IsSmallest : ℤ → List ℤ → Type 0
IsSmallest r xs = (elem r xs ≡ true) × ((v : ℤ) → elem v xs ≡ true → ltb_ℤ v r ≡ false)

-- A value that is not less than one of the list can join it.
extend-IsSmallest :
    (r a b : ℤ) (ys : List ℤ)
    → IsSmallest r (b ∷ ys)
    → ltb_ℤ a b ≡ false
    → IsSmallest r (a ∷ b ∷ ys)
unfolding elem
extend-IsSmallest r a b ys (e, all) h = (
  ground (arith, e),
  λ v k. elim (Bool-cases (eqb v a)) [
    | inl same ↦
        ap (λ w. ltb_ℤ w r) ((eqb_iff v a).0 same)
        ∙ ltb_ℤ_neg_trans a b r h (all b (ground (arith, eqb_refl b)))
    | inr other ↦ all v (ground (arith, k))
  ],
)

swap-IsSmallest : (r a b : ℤ) (ys : List ℤ) → IsSmallest r (a ∷ b ∷ ys) → IsSmallest r (b ∷ a ∷ ys)
unfolding elem
swap-IsSmallest r a b ys (e, all) = (ground (arith, e), λ v k. all v (ground (arith, k)))

smallest_lem : (x : ℤ) (xs : List ℤ) → IsSmallest (smallest x xs) (x ∷ xs)
unfolding smallest elem
smallest_lem x [] = (ground (arith, eqb_refl x), λ v e. ground (arith, eqb_iff v x, ltb_ℤ_irrefl x))
smallest_lem x (y ∷ ys) = elim (Bool-cases (ltb_ℤ y x)) [
  | inl e ↦
      subst (λ b. IsSmallest (smallest b ys) (x ∷ y ∷ ys)) (sym (if_of_true (ltb_ℤ y x) y x e))
        (extend-IsSmallest (smallest y ys) x y ys (smallest_lem y ys) (ltb_ℤ_asymm y x e))
  | inr e ↦
      subst (λ b. IsSmallest (smallest b ys) (x ∷ y ∷ ys)) (sym (if_of_false (ltb_ℤ y x) y x e))
        (swap-IsSmallest (smallest x ys) y x ys
          (extend-IsSmallest (smallest x ys) y x ys (smallest_lem x ys) e))
]

unfoldable pub root_of : List ℤ → ℤ
root_of xs = smallest (get_or xs 0 (pos 0)) (drop 1 xs)

pub root_of-IsSmallest : (xs : List ℤ) → 1 ≤ length xs → IsSmallest (root_of xs) xs
unfolding root_of
root_of-IsSmallest [] h = absurd (omega arith)
root_of-IsSmallest (x ∷ xs) h = smallest_lem x xs
