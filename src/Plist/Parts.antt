-- ===== src/Plist/Parts.antt =====
-- The loops of `__bc_plist_equal_division` of libdsys/plist.c, list by list.
use mathlib.Core.Path.{subst}
use libdsys.Prelude.{
  ℕ, zero, suc, ◌+◌, ◌-◌, ◌*◌, ◌/◌, ◌%◌, ◌≤◌, ◌<◌, ◌≡◌, refl, sym, ap, ◌∙◌, true, Option, none,
  some, List, [], ◌∷◌, ◌++◌, arith, ltb, ◌==◌, if◌then◌else◌, length, get_or, set, take, drop,
  replicate, append_assoc, length-append, length-drop, length-take, drop-drop, drop_at,
}
use libdsys.Prelude.Int.{ℤ, pos, minus_one, eqb_iff}
use libdsys.Plist.{
  custom, Plist, left, out_of_bounds, result, plist_set, plist_create_empty, values,
}

-- The loop over `j`: the values from the cursor on go to the locations from `j` on.
unfoldable pub fill : Option Plist → ℕ → List ℤ → Option Plist
fill pl j [] = pl
fill pl j (v ∷ vs) = elim (plist_set pl j v) [
  | out_of_bounds ↦ none
  | result code pl' ↦ fill pl' (suc j) vs
]

-- One list of the division; memory is given.
unfoldable pub make_part : ℕ → List ℤ → Option Plist
make_part n vs = fill (plist_create_empty n true true) 0 vs

-- The loop over `i`, with what it leaves behind the cursor.
unfoldable pub make_parts : ℕ → ℕ → List ℤ → List (Option Plist) × List ℤ
make_parts per zero vs = ([], vs)
make_parts per (suc k) vs =
    let (parts, rest) = make_parts per k (drop per vs) in
    (make_part per (take per vs) ∷ parts, rest)

-- `__bc_plist_equal_division` into a positive number of lists; `none` is the result -1.
unfoldable pub equal_division : Plist → ℕ → Option (List (Option Plist))
equal_division pl num =
    let per_plist = pl.count / num in
    let extra = pl.count % num in
    let (even, rest_even) = make_parts per_plist num (values pl) in
    let (most, rest) = make_parts per_plist (num - 1) (values pl) in
    if ltb pl.count num
    then none
    else if extra == 0
    then some even
    else some (most ++ make_part (per_plist + extra) (take (per_plist + extra) rest) ∷ [])

-- A list that has exactly these values, all assigned.
pub record Holds (vs : List ℤ) (pl : Plist) : Type 0 where
  pub entries : pl.entries ≡ vs
  pub count : pl.count ≡ length vs
  pub valid : pl.valid ≡ pos 0

pub set-append :
    (xs ys : List ℤ) (y v : ℤ) → set (xs ++ y ∷ ys) (length xs) v ≡ (xs ++ v ∷ []) ++ ys
set-append [] ys y v = refl
set-append (x ∷ xs) ys y v = ap (λ zs. x ∷ zs) (set-append xs ys y v)

pub get_or_append_self : (xs ys : List ℤ) (y d : ℤ) → get_or (xs ++ y ∷ ys) (length xs) d ≡ y
get_or_append_self [] ys y d = refl
get_or_append_self (x ∷ xs) ys y d = get_or_append_self xs ys y d

-- The first entry that is not assigned is the next one to be filled.
pub set_next :
    (done rest : List ℤ) (x : ℤ) (n : ℕ) (pl : Plist)
    → pl.entries ≡ done ++ minus_one ∷ rest
    → length done < pl.count
    → pl.valid ≡ pos (suc n)
    → plist_set (some pl) (length done) x
      ≡ result
          (left (pos n))
          (some (record pl { valid = pos n; entries = (done ++ x ∷ []) ++ rest }))
unfolding plist_set
set_next done rest x n pl e c v = ground (
  arith,
  length-append done (minus_one ∷ rest),
  get_or_append_self done rest minus_one minus_one,
  set-append done rest minus_one x,
  eqb_iff minus_one minus_one,
)

-- Filling goes on from a list whose first entries are assigned and whose others are not.
pub fill_lem :
    (done vs : List ℤ) (pl : Plist)
    → pl.entries ≡ done ++ replicate (length vs) minus_one
    → pl.count ≡ length done + length vs
    → pl.valid ≡ pos (length vs)
    → (pl' : Plist) × (fill (some pl) (length done) vs ≡ some pl') × Holds (done ++ vs) pl'
unfolding fill
fill_lem done [] pl e c v =
    (pl, refl, record { entries = e; count = omega (arith, length-append done []); valid = v })
fill_lem done (x ∷ vs) pl e c v =
    let rest = replicate (length vs) minus_one in
    let next = record pl { valid = pos (length vs); entries = (done ++ x ∷ []) ++ rest } in
    let (pl', filled, holds) =
      fill_lem (done ++ x ∷ []) vs next refl (omega (arith, length-append done (x ∷ []))) refl in
    (
      pl',
      rw (set_next done rest x (length vs) pl e (omega arith) v, fill)
          (ap (λ j. fill (some next) j vs) (omega (arith, length-append done (x ∷ []))) ∙ filled),
      subst (λ us. Holds us pl') (append_assoc done (x ∷ []) vs) holds,
    )

pub make_part_lem :
    (n : ℕ) (vs : List ℤ)
    → 0 < n
    → length vs ≡ n
    → (pl : Plist) × (make_part n vs ≡ some pl) × Holds vs pl
unfolding make_part plist_create_empty
make_part_lem zero vs h e = elim h [ ]
make_part_lem (suc n) vs h e =
    fill_lem [] vs
      (record {
        type = custom;
        count = suc n;
        valid = pos (suc n);
        entries = replicate (suc n) minus_one;
        rc = pos 1;
      })
      (ap (λ k. replicate k minus_one) (sym e)) (omega arith) (ap pos (sym e))

-- Every list of a division exists and holds its share.
unfoldable pub AllHold : List (List ℤ) → List (Option Plist) → Type 0
AllHold [] [] = Unit {0}
AllHold [] (p ∷ ps) = ⊥
AllHold (vs ∷ rest) [] = ⊥
AllHold (vs ∷ rest) (p ∷ ps) = ((pl : Plist) × (p ≡ some pl) × Holds vs pl) × AllHold rest ps

-- The shares: `k` lists of `per` values each, and the rest.
unfoldable pub shares : ℕ → ℕ → List ℤ → List (List ℤ)
shares per zero vs = []
shares per (suc k) vs = take per vs ∷ shares per k (drop per vs)

pub make_parts_lem :
    (per k : ℕ) (vs : List ℤ)
    → 0 < per
    → k * per ≤ length vs
    → AllHold (shares per k vs) (make_parts per k vs).0
      × ((make_parts per k vs).1 ≡ drop (k * per) vs)
unfolding make_parts shares AllHold
make_parts_lem per zero vs p h = (tt, drop_at 0 (0 * per) vs (omega arith))
make_parts_lem per (suc k) vs p h =
    let room : per ≤ length vs = omega arith in
    let (rest, left_over) =
      make_parts_lem per k (drop per vs) p (omega (arith, length-drop per vs)) in
    (
      (make_part_lem per (take per vs) p (omega (arith, length-take per vs)), rest),
      left_over
          ∙ drop-drop (k * per) per vs
          ∙ drop_at (per + k * per) (suc k * per) vs (omega arith),
    )
