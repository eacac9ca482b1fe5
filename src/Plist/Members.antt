-- ===== src/Plist/Members.antt =====
-- Which values a process list of libdsys/plist.c has, and what `bc_plist_iselem` says of it.
use libdsys.Prelude.{
  ◌≡◌, refl, Bool, true, false, not, ◌&&◌, ◌||◌, some, List, [], ◌∷◌, ◌++◌, arith,
}
use libdsys.Prelude.Int.{ℤ, eqb, eqb_iff}
use libdsys.Plist.{Plist, scan_for, plist_iselem, values}

unfoldable pub elem : ℤ → List ℤ → Bool
elem v [] = false
elem v (x ∷ xs) = eqb v x || elem v xs

-- No value stands twice.
unfoldable pub distinct : List ℤ → Bool
distinct [] = true
distinct (x ∷ xs) = not (elem x xs) && distinct xs

pub elem-append : (v : ℤ) (xs ys : List ℤ) → elem v (xs ++ ys) ≡ (elem v xs || elem v ys)
unfolding elem
elem-append v [] ys = refl
elem-append v (x ∷ xs) ys = ground (arith, elem-append v xs ys)

scan_for_lem : (v : ℤ) (xs : List ℤ) → scan_for v xs ≡ elem v xs
unfolding scan_for elem
scan_for_lem v [] = refl
scan_for_lem v (x ∷ xs) = ground (arith, scan_for_lem v xs, eqb_iff v x, eqb_iff x v)

-- Whatever rank it is asked for, `bc_plist_iselem` tells whether the calling process is in the list.
pub plist_iselem_lem :
    (me rank : ℤ) (pl : Plist) → plist_iselem me (some pl) rank ≡ elem me (values pl)
unfolding plist_iselem
plist_iselem_lem me rank pl = scan_for_lem me (values pl)
