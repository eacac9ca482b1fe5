-- ===== src/Plist/Union.antt =====
-- `bc_plist_union` of libdsys/plist.c, against the union of sets.
use libdsys.Prelude.{
  ℕ, ◌+◌, ◌≤◌, ◌≡◌, refl, ap, ◌∙◌, Bool, true, false, not, ◌||◌, Option, none, some, List, [], ◌∷◌,
  arith, if◌then◌else◌, length, map, take-length,
}
use libdsys.Prelude.Int.{ℤ, pos, eqb, eqb_iff}
use libdsys.Plist.{Plist, values, made_of, some_invalid}
use libdsys.Plist.Members.{elem, distinct}

-- The loop over `k`: past the values in the list to the one that is equal, or to the end.
unfoldable pub add_value : List ℤ → ℤ → List ℤ
add_value [] v = v ∷ []
add_value (x ∷ xs) v = if eqb x v then x ∷ xs else x ∷ add_value xs v

-- The loop over `j`.
unfoldable pub add_values : List ℤ → List ℤ → List ℤ
add_values list [] = list
add_values list (v ∷ vs) = add_values (add_value list v) vs

-- The loop over `i`, from the second list on.
unfoldable pub add_lists : List ℤ → List (List ℤ) → List ℤ
add_lists list [] = list
add_lists list (vs ∷ rest) = add_lists (add_values list vs) rest

-- `bc_plist_union` of one list or more; the arguments at the end are what malloc returned for the
-- pointers, the values and the new list.
unfoldable pub plist_union : Plist → List Plist → Bool → Bool → Bool → Option Plist
plist_union pl pls pointers block node =
    if not pointers || some_invalid (pl ∷ pls) || not block || not node
    then none
    else some (made_of (add_lists (values pl) (map values pls)))

elem-add_value : (v : ℤ) (xs : List ℤ) (w : ℤ) → elem v (add_value xs w) ≡ (elem v xs || eqb v w)
unfolding elem add_value
elem-add_value v [] w = ground arith
elem-add_value v (x ∷ xs) w =
    ground (arith, elem-add_value v xs w, eqb_iff x w, eqb_iff v x, eqb_iff v w)

elem-add_values : (v : ℤ) (xs vs : List ℤ) → elem v (add_values xs vs) ≡ (elem v xs || elem v vs)
unfolding elem add_values
elem-add_values v xs [] = ground arith
elem-add_values v xs (w ∷ vs) =
    ground (arith, elem-add_values v (add_value xs w) vs, elem-add_value v xs w)

-- A value is in some list of a sequence of lists.
unfoldable pub elem_any : ℤ → List (List ℤ) → Bool
elem_any v [] = false
elem_any v (xs ∷ rest) = elem v xs || elem_any v rest

elem-add_lists :
    (v : ℤ) (xs : List ℤ) (lists : List (List ℤ))
    → elem v (add_lists xs lists) ≡ (elem v xs || elem_any v lists)
unfolding elem_any add_lists
elem-add_lists v xs [] = ground arith
elem-add_lists v xs (vs ∷ rest) =
    ground (arith, elem-add_lists v (add_values xs vs) rest, elem-add_values v xs vs)

distinct-add_value : (xs : List ℤ) (w : ℤ) → distinct xs ≡ true → distinct (add_value xs w) ≡ true
unfolding elem distinct add_value
distinct-add_value [] w h = ground arith
distinct-add_value (x ∷ xs) w h =
    ground (arith, distinct-add_value xs w, elem-add_value x xs w, eqb_iff x w)

distinct-add_values : (xs vs : List ℤ) → distinct xs ≡ true → distinct (add_values xs vs) ≡ true
unfolding add_values
distinct-add_values xs [] h = h
distinct-add_values xs (w ∷ vs) h =
    distinct-add_values (add_value xs w) vs (distinct-add_value xs w h)

distinct-add_lists :
    (xs : List ℤ) (lists : List (List ℤ))
    → distinct xs ≡ true
    → distinct (add_lists xs lists) ≡ true
unfolding add_lists
distinct-add_lists xs [] h = h
distinct-add_lists xs (vs ∷ rest) h =
    distinct-add_lists (add_values xs vs) rest (distinct-add_values xs vs h)

unfoldable pub total : List (List ℤ) → ℕ
total [] = 0
total (xs ∷ rest) = length xs + total rest

length-add_value : (xs : List ℤ) (w : ℤ) → length (add_value xs w) ≤ length xs + 1
unfolding add_value
length-add_value [] w = omega arith
length-add_value (x ∷ xs) w = ground (arith, length-add_value xs w)

length-add_values : (xs vs : List ℤ) → length (add_values xs vs) ≤ length xs + length vs
unfolding add_values
length-add_values xs [] = omega arith
length-add_values xs (w ∷ vs) =
    omega (arith, length-add_values (add_value xs w) vs, length-add_value xs w)

length-add_lists :
    (xs : List ℤ) (lists : List (List ℤ)) → length (add_lists xs lists) ≤ length xs + total lists
unfolding add_lists total
length-add_lists xs [] = omega arith
length-add_lists xs (vs ∷ rest) =
    omega (arith, length-add_lists (add_values xs vs) rest, length-add_values xs vs)

-- Of lists that are all valid `bc_plist_union` makes, if memory is given, the union: a value is in it
-- exactly when it is in one of the lists, the values do not outgrow the block of as many integers as
-- the lists have together, and no value stands twice if none does in the first list. With an invalid
-- list among them it makes none.
pub plist_union_lem :
    (pl : Plist) (pls : List Plist) (v : ℤ)
    → (some_invalid (pl ∷ pls) ≡ false
        → (u : Plist) × (plist_union pl pls true true true ≡ some u)
          × (elem v (values u) ≡ elem_any v (values pl ∷ map values pls))
          × (u.count ≤ total (values pl ∷ map values pls))
          × (u.valid ≡ pos 0)
          × (distinct (values pl) ≡ true → distinct (values u) ≡ true))
      × (some_invalid (pl ∷ pls) ≡ true → plist_union pl pls true true true ≡ none)
unfolding plist_union elem_any total
plist_union_lem pl pls v = (
  λ e. (
    made_of united,
    ground arith,
    ap (elem v) (take-length united) ∙ elem-add_lists v (values pl) (map values pls),
    length-add_lists (values pl) (map values pls),
    refl,
    λ d. ap distinct (take-length united) ∙ distinct-add_lists (values pl) (map values pls) d,
  ),
  λ e. ground arith,
)
  where
    united : List ℤ
    united = add_lists (values pl) (map values pls)
