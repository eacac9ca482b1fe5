-- ===== src/Plist/Isect/Common.antt =====
-- `bc_plist_isect` of libdsys/plist.c, against the intersection of sets.
use libdsys.Prelude.{
  ℕ, ◌+◌, ◌≤◌, ◌<◌, ◌≡◌, refl, sym, ap, ◌∙◌, Bool, true, false, ◌&&◌, ◌||◌, none, some, List, [],
  ◌∷◌, arith, ◌==◌, inl, inr, Bool-cases, length, take, map, take-length, length-map, ◌⊎◌,
}
use libdsys.Prelude.Int.{ℤ, eqb, eqb_iff, eqb_refl}
use libdsys.Plist.{Plist, values, made_of, some_invalid}
use libdsys.Plist.Members.{elem, distinct}
use libdsys.Plist.Isect.{
  Tally, first_tallies, count_value, count_values, count_lists, gather, listed, inclusions,
  plist_isect,
}
use libdsys.Plist.Isect.Gather.{counted, gather_lem}
use libdsys.Plist.Isect.Count.{
  tally, tally-count_value, occurrences, all_distinct, tally-first_tallies, tally-count_lists,
}

listed-count_value :
    (v : ℤ) (ts : List Tally) (w : ℤ)
    → elem v (listed (count_value ts w)) ≡ (elem v (listed ts) || eqb v w)
unfolding elem count_value
listed-count_value v [] w = ground arith
listed-count_value v (t ∷ ts) w =
    ground (arith, listed-count_value v ts w, eqb_iff t.value w, eqb_iff v w, eqb_iff v t.value)

distinct-count_value :
    (ts : List Tally) (w : ℤ)
    → distinct (listed ts) ≡ true
    → distinct (listed (count_value ts w)) ≡ true
unfolding distinct elem count_value
distinct-count_value [] w d = refl
distinct-count_value (t ∷ ts) w d =
    ground (arith, distinct-count_value ts w, listed-count_value t.value ts w, eqb_iff t.value w)

distinct-count_values :
    (ts : List Tally) (ws : List ℤ)
    → distinct (listed ts) ≡ true
    → distinct (listed (count_values ts ws)) ≡ true
unfolding count_values
distinct-count_values ts [] d = d
distinct-count_values ts (w ∷ ws) d =
    distinct-count_values (count_value ts w) ws (distinct-count_value ts w d)

distinct-count_lists :
    (ts : List Tally) (lists : List (List ℤ))
    → distinct (listed ts) ≡ true
    → distinct (listed (count_lists ts lists)) ≡ true
unfolding count_lists
distinct-count_lists ts [] d = d
distinct-count_lists ts (ws ∷ rest) d =
    distinct-count_lists (count_values ts ws) rest (distinct-count_values ts ws d)

listed-first_tallies : (xs : List ℤ) → listed (first_tallies xs) ≡ xs
unfolding first_tallies
listed-first_tallies [] = refl
listed-first_tallies (x ∷ xs) = ap (λ ys. x ∷ ys) (listed-first_tallies xs)

tally_absent : (v : ℤ) (ts : List Tally) → elem v (listed ts) ≡ false → tally v ts ≡ 0
unfolding tally elem
tally_absent v [] h = refl
tally_absent v (t ∷ ts) h = ground (arith, tally_absent v ts, eqb_iff t.value v, eqb_iff v t.value)

-- A value is gathered exactly when it is counted in full.
elem-counted :
    (v : ℤ) (num : ℕ) (ts : List Tally)
    → 0 < num
    → distinct (listed ts) ≡ true
    → elem v (counted num ts) ≡ (tally v ts == num)
unfolding elem counted tally distinct
elem-counted v num [] p d = ground arith
elem-counted v num (t ∷ ts) p d =
    ground (
      arith,
      elem-counted v num ts p,
      tally_absent t.value ts,
      eqb_iff v t.value,
      eqb_iff t.value v,
    )

unfoldable pub elem_all : ℤ → List (List ℤ) → Bool
elem_all v [] = true
elem_all v (xs ∷ rest) = elem v xs && elem_all v rest

occurrences-le : (v : ℤ) (lists : List (List ℤ)) → occurrences v lists ≤ length lists
unfolding occurrences
occurrences-le v [] = omega arith
occurrences-le v (xs ∷ rest) = ground (arith, occurrences-le v rest)

elem_all-eq :
    (v : ℤ) (lists : List (List ℤ)) → (occurrences v lists == length lists) ≡ elem_all v lists
unfolding occurrences elem_all
elem_all-eq v [] = refl
elem_all-eq v (xs ∷ rest) = ground (arith, elem_all-eq v rest, occurrences-le v rest)

-- The values that `bc_plist_isect` gathers.
abbrev gathered : Plist → List Plist → List ℤ
gathered pl pls =
    counted (length (pl ∷ pls)) (count_lists (first_tallies (values pl)) (map values pls))

elem-gathered :
    (v : ℤ) (pl : Plist) (pls : List Plist)
    → distinct (values pl) ≡ true
    → all_distinct (map values pls) ≡ true
    → elem v (gathered pl pls) ≡ elem_all v (values pl ∷ map values pls)
unfolding elem_all
elem-gathered v pl pls d ds = ground (
  arith,
  elem-counted v (length (pl ∷ pls)) ts (omega arith) keys,
  tally-count_lists v (first_tallies (values pl)) (map values pls) ds,
  tally-first_tallies v (values pl),
  occurrences-le v (map values pls),
  elem_all-eq v (map values pls),
  length-map pls values,
)
  where
    ts : List Tally
    ts = count_lists (first_tallies (values pl)) (map values pls)

    keys : distinct (listed ts) ≡ true
    keys =
        distinct-count_lists (first_tallies (values pl)) (map values pls)
          (ap distinct (listed-first_tallies (values pl)) ∙ d)

not_elem_of_empty : (v : ℤ) (xs : List ℤ) → length xs ≡ 0 → elem v xs ≡ false
unfolding elem
not_elem_of_empty v [] h = refl
not_elem_of_empty v (x ∷ xs) h = absurd (omega arith)

-- Of lists that are all valid and in none of which a value stands twice, `bc_plist_isect` makes, if
-- memory is given, a list that has a value exactly when every one of them has it; it makes none only
-- if they have no value in common. With an invalid list among them it makes none.
pub plist_isect_lem :
    (v : ℤ) (pl : Plist) (pls : List Plist)
    → distinct (values pl) ≡ true
    → all_distinct (map values pls) ≡ true
    → (some_invalid (pl ∷ pls) ≡ false
        → ((u : Plist) × (plist_isect pl pls true true true true ≡ some u)
            × (elem v (values u) ≡ elem_all v (values pl ∷ map values pls)))
          ⊎ ((plist_isect pl pls true true true true ≡ none)
              × (elem_all v (values pl ∷ map values pls) ≡ false)))
      × (some_invalid (pl ∷ pls) ≡ true → plist_isect pl pls true true true true ≡ none)
unfolding plist_isect
plist_isect_lem v pl pls d ds = (
  λ e. elim (Bool-cases (k == 0)) [
    | inl empty ↦ inr (
      rw (e, empty) refl,
      sym (elem-gathered v pl pls d ds)
          ∙ not_elem_of_empty v (gathered pl pls) (ground (arith, done)),
    )
    | inr some_left ↦ inl (
      made_of (take k all),
      rw (e, some_left) refl,
      ap (elem v) (take-length (take k all) ∙ done.0) ∙ elem-gathered v pl pls d ds,
    )
  ],
  λ e. rw e refl,
)
  where
    ts : List Tally
    ts = count_lists (first_tallies (values pl)) (map values pls)

    all : List ℤ
    all = (gather (length (pl ∷ pls)) (listed ts) (inclusions ts) 0 0).0

    k : ℕ
    k = (gather (length (pl ∷ pls)) (listed ts) (inclusions ts) 0 0).1

    done : (take k all ≡ gathered pl pls) × (k ≡ 0 + length (gathered pl pls))
    done =
        gather_lem (length (pl ∷ pls)) ts (listed ts) 0 0 (omega arith) refl
          (omega (arith, length-map ts (λ t. t.value)))

length_of_elem : (v : ℤ) (xs : List ℤ) → elem v xs ≡ true → 0 < length xs
unfolding elem
length_of_elem v [] h = cc
length_of_elem v (x ∷ xs) h = omega arith

tally_of_repeated :
    (v : ℤ) (ts : List Tally) → tally v (count_lists ts ((v ∷ v ∷ []) ∷ [])) ≡ tally v ts + 2
unfolding count_lists count_values
tally_of_repeated v ts =
    ground (arith, tally-count_value v (count_value ts v) v, tally-count_value v ts v, eqb_refl v)

-- A value that stands twice in the second of two lists and not at all in the first is taken for a
-- common one.
pub isect_of_repeated :
    (v : ℤ) (pl other : Plist)
    → some_invalid (pl ∷ other ∷ []) ≡ false
    → distinct (values pl) ≡ true
    → elem v (values pl) ≡ false
    → values other ≡ v ∷ v ∷ []
    → (u : Plist) × (plist_isect pl (other ∷ []) true true true true ≡ some u)
      × (elem v (values u) ≡ true)
unfolding plist_isect
isect_of_repeated v pl other e d absent twice = (
  made_of (take k all),
  rw (e, some_left) refl,
  ap (elem v) (take-length (take k all) ∙ done.0) ∙ there,
)
  where
    ts : List Tally
    ts = count_lists (first_tallies (values pl)) (values other ∷ [])

    all : List ℤ
    all = (gather 2 (listed ts) (inclusions ts) 0 0).0

    k : ℕ
    k = (gather 2 (listed ts) (inclusions ts) 0 0).1

    done : (take k all ≡ counted 2 ts) × (k ≡ 0 + length (counted 2 ts))
    done =
        gather_lem 2 ts (listed ts) 0 0 (omega arith) refl
          (omega (arith, length-map ts (λ t. t.value)))

    full : tally v ts ≡ 2
    full =
        ap (λ xs. tally v (count_lists (first_tallies (values pl)) (xs ∷ []))) twice
        ∙ ground (
          arith,
          tally_of_repeated v (first_tallies (values pl)),
          tally-first_tallies v (values pl),
        )

    there : elem v (counted 2 ts) ≡ true
    there = ground (
      arith,
      full,
      elem-counted v 2 ts (omega arith) (
          distinct-count_lists (first_tallies (values pl)) (values other ∷ [])
            (ap distinct (listed-first_tallies (values pl)) ∙ d)),
    )

    some_left : (k == 0) ≡ false
    some_left = ground (arith, done, length_of_elem v (counted 2 ts) there)
