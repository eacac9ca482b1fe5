-- ===== src/Plist/Tests.antt =====
-- Process lists of libdsys/plist.c at concrete values, and instances of the theorems about them.
use libdsys.Prelude.{
  ℕ, ◌≤◌, ◌<◌, ◌≡◌, ◌⊎◌, refl, true, false, Option, none, some, List, [], ◌∷◌, arith, length,
}
use libdsys.Prelude.Int.{ℤ, pos, minus_one}
use libdsys.Plist.{
  custom, Plist, out_of_bounds, plist_set, plist_create_empty, values, made_of, some_invalid,
}
use libdsys.Prelude.{ltb, ◌==◌, ◌%◌, not, ◌&&◌, if◌then◌else◌}
use libdsys.Plist.Optional.{ranks, optional_plists_create, all_flags, Selects, optional_plists_lem}
use libdsys.Plist.Exclude.{Excluded, gaps, plist_create_excluding}
use libdsys.Plist.Members.{elem, distinct}
use libdsys.Plist.Divide.{concat, division, equal_division_lem}
use libdsys.Plist.Parts.{make_part, make_parts, fill, equal_division, AllHold}
use libdsys.Plist.Union.{plist_union, elem_any, total, plist_union_lem}
use libdsys.Plist.Isect.{plist_isect}
use libdsys.Plist.Isect.Count.{all_distinct}
use libdsys.Plist.Isect.Common.{elem_all, plist_isect_lem}
use libdsys.Plist.Diff.{plist_diff, without, plist_diff_lem}

abbrev small : Plist
small = made_of (pos 0 ∷ pos 2 ∷ pos 5 ∷ [])

abbrev large : Plist
large = made_of (pos 5 ∷ pos 1 ∷ pos 0 ∷ pos 3 ∷ [])

abbrev twice : Plist
twice = made_of (pos 4 ∷ pos 4 ∷ [])

-- The first entry is assigned, the second is not.
abbrev begun : Plist
begun = record {
  type = custom;
  count = 2;
  valid = pos 1;
  entries = pos 7 ∷ minus_one ∷ [];
  rc = pos 1;
}

abbrev second : ℕ
second = 1

divided :
    equal_division large 3
    ≡ some (
        some (made_of (pos 5 ∷ []))
        ∷ some (made_of (pos 1 ∷ []))
        ∷ some (made_of (pos 0 ∷ pos 3 ∷ []))
        ∷ [])
unfolding equal_division make_parts make_part fill plist_set plist_create_empty
divided = refl

equal_division_lem_example :
    (3 ≤ 4
      → (parts : List (Option Plist)) × (equal_division large 3 ≡ some parts)
        × AllHold (division (values large) 3) parts
        × (concat (division (values large) 3) ≡ values large)
        × (length (division (values large) 3) ≡ 3))
    × (4 < 3 → equal_division large 3 ≡ none)
equal_division_lem_example = equal_division_lem large 3 refl (omega arith)

plist_union_lem_example :
    (some_invalid (small ∷ large ∷ []) ≡ false
      → (u : Plist) × (plist_union small (large ∷ []) true true true ≡ some u)
        × (elem (pos 3) (values u) ≡ elem_any (pos 3) (values small ∷ values large ∷ []))
        × (u.count ≤ total (values small ∷ values large ∷ []))
        × (u.valid ≡ pos 0)
        × (distinct (values small) ≡ true → distinct (values u) ≡ true))
    × (some_invalid (small ∷ large ∷ []) ≡ true
        → plist_union small (large ∷ []) true true true ≡ none)
plist_union_lem_example = plist_union_lem small (large ∷ []) (pos 3)

plist_isect_lem_example :
    (some_invalid (small ∷ large ∷ []) ≡ false
      → ((u : Plist) × (plist_isect small (large ∷ []) true true true true ≡ some u)
          × (elem (pos 5) (values u) ≡ elem_all (pos 5) (values small ∷ values large ∷ [])))
        ⊎ ((plist_isect small (large ∷ []) true true true true ≡ none)
            × (elem_all (pos 5) (values small ∷ values large ∷ []) ≡ false)))
    × (some_invalid (small ∷ large ∷ []) ≡ true
        → plist_isect small (large ∷ []) true true true true ≡ none)
unfolding distinct elem all_distinct
plist_isect_lem_example = plist_isect_lem (pos 5) small (large ∷ []) refl refl

plist_diff_lem_example :
    (some_invalid (large ∷ small ∷ []) ≡ false
      → plist_diff (some large) (some small) true true
        ≡ some (made_of (without (values small) (values large))))
    × (some_invalid (large ∷ small ∷ []) ≡ true
        → plist_diff (some large) (some small) true true ≡ none)
    × (plist_diff none (some small) true true ≡ none)
    × (plist_diff (some large) none true true ≡ none)
unfolding distinct elem
plist_diff_lem_example = plist_diff_lem large small refl

optional_plists_lem_example :
    let made = optional_plists_create all_flags 2 5 (pos 0) in
    Selects made.xall 3 4 (ltb 3 5 && not (3 == 2))
    × Selects made.odd 3 4 (ltb 3 5 && (3 % 2 == 1) && not (3 == 2))
    × Selects made.even 3 4 (ltb 3 5 && (3 % 2 == 0) && not (3 == 2))
    × (◌≡◌ {A = ℕ} 2 0 → made.pred ≡ none)
    × (0 < 2 → Selects made.pred 3 2 (ltb 3 2))
    × (◌≡◌ {A = ℕ} 2 4 → made.succ ≡ none)
    × (2 < 4 → Selects made.succ 3 2 (ltb 2 3 && ltb 3 5))
    × Selects made.every 3 5 (ltb 3 5)
    × Selects made.self 3 1 (3 == 2)
optional_plists_lem_example = optional_plists_lem 2 5 3 (pos 0) (omega arith)

-- A sort of lists of two.
abbrev sort_two : List ℕ → List ℕ
sort_two [] = []
sort_two (x ∷ []) = x ∷ []
sort_two (x ∷ y ∷ zs) = if ltb y x then y ∷ x ∷ zs else x ∷ y ∷ zs

abbrev three_junk : List ℤ
three_junk = pos 9 ∷ pos 9 ∷ pos 9 ∷ []

-- A rank that is given twice at the end makes the loop store past the block.
overrun :
    plist_create_excluding sort_two 3 (2 ∷ 2 ∷ []) (pos 7) (pos 9 ∷ []) true true true
    ≡ Excluded.out_of_bounds
unfolding plist_create_excluding gaps ranks
overrun = refl
