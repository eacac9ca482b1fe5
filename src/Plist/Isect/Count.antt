-- ===== src/Plist/Isect/Count.antt =====
-- What the inclusion counts of `bc_plist_isect` (libdsys/plist.c) stand for.
use libdsys.Prelude.{ℕ, ◌+◌, ◌≡◌, refl, Bool, true, ◌&&◌, List, [], ◌∷◌, arith, if◌then◌else◌}
use libdsys.Prelude.Int.{ℤ, eqb, eqb_iff}
use libdsys.Plist.Members.{elem, distinct}
use libdsys.Plist.Isect.{Tally, first_tallies, count_value, count_values, count_lists}

-- How often a value is counted.
unfoldable pub tally : ℤ → List Tally → ℕ
tally v [] = 0
tally v (t ∷ ts) = if eqb t.value v then t.inclusion else tally v ts

pub tally-first_tallies :
    (v : ℤ) (xs : List ℤ) → tally v (first_tallies xs) ≡ (if elem v xs then 1 else 0)
unfolding tally first_tallies elem
tally-first_tallies v [] = refl
tally-first_tallies v (x ∷ xs) = ground (arith, tally-first_tallies v xs, eqb_iff x v, eqb_iff v x)

pub tally-count_value :
    (v : ℤ) (ts : List Tally) (w : ℤ)
    → tally v (count_value ts w) ≡ tally v ts + (if eqb w v then 1 else 0)
unfolding tally count_value
tally-count_value v [] w = ground arith
tally-count_value v (t ∷ ts) w =
    ground (arith, tally-count_value v ts w, eqb_iff t.value w, eqb_iff t.value v, eqb_iff w v)

pub tally-count_values :
    (v : ℤ) (ts : List Tally) (ws : List ℤ)
    → distinct ws ≡ true
    → tally v (count_values ts ws) ≡ tally v ts + (if elem v ws then 1 else 0)
unfolding count_values distinct elem
tally-count_values v ts [] d = ground arith
tally-count_values v ts (w ∷ ws) d = ground (
  arith,
  tally-count_values v (count_value ts w) ws,
  tally-count_value v ts w,
  eqb_iff w v,
  eqb_iff v w,
)

-- How many of the lists have a value.
unfoldable pub occurrences : ℤ → List (List ℤ) → ℕ
occurrences v [] = 0
occurrences v (xs ∷ rest) = (if elem v xs then 1 else 0) + occurrences v rest

unfoldable pub all_distinct : List (List ℤ) → Bool
all_distinct [] = true
all_distinct (xs ∷ rest) = distinct xs && all_distinct rest

pub tally-count_lists :
    (v : ℤ) (ts : List Tally) (lists : List (List ℤ))
    → all_distinct lists ≡ true
    → tally v (count_lists ts lists) ≡ tally v ts + occurrences v lists
unfolding count_lists all_distinct occurrences
tally-count_lists v ts [] d = omega arith
tally-count_lists v ts (ws ∷ rest) d =
    ground (arith, tally-count_lists v (count_values ts ws) rest, tally-count_values v ts ws)
