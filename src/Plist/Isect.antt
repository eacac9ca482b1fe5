-- ===== src/Plist/Isect.antt =====
-- `bc_plist_isect` of libdsys/plist.c.
pub mod Gather
pub mod Count
pub mod Common
use mathlib.Core.Path.{ap₂}
use libdsys.Prelude.{
  ℕ, zero, suc, ◌+◌, ◌-◌, ◌≤◌, ◌<◌, ◌≡◌, ◌≢◌, refl, sym, ap, ◌∙◌, Bool, true, false, not, ◌&&◌,
  ◌||◌, Option, none, some, List, [], ◌∷◌, ◌++◌, arith, ltb, ◌==◌, if◌then◌else◌, inl, inr,
  Bool-cases, length, get_or, set, take, drop, map, append-nil, append_assoc, length-set, drop-set,
  drop-get, take-set,
}
use libdsys.Prelude.Int.{ℤ, pos, eqb, eqb_iff, eqb_refl}
use libdsys.Plist.{Plist, values, made_of, some_invalid}
use libdsys.Plist.Members.{elem, distinct}

-- A place of the two arrays `list` and `inclusion`.
pub record Tally : Type 0 where
  pub value : ℤ
  pub inclusion : ℕ

-- "Copy the first plist."
unfoldable pub first_tallies : List ℤ → List Tally
first_tallies [] = []
first_tallies (v ∷ vs) = record { value = v; inclusion = 1 } ∷ first_tallies vs

-- The loop over `k`.
unfoldable pub count_value : List Tally → ℤ → List Tally
count_value [] v = record { value = v; inclusion = 1 } ∷ []
count_value (t ∷ ts) v =
    if eqb t.value v then record t { inclusion = t.inclusion + 1 } ∷ ts else t ∷ count_value ts v

-- The loop over `j`.
unfoldable pub count_values : List Tally → List ℤ → List Tally
count_values ts [] = ts
count_values ts (v ∷ vs) = count_values (count_value ts v) vs

-- The loop over `i`, from the second list on.
unfoldable pub count_lists : List Tally → List (List ℤ) → List Tally
count_lists ts [] = ts
count_lists ts (vs ∷ rest) = count_lists (count_values ts vs) rest

-- "Calculate the intersection.": the loop over the inclusion counts from `i` on, in the array `list`.
unfoldable pub gather : ℕ → List ℤ → List ℕ → ℕ → ℕ → List ℤ × ℕ
gather num list [] i k = (list, k)
gather num list (n ∷ inclusion) i k =
    let keep = n == num in
    gather num (if keep then set list k (get_or list i (pos 0)) else list) inclusion (suc i)
      (if keep then suc k else k)

abbrev pub listed : List Tally → List ℤ
listed ts = map (λ t. t.value) ts

abbrev pub inclusions : List Tally → List ℕ
inclusions ts = map (λ t. t.inclusion) ts

-- `bc_plist_isect` of one list or more; the arguments at the end are what malloc returned for the
-- pointers, the values, the counts and the new list.
unfoldable pub plist_isect : Plist → List Plist → Bool → Bool → Bool → Bool → Option Plist
plist_isect pl pls pointers block counts node =
    let ts = count_lists (first_tallies (values pl)) (map values pls) in
    let (list, k) = gather (length (pl ∷ pls)) (listed ts) (inclusions ts) 0 0 in
    if not pointers || some_invalid (pl ∷ pls) || not block || not counts || k == 0 || not node
    then none
    else some (made_of (take k list))
