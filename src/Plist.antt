-- ===== src/Plist.antt =====
-- Process lists: libdsys/plist.c and libdsys/plist.h. An allocation takes as an argument what malloc
-- returned: `true` for a block. Locks make each access to a reference count one atomic action.
pub mod Parts
pub mod Members
pub mod Assign
pub mod Divide
pub mod Union
pub mod Isect
pub mod Diff
pub mod Optional
pub mod Exclude
mod Tests
use libdsys.Prelude.{
  ℕ, zero, suc, ◌+◌, ◌-◌, ◌*◌, ◌/◌, ◌%◌, Bool, true, false, not, ◌&&◌, ◌||◌, Option, none, some,
  List, [], ◌∷◌, ◌++◌, ltb, leb, ◌==◌, if◌then◌else◌, length, get_or, set, replicate, take, drop,
  map,
}
use libdsys.Prelude.Int.{ℤ, pos, negsuc, minus_one, pred_ℤ, eqb}

-- `__BC_PLIST_CUST` and `__BC_PLIST_INTERNAL`
pub data Kind : Type 0 where
  custom internal : Kind

-- `bc_plist_t` without its lock.
pub record Plist : Type 0 where
  pub type : Kind
  pub count : ℕ
  pub valid : ℤ
  pub entries : List ℤ
  pub rc : ℤ

-- The codes of libdsys/error.h that the functions on process lists return, and what they return
-- besides.
pub data Code : Type 0 where
  success : Code
  invalid_plist : Code
  invalid_value : Code
  left : ℤ → Code

-- The loop of `bc_plist_iselem` over the first entries of a list.
unfoldable pub scan_for : ℤ → List ℤ → Bool
scan_for r [] = false
scan_for r (x ∷ xs) = eqb x r || scan_for r xs

-- `bc_plist_iselem`; `bc_rank` is the rank of the calling process.
unfoldable pub plist_iselem : ℤ → Option Plist → ℤ → Bool
unfolding scan_for
plist_iselem bc_rank none rank = false
plist_iselem bc_rank (some pl) rank = scan_for bc_rank (take pl.count pl.entries)

-- `bc_plist_nelem`
unfoldable pub plist_nelem : Option Plist → ℕ
plist_nelem none = 0
plist_nelem (some pl) = pl.count

-- `bc_plist_isvalid`
unfoldable pub plist_isvalid : Option Plist → Bool
plist_isvalid none = false
plist_isvalid (some pl) = eqb pl.valid (pos 0)

-- `bc_plist_create_empty` for a count that fits an `int`.
unfoldable pub plist_create_empty : ℕ → Bool → Bool → Option Plist
plist_create_empty zero node block = none
plist_create_empty (suc n) false block = none
plist_create_empty (suc n) true false = none
plist_create_empty (suc n) true true = some (record {
  type = custom;
  count = suc n;
  valid = pos (suc n);
  entries = replicate (suc n) minus_one;
  rc = pos 1;
})

-- The values listed in a call of `bc_plist_create` with a positive count. The member `valid` is not
-- assigned: `junk` is what the block held.
unfoldable pub plist_create : List ℤ → ℤ → Bool → Bool → Option Plist
plist_create [] junk node block = none
plist_create (x ∷ xs) junk false block = none
plist_create (x ∷ xs) junk true false = none
plist_create (x ∷ xs) junk true true =
    some (record {
      type = custom;
      count = length (x ∷ xs);
      valid = junk;
      entries = x ∷ xs;
      rc = pos 1;
    })

-- What `bc_plist_set` comes to: a code and the list, or an access outside the entries.
pub data SetResult : Type 0 where
  out_of_bounds : SetResult
  result : Code → Option Plist → SetResult

-- `pl->rc > 1`
abbrev pub in_use : ℤ → Bool
in_use (pos n) = ltb 1 n
in_use (negsuc n) = false

-- `bc_plist_set`, at a location that is not negative.
unfoldable pub plist_set : Option Plist → ℕ → ℤ → SetResult
plist_set none loc value = result invalid_plist none
plist_set (some pl) loc value =
    let new = set pl.entries loc value in
    if ltb pl.count loc
    then result invalid_value (some pl)
    else if leb (length pl.entries) loc
    then out_of_bounds
    else if eqb (get_or pl.entries loc minus_one) minus_one
    then result (left (pred_ℤ pl.valid))
        (some (record pl { valid = pred_ℤ pl.valid; entries = new }))
    else if in_use pl.rc
    then result success (some pl)
    else result success (some (record pl { entries = new }))

-- `__bc_internal_plist_ref`
unfoldable pub plist_ref : Plist → Plist
plist_ref pl = elim pl.type [
  | custom ↦ record pl {
    rc = elim pl.rc [ pos n ↦ pos (suc n) | negsuc n ↦ if n == 0 then pos 0 else negsuc (n - 1) ];
  }
  | internal ↦ pl
]

-- `__bc_internal_plist_destroy`: `none` once the list is freed.
unfoldable pub plist_destroy : Plist → Option Plist
plist_destroy pl = elim pl.type [
  | internal ↦ some pl
  | custom ↦ let rc = pred_ℤ pl.rc in if eqb rc (pos 0) then none else some (record pl { rc = rc })
]

-- The values that a loop over `count` entries reads.
abbrev pub values : Plist → List ℤ
values pl = take pl.count pl.entries

-- A list that `bc_plist_union`, `bc_plist_isect` or `bc_plist_diff` hands over.
abbrev pub made_of : List ℤ → Plist
made_of xs = record { type = custom; count = length xs; valid = pos 0; entries = xs; rc = pos 1 }

-- "Some of the plists are invalid."
unfoldable pub some_invalid : List Plist → Bool
some_invalid [] = false
some_invalid (pl ∷ pls) = not (eqb pl.valid (pos 0)) || some_invalid pls
