-- ===== src/Plist/Assign.antt =====
-- `bc_plist_create_empty` and `bc_plist_set` of libdsys/plist.c: a list made empty and then assigned.
use libdsys.Prelude.{
  ℕ, zero, suc, ◌+◌, ◌≡◌, refl, true, some, List, [], ◌∷◌, arith, if◌then◌else◌, length, replicate,
  length-replicate,
}
use libdsys.Prelude.Int.{ℤ, pos, minus_one, eqb}
use libdsys.Plist.{Plist, plist_create_empty}

-- How many entries have not been assigned.
unfoldable pub unset : List ℤ → ℕ
unset [] = 0
unset (x ∷ xs) = (if eqb x minus_one then 1 else 0) + unset xs

-- A list that the program can have made: the block has `count` entries, and `valid` counts those
-- that are not assigned.
pub record IsValid (pl : Plist) : Type 0 where
  pub block : length pl.entries ≡ pl.count
  pub missing : pl.valid ≡ pos (unset pl.entries)

unset-replicate : (n : ℕ) → unset (replicate n minus_one) ≡ n
unfolding unset
unset-replicate zero = refl
unset-replicate (suc n) = omega (arith, unset-replicate n)

-- An empty list is valid, with nothing assigned.
pub create_empty-IsValid :
    (n : ℕ) {pl : Plist}
    → plist_create_empty n true true ≡ some pl
    → IsValid pl × (pl.count ≡ n) × (pl.valid ≡ pos n)
unfolding plist_create_empty
create_empty-IsValid zero e = cc
create_empty-IsValid (suc n) {pl} e =
    ground (arith, unset-replicate (suc n), length-replicate (suc n) minus_one)
