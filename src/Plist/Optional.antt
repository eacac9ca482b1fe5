-- ===== src/Plist/Optional.antt =====
-- The process lists that every process has if it asks for them: `__bc_optional_plists_create` of
-- libdsys/plist.c.
use mathlib.Core.Path.{subst}
use libdsys.Prelude.{
  sym, if_of_true, if_of_false, ℕ, zero, suc, ◌+◌, ◌-◌, ◌%◌, ◌≤◌, ◌<◌, ◌≡◌, refl, Bool, true, not,
  ◌&&◌, Option, none, some, List, [], ◌∷◌, arith, ltb, leb, ◌==◌, if◌then◌else◌, length,
  take-length, ap, ◌∙◌,
}
use libdsys.Prelude.Int.{ℤ, pos}
use libdsys.Plist.{internal, Plist, values}
use libdsys.Plist.Members.{elem}

-- `for (; i < size; i++) if (i != rank) plist[j++] = i;` for `n` numbers from `i` on.
unfoldable pub all_but : ℕ → ℕ → ℕ → List ℤ
all_but rank zero i = []
all_but rank (suc n) i =
    let rest = all_but rank n (suc i) in if i == rank then rest else pos i ∷ rest

-- The same loop with `i += 2`.
unfoldable pub every_other : ℕ → ℕ → ℕ → List ℤ
every_other rank zero i = []
every_other rank (suc zero) i = if i == rank then [] else pos i ∷ []
every_other rank (suc (suc n)) i =
    let rest = every_other rank n (suc (suc i)) in if i == rank then rest else pos i ∷ rest

-- The same loop without the test.
unfoldable pub ranks : ℕ → ℕ → List ℤ
ranks zero i = []
ranks (suc n) i = pos i ∷ ranks n (suc i)

-- An optional list; the member `rc` is not assigned, and `junk` is what it held.
abbrev pub optional : ℤ → List ℤ → Option Plist
optional junk xs =
    some (record { type = internal; count = length xs; valid = pos 0; entries = xs; rc = junk })

-- `bc_plist_xall` to `bc_plist_self`
pub record Optional : Type 0 where
  pub xall : Option Plist
  pub odd : Option Plist
  pub even : Option Plist
  pub pred : Option Plist
  pub succ : Option Plist
  pub every : Option Plist
  pub self : Option Plist

-- The bits of `__bc_internal_flags` that ask for the lists.
pub record Flags : Type 0 where
  pub xall : Bool
  pub odd : Bool
  pub even : Bool
  pub pred : Bool
  pub succ : Bool
  pub every : Bool
  pub self : Bool

-- `__bc_optional_plists_create` with memory for every list, for process `rank` of `size`.
unfoldable pub optional_plists_create : Flags → ℕ → ℕ → ℤ → Optional
optional_plists_create flags rank size junk = record {
  xall = if flags.xall then optional junk (all_but rank size 0) else none;
  odd = if flags.odd then optional junk (every_other rank (size - 1) 1) else none;
  even = if flags.even then optional junk (every_other rank size 0) else none;
  pred = if flags.pred then (if rank == 0 then none else optional junk (ranks rank 0)) else none;
  succ =
      if flags.succ
      then (if rank == size - 1 then none else optional junk (ranks (size - (rank + 1)) (rank + 1)))
      else none;
  every = if flags.every then optional junk (ranks size 0) else none;
  self = if flags.self then optional junk (pos rank ∷ []) else none;
}

elem-all_but :
    (v rank n i : ℕ)
    → elem (pos v) (all_but rank n i) ≡ (leb i v && ltb v (i + n) && not (v == rank))
unfolding elem all_but
elem-all_but v rank zero i = ground arith
elem-all_but v rank (suc n) i = ground (arith, elem-all_but v rank n (suc i))

pub elem-ranks : (v n i : ℕ) → elem (pos v) (ranks n i) ≡ (leb i v && ltb v (i + n))
unfolding elem ranks
elem-ranks v zero i = ground arith
elem-ranks v (suc n) i = ground (arith, elem-ranks v n (suc i))

elem-every_other :
    (v rank n i : ℕ)
    → elem (pos v) (every_other rank n i)
      ≡ (leb i v && ltb v (i + n) && (v % 2 == i % 2) && not (v == rank))
unfolding elem every_other
elem-every_other v rank zero i = ground arith
elem-every_other v rank (suc zero) i = ground arith
elem-every_other v rank (suc (suc n)) i = ground (arith, elem-every_other v rank n (suc (suc i)))

length-all_but :
    (rank n i : ℕ)
    → length (all_but rank n i) + (if leb i rank && ltb rank (i + n) then 1 else 0) ≡ n
unfolding all_but
length-all_but rank zero i = ground arith
length-all_but rank (suc n) i = ground (arith, length-all_but rank n (suc i))

length-every_other :
    (rank n i : ℕ) → length (every_other rank n i) + length (every_other rank n i) ≤ n + 1
unfolding every_other
length-every_other rank zero i = ground arith
length-every_other rank (suc zero) i = ground arith
length-every_other rank (suc (suc n)) i = ground (arith, length-every_other rank n (suc (suc i)))

pub length-ranks : (n i : ℕ) → length (ranks n i) ≡ n
unfolding ranks
length-ranks zero i = refl
length-ranks (suc n) i = ap suc (length-ranks n (suc i))

-- A list holds the values for which a test is true, within a block of so many.
abbrev pub Selects : Option Plist → ℕ → ℕ → Bool → Type 0
Selects o v block b =
    (pl : Plist) × (o ≡ some pl)
    × (elem (pos v) (values pl) ≡ b)
    × (pl.count ≤ block)
    × (pl.valid ≡ pos 0)

abbrev pub all_flags : Flags
all_flags = record {
  xall = true;
  odd = true;
  even = true;
  pred = true;
  succ = true;
  every = true;
  self = true;
}

select :
    (junk : ℤ) (xs : List ℤ) (v block : ℕ) (b : Bool)
    → elem (pos v) xs ≡ b
    → length xs ≤ block
    → Selects (optional junk xs) v block b
select junk xs v block b e h = (_, refl, ap (elem (pos v)) (take-length xs) ∙ e, h, refl)

even_fits : (rank size : ℕ) → rank < size → length (every_other rank size 0) ≤ size - 1
unfolding every_other
even_fits rank zero h = elim h [ ]
even_fits rank (suc zero) h = ground arith
even_fits rank (suc (suc n)) h = omega (arith, length-every_other rank (suc (suc n)) 0)

-- For a process `rank` of `size` that asks for every list, and any `v`: the list of all others has
-- `v` exactly when it is another process; the odd and the even list when it is moreover odd or even;
-- those of the preceding and the succeeding processes when it is before or after the process, where
-- the first process has no preceding and the last no succeeding list; the list of all when it is a
-- process; and the own list when it is the process. Each list is valid and fits the block that is
-- allocated for it.
pub optional_plists_lem :
    (rank size v : ℕ) (junk : ℤ)
    → rank < size
    → let made = optional_plists_create all_flags rank size junk in
      Selects made.xall v (size - 1) (ltb v size && not (v == rank))
      × Selects made.odd v (size - 1) (ltb v size && (v % 2 == 1) && not (v == rank))
      × Selects made.even v (size - 1) (ltb v size && (v % 2 == 0) && not (v == rank))
      × (rank ≡ 0 → made.pred ≡ none)
      × (0 < rank → Selects made.pred v rank (ltb v rank))
      × (rank ≡ size - 1 → made.succ ≡ none)
      × (rank < size - 1 → Selects made.succ v (size - 1 - rank) (ltb rank v && ltb v size))
      × Selects made.every v size (ltb v size)
      × Selects made.self v 1 (v == rank)
unfolding optional_plists_create elem
optional_plists_lem rank size v junk h = (
  select junk _ v _ _ (ground (arith, elem-all_but v rank size 0))
      (ground (arith, length-all_but rank size 0)),
  select junk _ v _ _ (ground (arith, elem-every_other v rank (size - 1) 1))
      (omega (arith, length-every_other rank (size - 1) 1)),
  select junk _ v _ _ (ground (arith, elem-every_other v rank size 0)) (even_fits rank size h),
  λ e. if_of_true (rank == 0) _ _ (ground arith),
  λ e.
      subst (λ o. Selects o v rank (ltb v rank))
        (sym (if_of_false (rank == 0) none _ (ground arith)))
        (select junk (ranks rank 0) v _ _ (ground (arith, elem-ranks v rank 0))
          (omega (arith, length-ranks rank 0))),
  λ e. if_of_true (rank == size - 1) _ _ (ground arith),
  λ e.
      subst (λ o. Selects o v (size - 1 - rank) (ltb rank v && ltb v size))
        (sym (if_of_false (rank == size - 1) none _ (ground arith)))
        (select junk (ranks (size - (rank + 1)) (rank + 1)) v _ _
          (ground (arith, elem-ranks v (size - (rank + 1)) (rank + 1)))
          (omega (arith, length-ranks (size - (rank + 1)) (rank + 1)))),
  select junk (ranks size 0) v _ _ (ground (arith, elem-ranks v size 0))
      (omega (arith, length-ranks size 0)),
  select junk (pos rank ∷ []) v _ _ (ground arith) (omega arith),
)
