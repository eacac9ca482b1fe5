-- ===== src/Plist/Exclude.antt =====
-- `bc_plist_create` of libdsys/plist.c with a negative count: all processes but those that are given.
use libdsys.Prelude.{
  ℕ, suc, ◌+◌, ◌-◌, ◌≤◌, ◌<◌, ◌≡◌, refl, Bool, true, false, not, ◌&&◌, ◌||◌, List, [], ◌∷◌, ◌++◌,
  arith, ltb, leb, ◌==◌, if◌then◌else◌, length, drop, take, ap, ◌∙◌, if_of_false, length-append,
  take-append_le, take-length, length-drop,
}
use libdsys.Prelude.Int.{ℤ, pos}
use libdsys.Plist.{custom, Plist, values}
use libdsys.Plist.Members.{elem, elem-append}
use libdsys.Plist.Optional.{ranks, elem-ranks, length-ranks}

-- What the creation comes to: no memory, a store past the block, or a list.
pub data Excluded : Type 0 where
  no_memory : Excluded
  out_of_bounds : Excluded
  made : Plist → Excluded

-- "Enter value between any consecutive pair.": what is stored for the sorted ranks, from `s` on.
unfoldable pub gaps : List ℕ → ℕ → ℕ → List ℤ
gaps [] s size = ranks (size - s) s
gaps (e ∷ es) s size = ranks (e - s) s ++ gaps es (suc (if ltb s e then e else s)) size

-- `bc_plist_create` with a negative count, for ranks that are not negative, at most as many as
-- there are processes. `qsort`
-- is the library's sort of integers by `compare`; `junk` is what the member `valid` held and `block`
-- the new block of integers; the arguments at the end are what the three calls of malloc returned.
unfoldable pub plist_create_excluding :
    (List ℕ → List ℕ) → ℕ → List ℕ → ℤ → List ℤ → Bool → Bool → Bool → Excluded
plist_create_excluding qsort size args junk block false entries copy = no_memory
plist_create_excluding qsort size args junk block true false copy = no_memory
plist_create_excluding qsort size args junk block true true false = no_memory
plist_create_excluding qsort size args junk block true true true =
    let stored = gaps (qsort args) 0 size in
    if ltb (length block) (length stored)
    then out_of_bounds
    else made (record {
      type = custom;
      count = size - length args;
      valid = junk;
      entries = stored ++ drop (length stored) block;
      rc = pos 1;
    })

-- The ranks rise from `s` on and are below `size`.
unfoldable pub rising : List ℕ → ℕ → ℕ → Bool
rising [] s size = leb s size
rising (e ∷ es) s size = leb s e && ltb e size && rising es (suc e) size

unfoldable pub among : ℕ → List ℕ → Bool
among v [] = false
among v (x ∷ xs) = (v == x) || among v xs

among-rising :
    (v : ℕ) (es : List ℕ) (s size : ℕ) → rising es s size ≡ true → v < s → among v es ≡ false
unfolding among rising
among-rising v [] s size r h = refl
among-rising v (e ∷ es) s size r h = ground (arith, among-rising v es (suc e) size)

length-rising : (es : List ℕ) (s size : ℕ) → rising es s size ≡ true → s + length es ≤ size
unfolding rising
length-rising [] s size r = ground arith
length-rising (e ∷ es) s size r = ground (arith, length-rising es (suc e) size)

length-gaps :
    (es : List ℕ) (s size : ℕ)
    → rising es s size ≡ true
    → length (gaps es s size) + length es + s ≡ size
unfolding gaps rising
length-gaps [] s size r = ground (arith, length-ranks (size - s) s)
length-gaps (e ∷ es) s size r = ground (
  arith,
  length-append (ranks (e - s) s) (gaps es (suc (if ltb s e then e else s)) size),
  length-ranks (e - s) s,
  length-gaps es (suc e) size,
)

elem-gaps :
    (v : ℕ) (es : List ℕ) (s size : ℕ)
    → rising es s size ≡ true
    → elem (pos v) (gaps es s size) ≡ (leb s v && ltb v size && not (among v es))
unfolding gaps rising among
elem-gaps v [] s size r = ground (arith, elem-ranks v (size - s) s)
elem-gaps v (e ∷ es) s size r = ground (
  arith,
  elem-append (pos v) (ranks (e - s) s) (gaps es (suc (if ltb s e then e else s)) size),
  elem-ranks v (e - s) s,
  elem-gaps v es (suc e) size,
  among-rising v es (suc e) size,
)

-- If the sort leaves the given ranks strictly rising, as it does when none is given twice, and all are
-- ranks of processes, then the list fills its block exactly and has a process exactly when it is
-- not given.
pub excluding_lem :
    (qsort : List ℕ → List ℕ) (size : ℕ) (args : List ℕ) (junk : ℤ) (block : List ℤ) (v : ℕ)
    → rising (qsort args) 0 size ≡ true
    → length (qsort args) ≡ length args
    → among v (qsort args) ≡ among v args
    → length block ≡ size - length args
    → (pl : Plist) × (plist_create_excluding qsort size args junk block true true true ≡ made pl)
      × (length pl.entries ≡ pl.count)
      × (elem (pos v) (values pl) ≡ (ltb v size && not (among v args)))
unfolding plist_create_excluding
excluding_lem qsort size args junk block v r n a b = (
  _,
  if_of_false (ltb (length block) (length (gaps (qsort args) 0 size))) out_of_bounds _
      (ground (arith, length-gaps (qsort args) 0 size)),
  omega (
    arith,
    exact,
    length-gaps (qsort args) 0 size,
    length-append stored (drop (length stored) block),
    length-drop (length stored) block,
  ),
  ap (elem (pos v)) (
        ap (λ k. take k (stored ++ drop (length stored) block)) exact
        ∙ take-append_le (length stored) stored (drop (length stored) block) (omega arith)
        ∙ take-length stored)
      ∙ ground (arith, elem-gaps v (qsort args) 0 size),
)
  where
    stored : List ℤ
    stored = gaps (qsort args) 0 size

    exact : size - length args ≡ length stored
    exact = omega (arith, length-gaps (qsort args) 0 size)
