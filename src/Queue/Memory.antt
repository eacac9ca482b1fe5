-- ===== src/Queue/Memory.antt =====
-- The memory of a buffer as the list of its bytes; a pointer into it is its offset from the start.
use libdsys.Prelude.{
  ℕ, ◌+◌, ◌-◌, ◌≤◌, ◌≡◌, refl, ◌∙◌, List, [], ◌∷◌, ◌&&◌, arith, ltb, leb, if◌then◌else◌, length,
  get_or, set, take, drop, length-set, length-take, length-drop, get_or-take, get_or-drop, min,
  get_or-set, get_or-cons_pos,
}

-- `memcpy(start + p, src, n)`: byte after byte. A write past the end of the buffer is dropped; the
-- bounds theorems show that there is none.
unfoldable pub memcpy_to : List ℕ → ℕ → List ℕ → List ℕ
memcpy_to mem p [] = mem
memcpy_to mem p (x ∷ xs) = memcpy_to (set mem p x) (p + 1) xs

-- The `n` bytes from `start + p` on.
abbrev pub slice : List ℕ → ℕ → ℕ → List ℕ
slice mem p n = take n (drop p mem)

pub length-memcpy_to :
    (mem : List ℕ) (p : ℕ) (src : List ℕ) → length (memcpy_to mem p src) ≡ length mem
unfolding memcpy_to
length-memcpy_to mem p [] = refl
length-memcpy_to mem p (x ∷ xs) = length-memcpy_to (set mem p x) (p + 1) xs ∙ length-set mem p x

-- A copied byte is the source's; every other byte is as before.
pub get_or-memcpy_to :
    (mem : List ℕ) (p : ℕ) (src : List ℕ) (i : ℕ)
    → p + length src ≤ length mem
    → get_or (memcpy_to mem p src) i 0
      ≡ (if leb p i && ltb i (p + length src) then get_or src (i - p) 0 else get_or mem i 0)
unfolding memcpy_to
get_or-memcpy_to mem p [] i h = ground arith
get_or-memcpy_to mem p (x ∷ xs) i h = ground (
  arith,
  get_or-memcpy_to (set mem p x) (p + 1) xs i,
  get_or-set mem p i x 0,
  length-set mem p x,
  get_or-cons_pos x xs (i - p) 0,
)

pub length-slice : (mem : List ℕ) (p n : ℕ) → length (slice mem p n) ≡ min n (length mem - p)
length-slice mem p n = omega (arith, length-take n (drop p mem), length-drop p mem)

pub get_or-slice :
    (mem : List ℕ) (p n i : ℕ)
    → get_or (slice mem p n) i 0 ≡ (if ltb i n then get_or mem (p + i) 0 else 0)
get_or-slice mem p n i = ground (arith, get_or-take n (drop p mem) i 0, get_or-drop p mem i 0)
