-- ===== src/Boot/Names.antt =====
-- The loops of libdsys/infmpi.c over the names of the processes.
use libdsys.Prelude.{
  ℕ, zero, suc, ◌+◌, ◌≡◌, refl, sym, ap, ◌∙◌, Bool, true, false, ◌&&◌, none, some, List, ◌∷◌, ◌++◌,
  arith, inl, inr, Bool-cases, get_or, set, replicate,
}
use libdsys.Boot.{create_names, free_names, returns}

-- `k` names that are held, and `n` after them that are not.
abbrev pub mixed : ℕ → ℕ → List Bool
mixed k n = replicate k true ++ replicate n false

-- `j` names that have been freed, `k` that are held, and `n` that are not.
abbrev freed_first : ℕ → ℕ → ℕ → List Bool
freed_first j k n = replicate j false ++ mixed k n

set-mixed : (i n : ℕ) → set (mixed i (suc n)) i true ≡ mixed (suc i) n
set-mixed zero n = refl
set-mixed (suc i) n = ap (λ xs. true ∷ xs) (set-mixed i n)

get_freed : (j k n : ℕ) → get_or (freed_first j (suc k) n) j false ≡ true
get_freed zero k n = refl
get_freed (suc j) k n = get_freed j k n

set_freed : (j k n : ℕ) → set (freed_first j (suc k) n) j false ≡ freed_first (suc j) k n
set_freed zero k n = refl
set_freed (suc j) k n = ap (λ xs. false ∷ xs) (set_freed j k n)

replicate-append : (j n : ℕ) → replicate j false ++ replicate n false ≡ replicate (j + n) false
replicate-append zero n = ap (λ k. replicate k false) (omega arith)
replicate-append (suc j) n =
    ap (λ xs. false ∷ xs) (replicate-append j n) ∙ shift (j + n) (suc j + n) (omega arith)
  where
    shift : (a b : ℕ) → suc a ≡ b → replicate (suc a) false ≡ replicate b false
    shift a b e = ap (λ k. replicate k false) e

pub mixed_all : (k : ℕ) → mixed k 0 ≡ replicate k true
mixed_all zero = refl
mixed_all (suc k) = ap (λ xs. true ∷ xs) (mixed_all k)

free_from : (k j n : ℕ) → free_names k j (freed_first j k n) ≡ returns (replicate (j + k + n) false)
unfolding free_names
free_from zero j n =
    ap (λ (xs : List Bool). returns xs)
      (replicate-append j n ∙ ap (λ (m : ℕ). replicate m false) (omega arith))
free_from (suc k) j n =
    rw (get_freed j k n, set_freed j k n)
      (free_from k (suc j) n ∙ ap (λ (m : ℕ). returns (replicate m false)) (omega arith))

-- All names that are held can be freed.
pub free_mixed : (k n : ℕ) → free_names k 0 (mixed k n) ≡ returns (replicate (k + n) false)
free_mixed k n = free_from k 0 n ∙ ap (λ (m : ℕ). returns (replicate m false)) (omega arith)

unfoldable pub all_given : (ℕ → Bool) → ℕ → ℕ → Bool
all_given given zero i = true
all_given given (suc n) i = given i && all_given given n (suc i)

pub create_all :
    (given : ℕ → Bool) (n i : ℕ)
    → all_given given n i ≡ true
    → create_names given n i (mixed i n) ≡ (mixed (i + n) 0, none)
unfolding create_names all_given
create_all given zero i h = ap (λ k. (mixed k 0, none)) (omega arith)
create_all given (suc n) i h = elim (Bool-cases (given i)) [
  | inl yes_given ↦
      rw (yes_given, set-mixed i n)
        (create_all given n (suc i) (rest_given yes_given)
          ∙ ap (λ (k : ℕ). (mixed k 0, none)) (omega arith))
  | inr not_given ↦ absurd cc
]
  where
    rest_given : given i ≡ true → all_given given n (suc i) ≡ true
    rest_given yes_given = rw (sym h, yes_given) refl

pub create_some :
    (given : ℕ → Bool) (n i : ℕ)
    → all_given given n i ≡ false
    → (k m : ℕ) × (create_names given n i (mixed i n) ≡ (mixed k m, some k)) × (k + m ≡ i + n)
unfolding create_names all_given
create_some given zero i h = absurd cc
create_some given (suc n) i h = elim (Bool-cases (given i)) [
  | inl yes_given ↦
      let (k, m, e, total) = create_some given n (suc i) (rest_given yes_given) in
      (k, m, rw (yes_given, set-mixed i n) e, omega arith)
  | inr not_given ↦ (i, suc n, rw (create_names, not_given) refl, refl)
]
  where
    rest_given : given i ≡ true → all_given given n (suc i) ≡ false
    rest_given yes_given = rw (sym h, yes_given) refl
