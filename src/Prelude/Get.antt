-- ===== src/Prelude/Get.antt =====
-- What stands at an index of a list built from others, and equality of lists index by index.
use Prim.Native.Nat.{◌≤◌, ℕ, zero, suc, ◌+◌, ◌-◌, ◌<◌}
use mathlib.Core.Path.{◌≡◌, refl, ap, ap₂}
use mathlib.Core.Logic.{◌⊎◌, inl, inr}
use mathlib.Core.Bool.{◌&&◌}
use mathlib.Core.List.{List, [], ◌∷◌, ◌++◌}
use native.Mathlib.Omega.{arith}
use libdsys.Prelude.Tests.{ltb, ◌==◌, if◌then◌else◌}
use mathlib.Core.Option.{some}
use libdsys.Prelude.Lists.{get_elem?, length, get_or, set, take, drop, tabulate_from}

module _ {ℓ} {A : Type ℓ} where
  pub get_or-set :
      (xs : List A) (i j : ℕ) (v d : A)
      → get_or (set xs i v) j d ≡ (if i == j && ltb j (length xs) then v else get_or xs j d)
  get_or-set [] i j v d = ground arith
  get_or-set (x ∷ xs) zero zero v d = ground arith
  get_or-set (x ∷ xs) zero (suc j) v d = ground arith
  get_or-set (x ∷ xs) (suc i) zero v d = ground arith
  get_or-set (x ∷ xs) (suc i) (suc j) v d = ground (arith, get_or-set xs i j v d)

  pub get_or-cons_pos :
      (x : A) (xs : List A) (n : ℕ) (d : A) → 0 < n → get_or (x ∷ xs) n d ≡ get_or xs (n - 1) d
  get_or-cons_pos x xs zero d h = elim h [ ]
  get_or-cons_pos x xs (suc n) d h = ground arith

  pub get_or-append :
      (xs ys : List A) (i : ℕ) (d : A)
      → get_or (xs ++ ys) i d
        ≡ (if ltb i (length xs) then get_or xs i d else get_or ys (i - length xs) d)
  get_or-append [] ys i d = ground arith
  get_or-append (x ∷ xs) ys zero d = ground arith
  get_or-append (x ∷ xs) ys (suc i) d = ground (arith, get_or-append xs ys i d)

  pub get_or-take :
      (n : ℕ) (xs : List A) (i : ℕ) (d : A)
      → get_or (take n xs) i d ≡ (if ltb i n then get_or xs i d else d)
  get_or-take zero xs i d = ground arith
  get_or-take (suc n) [] i d = ground arith
  get_or-take (suc n) (x ∷ xs) zero d = ground arith
  get_or-take (suc n) (x ∷ xs) (suc i) d = ground (arith, get_or-take n xs i d)

  pub get_or-drop :
      (n : ℕ) (xs : List A) (i : ℕ) (d : A) → get_or (drop n xs) i d ≡ get_or xs (n + i) d
  get_or-drop zero xs i d = ground arith
  get_or-drop (suc n) [] i d = ground arith
  get_or-drop (suc n) (x ∷ xs) i d = ground (arith, get_or-drop n xs i d)

  pub get_or-tabulate_from :
      (f : ℕ → A) (b n i : ℕ) (d : A) → i < n → get_or (tabulate_from f b n) i d ≡ f (b + i)
  unfolding tabulate_from
  get_or-tabulate_from f b zero i d h = elim h [ ]
  get_or-tabulate_from f b (suc n) zero d h = ground arith
  get_or-tabulate_from f b (suc n) (suc i) d h =
      ground (arith, get_or-tabulate_from f (suc b) n i d)

  -- Two lists of one length that agree at every index are equal.
  pub eq_of_get_or :
      (xs ys : List A) (d : A)
      → length xs ≡ length ys
      → ((i : ℕ) → i < length xs → get_or xs i d ≡ get_or ys i d)
      → xs ≡ ys
  eq_of_get_or [] [] d e h = refl
  eq_of_get_or [] (y ∷ ys) d e h = absurd (omega arith)
  eq_of_get_or (x ∷ xs) [] d e h = absurd (omega arith)
  eq_of_get_or (x ∷ xs) (y ∷ ys) d e h =
      ap₂ ◌∷◌ (h 0 (omega arith))
        (eq_of_get_or xs ys d (omega arith) (λ i k. h (suc i) (omega arith)))

  pub get_elem?-set :
      (xs : List A) (i j : ℕ) (v : A)
      → get_elem? (set xs i v) j ≡ (if i == j && ltb j (length xs) then some v else get_elem? xs j)
  get_elem?-set [] i j v = ground arith
  get_elem?-set (x ∷ xs) zero zero v = ground arith
  get_elem?-set (x ∷ xs) zero (suc j) v = ground arith
  get_elem?-set (x ∷ xs) (suc i) zero v = ground arith
  get_elem?-set (x ∷ xs) (suc i) (suc j) v = ground (arith, get_elem?-set xs i j v)

  pub lt-length_of_get_elem? :
      (xs : List A) (i : ℕ) (v : A) → get_elem? xs i ≡ some v → i < length xs
  lt-length_of_get_elem? [] i v e = cc
  lt-length_of_get_elem? (x ∷ xs) zero v e = omega arith
  lt-length_of_get_elem? (x ∷ xs) (suc i) v e = omega (arith, lt-length_of_get_elem? xs i v e)

  pub take-append_le : (n : ℕ) (xs ys : List A) → n ≤ length xs → take n (xs ++ ys) ≡ take n xs
  take-append_le zero xs ys h = refl
  take-append_le (suc n) [] ys h = absurd (omega arith)
  take-append_le (suc n) (x ∷ xs) ys h = ap (λ zs. x ∷ zs) (take-append_le n xs ys (omega arith))

  pub take-suc :
      (n : ℕ) (xs : List A) (d : A)
      → n < length xs
      → take (suc n) xs ≡ take n xs ++ get_or xs n d ∷ []
  take-suc n [] d h = absurd (omega arith)
  take-suc zero (x ∷ xs) d h = refl
  take-suc (suc n) (x ∷ xs) d h = ap (λ zs. x ∷ zs) (take-suc n xs d (omega arith))

  pub get_elem?-set_cases :
      (xs : List A) (i j : ℕ) (v d : A)
      → get_elem? (set xs i v) j ≡ some d
      → (d ≡ v) ⊎ (get_elem? xs j ≡ some d)
  get_elem?-set_cases [] i j v d e = inr e
  get_elem?-set_cases (x ∷ xs) zero zero v d e = inl (cc)
  get_elem?-set_cases (x ∷ xs) zero (suc j) v d e = inr e
  get_elem?-set_cases (x ∷ xs) (suc i) zero v d e = inr e
  get_elem?-set_cases (x ∷ xs) (suc i) (suc j) v d e = get_elem?-set_cases xs i j v d e

  pub drop-set : (xs : List A) (i j : ℕ) (v : A) → j < i → drop i (set xs j v) ≡ drop i xs
  drop-set [] i j v h = refl
  drop-set (x ∷ xs) zero j v h = elim h [ ]
  drop-set (x ∷ xs) (suc i) zero v h = refl
  drop-set (x ∷ xs) (suc i) (suc j) v h = drop-set xs i j v (omega arith)

  pub drop-get :
      (xs : List A) (i : ℕ) (d : A) → i < length xs → drop i xs ≡ get_or xs i d ∷ drop (suc i) xs
  drop-get [] i d h = absurd (omega arith)
  drop-get (x ∷ xs) zero d h = refl
  drop-get (x ∷ xs) (suc i) d h = drop-get xs i d (omega arith)

  pub take-set :
      (xs : List A) (j : ℕ) (v : A)
      → j < length xs
      → take (suc j) (set xs j v) ≡ take j xs ++ v ∷ []
  take-set [] j v h = absurd (omega arith)
  take-set (x ∷ xs) zero v h = refl
  take-set (x ∷ xs) (suc j) v h = ap (λ ys. x ∷ ys) (take-set xs j v (omega arith))
