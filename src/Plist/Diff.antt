-- ===== src/Plist/Diff.antt =====
-- `bc_plist_diff` of libdsys/plist.c, against the difference of sets.
use mathlib.Core.Path.{ap₂}
use libdsys.Prelude.{
  ℕ, suc, ◌+◌, ◌≤◌, ◌≡◌, refl, sym, ap, ◌∙◌, Bool, true, false, not, ◌||◌, Option, none, some, List,
  [], ◌∷◌, ◌++◌, arith, if◌then◌else◌, inl, inr, Bool-cases, length, get_or, set, take, drop,
  drop-set, drop-get, take-set, replicate, append-nil, append_assoc, length-set, length-replicate,
}
use libdsys.Prelude.Int.{ℤ, pos, eqb, eqb_iff}
use libdsys.Plist.{Plist, values, made_of, some_invalid}
use libdsys.Plist.Members.{elem, distinct}

-- "Flag.": the loop over `j` for one value of the second list. `flags` is the block of the new list.
unfoldable pub flag : List ℤ → List ℤ → ℤ → List ℤ
flag [] flags v = flags
flag (x ∷ xs) [] v = []
flag (x ∷ xs) (f ∷ flags) v = if eqb x v then pos 1 ∷ flags else f ∷ flag xs flags v

-- "For each process in the second set."
unfoldable pub flag_all : List ℤ → List ℤ → List ℤ → List ℤ
flag_all xs flags [] = flags
flag_all xs flags (v ∷ vs) = flag_all xs (flag xs flags v) vs

-- "Choose not flagged.": the loop over the values of the first list from `i` on. The same block holds
-- the flags that are read and the values that are written.
unfoldable pub choose : List ℤ → List ℤ → ℕ → ℕ → List ℤ × ℕ
choose block [] i j = (block, j)
choose block (x ∷ xs) i j =
    let keep = eqb (get_or block i (pos 0)) (pos 0) in
    choose (if keep then set block j x else block) xs (suc i) (if keep then suc j else j)

-- `bc_plist_diff`; the last two arguments are what malloc returned.
unfoldable pub plist_diff : Option Plist → Option Plist → Bool → Bool → Option Plist
plist_diff none b node block = none
plist_diff (some a) none node block = none
plist_diff (some a) (some b) node block =
    let flags = flag_all (values a) (replicate (length (values a)) (pos 0)) (values b) in
    let (chosen, j) = choose flags (values a) 0 0 in
    if some_invalid (a ∷ b ∷ []) || not node || not block
    then none
    else some (made_of (take j chosen))

-- The values whose flag is not set.
unfoldable pub unflagged : List ℤ → List ℤ → List ℤ
unflagged [] flags = []
unflagged (x ∷ xs) [] = []
unflagged (x ∷ xs) (f ∷ flags) =
    if eqb f (pos 0) then x ∷ unflagged xs flags else unflagged xs flags

-- From `i` and `j` on the loop keeps what was chosen and adds the values that are not flagged.
abbrev Chosen : List ℤ → List ℤ → ℕ → ℕ → Type 0
Chosen xs block i j =
    let (all, k) = choose block xs i j in take k all ≡ take j block ++ unflagged xs (drop i block)

-- One round of the loop.
choose_round :
    (x : ℤ) (xs block : List ℤ) (i j : ℕ)
    → j ≤ i
    → i + length (x ∷ xs) ≤ length block
    → Chosen xs (set block j x) (suc i) (suc j)
    → Chosen xs block (suc i) j
    → Chosen (x ∷ xs) block i j
unfolding choose unflagged
choose_round x xs block i j h b kept left =
    chosen
    ∙ ap (λ d. take j block ++ unflagged (x ∷ xs) d) (sym (drop-get block i (pos 0) (omega arith)))
  where
    written :
        take (suc j) (set block j x) ++ unflagged xs (drop (suc i) (set block j x))
        ≡ take j block ++ x ∷ unflagged xs (drop (suc i) block)
    written =
        ap₂ (λ ys zs. ys ++ unflagged xs zs) (take-set block j x (omega arith))
          (drop-set block (suc i) j x (omega arith))
        ∙ append_assoc (take j block) (x ∷ []) (unflagged xs (drop (suc i) block))

    chosen :
        let (all, k) = choose block (x ∷ xs) i j in
        take k all
        ≡ take j block ++ unflagged (x ∷ xs) (get_or block i (pos 0) ∷ drop (suc i) block)
    chosen = elim (Bool-cases (eqb (get_or block i (pos 0)) (pos 0))) [
      | inl yes_kept ↦ rw (yes_kept, choose) (kept ∙ written)
      | inr not_kept ↦ rw (not_kept, choose) left
    ]

-- Writing into the block that is read is safe, because the place written is never past the one read.
choose_lem :
    (xs block : List ℤ) (i j : ℕ) → j ≤ i → i + length xs ≤ length block → Chosen xs block i j
unfolding choose unflagged
choose_lem [] block i j h b = sym (append-nil (take j block))
choose_lem (x ∷ xs) block i j h b =
    choose_round x xs block i j h b
      (choose_lem xs (set block j x) (suc i) (suc j) (omega arith)
        (omega (arith, length-set block j x)))
      (choose_lem xs block (suc i) j (omega arith) (omega arith))

length-flag :
    (xs flags : List ℤ) (v : ℤ) → length xs ≤ length flags → length xs ≤ length (flag xs flags v)
unfolding flag
length-flag [] flags v h = h
length-flag (x ∷ xs) [] v h = h
length-flag (x ∷ xs) (f ∷ flags) v h = ground (arith, length-flag xs flags v)

length-flag_all :
    (xs flags vs : List ℤ) → length xs ≤ length flags → length xs ≤ length (flag_all xs flags vs)
unfolding flag_all
length-flag_all xs flags [] h = h
length-flag_all xs flags (v ∷ vs) h =
    length-flag_all xs (flag xs flags v) vs (length-flag xs flags v h)

-- The values of `xs` that are not in `vs`, in their order.
unfoldable pub without : List ℤ → List ℤ → List ℤ
without vs [] = []
without vs (x ∷ xs) = let rest = without vs xs in if elem x vs then rest else x ∷ rest

elem-unflagged : (v : ℤ) (xs flags : List ℤ) → elem v (unflagged xs flags) ≡ true → elem v xs ≡ true
unfolding unflagged elem
elem-unflagged v [] flags h = h
elem-unflagged v (x ∷ xs) [] h = cc
elem-unflagged v (x ∷ xs) (f ∷ flags) h = ground (arith, elem-unflagged v xs flags)

without_absent : (v : ℤ) (xs : List ℤ) → elem v xs ≡ false → without (v ∷ []) xs ≡ xs
unfolding without elem
without_absent v [] h = refl
without_absent v (x ∷ xs) h = ground (arith, without_absent v xs, eqb_iff x v, eqb_iff v x)

-- Flagging a value takes it out, if no value stands twice.
unflagged-flag :
    (xs flags : List ℤ) (v : ℤ)
    → distinct xs ≡ true
    → unflagged xs (flag xs flags v) ≡ without (v ∷ []) (unflagged xs flags)
unfolding unflagged flag without distinct elem
unflagged-flag [] flags v d = refl
unflagged-flag (x ∷ xs) [] v d = refl
unflagged-flag (x ∷ xs) (f ∷ flags) v d = ground (
  arith,
  unflagged-flag xs flags v,
  elem-unflagged x xs flags,
  without_absent v (unflagged xs flags),
  eqb_iff x v,
)

without-without : (v : ℤ) (vs xs : List ℤ) → without vs (without (v ∷ []) xs) ≡ without (v ∷ vs) xs
unfolding without elem
without-without v vs [] = refl
without-without v vs (x ∷ xs) = ground (arith, without-without v vs xs)

without-nil : (xs : List ℤ) → without [] xs ≡ xs
unfolding without elem
without-nil [] = refl
without-nil (x ∷ xs) = ap (λ ys. x ∷ ys) (without-nil xs)

unflagged-flag_all :
    (xs flags vs : List ℤ)
    → distinct xs ≡ true
    → unflagged xs (flag_all xs flags vs) ≡ without vs (unflagged xs flags)
unfolding flag_all
unflagged-flag_all xs flags [] d = sym (without-nil (unflagged xs flags))
unflagged-flag_all xs flags (v ∷ vs) d =
    unflagged-flag_all xs (flag xs flags v) vs d
    ∙ ap (without vs) (unflagged-flag xs flags v d)
    ∙ without-without v vs (unflagged xs flags)

unflagged-replicate : (xs : List ℤ) → unflagged xs (replicate (length xs) (pos 0)) ≡ xs
unfolding unflagged
unflagged-replicate [] = refl
unflagged-replicate (x ∷ xs) = ap (λ ys. x ∷ ys) (unflagged-replicate xs)

-- Of two valid lists, the first without a value that stands twice, `bc_plist_diff` makes, if memory is
-- given, the list of the values of the first that are not in the second, in their order; the block
-- that serves for the flags and for the result does not confuse them. With a list that is missing or
-- invalid it makes none.
pub plist_diff_lem :
    (a b : Plist)
    → distinct (values a) ≡ true
    → (some_invalid (a ∷ b ∷ []) ≡ false
        → plist_diff (some a) (some b) true true ≡ some (made_of (without (values b) (values a))))
      × (some_invalid (a ∷ b ∷ []) ≡ true → plist_diff (some a) (some b) true true ≡ none)
      × (plist_diff none (some b) true true ≡ none)
      × (plist_diff (some a) none true true ≡ none)
unfolding plist_diff
plist_diff_lem a b d = (λ e. rw e (ap (λ xs. some (made_of xs)) chosen), λ e. rw e refl, refl, refl)
  where
    xs : List ℤ
    xs = values a

    flags : List ℤ
    flags = flag_all xs (replicate (length xs) (pos 0)) (values b)

    enough : length xs ≤ length flags
    enough =
        length-flag_all xs (replicate (length xs) (pos 0)) (values b)
          (omega (arith, length-replicate (length xs) (pos 0)))

    chosen : take (choose flags xs 0 0).1 (choose flags xs 0 0).0 ≡ without (values b) xs
    chosen =
        choose_lem xs flags 0 0 (omega arith) (omega (arith, enough))
        ∙ unflagged-flag_all xs (replicate (length xs) (pos 0)) (values b) d
        ∙ ap (without (values b)) (unflagged-replicate xs)
