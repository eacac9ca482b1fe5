-- ===== src/Plist/Divide.antt =====
-- `bc_plist_divide` with BC_DIVPL_EQUAL, which is `__bc_plist_equal_division` of libdsys/plist.c.
use mathlib.Core.Path.{subst}
use native.Mathlib.Nat.{div-add-mod, mod-lt}
use libdsys.Prelude.{
  ℕ, zero, suc, ◌+◌, ◌-◌, ◌*◌, ◌/◌, ◌%◌, ◌≤◌, ◌<◌, ◌≡◌, refl, sym, ap, ◌∙◌, Option, none, some,
  List, [], ◌∷◌, ◌++◌, arith, ◌==◌, if◌then◌else◌, inl, inr, Bool-cases, dec_lt, length, take, drop,
  append-nil, append_assoc, length-append, length-drop, length-take, take-append-drop, drop-drop,
  drop_at,
}
use libdsys.Prelude.Int.{ℤ}
use libdsys.Plist.{Plist, values}
use libdsys.Plist.Parts.{
  AllHold, Holds, equal_division, make_part, make_part_lem, make_parts, make_parts_lem, shares,
}

-- The values of several lists, one after the other.
unfoldable pub concat : List (List ℤ) → List ℤ
concat [] = []
concat (vs ∷ rest) = vs ++ concat rest

concat-append : (a b : List (List ℤ)) → concat (a ++ b) ≡ concat a ++ concat b
unfolding concat
concat-append [] b = refl
concat-append (vs ∷ a) b =
    ap (λ us. vs ++ us) (concat-append a b) ∙ sym (append_assoc vs (concat a) (concat b))

concat-shares : (per k : ℕ) (vs : List ℤ) → concat (shares per k vs) ++ drop (k * per) vs ≡ vs
unfolding concat shares
concat-shares per zero vs = drop_at (0 * per) 0 vs (omega arith)
concat-shares per (suc k) vs =
    append_assoc (take per vs) (concat (shares per k (drop per vs))) (drop (suc k * per) vs)
    ∙ ap (λ us. take per vs ++ (concat (shares per k (drop per vs)) ++ us))
        (drop_at (suc k * per) (per + k * per) vs (omega arith) ∙ sym (drop-drop (k * per) per vs))
    ∙ ap (λ us. take per vs ++ us) (concat-shares per k (drop per vs))
    ∙ take-append-drop per vs

length-shares : (per k : ℕ) (vs : List ℤ) → length (shares per k vs) ≡ k
unfolding shares
length-shares per zero vs = refl
length-shares per (suc k) vs = ap suc (length-shares per k (drop per vs))

AllHold-snoc :
    (lists : List (List ℤ)) (ps : List (Option Plist)) (vs : List ℤ) (p : Option Plist)
    → AllHold lists ps
    → (pl : Plist) × (p ≡ some pl) × Holds vs pl
    → AllHold (lists ++ vs ∷ []) (ps ++ p ∷ [])
unfolding AllHold
AllHold-snoc [] [] vs p h last = (last, tt)
AllHold-snoc [] (q ∷ ps) vs p h last = absurd h
AllHold-snoc (us ∷ lists) [] vs p h last = absurd h
AllHold-snoc (us ∷ lists) (q ∷ ps) vs p h last = (h.0, AllHold-snoc lists ps vs p h.1 last)

drop_all : (n : ℕ) (vs : List ℤ) → length vs ≤ n → drop n vs ≡ []
drop_all zero [] h = refl
drop_all zero (v ∷ vs) h = absurd (omega arith)
drop_all (suc n) [] h = refl
drop_all (suc n) (v ∷ vs) h = drop_all n vs (omega arith)

-- The shares of an equal division: the last of them takes what is over.
unfoldable pub division : List ℤ → ℕ → List (List ℤ)
division vs num =
    let per = length vs / num in
    if length vs % num == 0
    then shares per num vs
    else shares per (num - 1) vs ++ drop ((num - 1) * per) vs ∷ []

concat-division : (vs : List ℤ) (num : ℕ) → 0 < num → concat (division vs num) ≡ vs
unfolding division concat
concat-division vs num h = elim (Bool-cases (length vs % num == 0)) [
  | inl even ↦ rw even (
      sym (append-nil (concat (shares per num vs)))
      ∙ ap (λ us. concat (shares per num vs) ++ us)
          (sym (drop_all (num * per) vs (ground (arith, div-add-mod (length vs) num))))
      ∙ concat-shares per num vs)
  | inr odd ↦ rw odd (
      concat-append (shares per (num - 1) vs) (drop ((num - 1) * per) vs ∷ [])
      ∙ ap (λ us. concat (shares per (num - 1) vs) ++ us) (append-nil (drop ((num - 1) * per) vs))
      ∙ concat-shares per (num - 1) vs)
]
  where
    per : ℕ
    per = length vs / num

take_all : (n : ℕ) (vs : List ℤ) → length vs ≤ n → take n vs ≡ vs
take_all zero [] h = refl
take_all zero (v ∷ vs) h = absurd (omega arith)
take_all (suc n) [] h = refl
take_all (suc n) (v ∷ vs) h = ap (λ us. v ∷ us) (take_all n vs (omega arith))

pred_mul : (n m : ℕ) → 0 < n → n * m ≡ (n - 1) * m + m
pred_mul zero m h = elim h [ ]
pred_mul (suc n) m h = rw sub_one (omega arith)
  where
    sub_one : suc n - 1 ≡ n
    sub_one = omega arith

-- A list is divided, if memory is given, into as many lists as asked for, which have the values of
-- the list one after the other; all of them are valid, and all but the last have the same number of
-- values, the last of them taking what is over. Into more lists than it has values it is not divided.
pub equal_division_lem :
    (pl : Plist) (num : ℕ)
    → length (values pl) ≡ pl.count
    → 0 < num
    → (num ≤ pl.count
        → (parts : List (Option Plist)) × (equal_division pl num ≡ some parts)
          × AllHold (division (values pl) num) parts
          × (concat (division (values pl) num) ≡ values pl)
          × (length (division (values pl) num) ≡ num))
      × (pl.count < num → equal_division pl num ≡ none)
unfolding equal_division division
equal_division_lem pl num e p = (
  λ h. elim (Bool-cases (pl.count % num == 0)) [
    | inl even ↦ (
      (make_parts per num vs).0,
      ground arith,
      rw (e, even) (make_parts_lem per num vs (some_each h) (ground (arith, whole))).0,
      concat-division vs num p,
      rw (e, even) (length-shares per num vs),
    )
    | inr odd ↦
        let (most, left_over) = make_parts_lem per (num - 1) vs (some_each h) (fewer h) in
        (
          (make_parts per (num - 1) vs).0
              ++ make_part (per + extra) (take (per + extra) (make_parts per (num - 1) vs).1) ∷ [],
          ground arith,
          rw (e, odd)
              (AllHold-snoc (shares per (num - 1) vs) (make_parts per (num - 1) vs).0
                (drop ((num - 1) * per) vs)
                (make_part (per + extra) (take (per + extra) (make_parts per (num - 1) vs).1)) most
                (last_part left_over h)),
          concat-division vs num p,
          rw (e, odd)
              (omega (
                arith,
                length-append (shares per (num - 1) vs) (drop ((num - 1) * per) vs ∷ []),
                length-shares per (num - 1) vs,
              )),
        )
  ],
  λ h. ground arith,
)
  where
    vs : List ℤ
    vs = values pl

    per : ℕ
    per = pl.count / num

    extra : ℕ
    extra = pl.count % num

    whole : num * per + extra ≡ length vs
    whole = div-add-mod pl.count num ∙ sym e

    some_each : num ≤ pl.count → 0 < per
    some_each h = elim (dec_lt 0 per) [
      | yes some_left ↦ some_left
      | no nothing ↦
          let none_each : per ≡ 0 = omega arith in
          absurd (omega (arith, whole, mod-lt pl.count p, ap (λ n. num * n) none_each))
    ]

    fewer : num ≤ pl.count → (num - 1) * per ≤ length vs
    fewer h = omega (arith, whole, pred_mul num per p)

    long :
        (make_parts per (num - 1) vs).1 ≡ drop ((num - 1) * per) vs
        → length (make_parts per (num - 1) vs).1 ≡ per + extra
    long left_over =
        omega
          (arith, ap length left_over, length-drop ((num - 1) * per) vs, whole, pred_mul num per p)

    last_part :
        (make_parts per (num - 1) vs).1 ≡ drop ((num - 1) * per) vs
        → num ≤ pl.count
        → (q : Plist) × (make_part
              (per + extra)
              (take (per + extra) (make_parts per (num - 1) vs).1)
            ≡ some q)
          × Holds (drop ((num - 1) * per) vs) q
    last_part left_over h =
        subst
          (λ us.
            (q : Plist) × (make_part (per + extra)
                (take (per + extra) (make_parts per (num - 1) vs).1)
              ≡ some q)
            × Holds us q)
          (take_all (per + extra) (make_parts per (num - 1) vs).1 (omega (arith, long left_over))
            ∙ left_over)
          (make_part_lem (per + extra) (take (per + extra) (make_parts per (num - 1) vs).1)
            (omega (arith, some_each h))
            (omega
              (arith, long left_over, length-take (per + extra) (make_parts per (num - 1) vs).1)))
