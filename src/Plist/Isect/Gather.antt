-- ===== src/Plist/Isect/Gather.antt =====
-- The last loop of `bc_plist_isect` (libdsys/plist.c), which works in the array that it reads.
use libdsys.Prelude.{
  ℕ, suc, ◌+◌, ◌≤◌, ◌<◌, ◌≡◌, sym, ap, ◌∙◌, List, [], ◌∷◌, ◌++◌, arith, ◌==◌, if◌then◌else◌, inl,
  inr, Bool-cases, length, get_or, set, take, drop, append-nil, append_assoc, length-set, drop-set,
  drop-get, take-set,
}
use libdsys.Prelude.Int.{ℤ, pos}
use libdsys.Plist.Isect.{Tally, gather, listed, inclusions}

-- The values that are counted `num` times.
unfoldable pub counted : ℕ → List Tally → List ℤ
counted num [] = []
counted num (t ∷ ts) = if t.inclusion == num then t.value ∷ counted num ts else counted num ts

-- From `i` and `k` on the loop keeps what was gathered and adds the values that are counted in full;
-- `ts` are the places from `i` on.
abbrev pub Gathered : ℕ → List Tally → List ℤ → ℕ → ℕ → Type 0
Gathered num ts list i k =
    let (all, m) = gather num list (inclusions ts) i k in
    (take m all ≡ take k list ++ counted num ts) × (m ≡ k + length (counted num ts))

gather_round :
    (num : ℕ) (t : Tally) (ts : List Tally) (list : List ℤ) (i k : ℕ)
    → k ≤ i
    → i < length list
    → get_or list i (pos 0) ≡ t.value
    → Gathered num ts (set list k t.value) (suc i) (suc k)
    → Gathered num ts list (suc i) k
    → Gathered num (t ∷ ts) list i k
unfolding gather counted
gather_round num t ts list i k h b here kept left = elim (Bool-cases (t.inclusion == num)) [
  | inl full ↦ rw (full, gather, here) (kept.0 ∙ written, omega (arith, kept.1))
  | inr short ↦ rw (short, gather) left
]
  where
    written :
        take (suc k) (set list k t.value) ++ counted num ts
        ≡ take k list ++ t.value ∷ counted num ts
    written =
        ap (λ ys. ys ++ counted num ts) (take-set list k t.value (omega arith))
        ∙ append_assoc (take k list) (t.value ∷ []) (counted num ts)

-- The loop writes no place that it has still to read.
pub gather_lem :
    (num : ℕ) (ts : List Tally) (list : List ℤ) (i k : ℕ)
    → k ≤ i
    → drop i list ≡ listed ts
    → i + length ts ≤ length list
    → Gathered num ts list i k
unfolding gather counted
gather_lem num [] list i k h e b = (sym (append-nil (take k list)), omega arith)
gather_lem num (t ∷ ts) list i k h e b =
    gather_round num t ts list i k h (omega arith) (cc split)
      (gather_lem num ts (set list k t.value) (suc i) (suc k) (omega arith)
        (drop-set list (suc i) k t.value (omega arith) ∙ cc split)
        (omega (arith, length-set list k t.value)))
      (gather_lem num ts list (suc i) k (omega arith) (cc split) (omega arith))
  where
    split : get_or list i (pos 0) ∷ drop (suc i) list ≡ t.value ∷ listed ts
    split = sym (drop-get list i (pos 0) (omega arith)) ∙ e
