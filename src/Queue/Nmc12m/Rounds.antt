-- ===== src/Queue/Nmc12m/Rounds.antt =====
-- Going round a buffer of `du` units: the unit numbered `k` stands in slot `k % du`.
use native.Mathlib.Nat.{mul_comm, mod-lt, mod-eq_of_lt, mod-add-mod, mod-eq-sub-mod}
use libdsys.Prelude.{
  ℕ, ◌+◌, ◌-◌, ◌*◌, ◌%◌, ◌≤◌, ◌<◌, ◌≡◌, ◌≢◌, sym, ◌∙◌, ap, dec_lt, arith, ◌==◌, if◌then◌else◌, List,
  set, eq_of_get_or, get_or-set, length-set,
}
use libdsys.Queue.Memory.{slice, length-slice, get_or-slice}

step_ne : (r d du : ℕ) → r < du → 0 < d → d < du → (r + d) % du ≢ r
step_ne r d du h p b = ground (
  arith,
  mod-eq_of_lt {n = r + d} {m = du},
  mod-eq-sub-mod {n = r + d} {m = du},
  mod-eq_of_lt {n = r + d - du} {m = du},
)

-- Units less than one round apart stand in different slots.
pub slots_differ : (k a du : ℕ) → k < a → a < k + du → k % du ≢ a % du
slots_differ k a du h b e =
    step_ne (k % du) (a - k) du (mod-lt k (omega arith)) (omega arith) (omega arith)
      (mod-add-mod k du (a - k) ∙ ap (λ n. n % du) (omega arith) ∙ sym e)

pub slot-suc : (k du : ℕ) → (k % du + 1) % du ≡ (k + 1) % du
slot-suc k du = mod-add-mod k du 1

round_size : (i j size : ℕ) → i < j → i * size + size ≤ j * size
round_size i j size h = grind arith

slot_next :
    (r du size : ℕ)
    → 0 < size
    → r < du
    → (if r * size + size == size * du then 0 else r * size + size) ≡ (r + 1) % du * size
slot_next r du size p h = elim (dec_lt (r + 1) du) [
  | yes below ↦ ground (
    arith,
    mod-eq_of_lt {n = r + 1} {m = du} below,
    round_size (r + 1) du size below,
    mul_comm size du,
    suc_mul,
  )
  | no last ↦
      let e : du ≡ r + 1 = omega arith in ground (arith, e, mul_comm size du, suc_mul, mod-self)
]
  where
    suc_mul : (r + 1) * size ≡ r * size + size
    suc_mul = omega arith

    mod-self : (r + 1) % (r + 1) ≡ 0
    mod-self =
        mod-eq-sub-mod {n = r + 1} {m = r + 1} (omega arith)
        ∙ ap (λ k. k % (r + 1)) (omega arith)
        ∙ mod-eq_of_lt {n = 0} {m = r + 1} (omega arith)

-- A pointer that goes from slot to slot and back to the start at the end of the block.
pub next_slot :
    (k du size : ℕ)
    → 0 < size
    → 0 < du
    → (if k % du * size + size == size * du then 0 else k % du * size + size) ≡ (k + 1) % du * size
next_slot k du size p b =
    slot_next (k % du) du size p (mod-lt k b) ∙ ap (λ i. i * size) (slot-suc k du)

places_differ : (i j size o k : ℕ) → i ≢ j → o < size → k < size → i * size + o ≢ j * size + k
places_differ i j size o k ne h b = elim (dec_lt i j) [
  | yes p ↦ omega (arith, round_size i j size p)
  | no p ↦ omega (arith, round_size j i size (omega arith))
]

-- Storing a byte of one slot leaves the other slots alone.
pub slice-set_ne :
    (mem : List ℕ) (i j size o x : ℕ)
    → i ≢ j
    → o < size
    → slice (set mem (i * size + o) x) (j * size) size ≡ slice mem (j * size) size
slice-set_ne mem i j size o x ne h =
    eq_of_get_or (slice (set mem (i * size + o) x) (j * size) size) (slice mem (j * size) size) 0
      (omega (
        arith,
        length-slice (set mem (i * size + o) x) (j * size) size,
        length-slice mem (j * size) size,
        length-set mem (i * size + o) x,
      ))
      λ k below. ground (
        arith,
        get_or-slice (set mem (i * size + o) x) (j * size) size k,
        get_or-slice mem (j * size) size k,
        get_or-set mem (i * size + o) (j * size + k) x 0,
        places_differ i j size o k ne h,
      )
