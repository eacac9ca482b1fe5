-- ===== src/Net/Chunks.antt =====
-- The loops of libdsys/fdutils.c and libdsys/service.c under every way in which the system cuts a
-- transfer into pieces.
use libdsys.Prelude.{
  ℕ, zero, suc, ◌+◌, ◌-◌, ◌*◌, ◌^◌, ◌≤◌, ◌<◌, ◌≡◌, ◌⊎◌, refl, sym, ap, ◌∙◌, true, false, some, List,
  [], ◌∷◌, ◌++◌, arith, ◌==◌, if_of_true, if_of_false, length, get_or, set, take, drop, length-take,
  length-drop, take-append-drop, take-length, drop-drop, drop_at, take-append_le, eq_of_get_or,
  dec_lt,
}
use libdsys.Prelude.Words.{sub_size, sub_size-eq-sub}
use libdsys.Queue.Memory.{
  memcpy_to, slice, length-memcpy_to, get_or-memcpy_to, length-slice, get_or-slice,
}
use libdsys.Net.{sent_before, send_loop, recv_loop, write_data, read_data}

-- What the system documents of the calls for `n` bytes: each takes or gives at least one byte and no
-- more than it is asked for.
unfoldable pub Legal : List ℕ → ℕ → Type 0
Legal [] n = Unit {0}
Legal (w ∷ ws) n = (0 < w) × (w ≤ n) × (w < n → Legal ws (n - w))

take-split : (w n : ℕ) (xs : List ℕ) → w ≤ n → take w xs ++ take (n - w) (drop w xs) ≡ take n xs
take-split zero n xs h = ap (λ k. take k xs) (omega arith)
take-split (suc w) zero xs h = elim h [ ]
take-split (suc w) (suc n) [] h = nil (suc n - suc w)
  where
    nil : (k : ℕ) → take {A = ℕ} k [] ≡ []
    nil zero = refl
    nil (suc k) = refl
take-split (suc w) (suc n) (x ∷ xs) h =
    ap (λ k. x ∷ (take w xs ++ take k (drop w xs))) (omega arith)
    ∙ ap (λ ys. x ∷ ys) (take-split w n xs (omega arith))

slice-split :
    (w n p : ℕ) (mem : List ℕ)
    → w ≤ n
    → slice mem p w ++ slice mem (p + w * 1) (n - w) ≡ slice mem p n
slice-split w n p mem h =
    ap (λ ys. slice mem p w ++ take (n - w) ys)
      (drop_at (p + w * 1) (p + w) mem (omega arith) ∙ sym (drop-drop w p mem))
    ∙ take-split w n (drop p mem) h

memcpy_to-append :
    (mem : List ℕ) (p : ℕ) (xs ys : List ℕ)
    → memcpy_to mem p (xs ++ ys) ≡ memcpy_to (memcpy_to mem p xs) (p + length xs) ys
unfolding memcpy_to
memcpy_to-append mem p [] ys = ap (λ k. memcpy_to mem k ys) (omega arith)
memcpy_to-append mem p (x ∷ xs) ys =
    memcpy_to-append (set mem p x) (p + 1) xs ys
    ∙ ap (λ k. memcpy_to (memcpy_to (set mem p x) (p + 1) xs) k ys) (omega arith)

drop-append_le : (n : ℕ) (xs ys : List ℕ) → n ≤ length xs → drop n (xs ++ ys) ≡ drop n xs ++ ys
drop-append_le zero xs ys h = refl
drop-append_le (suc n) [] ys h = absurd (omega arith)
drop-append_le (suc n) (x ∷ xs) ys h = drop-append_le n xs ys (omega arith)

pub take-append_all : (r : ℕ) (xs ys : List ℕ) → length xs ≡ r → take r (xs ++ ys) ≡ xs
take-append_all r xs ys e =
    take-append_le r xs ys (omega arith) ∙ ap (λ k. take k xs) (sym e) ∙ take-length xs

pub drop-append_all : (r : ℕ) (xs ys : List ℕ) → length xs ≡ r → drop r (xs ++ ys) ≡ ys
drop-append_all zero [] ys e = refl
drop-append_all zero (x ∷ xs) ys e = absurd (omega arith)
drop-append_all (suc r) [] ys e = absurd (omega arith)
drop-append_all (suc r) (x ∷ xs) ys e = drop-append_all r xs ys (omega arith)

memcpy-split :
    (mem : List ℕ) (p r : ℕ) (xs : List ℕ)
    → r ≤ length xs
    → memcpy_to (memcpy_to mem p (take r xs)) (p + r * 1) (drop r xs) ≡ memcpy_to mem p xs
memcpy-split mem p r xs h =
    ap (λ k. memcpy_to (memcpy_to mem p (take r xs)) k (drop r xs))
      (omega (arith, length-take r xs))
    ∙ sym (memcpy_to-append mem p (take r xs) (drop r xs))
    ∙ ap (memcpy_to mem p) (take-append-drop r xs)

pub left_zero : (n w : ℕ) → n < 2 ^ 64 → w ≤ n → n ≤ w → (sub_size n w == 0) ≡ true
left_zero n w b h k = ground (arith, sub_size-eq-sub n w h)

pub left_pos : (n w : ℕ) → n < 2 ^ 64 → w < n → (sub_size n w == 0) ≡ false
left_pos n w b h = ground (arith, sub_size-eq-sub n w)

-- As many calls as there are bytes are enough.
send_all :
    (ws mem : List ℕ) (p n : ℕ)
    → 0 < n
    → n < 2 ^ 64
    → n ≤ length ws
    → Legal ws n
    → send_loop 1 ws mem p n ≡ some (slice mem p n)
unfolding send_loop Legal
send_all [] mem p n h b l legal = absurd (omega arith)
send_all (w ∷ ws) mem p n h b l (pos, le, next) = elim (dec_lt w n) [
  | no whole ↦
      if_of_true _ _ _ (left_zero n w b le (omega arith))
      ∙ ap (λ k. some (slice mem p k)) (omega arith)
  | yes part ↦
      if_of_false _ _ _ (left_pos n w b part)
      ∙ ap (λ k. sent_before (slice mem p w) (send_loop 1 ws mem (p + w * 1) k))
          (sub_size-eq-sub n w le b)
      ∙ ap (sent_before (slice mem p w)) (
          send_all ws mem (p + w * 1) (n - w) (omega arith) (omega arith) (omega arith) (next part))
      ∙ ap some (slice-split w n p mem le)
]

pub recv_all :
    (rs xs rest mem : List ℕ) (p n : ℕ)
    → length xs ≡ n
    → 0 < n
    → n < 2 ^ 64
    → n ≤ length rs
    → Legal rs n
    → recv_loop 1 rs (xs ++ rest) mem p n ≡ some (memcpy_to mem p xs, rest)
unfolding recv_loop Legal
recv_all [] xs rest mem p n e h b l legal = absurd (omega arith)
recv_all (r ∷ rs) xs rest mem p n e h b l (pos, le, next) = elim (dec_lt r n) [
  | no whole ↦
      if_of_true _ _ _ (left_zero n r b le (omega arith))
      ∙ ap (λ ys. some (memcpy_to mem p ys, drop r (xs ++ rest)))
          (take-append_all r xs rest (omega arith))
      ∙ ap (λ ys. some (memcpy_to mem p xs, ys)) (drop-append_all r xs rest (omega arith))
  | yes part ↦
      if_of_false _ _ _ (left_pos n r b part)
      ∙ ap
          (λ k.
            recv_loop 1 rs (drop r (xs ++ rest)) (memcpy_to mem p (take r (xs ++ rest))) (p + r * 1)
              k)
          (sub_size-eq-sub n r le b)
      ∙ ap (λ i. recv_loop 1 rs i (memcpy_to mem p (take r (xs ++ rest))) (p + r * 1) (n - r))
          (drop-append_le r xs rest (omega arith))
      ∙ ap (λ ys. recv_loop 1 rs (drop r xs ++ rest) (memcpy_to mem p ys) (p + r * 1) (n - r))
          (take-append_le r xs rest (omega arith))
      ∙ recv_all rs (drop r xs) rest (memcpy_to mem p (take r xs)) (p + r * 1) (n - r)
          (omega (arith, length-drop r xs)) (omega arith) (omega arith) (omega arith) (next part)
      ∙ ap (λ m. some (m, rest)) (memcpy-split mem p r xs (omega arith))
]

pub slice-memcpy_to :
    (mem : List ℕ) (p : ℕ) (xs : List ℕ)
    → p + length xs ≤ length mem
    → slice (memcpy_to mem p xs) p (length xs) ≡ xs
slice-memcpy_to mem p xs h =
    eq_of_get_or (slice (memcpy_to mem p xs) p (length xs)) xs 0
      (omega (arith, length-slice (memcpy_to mem p xs) p (length xs), length-memcpy_to mem p xs))
      (λ i b. ground (
        arith,
        length-slice (memcpy_to mem p xs) p (length xs),
        length-memcpy_to mem p xs,
        get_or-slice (memcpy_to mem p xs) p (length xs) i,
        get_or-memcpy_to mem p xs (p + i),
      ))

-- Let the system cut a transfer of `n` bytes into pieces as it likes, and not in the same way for the
-- sender and the receiver: `n` calls are enough for either, what `__bc_write_data` sends is the sender's
-- `n` bytes, and `__bc_read_data` takes exactly these from what comes in and puts them in order where
-- the receiver wants them, with every other byte of its memory as it was.
pub read-write :
    (ws rs mem mem' rest : List ℕ) (p p' n : ℕ)
    → 0 < n
    → n < 2 ^ 64
    → n ≤ length ws
    → n ≤ length rs
    → Legal ws n
    → Legal rs n
    → p + n ≤ length mem
    → p' + n ≤ length mem'
    → (out after : List ℕ) × (write_data ws mem p n ≡ some out)
      × (read_data rs (out ++ rest) mem' p' n ≡ some (after, rest))
      × (slice after p' n ≡ slice mem p n)
      × ((i : ℕ) → (i < p') ⊎ (p' + n ≤ i) → get_or after i 0 ≡ get_or mem' i 0)
unfolding write_data read_data
read-write ws rs mem mem' rest p p' n h b l l' legal legal' fits fits' =
    let out = slice mem p n in
    let size : length out ≡ n = omega (arith, length-slice mem p n) in
    (
      out,
      memcpy_to mem' p' out,
      send_all ws mem p n h b l legal,
      recv_all rs out rest mem' p' n size h b l' legal',
      ap (slice (memcpy_to mem' p' out) p') (sym size) ∙ slice-memcpy_to mem' p' out (omega arith),
      λ i away. ground (arith, get_or-memcpy_to mem' p' out i),
    )
