-- ===== src/Queue/Nmc121/Full.antt =====
-- What becomes of the full buffer of libdsys/queue.c whose calls wait under an `if`.
use libdsys.Prelude.{
  ℕ, zero, suc, ◌+◌, ◌-◌, ◌*◌, ◌<◌, ◌^◌, ◌≡◌, refl, sym, ap, ◌∙◌, true, false, ◌||◌, Option, none,
  some, List, arith, ◌==◌,
}
use libdsys.Prelude.Words.{mul_size}
use libdsys.Queue.Nmc121.{Nmc121, nmc121_create, nmc121_put, nmc121_send}

-- Several puts, none of which waits.
unfoldable pub puts : ℕ → Nmc121 → Option Nmc121
puts zero q = some q
puts (suc k) q = elim (nmc121_put q false) [ none ↦ none | some q' ↦ puts k q' ]

abbrev pub filled : List ℕ → ℕ → ℕ → ℕ → ℕ → Nmc121
filled block du bytes k v = record {
  mem = block;
  end = du * bytes;
  size = bytes;
  inbuff = k;
  du = du;
  var = v;
}

next_start : (k bytes : ℕ) → (k + 1) * bytes ≡ k * bytes + bytes
next_start k bytes = grind arith

not_end : (k j bytes : ℕ) → 0 < bytes → k * bytes + bytes == (k + 2 + j) * bytes ≡ false
not_end k j bytes s =
    let whole : (k + 2 + j) * bytes ≡ k * bytes + bytes + bytes + j * bytes = grind arith in
    ground (arith, whole)

not_end_of : (du k bytes : ℕ) → suc k < du → 0 < bytes → k * bytes + bytes == du * bytes ≡ false
not_end_of du k bytes b s =
    let split : k + 2 + (du - (k + 2)) ≡ du = omega arith in
    ap (λ x. k * bytes + bytes == x * bytes) (sym split) ∙ not_end k (du - (k + 2)) bytes s

one_put :
    (block : List ℕ) (du bytes k : ℕ)
    → suc k < du
    → 0 < bytes
    → nmc121_put (filled block du bytes k (k * bytes)) false
      ≡ some (filled block du bytes (k + 1) ((k + 1) * bytes))
unfolding nmc121_put
one_put block du bytes k b s =
    let room : k == du ≡ false = ground arith in
    rw (room, not_end_of du k bytes b s, next_start k bytes) refl

last_put :
    (block : List ℕ) (k bytes : ℕ)
    → nmc121_put (filled block (suc k) bytes k (k * bytes)) false
      ≡ some (filled block (suc k) bytes (suc k) 0)
unfolding nmc121_put
last_put block k bytes =
    let room : k == suc k ≡ false = ground arith in
    let next : suc k * bytes ≡ k * bytes + bytes = grind arith in
    let at_end : k * bytes + bytes == suc k * bytes ≡ true = ground (arith, next) in
    rw (room, at_end)
      (ap (λ x. some (record (filled block (suc k) bytes (suc k) 0) { inbuff = x })) (omega arith))

put_next : (k : ℕ) (q q' : Nmc121) → nmc121_put q false ≡ some q' → puts (suc k) q ≡ puts k q'
unfolding puts
put_next k q q' e = rw (puts, e) refl

fills_up :
    (block : List ℕ) (du k bytes : ℕ)
    → suc k ≡ du
    → nmc121_put (filled block du bytes k (k * bytes)) false ≡ some (filled block du bytes du 0)
fills_up block du k bytes e =
    ap (λ x. nmc121_put (filled block x bytes k (k * bytes)) false) (sym e)
    ∙ last_put block k bytes
    ∙ ap (λ x. some (filled block x bytes x 0)) e

fill :
    (block : List ℕ) (du bytes m k : ℕ)
    → k + suc m ≡ du
    → 0 < bytes
    → puts (suc m) (filled block du bytes k (k * bytes)) ≡ some (filled block du bytes du 0)
unfolding puts
fill block du bytes zero k e s = put_next 0 _ _ (fills_up block du k bytes (omega arith))
fill block du bytes (suc m) k e s =
    put_next (suc m) _ _ (one_put block du bytes k (omega arith) s)
    ∙ (fill block du bytes m (k + 1) (omega arith) s)

-- After as many puts as there is room for, none of which waits, the pointer of the buffer is back at
-- the first slot, where the consumer begins: the next put waits because the buffer is full, and a
-- request that is not conditional waits because the pointers are equal.
pub full_buffer_stuck :
    (block : List ℕ) (du bytes : ℕ) (q : Nmc121)
    → 0 < du
    → 0 < bytes
    → bytes * du < 2 ^ 64
    → nmc121_create du bytes true (some block) ≡ some q
    → (full : Nmc121) × (puts du q ≡ some full)
      × (nmc121_put full false ≡ none)
      × (nmc121_send full 0 false false ≡ none)
unfolding nmc121_create nmc121_put nmc121_send
full_buffer_stuck block du bytes q d s b e =
    let turned : bytes * du ≡ du * bytes = grind arith in
    let whole : mul_size bytes du ≡ du * bytes = omega (arith, turned) in
    let made : Nmc121 = record (filled block du bytes 0 0) { end = mul_size bytes du } in
    let q_is : q ≡ made = cc in
    let begins : made ≡ filled block du bytes 0 (0 * bytes) =
      ap (λ x. record made { end = x }) whole ∙ ap (filled block du bytes 0) (omega arith) in
    let m : suc (du - 1) ≡ du = omega arith in
    let no_room : du == du ≡ true = ground arith in
    (
      filled block du bytes du 0,
      ap (puts du) (q_is ∙ begins)
          ∙ ap (λ k. puts k (filled block du bytes 0 (0 * bytes))) (sym m)
          ∙ fill block du bytes (du - 1) 0 (omega arith) s,
      rw (no_room) refl,
      rw (at_start du) refl,
    )
  where
    at_start : (x : ℕ) → (x == 0 || 0 == 0) ≡ true
    at_start x = ground arith
