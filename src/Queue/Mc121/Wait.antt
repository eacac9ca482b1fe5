-- ===== src/Queue/Mc121/Wait.antt =====
-- When a thread waits on the condition variable of a buffer of libdsys/queue.c, and when two threads
-- wait for one another.
use libdsys.Prelude.{
  ℕ, ◌+◌, ◌≤◌, ◌<◌, ◌≡◌, true, false, ◌↔◌, ◌⊎◌, inl, inr, none, some, List, [], ◌∷◌, arith, take,
  drop, sym, ap, ◌∙◌, Option-cases,
}
use libdsys.Queue.Wire.{Packet, payload, sorry_message, preamble_message}
use libdsys.Queue.Mc121.{Mc121, sendq_mc121, mc121_put, mc121_send}
use libdsys.Queue.Mc121.Inv.{IsValid}
use libdsys.Queue.Mc121.Contents.{contents}
use libdsys.Queue.Mc121.Refine.{putq_waits, sendq_waits, payload-sendq}

-- A put of `p` bytes and an unconditional get of `g` bytes both wait exactly when the bytes in the
-- buffer are fewer than `g` and more than `size - p`.
both_wait_iff :
    (q : Mc121) (local : List ℕ) (p g : ℕ)
    → IsValid q
    → ((mc121_put q local p ≡ none) × (mc121_send q g false ≡ none))
      ↔ ((q.bytes_inbuff < g) × (q.size < q.bytes_inbuff + p))
unfolding mc121_put mc121_send
both_wait_iff q local p g v =
    let full = putq_waits q local p v in
    let short = sendq_waits q g false v in
    elim (Option-cases (sendq_mc121 q g false)) [
      | inl e ↦ (
        λ w. ground (arith, full.0 w.0, short.0 e),
        λ w. (full.1 (omega arith), rw (e, mc121_send)),
      )
      | inr (r, e) ↦ (λ w. cc, λ w. cc (short.1 w.0))
    ]

-- A buffer that has room for `p + g - 1` bytes never makes a put of `p` bytes and a get of `g` bytes
-- wait for one another: one of them goes through.
pub one_goes_through :
    (q : Mc121) (local : List ℕ) (p g : ℕ)
    → IsValid q
    → p + g ≤ q.size + 1
    → ((q' : Mc121) × (mc121_put q local p ≡ some q'))
      ⊎ ((r : List Packet × Mc121) × (mc121_send q g false ≡ some r))
one_goes_through q local p g v h = elim (Option-cases (mc121_put q local p)) [
  | inr r ↦ inl r
  | inl full ↦ elim (Option-cases (mc121_send q g false)) [
    | inr r ↦ inr r
    | inl short ↦ absurd (omega (arith, (both_wait_iff q local p g v).0 (full, short)))
  ]
]

sendq_preamble :
    (q : Mc121) (n : ℕ) {out : List Packet} {q' : Mc121}
    → sendq_mc121 q n true ≡ some (out, q')
    → out ≡ preamble_message ∷ drop 1 out
unfolding sendq_mc121
sendq_preamble q n {out} {q'} e = ground arith

-- A conditional request never waits. It is answered by 1 and the `n` oldest bytes if there are so
-- many, and else by 0 alone, with the buffer left as it was.
pub conditional_send :
    (q : Mc121) (n : ℕ)
    → IsValid q
    → (n ≤ q.bytes_inbuff
        → (q' : Mc121) × (rest : List Packet) × (mc121_send q n true
            ≡ some (preamble_message ∷ rest, q'))
          × (payload rest ≡ take n (contents q)))
      × (q.bytes_inbuff < n → mc121_send q n true ≡ some (sorry_message ∷ [], q))
unfolding mc121_send payload
conditional_send q n v = elim (Option-cases (sendq_mc121 q n true)) [
  | inl e ↦
      let short = (sendq_waits q n true v).0 e in
      (λ h. absurd (omega arith), λ h. rw (e, mc121_send))
  | inr ((out, q'), e) ↦ (
    λ h. (
      q',
      drop 1 out,
      rw (e, mc121_send) (ap (λ ps. some (ps, q')) (sendq_preamble q n e)),
      ap payload (sym (sendq_preamble q n e)) ∙ payload-sendq q n true v e,
    ),
    λ h. cc ((sendq_waits q n true v).1 h),
  )
]
