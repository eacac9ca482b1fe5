-- ===== src/Queue/Mc121/Refine.antt =====
-- `__bc_putq_mc121` and `__bc_sendq_mc121` of libdsys/queue.c against the queue of bytes of Fifo.
use mathlib.Core.Option
use libdsys.Prelude.{
  ◌↔◌, inl, inr, ℕ, ◌+◌, ◌-◌, ◌≤◌, ◌<◌, ◌≡◌, ap, Bool, true, false, none, some, List, [], ◌∷◌, ◌++◌,
  arith, length, take, length-take, length-append, get_or-take, get_or-append, eq_of_get_or,
  Option-cases, append-nil,
}
use libdsys.Prelude.Words.{sub_size}
use libdsys.Queue.Wire.{Packet, data_bytes, payload}
use libdsys.Queue.Memory.{slice, length-slice, get_or-slice}
use libdsys.Queue.Fifo
use libdsys.Queue.Mc121.{Mc121, preamble, putq_mc121, sendq_mc121}
use libdsys.Queue.Mc121.Inv.{IsValid}
use libdsys.Queue.Mc121.Contents.{contents, length-contents, get_or-contents}
use libdsys.Queue.Mc121.Fields.{contents-putq, contents-sendq, putq_fields, sendq_fields}

payload_of_one : (c : Bool) (xs : List ℕ) → payload (preamble c ++ data_bytes xs ∷ []) ≡ xs
unfolding payload
payload_of_one true xs = append-nil xs
payload_of_one false xs = append-nil xs

payload_of_two :
    (c : Bool) (xs ys : List ℕ)
    → payload (preamble c ++ (data_bytes xs ∷ data_bytes ys ∷ [])) ≡ xs ++ ys
unfolding payload
payload_of_two true xs ys = ap (λ zs. xs ++ zs) (append-nil ys)
payload_of_two false xs ys = ap (λ zs. xs ++ zs) (append-nil ys)

-- The part of the block that an unwrapped send writes, and the two parts that a wrapped one does,
-- are the oldest bytes.
slice-eq-take :
    (q : Mc121) (n : ℕ)
    → IsValid q
    → n ≤ q.bytes_inbuff
    → q.data_start + n ≤ q.size
    → slice q.buff q.data_start n ≡ take n (contents q)
slice-eq-take q n v h b =
    eq_of_get_or (slice q.buff q.data_start n) (take n (contents q)) 0
      (ground
        (arith, length-slice q.buff q.data_start n, length-take n (contents q), length-contents q))
      λ k below. ground (
        arith,
        length-slice q.buff q.data_start n,
        get_or-slice q.buff q.data_start n k,
        get_or-take n (contents q) k 0,
        get_or-contents q k,
      )

slices-eq-take :
    (q : Mc121) (n : ℕ)
    → IsValid q
    → n ≤ q.bytes_inbuff
    → q.size ≤ q.data_start + n
    → slice q.buff q.data_start (q.size - q.data_start)
        ++ slice q.buff 0 (n - (q.size - q.data_start))
      ≡ take n (contents q)
slices-eq-take q n v h b =
    eq_of_get_or (slice q.buff q.data_start upper ++ slice q.buff 0 (n - upper))
      (take n (contents q)) 0
      (ground (
        arith,
        lengths,
        length-append (slice q.buff q.data_start upper) (slice q.buff 0 (n - upper)),
        length-take n (contents q),
        length-contents q,
      ))
      λ k below. ground (
        arith,
        lengths,
        length-append (slice q.buff q.data_start upper) (slice q.buff 0 (n - upper)),
        get_or-append (slice q.buff q.data_start upper) (slice q.buff 0 (n - upper)) k 0,
        get_or-slice q.buff q.data_start upper k,
        get_or-slice q.buff 0 (n - upper) (k - upper),
        get_or-take n (contents q) k 0,
        get_or-contents q k,
      )
  where
    upper : ℕ
    upper = q.size - q.data_start

    lengths :
        (length (slice q.buff q.data_start upper) ≡ upper)
        × (length (slice q.buff 0 (n - upper)) ≡ n - upper)
    lengths =
        ground (arith, length-slice q.buff q.data_start upper, length-slice q.buff 0 (n - upper))

pub payload-sendq :
    (q : Mc121) (n : ℕ) (cond_recv : Bool) {out : List Packet} {q' : Mc121}
    → IsValid q
    → sendq_mc121 q n cond_recv ≡ some (out, q')
    → payload out ≡ take n (contents q)
unfolding sendq_mc121
payload-sendq q n cond_recv {out} {q'} v e =
    let upper = sub_size q.buff_end q.data_start in
    ground (
      arith,
      payload_of_one cond_recv (slice q.buff q.data_start n),
      payload_of_one cond_recv (slice q.buff q.data_start upper),
      payload_of_two cond_recv (slice q.buff q.data_start upper) (slice q.buff 0 (n - upper)),
      slice-eq-take q n v,
      slices-eq-take q n v,
    )

-- The two tests by which a call is refused.
pub putq_waits :
    (q : Mc121) (local : List ℕ) (bytes : ℕ)
    → IsValid q
    → (putq_mc121 q local bytes ≡ none) ↔ (q.size - q.bytes_inbuff < bytes)
unfolding putq_mc121
putq_waits q local bytes v = (λ e. ground arith, λ h. ground arith)

pub sendq_waits :
    (q : Mc121) (n : ℕ) (cond_recv : Bool)
    → IsValid q
    → (sendq_mc121 q n cond_recv ≡ none) ↔ (q.bytes_inbuff < n)
unfolding sendq_mc121
sendq_waits q n cond_recv v = (λ e. ground arith, λ h. ground arith)

-- On a valid buffer `__bc_putq_mc121` is `put` of the bounded queue of bytes: it is refused exactly
-- when the message does not fit, and else appends the first `bytes` bytes of `local`, whole and in
-- order, whether or not they go round the end of the block.
pub putq_refines :
    (q : Mc121) (local : List ℕ) (bytes : ℕ)
    → IsValid q
    → bytes ≤ length local
    → Option.map contents (putq_mc121 q local bytes)
      ≡ Fifo.put q.size (contents q) (take bytes local)
unfolding Fifo.put
putq_refines q local bytes v h = elim (Option-cases (putq_mc121 q local bytes)) [
  | inl e ↦
      rw e (
        ground
          (arith, (putq_waits q local bytes v).0 e, length-contents q, length-take bytes local))
  | inr (q', e) ↦ rw e (
      ground (
        arith,
        contents-putq q local bytes v h e,
        putq_fields q local bytes v e,
        length-contents q,
        length-take bytes local,
      ))
]

-- On a valid buffer `__bc_sendq_mc121` is `get` of the queue of bytes: it is refused exactly when
-- fewer than `n` bytes are there, and else the data written to the socket are the `n` oldest bytes
-- in order, which leave the buffer.
pub sendq_refines :
    (q : Mc121) (n : ℕ) (cond_recv : Bool)
    → IsValid q
    → Option.map (λ r. (payload r.0, contents r.1)) (sendq_mc121 q n cond_recv)
      ≡ Fifo.get (contents q) n
unfolding Fifo.get
sendq_refines q n cond_recv v = elim (Option-cases (sendq_mc121 q n cond_recv)) [
  | inl e ↦ rw e (ground (arith, (sendq_waits q n cond_recv v).0 e, length-contents q))
  | inr (r, e) ↦ rw e (
      ground (
        arith,
        payload-sendq q n cond_recv v e,
        contents-sendq q n cond_recv v e,
        sendq_fields q n cond_recv v e,
        length-contents q,
      ))
]
