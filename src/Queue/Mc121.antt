-- ===== src/Queue/Mc121.antt =====
-- The one-to-one buffer with memory copy, `bc_mc121_t` of libdsys/queue.c and libdsys/queue.h: a ring
-- of bytes. A pointer is an offset from `buff_start`; `size_t` sums and differences are modulo 2^64.
-- The lock makes each pass through a loop of `__bc_mc121_put` or `__bc_mc121_send` one atomic
-- action, so a pass is a function on the buffer; a pass that ends in `bc_cond_wait` is `none`.
pub mod Fields
pub mod Inv
pub mod Contents
pub mod Refine
pub mod Stream
pub mod Wait
use libdsys.Prelude.{
  ℕ, ◌-◌, ◌+◌, Bool, true, false, Option, none, some, List, [], ◌∷◌, ◌++◌, ltb, if◌then◌else◌, take,
  drop,
}
use libdsys.Prelude.Words.{add_size, sub_size, mul_size}
use libdsys.Queue.Wire.{Packet, data_bytes, sorry_message, preamble_message}
use libdsys.Queue.Memory.{memcpy_to, slice}

-- `struct bc_mc121_s` without its lock and condition variable.
pub record Mc121 : Type 0 where
  pub bytes_inbuff : ℕ
  pub size : ℕ
  pub free_start : ℕ
  pub data_start : ℕ
  pub buff : List ℕ
  pub buff_end : ℕ

-- `__bc_mc121_create`; `node` and `block` are what the two calls of malloc return.
unfoldable pub mc121_create : Bool → Option (List ℕ) → ℕ → Option Mc121
mc121_create false block bytes = none
mc121_create true none bytes = none
mc121_create true (some block) bytes = some (record {
  bytes_inbuff = 0;
  size = bytes;
  free_start = 0;
  data_start = 0;
  buff = block;
  buff_end = bytes;
})

-- `__bc_c_mc121`; `queue` is what its own malloc returns.
unfoldable pub c_mc121 : Bool → Bool → Option (List ℕ) → ℕ → ℕ → Option Mc121
c_mc121 false node block du szdu = none
c_mc121 true node block du szdu = mc121_create node block (mul_size du szdu)

-- `__bc_putq_mc121`; `none` is the result -1, which leaves the buffer as it was.
unfoldable pub putq_mc121 : Mc121 → List ℕ → ℕ → Option Mc121
putq_mc121 q local bytes =
    let upper_free = sub_size q.buff_end q.free_start in
    let bytes_remaining = bytes - upper_free in
    if ltb (sub_size q.size q.bytes_inbuff) bytes
    then none
    else if ltb bytes upper_free
    then some (record q {
      buff = memcpy_to q.buff q.free_start (take bytes local);
      free_start = q.free_start + bytes;
      bytes_inbuff = add_size q.bytes_inbuff bytes;
    })
    else if ltb 0 bytes_remaining
    then some (record q {
      buff =
          memcpy_to (memcpy_to q.buff q.free_start (take upper_free local)) 0
            (take bytes_remaining (drop upper_free local));
      free_start = bytes_remaining;
      bytes_inbuff = add_size q.bytes_inbuff bytes;
    })
    else some (record q {
      buff = memcpy_to q.buff q.free_start (take upper_free local);
      free_start = 0;
      bytes_inbuff = add_size q.bytes_inbuff bytes;
    })

-- The preamble that a conditional receiver gets before the data.
abbrev pub preamble : Bool → List Packet
preamble true = preamble_message ∷ []
preamble false = []

-- `__bc_sendq_mc121`: what is written to the socket, and the new buffer; `none` is the result -1.
unfoldable pub sendq_mc121 : Mc121 → ℕ → Bool → Option (List Packet × Mc121)
sendq_mc121 q n cond_recv =
    let upper_data = sub_size q.buff_end q.data_start in
    let bytes_remaining = n - upper_data in
    if ltb q.bytes_inbuff n
    then none
    else if ltb n upper_data
    then some (
      preamble cond_recv ++ data_bytes (slice q.buff q.data_start n) ∷ [],
      record q { data_start = q.data_start + n; bytes_inbuff = sub_size q.bytes_inbuff n },
    )
    else if ltb 0 bytes_remaining
    then some (
      preamble cond_recv
          ++ (data_bytes (slice q.buff q.data_start upper_data)
              ∷ data_bytes (slice q.buff 0 bytes_remaining)
              ∷ []),
      record q { data_start = bytes_remaining; bytes_inbuff = sub_size q.bytes_inbuff n },
    )
    else some (
      preamble cond_recv ++ data_bytes (slice q.buff q.data_start upper_data) ∷ [],
      record q { data_start = 0; bytes_inbuff = sub_size q.bytes_inbuff n },
    )

-- One pass through the loop of `__bc_mc121_put`: `some` returns 0, `none` waits on `no_suff`.
unfoldable pub mc121_put : Mc121 → List ℕ → ℕ → Option Mc121
mc121_put q local bytes = putq_mc121 q local bytes

-- One pass through the loop of `__bc_mc121_send`: a conditional receiver is told that there is no
-- data and never waits.
unfoldable pub mc121_send : Mc121 → ℕ → Bool → Option (List Packet × Mc121)
unfolding sendq_mc121
mc121_send q n cond_recv = elim (sendq_mc121 q n cond_recv) [
  | some r ↦ some r
  | none ↦ if cond_recv then some (sorry_message ∷ [], q) else none
]
