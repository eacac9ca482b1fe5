-- ===== src/Queue/Mc121/Inv.antt =====
-- The representation invariant of the ring of libdsys/queue.c.
use libdsys.Prelude.{
  ℕ, ◌+◌, ◌-◌, ◌^◌, ◌≤◌, ◌<◌, ◌≡◌, Bool, true, some, List, arith, length, ltb, if◌then◌else◌, take,
  drop,
}
use libdsys.Prelude.Words.{sub_size}
use libdsys.Queue.Wire.{Packet}
use libdsys.Queue.Memory.{memcpy_to, length-memcpy_to}
use libdsys.Queue.Mc121.{Mc121, mc121_create, putq_mc121, sendq_mc121}

-- A position at most once round a ring of `size` bytes.
abbrev pub wrap : ℕ → ℕ → ℕ
wrap size i = if ltb i size then i else i - size

-- Both pointers lie inside the block, and the free part starts where the data end.
pub record IsValid (q : Mc121) : Type 0 where
  pub block : length q.buff ≡ q.size
  pub last : q.buff_end ≡ q.size
  pub small : q.size < 2 ^ 64
  pub free_in : q.free_start < q.size
  pub data_in : q.data_start < q.size
  pub fits : q.bytes_inbuff ≤ q.size
  pub agree : q.free_start ≡ wrap q.size (q.data_start + q.bytes_inbuff)

pub mc121_create-IsValid :
    (block : List ℕ) (bytes : ℕ) {q : Mc121}
    → length block ≡ bytes
    → 0 < bytes
    → bytes < 2 ^ 64
    → mc121_create true (some block) bytes ≡ some q
    → IsValid q
unfolding mc121_create
mc121_create-IsValid block bytes {q} h p k e = ground arith

pub putq-IsValid :
    (q : Mc121) (local : List ℕ) (bytes : ℕ) {q' : Mc121}
    → IsValid q
    → putq_mc121 q local bytes ≡ some q'
    → IsValid q'
unfolding putq_mc121
putq-IsValid q local bytes {q'} v e =
    let upper = sub_size q.buff_end q.free_start in
    ground (
      arith,
      length-memcpy_to q.buff q.free_start (take bytes local),
      length-memcpy_to q.buff q.free_start (take upper local),
      length-memcpy_to (memcpy_to q.buff q.free_start (take upper local)) 0
          (take (bytes - upper) (drop upper local)),
    )

pub sendq-IsValid :
    (q : Mc121) (n : ℕ) (cond_recv : Bool) {out : List Packet} {q' : Mc121}
    → IsValid q
    → sendq_mc121 q n cond_recv ≡ some (out, q')
    → IsValid q'
unfolding sendq_mc121
sendq-IsValid q n cond_recv {out} {q'} v e = ground arith
