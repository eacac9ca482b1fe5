-- ===== src/Queue/Mc121/Fields.antt =====
-- What `__bc_putq_mc121` and `__bc_sendq_mc121` of libdsys/queue.c leave in a buffer.
use libdsys.Prelude.{
  ℕ, ◌+◌, ◌-◌, ◌≤◌, ◌<◌, ◌≡◌, Bool, some, List, ◌++◌, arith, length, get_or, take, drop,
  length-take, length-drop, length-append, get_or-take, get_or-drop, get_or-append, eq_of_get_or,
}
use libdsys.Queue.Wire.{Packet}
use libdsys.Queue.Mc121.{Mc121, putq_mc121, sendq_mc121}
use libdsys.Queue.Mc121.Inv.{IsValid, wrap}
use libdsys.Queue.Mc121.Contents.{contents, length-contents, get_or-contents, get_or-putq}

-- What a put leaves alone, and the count it sets.
pub putq_fields :
    (q : Mc121) (local : List ℕ) (bytes : ℕ) {q' : Mc121}
    → IsValid q
    → putq_mc121 q local bytes ≡ some q'
    → (bytes ≤ q.size - q.bytes_inbuff)
      × (q'.bytes_inbuff ≡ q.bytes_inbuff + bytes)
      × (q'.size ≡ q.size)
      × (q'.data_start ≡ q.data_start)
unfolding putq_mc121
putq_fields q local bytes {q'} v e = ground arith

pub contents-putq :
    (q : Mc121) (local : List ℕ) (bytes : ℕ) {q' : Mc121}
    → IsValid q
    → bytes ≤ length local
    → putq_mc121 q local bytes ≡ some q'
    → contents q' ≡ contents q ++ take bytes local
contents-putq q local bytes {q'} v h e =
    eq_of_get_or (contents q') (contents q ++ take bytes local) 0
      (ground (
        arith,
        fields,
        length-contents q,
        length-contents q',
        length-append (contents q) (take bytes local),
        length-take bytes local,
      ))
      at_index
  where
    fields :
        (bytes ≤ q.size - q.bytes_inbuff)
        × (q'.bytes_inbuff ≡ q.bytes_inbuff + bytes)
        × (q'.size ≡ q.size)
        × (q'.data_start ≡ q.data_start)
    fields = putq_fields q local bytes v e

    at_index :
        (k : ℕ)
        → k < length (contents q')
        → get_or (contents q') k 0 ≡ get_or (contents q ++ take bytes local) k 0
    at_index k b =
        let inside : wrap q.size (q.data_start + k) < q.size =
          ground (arith, fields, length-contents q') in
        ground (
          arith,
          fields,
          length-contents q,
          length-contents q',
          get_or-contents q k,
          get_or-contents q' k,
          get_or-append (contents q) (take bytes local) k 0,
          get_or-take bytes local (k - q.bytes_inbuff) 0,
          get_or-putq q local bytes (wrap q.size (q.data_start + k)) v h inside e,
        )

pub sendq_fields :
    (q : Mc121) (n : ℕ) (cond_recv : Bool) {out : List Packet} {q' : Mc121}
    → IsValid q
    → sendq_mc121 q n cond_recv ≡ some (out, q')
    → (n ≤ q.bytes_inbuff)
      × (q'.bytes_inbuff ≡ q.bytes_inbuff - n)
      × (q'.size ≡ q.size)
      × (q'.buff ≡ q.buff)
      × (q'.data_start ≡ wrap q.size (q.data_start + n))
unfolding sendq_mc121
sendq_fields q n cond_recv {out} {q'} v e = ground arith

pub contents-sendq :
    (q : Mc121) (n : ℕ) (cond_recv : Bool) {out : List Packet} {q' : Mc121}
    → IsValid q
    → sendq_mc121 q n cond_recv ≡ some (out, q')
    → contents q' ≡ drop n (contents q)
contents-sendq q n cond_recv {out} {q'} v e =
    eq_of_get_or (contents q') (drop n (contents q)) 0
      (ground (
        arith,
        sendq_fields q n cond_recv v e,
        length-contents q,
        length-contents q',
        length-drop n (contents q),
      ))
      at_index
  where
    at_index :
        (k : ℕ)
        → k < length (contents q')
        → get_or (contents q') k 0 ≡ get_or (drop n (contents q)) k 0
    at_index k b = ground (
      arith,
      sendq_fields q n cond_recv v e,
      length-contents q,
      length-contents q',
      get_or-contents q (n + k),
      get_or-contents q' k,
      get_or-drop n (contents q) k 0,
    )
