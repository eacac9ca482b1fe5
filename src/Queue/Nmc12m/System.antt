-- ===== src/Queue/Nmc12m/System.antt =====
-- A producer and its consumers on one buffer without memory copy (libdsys/queue.c), interleaved in
-- any order: the producer stores bytes through its own pointer and commits them by
-- `__bc_internal_nmc12m_put`; the server thread of each consumer runs
-- `__bc_internal_nmc12m_send` with the pointer of its link (libdsys/threads.c, libdsys/ltab.c).
pub mod Inv
pub mod Put
pub mod Send
pub mod Keep
pub mod Deliver
pub mod Single
use libdsys.Prelude.{
  ℕ, zero, suc, ◌+◌, ◌*◌, Bool, true, false, Option, none, some, List, [], ◌∷◌, ◌++◌, ltb,
  if◌then◌else◌, length, set, get_elem?,
}
use libdsys.Queue.Wire.{Packet, payload}
use libdsys.Queue.Memory.{slice}
use libdsys.Queue.Nmc12m.{
  Vptr, Nmc12m, put_enter, put_check, Served, waits, refused, served, nmc12m_send,
}

-- A consumer: the pointer of its link, and the units that it has received so far.
pub record Consumer : Type 0 where
  pub link : Vptr
  pub got : List (List ℕ)

-- `blocked`: the producer is in the loop of a put. `produced`: the units committed so far.
pub record System : Type 0 where
  pub q : Nmc12m
  pub blocked : Bool
  pub consumers : List Consumer
  pub produced : List (List ℕ)

pub data Event : Type 0 where
  store : ℕ → ℕ → Event
  commit : Event
  resume : Event
  receive : ℕ → Bool → Event

-- The unit that the producer's pointer points to.
abbrev pub front : Nmc12m → List ℕ
front q = slice q.mem q.vptr.var q.size

-- The producer tests whether the next slot is free.
unfoldable pub check : System → System
check s = elim (put_check s.q) [
  | some q ↦ record s { q = q; blocked = false }
  | none ↦ record s { blocked = true }
]

-- A consumer's state after a pass of its server thread.
unfoldable pub answer : System → ℕ → Consumer → Served → System
answer s j c waits = s
answer s j c (refused out) = s
answer s j c (served out v q) = record s {
  q = q;
  consumers = set s.consumers j (record { link = v; got = c.got ++ payload out ∷ [] });
}

-- What one event changes; an event of a thread that is not at that point changes nothing. The put
-- counts as many consumers as there are links, as `__bc_p_replicaten` passes it.
unfoldable pub step : System → Event → System
unfolding check answer
step s (store o x) =
    if s.blocked
    then s
    else if ltb o s.q.size
    then record s { q = record s.q { mem = set s.q.mem (s.q.vptr.var + o) x } }
    else s
step s commit =
    if s.blocked
    then s
    else check (record s {
      q = put_enter s.q (length s.consumers);
      produced = s.produced ++ front s.q ∷ [];
    })
step s resume = if s.blocked then check s else s
step s (receive j cond_recv) = elim (get_elem? s.consumers j) [
  | none ↦ s
  | some c ↦ answer s j c (nmc12m_send s.q c.link cond_recv)
]

unfoldable pub run : System → List Event → System
run s [] = s
run s (e ∷ es) = run (step s e) es

-- The consumers before anything is received: `__bc_link_insert` points each link to the start.
abbrev pub new_consumers : ℕ → List Consumer
new_consumers zero = []
new_consumers (suc n) = record { link = record { var = 0; rcidx = 0 }; got = [] } ∷ new_consumers n

abbrev pub start : Nmc12m → ℕ → System
start q n = record { q = q; blocked = false; consumers = new_consumers n; produced = [] }
