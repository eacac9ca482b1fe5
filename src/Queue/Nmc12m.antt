-- ===== src/Queue/Nmc12m.antt =====
-- The one-to-many buffer without memory copy, `bc_nmc12m_t` of libdsys/queue.c and libdsys/queue.h:
-- `du` units of `size` bytes, a reference counter for each unit, the producer's own pointer into the
-- buffer and one pointer for each link to a consumer. Pointers are offsets from `start`. A pass of a
-- loop runs under the lock and is one atomic action.
pub mod Rounds
pub mod System
mod Tests
use libdsys.Prelude.{
  ℕ, ◌+◌, ◌-◌, ◌*◌, ◌%◌, ◌^◌, Bool, true, false, not, ◌&&◌, Option, none, some, List, [], ◌∷◌, ◌++◌,
  ◌==◌, if◌then◌else◌, length, get_or, set, replicate, ltb, suc, zero, take,
}
use libdsys.Prelude.Words.{mul_size}
use libdsys.Queue.Wire.{Packet, data_bytes, sorry_message, preamble_message}
use libdsys.Queue.Memory.{slice}
use libdsys.Queue.Mc121.{preamble}

-- `struct bc_vptr_s`
pub record Vptr : Type 0 where
  pub var : ℕ
  pub rcidx : ℕ

-- `struct bc_nmc12m_s` without its lock and condition variable; `mem` is the block from `start` on.
pub record Nmc12m : Type 0 where
  pub rc : List ℕ
  pub mem : List ℕ
  pub end : ℕ
  pub size : ℕ
  pub du : ℕ
  pub vptr : Vptr

-- `unsigned short`
abbrev pub ushort : ℕ → ℕ
ushort c = c % 2 ^ 16

-- `for (i = du - 1; i; i--) rc[i] = 0;`, by the value of `i`.
unfoldable pub clear_counters : List ℕ → ℕ → List ℕ
clear_counters rc zero = rc
clear_counters rc (suc i) = clear_counters (set rc (suc i) 0) i

-- `__bc_internal_nmc12m_create` for 0 < `du`. The arguments after `du` and `bytes` are what the three
-- calls of malloc return: the block and the counters come with whatever they held before.
unfoldable pub nmc12m_create : ℕ → ℕ → Bool → Option (List ℕ) → Option (List ℕ) → Option Nmc12m
nmc12m_create du bytes false block counters = none
nmc12m_create du bytes true none counters = none
nmc12m_create du bytes true (some block) none = none
nmc12m_create du bytes true (some block) (some counters) = some (record {
  rc = clear_counters counters (du - 1);
  mem = block;
  end = mul_size bytes du;
  size = bytes;
  du = du;
  vptr = record { var = 0; rcidx = 0 };
})

-- `var += size; if (var == end) var = start;`
abbrev pub next_var : Nmc12m → ℕ → ℕ
next_var q var = if var + q.size == q.end then 0 else var + q.size

-- `__bc_internal_nmc12m_put` up to its loop.
unfoldable pub put_enter : Nmc12m → ℕ → Nmc12m
put_enter q c = record q {
  vptr = record { var = next_var q q.vptr.var; rcidx = q.vptr.rcidx };
  rc = set q.rc q.vptr.rcidx (ushort c);
}

-- One pass through the loop of `__bc_internal_nmc12m_put`: `none` waits on `cond`.
unfoldable pub put_check : Nmc12m → Option Nmc12m
put_check q =
    let i = (q.vptr.rcidx + 1) % q.du in
    if get_or q.rc i 0 == 0
    then some (record q { vptr = record { var = q.vptr.var; rcidx = i } })
    else none

-- What one pass of `__bc_internal_nmc12m_send` comes to.
pub data Served : Type 0 where
  waits : Served
  refused : List Packet → Served
  served : List Packet → Vptr → Nmc12m → Served

-- The test under "Is data ready?".
abbrev pub is_ready : Nmc12m → Vptr → Bool
is_ready q v = not (get_or q.rc v.rcidx 0 == 0) && not (q.vptr.rcidx == v.rcidx)

-- `__bc_internal_nmc12m_send`: what goes to the socket, the link's pointer and the buffer after it.
unfoldable pub nmc12m_send : Nmc12m → Vptr → Bool → Served
nmc12m_send q v cond_recv =
    if is_ready q v
    then served (preamble cond_recv ++ data_bytes (slice q.mem v.var q.size) ∷ [])
        (record { var = next_var q v.var; rcidx = (v.rcidx + 1) % q.du })
        (record q { rc = set q.rc v.rcidx (get_or q.rc v.rcidx 0 - 1) })
    else if cond_recv
    then refused (sorry_message ∷ [])
    else waits

-- What a destruction comes to: it may read a counter that is not there.
pub data Destroyed : Type 0 where
  out_of_bounds : Destroyed
  kept : Destroyed
  freed : Destroyed

-- `for (i = du; i; i--) if (rc[i]) return 0;` of `__bc_internal_nmc12m_destroy`, by the value of `i`.
unfoldable pub destroy_from : List ℕ → ℕ → Destroyed
destroy_from rc zero = freed
destroy_from rc (suc i) =
    let rest = destroy_from rc i in
    if ltb (suc i) (length rc)
    then (if get_or rc (suc i) 0 == 0 then rest else kept)
    else out_of_bounds

unfoldable pub nmc12m_destroy : Nmc12m → Destroyed
nmc12m_destroy q = destroy_from q.rc q.du
