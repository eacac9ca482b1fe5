-- ===== src/Queue/Farmn.antt =====
-- The fan-out buffer, `bc_farmn_q_t` of libdsys/queue.c and libdsys/queue.h: like the one-to-many
-- buffer, but with one consumer pointer that all the server threads share. Pointers are offsets from
-- `start`.
pub mod Share
mod Tests
use libdsys.Prelude.{
  ℕ, ◌+◌, ◌-◌, ◌*◌, ◌%◌, Bool, true, false, not, ◌&&◌, Option, none, some, List, [], ◌∷◌, ◌++◌,
  ◌==◌, if◌then◌else◌, get_or, set, length, ltb,
}
use libdsys.Prelude.Words.{mul_size}
use libdsys.Queue.Wire.{Packet, data_bytes, sorry_message, payload}
use libdsys.Queue.Memory.{slice}
use libdsys.Queue.Mc121.{preamble}
use libdsys.Queue.Nmc12m.{Vptr, clear_counters, Destroyed, destroy_from}
use libdsys.Queue.Nmc12m.System.{Event, store, commit, resume, receive}

-- `struct bc_farmn_q_s` without its lock and condition variable.
pub record FarmnQ : Type 0 where
  pub rc : List ℕ
  pub mem : List ℕ
  pub end : ℕ
  pub size : ℕ
  pub du : ℕ
  pub pptr : Vptr
  pub cptr : Vptr

-- `__bc_internal_farmn_q_create` for 0 < `du`; the arguments after `du` and `bytes` are what the
-- three calls of malloc return. The last one asks for `2 * du` counters.
unfoldable pub farmn_q_create : ℕ → ℕ → Bool → Option (List ℕ) → Option (List ℕ) → Option FarmnQ
farmn_q_create du bytes false block counters = none
farmn_q_create du bytes true none counters = none
farmn_q_create du bytes true (some block) none = none
farmn_q_create du bytes true (some block) (some counters) = some (record {
  rc = clear_counters counters (du - 1);
  mem = block;
  end = mul_size bytes du;
  size = bytes;
  du = du;
  pptr = record { var = 0; rcidx = 0 };
  cptr = record { var = 0; rcidx = 0 };
})

-- `__bc_internal_farmn_q_put` up to its loop; the parameter `c` is not used.
unfoldable pub farmn_q_put_enter : FarmnQ → FarmnQ
farmn_q_put_enter q = record q {
  pptr = record {
    var = if q.pptr.var + q.size == q.end then 0 else q.pptr.var + q.size;
    rcidx = q.pptr.rcidx;
  };
  rc = set q.rc q.pptr.rcidx 1;
}

-- One pass through the loop of `__bc_internal_farmn_q_put`: `none` waits.
unfoldable pub farmn_q_put_check : FarmnQ → Option FarmnQ
farmn_q_put_check q =
    let i = (q.pptr.rcidx + 1) % q.du in
    if get_or q.rc i 0 == 0
    then some (record q { pptr = record { var = q.pptr.var; rcidx = i } })
    else none

-- What one pass of `__bc_internal_farmn_q_send` comes to.
pub data Handed : Type 0 where
  waits : Handed
  refused : List Packet → Handed
  handed : List Packet → FarmnQ → Handed

-- `__bc_internal_farmn_q_send`; the parameter `vptr` is not used.
unfoldable pub farmn_q_send : FarmnQ → Bool → Handed
farmn_q_send q cond_recv =
    if not (get_or q.rc q.cptr.rcidx 0 == 0) && not (q.pptr.rcidx == q.cptr.rcidx)
    then handed (preamble cond_recv ++ data_bytes (slice q.mem q.cptr.var q.size) ∷ []) (record q {
      cptr = record {
        var = if q.cptr.var + q.size == q.end then 0 else q.cptr.var + q.size;
        rcidx = (q.cptr.rcidx + 1) % q.du;
      };
      rc = set q.rc q.cptr.rcidx (get_or q.rc q.cptr.rcidx 0 - 1);
    })
    else if cond_recv
    then refused (sorry_message ∷ [])
    else waits

-- `__bc_internal_farmn_q_destroy`
unfoldable pub farmn_q_destroy : FarmnQ → Destroyed
farmn_q_destroy q = destroy_from q.rc q.du

-- A producer and `workers` workers on one buffer. `log` has each unit that was received, with the
-- worker that received it, in the order of the passes.
pub record Farm : Type 0 where
  pub q : FarmnQ
  pub blocked : Bool
  pub workers : ℕ
  pub log : List (ℕ × List ℕ)
  pub produced : List (List ℕ)

unfoldable pub check : Farm → Farm
check s = elim (farmn_q_put_check s.q) [
  | some q ↦ record s { q = q; blocked = false }
  | none ↦ record s { blocked = true }
]

unfoldable pub answer : Farm → ℕ → Handed → Farm
answer s j waits = s
answer s j (refused out) = s
answer s j (handed out q) = record s { q = q; log = s.log ++ (j, payload out) ∷ [] }

-- What one event changes, for the events of the one-to-many buffer.
unfoldable pub step : Farm → Event → Farm
step s (store o x) =
    if s.blocked
    then s
    else if ltb o s.q.size
    then record s { q = record s.q { mem = set s.q.mem (s.q.pptr.var + o) x } }
    else s
step s commit =
    if s.blocked
    then s
    else check (record s {
      q = farmn_q_put_enter s.q;
      produced = s.produced ++ slice s.q.mem s.q.pptr.var s.q.size ∷ [];
    })
step s resume = if s.blocked then check s else s
step s (receive j cond_recv) =
    if ltb j s.workers then answer s j (farmn_q_send s.q cond_recv) else s

unfoldable pub run : Farm → List Event → Farm
run s [] = s
run s (e ∷ es) = run (step s e) es

abbrev pub start : FarmnQ → ℕ → Farm
start q n = record { q = q; blocked = false; workers = n; log = []; produced = [] }
