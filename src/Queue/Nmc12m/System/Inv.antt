-- ===== src/Queue/Nmc12m/System/Inv.antt =====
-- What holds between the passes of the threads on a buffer without memory copy (libdsys/queue.c).
use libdsys.Prelude.{
  ℕ, zero, suc, ◌+◌, ◌*◌, ◌%◌, ◌^◌, ◌≤◌, ◌<◌, ◌≡◌, refl, true, false, some, List, [], ◌∷◌, arith,
  dec_lt, leb, ◌==◌, if◌then◌else◌, length, get_or, get_elem?, set, take,
}
use libdsys.Queue.Memory.{slice}
use libdsys.Queue.Nmc12m.System.{Consumer, System}

-- How many consumers have still to receive the unit numbered `k`.
unfoldable pub pending : ℕ → List Consumer → ℕ
pending k [] = 0
pending k (c ∷ cs) = (if leb (length c.got) k then 1 else 0) + pending k cs

-- A consumer among those of `s`, with `a` units visible: its pointer is at the next unit that it has
-- to receive, less than one round behind, and it has received the first units in order.
pub record Reader (s : System) (a : ℕ) (c : Consumer) : Type 0 where
  pub place : c.link.rcidx ≡ length c.got % s.q.du
  pub var : c.link.var ≡ length c.got % s.q.du * s.q.size
  pub behind : length c.got ≤ a
  pub near : a < length c.got + s.q.du
  pub received : c.got ≡ take (length c.got) s.produced

-- `a` units are visible to the consumers; a blocked producer has one more in the buffer. A counter
-- that no put has set is 0, but for the first, which creation leaves as it was.
pub record Inv (a : ℕ) (s : System) : Type 0 where
  pub some_units : 0 < s.q.du
  pub some_bytes : 0 < s.q.size
  pub counters : s.q.du ≤ length s.q.rc
  pub block : length s.q.mem ≡ s.q.size * s.q.du
  pub last : s.q.end ≡ s.q.size * s.q.du
  pub few : length s.consumers < 2 ^ 16
  pub place : s.q.vptr.rcidx ≡ a % s.q.du
  pub idle : s.blocked ≡ false → (length s.produced ≡ a) × (s.q.vptr.var ≡ a % s.q.du * s.q.size)
  pub busy :
      s.blocked ≡ true → (length s.produced ≡ a + 1) × (s.q.vptr.var ≡ (a + 1) % s.q.du * s.q.size)
  pub counts :
      (k : ℕ)
      → k < length s.produced
      → a < k + s.q.du
      → get_or s.q.rc (k % s.q.du) 0 ≡ pending k s.consumers
  pub stored :
      (k : ℕ)
      → k < length s.produced
      → a < k + s.q.du
      → slice s.q.mem (k % s.q.du * s.q.size) s.q.size ≡ get_or s.produced k []
  pub unused : (k : ℕ) → length s.produced ≤ k → k < s.q.du → 0 < k → get_or s.q.rc k 0 ≡ 0
  pub readers : (j : ℕ) (c : Consumer) → get_elem? s.consumers j ≡ some c → Reader s a c

-- A consumer that has received one more unit no longer counts for that unit.
pub pending-set :
    (k : ℕ) (cs : List Consumer) (j : ℕ) (c c' : Consumer)
    → get_elem? cs j ≡ some c
    → length c'.got ≡ suc (length c.got)
    → pending k (set cs j c') + (if length c.got == k then 1 else 0) ≡ pending k cs
unfolding pending
pending-set k [] j c c' e h = cc
pending-set k (d ∷ cs) zero c c' e h = ground arith
pending-set k (d ∷ cs) (suc j) c c' e h = ground (arith, pending-set k cs j c c' e h)

-- A unit that no consumer has received counts them all.
pub pending_all :
    (k : ℕ) (cs : List Consumer)
    → ((j : ℕ) (c : Consumer) → get_elem? cs j ≡ some c → length c.got ≤ k)
    → pending k cs ≡ length cs
unfolding pending
pending_all k [] h = refl
pending_all k (c ∷ cs) h = ground (arith, h 0 c refl, pending_all k cs (λ j d. h (suc j) d))

-- A unit that counts nobody has been received by every consumer.
pub pending_empty :
    (k : ℕ) (cs : List Consumer) (j : ℕ) (c : Consumer)
    → pending k cs ≡ 0
    → get_elem? cs j ≡ some c
    → k < length c.got
unfolding pending
pending_empty k [] j c h e = cc
pending_empty k (d ∷ cs) zero c h e = ground arith
pending_empty k (d ∷ cs) (suc j) c h e = pending_empty k cs j c (ground arith) e

-- A unit that counts somebody has a consumer that has not received it.
pub pending_exists :
    (k : ℕ) (cs : List Consumer)
    → 0 < pending k cs
    → (j : ℕ) × (c : Consumer) × (get_elem? cs j ≡ some c) × (length c.got ≤ k)
unfolding pending
pending_exists k [] h = elim h [ ]
pending_exists k (c ∷ cs) h = elim (dec_lt k (length c.got)) [
  | no mine ↦ (0, c, refl, omega arith)
  | yes done ↦ let (j, d, e, b) = pending_exists k cs (ground arith) in (suc j, d, e, b)
]

-- A consumer counts for the unit that it has to receive next.
pub pending_own :
    (cs : List Consumer) (j : ℕ) (c : Consumer)
    → get_elem? cs j ≡ some c
    → 0 < pending (length c.got) cs
unfolding pending
pending_own [] j c e = cc
pending_own (d ∷ cs) zero c e = ground arith
pending_own (d ∷ cs) (suc j) c e = ground (arith, pending_own cs j c e)
