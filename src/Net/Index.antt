-- ===== src/Net/Index.antt =====
-- The sockets of a process stand in a list without an entry for the process itself.
use libdsys.Prelude.{ℕ, ◌-◌, ◌<◌, ◌≡◌, ◌≢◌, arith}
use libdsys.Net.{rank2idx, idx2rank}

-- Between the ranks of the other processes and the places of the socket list, `__bc_rank2idx` and the
-- rank that a service thread computes are inverse to each other: each other process has a place within
-- the list that is allocated, the thread at that place serves that process, and the thread of each
-- place serves another process, whose place it is.
pub index_roundtrip :
    (me size x idx : ℕ)
    → me < size
    → (x < size → x ≢ me → (rank2idx me x < size - 1) × (idx2rank me (rank2idx me x) ≡ x))
      × (idx < size - 1
          → (idx2rank me idx < size)
            × (idx2rank me idx ≢ me)
            × (rank2idx me (idx2rank me idx) ≡ idx))
unfolding rank2idx idx2rank
index_roundtrip me size x idx h = (
  λ b d. (ground (arith, d), ground (arith, d)),
  λ b. (ground arith, λ e. ground arith, ground arith),
)
