-- ===== src/Net/Tests.antt =====
-- Transfers of libdsys/fdutils.c and libdsys/service.c cut into pieces, and instances of the theorems.
use libdsys.Prelude.{
  replicate, ℕ, ◌+◌, ◌-◌, ◌≤◌, ◌<◌, ◌≡◌, ◌≢◌, ◌⊎◌, refl, some, List, [], ◌∷◌, ◌++◌, arith, get_or,
}
use libdsys.Queue.Memory.{slice}
use libdsys.Net.{
  send_loop, write_data, read_data, request_size, sent, reads_past, request_send_from, request_send,
  stores_past, ended, request, request_recv, rank2idx, idx2rank,
}
use libdsys.Net.Chunks.{Legal, read-write}
use libdsys.Net.Index.{index_roundtrip}
use libdsys.Net.Requests.{requests_lem}

abbrev source : List ℕ
source = 9 ∷ 1 ∷ 2 ∷ 3 ∷ 8 ∷ []

abbrev target : List ℕ
target = 0 ∷ 0 ∷ 0 ∷ 0 ∷ []

-- Three bytes, taken two and one, and given one and two; no further call is made.
abbrev taken : List ℕ
taken = 2 ∷ 1 ∷ 5 ∷ []

abbrev given : List ℕ
given = 1 ∷ 2 ∷ 5 ∷ []

taken-Legal : Legal taken 3
unfolding Legal
taken-Legal = (omega arith, omega arith, λ h. (omega arith, omega arith, λ k. absurd (omega arith)))

given-Legal : Legal given 3
unfolding Legal
given-Legal = (omega arith, omega arith, λ h. (omega arith, omega arith, λ k. absurd (omega arith)))

written : write_data taken source 1 3 ≡ some (1 ∷ 2 ∷ 3 ∷ [])
unfolding write_data send_loop
written = refl

read-write_example :
    (out after : List ℕ) × (write_data taken source 1 3 ≡ some out)
    × (read_data given (out ++ 7 ∷ []) target 0 3 ≡ some (after, 7 ∷ []))
    × (slice after 0 3 ≡ slice source 1 3)
    × ((i : ℕ) → (i < 0) ⊎ (0 + 3 ≤ i) → get_or after i 0 ≡ get_or target i 0)
read-write_example =
    read-write taken given source target (7 ∷ []) 1 0 3 (omega arith) (omega arith) (omega arith)
      (omega arith) taken-Legal given-Legal (omega arith) (omega arith)

abbrev four : ℕ
four = 4

index_roundtrip_example :
    (4 < 5 → four ≢ 2 → (rank2idx 2 4 < 5 - 1) × (idx2rank 2 (rank2idx 2 4) ≡ 4))
    × (1 < 5 - 1 → (idx2rank 2 1 < 5) × (idx2rank 2 1 ≢ 2) × (rank2idx 2 (idx2rank 2 1) ≡ 1))
index_roundtrip_example = index_roundtrip 2 5 4 1 (omega arith)

abbrev zeros : List ℕ
zeros = replicate 24 0

abbrev ones : List ℕ
ones = replicate 24 1

abbrev two : ℕ
two = 2

requests_lem_example :
    (two ≡ request_size
      → (request_send (two ∷ 22 ∷ []) ones ≡ sent ones)
        × (request_recv (two ∷ 22 ∷ []) (ones ++ target) zeros ≡ request ones target))
    × (0 < 2
        → 2 < request_size
        → (request_send (2 ∷ 22 ∷ []) ones ≡ reads_past)
          × (request_recv (2 ∷ 22 ∷ []) (ones ++ target) zeros ≡ stores_past))
    × (request_recv (0 ∷ 22 ∷ []) target zeros ≡ ended)
requests_lem_example = requests_lem ones zeros target 2 (22 ∷ []) refl refl

-- One that goes in one piece.
whole : request_send (24 ∷ []) ones ≡ sent ones
unfolding request_send request_send_from
whole = refl
