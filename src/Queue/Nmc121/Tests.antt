-- ===== src/Queue/Nmc121/Tests.antt =====
-- A buffer of libdsys/queue.c with two slots of one byte.
use libdsys.Prelude.{◌≡◌, refl, true, false, none, some, [], ◌∷◌, arith}
use libdsys.Queue.Wire.{data_bytes}
use libdsys.Queue.Nmc121.{Nmc121, nmc121_create, nmc121_put, nmc121_send}
use libdsys.Queue.Nmc121.Full.{puts, filled, full_buffer_stuck}

abbrev two_slots : Nmc121
two_slots = filled (7 ∷ 9 ∷ []) 2 1 0 0

created : nmc121_create 2 1 true (some (7 ∷ 9 ∷ [])) ≡ some two_slots
unfolding nmc121_create
created = refl

-- With one slot filled, it is sent.
sent :
    nmc121_send (filled (7 ∷ 9 ∷ []) 2 1 1 1) 0 false false
    ≡ some (data_bytes (7 ∷ []) ∷ [], 1, filled (7 ∷ 9 ∷ []) 2 1 0 1)
unfolding nmc121_send
sent = refl

full_buffer_stuck_example :
    (full : Nmc121) × (puts 2 two_slots ≡ some full)
    × (nmc121_put full false ≡ none)
    × (nmc121_send full 0 false false ≡ none)
full_buffer_stuck_example =
    full_buffer_stuck (7 ∷ 9 ∷ []) 2 1 two_slots (omega arith) (omega arith) (omega arith) created
