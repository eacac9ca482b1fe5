-- ===== src/Sockets/Tests.antt =====
-- Two processes that connect to each other as libdsys/sockets.c has it, and instances of the theorems.
use libdsys.Prelude.{ℕ, zero, suc, ◌+◌, ◌≡◌, refl, some, arith}
use libdsys.Net.{rank2idx}
use libdsys.Sockets.{
  req_sock, data_sock, Network, programme, accepts, connects, start, how_many, listens, accepts_one,
  closes, connects_one, Run, stays, moves, Finished,
}
use libdsys.Sockets.Progress.{network_completes}
use libdsys.Sockets.Table.{network_lem}
use libdsys.Sockets.Entries.{conn}

-- The first calls: process 0 has nothing to accept, and has to wait for the listeners of process 1.
begun : (s : Network) × Run 2 (start 2) 3 s
unfolding start programme accepts connects
begun = (
  _,
  moves (moves (moves stays (listens 0 (omega arith) refl)) (closes 0 (omega arith) refl))
      (listens 1 (omega arith) refl),
)

-- All calls.
abbrev connected : (s : Network) × Run 2 (start 2) 8 s
unfolding start programme accepts connects how_many
connected = (
  _,
  moves
      (moves
        (moves
          (moves
            (moves
              (moves
                (moves (moves stays (listens 0 (omega arith) refl)) (closes 0 (omega arith) refl))
                (listens 1 (omega arith) refl))
              (connects_one 0 1 req_sock (omega arith) refl (refl, refl)))
            (accepts_one 1 req_sock (omega arith) refl refl))
          (connects_one 0 1 data_sock (omega arith) refl (refl, refl)))
        (accepts_one 1 data_sock (omega arith) refl refl))
      (closes 1 (omega arith) refl),
)

connected-Finished : Finished 2 connected.0
unfolding start programme accepts connects connected
connected-Finished zero b = refl
connected-Finished (suc zero) b = refl
connected-Finished (suc (suc r)) b = absurd (omega arith)

network_completes_example :
    (m : ℕ) × (3 + m ≡ 8) × (s' : Network) × Run 2 begun.0 m s' × Finished 2 s'
network_completes_example = network_completes 2 3 begun.0 begun.1

network_lem_example :
    (connected.0.slist 0 0 data_sock ≡ some (conn 0 1 data_sock))
    × (connected.0.slist 1 0 data_sock ≡ some (conn 0 1 data_sock))
unfolding rank2idx
network_lem_example =
    network_lem 2 8 connected.0 0 1 data_sock connected.1 connected-Finished (omega arith)
      (omega arith)
