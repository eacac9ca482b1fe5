-- ===== src/Queue/Farmn/Tests.antt =====
-- A run of the fan-out buffer of libdsys/queue.c, and instances of the theorems about it.
use libdsys.Prelude.{◌+◌, ◌≤◌, ◌≡◌, refl, true, false, some, List, [], ◌∷◌, arith, length, take}
use libdsys.Queue.Wire.{payload}
use libdsys.Queue.Nmc12m.{clear_counters}
use libdsys.Queue.Nmc12m.System.{Event, store, commit, resume, receive}
use libdsys.Queue.Farmn.{
  FarmnQ, farmn_q_create, farmn_q_put_enter, farmn_q_put_check, farmn_q_send, check, answer, step,
  run, start,
}
use libdsys.Queue.Farmn.Share.{units, farm_in_order}

-- Two units of one byte, with the four counters that the creation asks for.
abbrev fresh : FarmnQ
fresh = record {
  rc = 9 ∷ 0 ∷ 6 ∷ 6 ∷ [];
  mem = 0 ∷ 0 ∷ [];
  end = 2;
  size = 1;
  du = 2;
  pptr = record { var = 0; rcidx = 0 };
  cptr = record { var = 0; rcidx = 0 };
}

created : farmn_q_create 2 1 true (some (0 ∷ 0 ∷ [])) (some (9 ∷ 6 ∷ 6 ∷ 6 ∷ [])) ≡ some fresh
unfolding farmn_q_create clear_counters
created = refl

abbrev script : List Event
script =
    store 0 5
    ∷ commit
    ∷ store 0 7
    ∷ commit
    ∷ receive 1 false
    ∷ resume
    ∷ receive 0 true
    ∷ receive 2 true
    ∷ []

handed_out : (run (start fresh 3) script).log ≡ (1, 5 ∷ []) ∷ (0, 7 ∷ []) ∷ []
unfolding run step check answer farmn_q_put_enter farmn_q_put_check farmn_q_send payload
handed_out = refl

farm_in_order_example :
    (units (run (start fresh 3) script).log
      ≡ take (length (run (start fresh 3) script).log) (run (start fresh 3) script).produced)
    × (length (run (start fresh 3) script).log ≤ length (run (start fresh 3) script).produced)
    × (length (run (start fresh 3) script).produced
        ≤ length (run (start fresh 3) script).log + (run (start fresh 3) script).q.du)
farm_in_order_example =
    farm_in_order 2 1 3 (0 ∷ 0 ∷ []) (9 ∷ 6 ∷ 6 ∷ 6 ∷ []) script (omega arith) (omega arith)
      (omega arith) refl (omega arith) created
