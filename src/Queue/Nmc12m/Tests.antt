-- ===== src/Queue/Nmc12m/Tests.antt =====
-- Runs of a buffer without memory copy (libdsys/queue.c), and instances of the theorems about it.
use libdsys.Prelude.{
  ℕ, ◌≤◌, ◌≡◌, ◌⊎◌, refl, true, false, some, List, [], ◌∷◌, arith, get_elem?, map,
}
use libdsys.Queue.Wire.{payload}
use libdsys.Queue.Nmc12m.{
  clear_counters, Nmc12m, nmc12m_create, put_check, is_ready, put_enter, nmc12m_send,
}
use libdsys.Queue.Nmc12m.System.{Consumer, Event, store, commit, resume, receive, step, run, start}
use libdsys.Queue.Nmc12m.System.Inv.{Inv}
use libdsys.Queue.Nmc12m.System.Deliver.{create-Inv, run-Inv, put_not_stuck}
use libdsys.Queue.Nmc12m.System.Single.{one_unit_stuck}

-- Two units of two bytes; the first counter holds what malloc left in it.
abbrev fresh : Nmc12m
fresh = record {
  rc = 77 ∷ 0 ∷ [];
  mem = 0 ∷ 0 ∷ 0 ∷ 0 ∷ [];
  end = 4;
  size = 2;
  du = 2;
  vptr = record { var = 0; rcidx = 0 };
}

created : nmc12m_create 2 2 true (some (0 ∷ 0 ∷ 0 ∷ 0 ∷ [])) (some (77 ∷ 5 ∷ [])) ≡ some fresh
unfolding nmc12m_create clear_counters
created = refl

fresh-Inv : Inv 0 (start fresh 2)
fresh-Inv =
    create-Inv 2 2 2 (0 ∷ 0 ∷ 0 ∷ 0 ∷ []) (77 ∷ 5 ∷ []) (omega arith) (omega arith) (omega arith)
      (omega arith) refl (omega arith) created

-- The second put has to wait: nobody has received the first unit.
abbrev to_full : List Event
to_full = store 0 5 ∷ store 1 6 ∷ commit ∷ store 0 7 ∷ store 1 8 ∷ commit ∷ receive 1 false ∷ []

abbrev script : List Event
script =
    store 0 5
    ∷ store 1 6
    ∷ commit
    ∷ store 0 7
    ∷ store 1 8
    ∷ commit
    ∷ receive 1 false
    ∷ receive 0 true
    ∷ receive 0 true
    ∷ resume
    ∷ receive 1 false
    ∷ []

received :
    map (λ c. c.got) (run (start fresh 2) script).consumers
    ≡ ((5 ∷ 6 ∷ []) ∷ []) ∷ ((5 ∷ 6 ∷ []) ∷ (7 ∷ 8 ∷ []) ∷ []) ∷ []
unfolding run step put_enter put_check nmc12m_send payload
received = refl

run-Inv_example : (b : ℕ) × (0 ≤ b) × Inv b (run (start fresh 2) script)
run-Inv_example = run-Inv script 0 (start fresh 2) fresh-Inv

-- One unit of two bytes: the first put waits for ever.
abbrev single : Nmc12m
single = record {
  rc = 77 ∷ [];
  mem = 0 ∷ 0 ∷ [];
  end = 2;
  size = 2;
  du = 1;
  vptr = record { var = 0; rcidx = 0 };
}

single-created : nmc12m_create 1 2 true (some (0 ∷ 0 ∷ [])) (some (77 ∷ [])) ≡ some single
unfolding nmc12m_create clear_counters
single-created = refl

full-Inv : (b : ℕ) × (0 ≤ b) × Inv b (run (start fresh 2) to_full)
full-Inv = run-Inv to_full 0 (start fresh 2) fresh-Inv

put_not_stuck_example :
    let s = run (start fresh 2) to_full in
    ((q : Nmc12m) × (put_check s.q ≡ some q))
    ⊎ ((j : ℕ) × (c : Consumer) × (get_elem? s.consumers j ≡ some c) × (is_ready s.q c.link ≡ true))
unfolding run step put_enter put_check nmc12m_send
put_not_stuck_example =
    put_not_stuck full-Inv.0 (run (start fresh 2) to_full) full-Inv.2 (omega arith) refl

one_unit_stuck_example :
    let after = step (run (start single 1) (store 0 5 ∷ [])) commit in
    (after.blocked ≡ true) × (run after (receive 0 false ∷ resume ∷ []) ≡ after)
unfolding run step
one_unit_stuck_example =
    one_unit_stuck 2 1 (0 ∷ 0 ∷ []) (77 ∷ []) (store 0 5 ∷ []) (receive 0 false ∷ resume ∷ [])
      (omega arith) (omega arith) (omega arith) (omega arith) refl (omega arith) single-created refl
