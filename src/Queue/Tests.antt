-- ===== src/Queue/Tests.antt =====
-- Runs of the buffers of libdsys/queue.c, and instances of the theorems about them.
use mathlib.Core.Option
use libdsys.Prelude.{◌≡◌, ◌⊎◌, refl, true, false, some, List, [], ◌∷◌, ◌++◌, arith, tabulate_from}
use libdsys.Queue.Wire.{Packet, available, data_bytes, payload}
use libdsys.Queue.Fifo
use libdsys.Queue.Mc121.{Mc121, putq_mc121, sendq_mc121, mc121_put, mc121_send}
use libdsys.Queue.Mc121.Inv.{IsValid}
use libdsys.Queue.Mc121.Contents.{contents}
use libdsys.Queue.Mc121.Refine.{putq_refines, sendq_refines}
use libdsys.Queue.Mc121.Stream.{Pass, put, send, run_stream}
use libdsys.Queue.Mc121.Stream
use libdsys.Queue.Mc121.Wait.{one_goes_through}

-- 8 and 9 at the end of a block of five bytes, 7 at its start.
abbrev ring : Mc121
ring = record {
  bytes_inbuff = 3;
  size = 5;
  free_start = 1;
  data_start = 3;
  buff = 7 ∷ 0 ∷ 0 ∷ 8 ∷ 9 ∷ [];
  buff_end = 5;
}

ring-IsValid : IsValid ring
ring-IsValid = omega arith

contents-ring : contents ring ≡ 8 ∷ 9 ∷ 7 ∷ []
unfolding contents tabulate_from
contents-ring = refl

send_wrapped :
    sendq_mc121 ring 3 true
    ≡ some (
      available 1 ∷ data_bytes (8 ∷ 9 ∷ []) ∷ data_bytes (7 ∷ []) ∷ [],
      record ring { bytes_inbuff = 0; data_start = 1 },
    )
unfolding sendq_mc121
send_wrapped = refl

putq_refines_example :
    Option.map contents (putq_mc121 ring (4 ∷ 5 ∷ 6 ∷ []) 2)
    ≡ Fifo.put 5 (contents ring) (4 ∷ 5 ∷ [])
putq_refines_example = putq_refines ring (4 ∷ 5 ∷ 6 ∷ []) 2 ring-IsValid (omega arith)

sendq_refines_example :
    Option.map (λ r. (payload r.0, contents r.1)) (sendq_mc121 ring 3 true)
    ≡ Fifo.get (contents ring) 3
sendq_refines_example = sendq_refines ring 3 true ring-IsValid

abbrev passes : List Pass
passes = send 2 false ∷ put (4 ∷ 5 ∷ 6 ∷ []) ∷ put (1 ∷ 2 ∷ []) ∷ send 9 true ∷ send 3 true ∷ []

run_stream_example :
    let (q', accepted, out) = Stream.run ring passes in
    IsValid q' × (contents ring ++ accepted ≡ payload out ++ contents q')
run_stream_example = run_stream passes ring ring-IsValid

one_goes_through_example :
    ((q' : Mc121) × (mc121_put ring (1 ∷ 2 ∷ 3 ∷ []) 3 ≡ some q'))
    ⊎ ((r : List Packet × Mc121) × (mc121_send ring 3 false ≡ some r))
one_goes_through_example = one_goes_through ring (1 ∷ 2 ∷ 3 ∷ []) 3 3 ring-IsValid (omega arith)
