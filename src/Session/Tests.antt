-- ===== src/Session/Tests.antt =====
-- A pipe of libdsys/pipe.c with room for four bytes, and instances of the theorems.
use libdsys.Prelude.{ℕ, ◌≡◌, refl, true, some, List, [], ◌∷◌, ◌++◌, arith, length}
use libdsys.Queue.Wire.{payload}
use libdsys.Queue.Memory.{memcpy_to}
use libdsys.Queue.Mc121.{Mc121, mc121_create, mc121_put, putq_mc121, mc121_send, sendq_mc121}
use libdsys.Queue.Mc121.Contents.{contents}
use libdsys.Net.{read_data, recv_loop}
use libdsys.Net.Chunks.{Legal}
use libdsys.Session.{
  p_pipe, s_pipe, r_pipe, idle, asked, Line, puts, asks, serves, reads, Run, begins, goes,
}
use libdsys.Session.Calls.{awaited}
use libdsys.Session.Stream.{fresh, pipe_in_order}

abbrev four_bytes : List ℕ
four_bytes = 0 ∷ 0 ∷ 0 ∷ 0 ∷ []

abbrev ring : Mc121
ring = record {
  bytes_inbuff = 0;
  size = 4;
  free_start = 0;
  data_start = 0;
  buff = four_bytes;
  buff_end = 4;
}

ring_created : mc121_create true (some four_bytes) 4 ≡ some ring
unfolding mc121_create
ring_created = refl

-- One unit of two bytes is put and asked for.
abbrev filled : Mc121
filled = record ring { bytes_inbuff = 2; free_start = 2; buff = 7 ∷ 9 ∷ 0 ∷ 0 ∷ [] }

abbrev waiting : Line
waiting = record { q = filled; unread = []; phase = asked 1 }

to_waiting : Run 2 2 (fresh ring) (7 ∷ 9 ∷ []) [] waiting
unfolding p_pipe mc121_put putq_mc121 memcpy_to
to_waiting = goes (goes begins (puts (7 ∷ 9 ∷ []) 1 (omega arith) refl)) (asks 1 refl)

-- The unit is sent and read, in two pieces.
abbrev emptied : Line
emptied = record {
  q = record filled { bytes_inbuff = 0; data_start = 2 };
  unread = [];
  phase = idle;
}

abbrev pieces : List ℕ
pieces = 1 ∷ 1 ∷ []

pieces-Legal : Legal pieces 2
unfolding Legal
pieces-Legal =
    (omega arith, omega arith, λ h. (omega arith, omega arith, λ k. absurd (omega arith)))

to_end : Run 2 2 (fresh ring) (7 ∷ 9 ∷ []) (7 ∷ 9 ∷ []) emptied
unfolding s_pipe r_pipe mc121_send sendq_mc121 payload read_data recv_loop memcpy_to
to_end =
    goes (goes to_waiting (serves 1 refl refl)) (
      reads pieces (0 ∷ 0 ∷ []) 0 1 refl pieces-Legal (omega arith) (omega arith) (omega arith)
        refl)

abbrev two : ℕ
two = 2

pipe_in_order_example :
    (7 ∷ 9 ∷ [] ≡ (7 ∷ 9 ∷ []) ++ (emptied.unread ++ contents emptied.q))
    × (two ≡ two → length emptied.unread ≡ awaited 2 emptied.phase)
pipe_in_order_example =
    pipe_in_order 2 2 four_bytes 4 refl (omega arith) (omega arith) ring_created to_end
