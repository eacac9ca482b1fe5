-- ===== src/Net.antt =====
-- The transfer of bytes over sockets, libdsys/fdutils.c and libdsys/service.c, and the numbering of the
-- sockets, libdsys/sockets.h and libdsys/threads.c. What each call of `send` or `recv` returns is an
-- argument: the list of the sizes that it took or gave.
pub mod Chunks
pub mod Index
pub mod Requests
mod Tests
use libdsys.Prelude.{
  length, ℕ, zero, suc, ◌+◌, ◌-◌, ◌*◌, Option, none, some, List, [], ◌∷◌, ◌++◌, leb, ltb, ◌==◌,
  if◌then◌else◌, take, drop,
}
use libdsys.Prelude.Words.{sub_size}
use libdsys.Queue.Memory.{memcpy_to, slice}

-- Bytes before those that the rest of a loop sends.
abbrev pub sent_before : List ℕ → Option (List ℕ) → Option (List ℕ)
sent_before xs none = none
sent_before xs (some ys) = some (xs ++ ys)

-- `do { w = send(fd, p, bytes, 0); bytes -= w; if (!bytes) return; p += w; } while (1);` where `p` points
-- to things of `stride` bytes; `p` is an offset into the memory `mem`. The result is what went out;
-- `none` is a call of `send` that has not returned.
unfoldable pub send_loop : ℕ → List ℕ → List ℕ → ℕ → ℕ → Option (List ℕ)
send_loop stride [] mem p bytes = none
send_loop stride (w ∷ ws) mem p bytes =
    let rest =
      sent_before (slice mem p w) (send_loop stride ws mem (p + w * stride) (sub_size bytes w)) in
    if sub_size bytes w == 0 then some (slice mem p w) else rest

-- `do { r = recv(fd, p, bytes, MSG_WAITALL); bytes -= r; if (!bytes) return; p += r; } while (1);` on what
-- comes in, likewise: the memory after it, and what has not been read.
unfoldable pub recv_loop : ℕ → List ℕ → List ℕ → List ℕ → ℕ → ℕ → Option (List ℕ × List ℕ)
recv_loop stride [] input mem p bytes = none
recv_loop stride (r ∷ rs) input mem p bytes =
    let stored = memcpy_to mem p (take r input) in
    let rest = recv_loop stride rs (drop r input) stored (p + r * stride) (sub_size bytes r) in
    if sub_size bytes r == 0 then some (stored, drop r input) else rest

-- `__bc_write_data`: a `void *` moves by bytes.
unfoldable pub write_data : List ℕ → List ℕ → ℕ → ℕ → Option (List ℕ)
write_data sizes mem p bytes = send_loop 1 sizes mem p bytes

-- `__bc_read_data`
unfoldable pub read_data : List ℕ → List ℕ → List ℕ → ℕ → ℕ → Option (List ℕ × List ℕ)
read_data sizes input mem p bytes = recv_loop 1 sizes input mem p bytes

-- `sizeof (bc_request_t)` of an LP64 machine: two 4-byte members and an 8-byte one between them, each
-- aligned.
abbrev pub request_size : ℕ
request_size = 24

-- What `__bc_request_send` comes to: the bytes that it has sent, a call of `send` that has not returned,
-- or a call that is handed memory past the request.
pub data Sending : Type 0 where
  sent : List ℕ → Sending
  sending : Sending
  reads_past : Sending

-- Bytes before those that the rest of the loop sends.
abbrev pub after_bytes : List ℕ → Sending → Sending
after_bytes xs (sent ys) = sent (xs ++ ys)
after_bytes xs sending = sending
after_bytes xs reads_past = reads_past

-- The loop of `__bc_request_send`; `req` is at offset `p` into the request `mem`, and a `bc_request_t *`
-- moves by requests.
unfoldable pub request_send_from : List ℕ → List ℕ → ℕ → ℕ → Sending
request_send_from [] mem p remain = if ltb (length mem) (p + remain) then reads_past else sending
request_send_from (w ∷ ws) mem p remain =
    let rest =
      after_bytes (slice mem p w)
        (request_send_from ws mem (p + w * request_size) (sub_size remain w)) in
    if ltb (length mem) (p + remain)
    then reads_past
    else if sub_size remain w == 0
    then sent (slice mem p w)
    else rest

-- `__bc_request_send` of the request `mem`.
unfoldable pub request_send : List ℕ → List ℕ → Sending
request_send sizes mem = request_send_from sizes mem 0 request_size

-- What `__bc_request_recv` comes to: the connection has ended (the result 0), a request and what has
-- not been read, a call of `recv` that has not returned, or a call that is handed memory past the
-- request.
pub data Received : Type 0 where
  ended : Received
  request : List ℕ → List ℕ → Received
  receiving : Received
  stores_past : Received

-- The loop of `__bc_request_recv`, likewise.
unfoldable pub request_recv_from : List ℕ → List ℕ → List ℕ → ℕ → ℕ → Received
request_recv_from [] input mem p remain =
    if ltb (length mem) (p + remain) then stores_past else receiving
request_recv_from (r ∷ rs) input mem p remain =
    let stored = memcpy_to mem p (take r input) in
    let rest =
      request_recv_from rs (drop r input) stored (p + r * request_size) (sub_size remain r) in
    if ltb (length mem) (p + remain)
    then stores_past
    else if r == 0
    then ended
    else if sub_size remain r == 0
    then request stored (drop r input)
    else rest

-- `__bc_request_recv` into the request `mem`.
unfoldable pub request_recv : List ℕ → List ℕ → List ℕ → Received
request_recv sizes input mem = request_recv_from sizes input mem 0 request_size

-- `__bc_rank2idx`, for the process `me`.
unfoldable pub rank2idx : ℕ → ℕ → ℕ
rank2idx me rank = if ltb me rank then rank - 1 else rank

-- `remote` of `__bc_service_thread`.
unfoldable pub idx2rank : ℕ → ℕ → ℕ
idx2rank me idx = if leb me idx then idx + 1 else idx
