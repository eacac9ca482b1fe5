-- ===== src/Net/Requests.antt =====
-- Requests that a transfer takes whole, and requests that it cuts (libdsys/service.c).
use libdsys.Prelude.{
  ℕ, ◌+◌, ◌*◌, ◌<◌, ◌≡◌, sym, ap, ◌∙◌, List, [], ◌∷◌, ◌++◌, arith, ◌==◌, ltb, false, if_of_true,
  if_of_false, length, take, drop, take-length,
}
use libdsys.Prelude.Words.{sub_size, sub_size-eq-sub}
use libdsys.Queue.Memory.{memcpy_to, slice, length-memcpy_to}
use libdsys.Net.{
  request_size, sent, reads_past, after_bytes, request_send_from, request_send, ended, request,
  stores_past, request_recv_from, request_recv,
}
use libdsys.Net.Chunks.{left_zero, left_pos, take-append_all, drop-append_all, slice-memcpy_to}

-- A call that is handed memory past the request, whatever it would return.
past_send :
    (ws mem : List ℕ) (p remain : ℕ)
    → length mem < p + remain
    → request_send_from ws mem p remain ≡ reads_past
unfolding request_send_from
past_send [] mem p remain h = if_of_true (ltb (length mem) (p + remain)) _ _ (ground arith)
past_send (w ∷ ws) mem p remain h = if_of_true (ltb (length mem) (p + remain)) _ _ (ground arith)

past_recv :
    (rs input mem : List ℕ) (p remain : ℕ)
    → length mem < p + remain
    → request_recv_from rs input mem p remain ≡ stores_past
unfolding request_recv_from
past_recv [] input mem p remain h = if_of_true (ltb (length mem) (p + remain)) _ _ (ground arith)
past_recv (r ∷ rs) input mem p remain h =
    if_of_true (ltb (length mem) (p + remain)) _ _ (ground arith)

inside : (n : ℕ) → n ≡ request_size → ltb n (0 + request_size) ≡ false
inside n e = ground arith

send_whole :
    (w : ℕ) (ws mem : List ℕ)
    → length mem ≡ request_size
    → w ≡ request_size
    → request_send (w ∷ ws) mem ≡ sent mem
unfolding request_send request_send_from
send_whole w ws mem e h =
    if_of_false _ _ _ (inside (length mem) e)
    ∙ if_of_true _ _ _ (left_zero request_size w (omega arith) (omega arith) (omega arith))
    ∙ ap sent (ap (λ k. take k mem) (h ∙ sym e) ∙ take-length mem)

send_cut :
    (w : ℕ) (ws mem : List ℕ)
    → length mem ≡ request_size
    → 0 < w
    → w < request_size
    → request_send (w ∷ ws) mem ≡ reads_past
unfolding request_send request_send_from
send_cut w ws mem e h k =
    if_of_false _ _ _ (inside (length mem) e)
    ∙ if_of_false _ _ _ (left_pos request_size w (omega arith) k)
    ∙ ap (after_bytes (slice mem 0 w)) (
        past_send ws mem (0 + w * request_size) (sub_size request_size w)
          (omega (arith, e, sub_size-eq-sub request_size w (omega arith) (omega arith))))

filled : (mem xs : List ℕ) → length mem ≡ length xs → memcpy_to mem 0 xs ≡ xs
filled mem xs e =
    sym (take-length (memcpy_to mem 0 xs))
    ∙ ap (λ k. take k (memcpy_to mem 0 xs)) (length-memcpy_to mem 0 xs ∙ e)
    ∙ slice-memcpy_to mem 0 xs (omega (arith, e))

recv_whole :
    (r : ℕ) (rs xs rest mem : List ℕ)
    → length mem ≡ request_size
    → length xs ≡ request_size
    → r ≡ request_size
    → request_recv (r ∷ rs) (xs ++ rest) mem ≡ request xs rest
unfolding request_recv request_recv_from
recv_whole r rs xs rest mem e f h =
    if_of_false _ _ _ (inside (length mem) e)
    ∙ if_of_false (r == 0) _ _ (ground arith)
    ∙ if_of_true _ _ _ (left_zero request_size r (omega arith) (omega arith) (omega arith))
    ∙ ap (λ ys. request (memcpy_to mem 0 ys) (drop r (xs ++ rest)))
        (take-append_all r xs rest (f ∙ sym h))
    ∙ ap (request (memcpy_to mem 0 xs)) (drop-append_all r xs rest (f ∙ sym h))
    ∙ ap (λ ys. request ys rest) (filled mem xs (e ∙ sym f))

recv_cut :
    (r : ℕ) (rs input mem : List ℕ)
    → length mem ≡ request_size
    → 0 < r
    → r < request_size
    → request_recv (r ∷ rs) input mem ≡ stores_past
unfolding request_recv request_recv_from
recv_cut r rs input mem e h k =
    if_of_false _ _ _ (inside (length mem) e)
    ∙ if_of_false (r == 0) _ _ (ground arith)
    ∙ if_of_false _ _ _ (left_pos request_size r (omega arith) k)
    ∙ past_recv rs (drop r input) (memcpy_to mem 0 (take r input)) (0 + r * request_size)
        (sub_size request_size r)
        (omega (
          arith,
          e,
          length-memcpy_to mem 0 (take r input),
          sub_size-eq-sub request_size r (omega arith) (omega arith),
        ))

recv_ended :
    (rs input mem : List ℕ) → length mem ≡ request_size → request_recv (0 ∷ rs) input mem ≡ ended
unfolding request_recv request_recv_from
recv_ended rs input mem e = if_of_false _ _ _ (inside (length mem) e)

-- A request goes over the connection exactly when each system call takes it whole, however the calls
-- after the first would cut it: a first `send` of all its bytes sends it as it is, and a first `recv` of all of
-- them stores the same bytes in the receiver's request and reads no more. After a first call that takes
-- fewer bytes, but at least one, the next call is handed memory past the request, on either side. A
-- first `recv` of nothing is the end of the connection.
pub requests_lem :
    (mem buf rest : List ℕ) (w : ℕ) (ws : List ℕ)
    → length mem ≡ request_size
    → length buf ≡ request_size
    → (w ≡ request_size
        → (request_send (w ∷ ws) mem ≡ sent mem)
          × (request_recv (w ∷ ws) (mem ++ rest) buf ≡ request mem rest))
      × (0 < w
          → w < request_size
          → (request_send (w ∷ ws) mem ≡ reads_past)
            × (request_recv (w ∷ ws) (mem ++ rest) buf ≡ stores_past))
      × (request_recv (0 ∷ ws) rest buf ≡ ended)
requests_lem mem buf rest w ws e f = (
  λ h. (send_whole w ws mem e h, recv_whole w ws mem rest buf f e h),
  λ h k. (send_cut w ws mem e h k, recv_cut w ws (mem ++ rest) buf f h k),
  recv_ended ws rest buf f,
)
