-- ===== src/Session/Calls.antt =====
-- What the calls behind libdsys/pipe.c do to the bytes.
use libdsys.Prelude.{
  ℕ, ◌+◌, ◌^◌, ◌≤◌, ◌<◌, ◌≡◌, refl, sym, ap, ◌∙◌, false, Option, none, some, List, [], ◌∷◌, ◌++◌,
  arith, length, append-nil, take, drop, length-take, take-append-drop,
}
use libdsys.Prelude.Words.{mul_size}
use libdsys.Queue.Wire.{Packet}
use libdsys.Queue.Memory.{memcpy_to, slice}
use libdsys.Queue.Mc121.{Mc121, sendq_mc121, mc121_send}
use libdsys.Queue.Mc121.Inv.{IsValid}
use libdsys.Queue.Mc121.Contents.{contents}
use libdsys.Queue.Mc121.Refine.{sendq_waits}
use libdsys.Net.{recv_loop, read_data}
use libdsys.Net.Chunks.{Legal, recv_all, slice-memcpy_to}
use libdsys.Session.{Phase, idle, asked, answered, Line}

-- A send that is not conditional and goes through is one of the queue's.
pub send_went :
    (q : Mc121) (n : ℕ) {out : List Packet} {q' : Mc121}
    → mc121_send q n false ≡ some (out, q')
    → sendq_mc121 q n false ≡ some (out, q')
unfolding mc121_send
send_went q n {out} {q'} e = ground (arith, e)

pub send_waits : (q : Mc121) (n : ℕ) → IsValid q → mc121_send q n false ≡ none → q.bytes_inbuff < n
unfolding mc121_send
send_waits q n v e = (sendq_waits q n false v).0 (ground (arith, e))

-- The bytes on the way that the consumer waits for.
abbrev pub awaited : ℕ → Phase → ℕ
awaited bytes idle = 0
awaited bytes (asked du) = 0
awaited bytes (answered du) = mul_size bytes du

pub record Inv (made took size : ℕ) (l : Line) : Type 0 where
  pub valid : IsValid l.q
  pub sized : l.q.size ≡ size
  pub on_way : made ≡ took → length l.unread ≡ awaited made l.phase

-- The bytes between the producer and the consumer.
abbrev pub between : Line → List ℕ
between l = l.unread ++ contents l.q

-- A read takes the first bytes that are on the way.
pub read_took :
    (sizes unread mem after rest : List ℕ) (p n : ℕ)
    → n ≤ length unread
    → n < 2 ^ 64
    → Legal sizes n
    → n ≤ length sizes
    → p + n ≤ length mem
    → read_data sizes unread mem p n ≡ some (after, rest)
    → (slice after p n ≡ take n unread) × (rest ≡ drop n unread)
unfolding read_data Legal recv_loop
read_took [] unread mem after rest p n e b legal long fits came = absurd cc
read_took (r ∷ sizes) unread mem after rest p n e b (pos, le, more) long fits came =
    let xs : List ℕ = take n unread in
    let enough : length xs ≡ n = omega (arith, length-take n unread) in
    let took : recv_loop 1 (r ∷ sizes) (xs ++ drop n unread) mem p n
        ≡ some (memcpy_to mem p xs, drop n unread) =
      recv_all (r ∷ sizes) xs (drop n unread) mem p n enough (omega arith) b long (pos, le, more) in
    let same : ◌≡◌ {A = Option (List ℕ × List ℕ)} (some (after, rest))
        (some (memcpy_to mem p xs, drop n unread)) =
      sym came
      ∙ ap (λ i. recv_loop 1 (r ∷ sizes) i mem p n) (sym (take-append-drop n unread))
      ∙ took in
    let stored : after ≡ memcpy_to mem p xs = cc in
    (
      ap (λ m. slice m p n) stored
          ∙ ap (slice (memcpy_to mem p xs) p) (sym enough)
          ∙ slice-memcpy_to mem p xs (omega (arith, enough)),
      cc,
    )

pub nil_of_length : (xs : List ℕ) → length xs ≡ 0 → xs ≡ []
nil_of_length [] e = refl
nil_of_length (x ∷ xs) e = absurd (omega arith)

-- With as many calls as there are bytes, a read takes what is on the way.
pub read_comes :
    (sizes unread mem : List ℕ) (p n : ℕ)
    → length unread ≡ n
    → 0 < n
    → n < 2 ^ 64
    → Legal sizes n
    → n ≤ length sizes
    → p + n ≤ length mem
    → (read_data sizes unread mem p n ≡ some (memcpy_to mem p unread, []))
      × (slice (memcpy_to mem p unread) p n ≡ unread)
unfolding read_data
read_comes sizes unread mem p n e h b legal long fits = (
  ap (λ i. recv_loop 1 sizes i mem p n) (sym (append-nil unread))
      ∙ recv_all sizes unread [] mem p n e h b long legal,
  ap (slice (memcpy_to mem p unread) p) (sym e) ∙ slice-memcpy_to mem p unread (omega (arith, e)),
)
