-- ===== src/Session.antt =====
-- A channel of the role PIPE from end to end, libdsys/pipe.c: the producer's `__bc_p_pipe`, the server
-- thread's `__bc_s_pipe`, and the consumer's `__bc_r_pipe`, which sends a request and then reads. The
-- request finds the channel as Server and Ltab/Meet have it. A consumer has at most one request open.
pub mod Calls
pub mod Stream
mod Tests
use libdsys.Prelude.{
  ℕ, ◌+◌, ◌≤◌, ◌<◌, ◌≡◌, Bool, true, false, Option, none, some, List, [], ◌∷◌, ◌++◌, length, take,
}
use libdsys.Prelude.Words.{mul_size}
use libdsys.Queue.Wire.{Packet, payload}
use libdsys.Queue.Memory.{slice}
use libdsys.Queue.Mc121.{Mc121, mc121_put, mc121_send}
use libdsys.Net.{read_data}
use libdsys.Net.Chunks.{Legal}

-- One pass of `__bc_p_pipe`, for a type of `bytes` bytes.
unfoldable pub p_pipe : ℕ → Mc121 → List ℕ → ℕ → Option Mc121
p_pipe bytes q local du = mc121_put q local (mul_size bytes du)

-- One pass of `__bc_s_pipe`.
unfoldable pub s_pipe : ℕ → Mc121 → ℕ → Bool → Option (List Packet × Mc121)
s_pipe bytes q du cond_recv = mc121_send q (mul_size bytes du) cond_recv

-- What the request of `__bc_r_pipe` has come to: none is open, it is sent, or its data are on the way.
pub data Phase : Type 0 where
  idle : Phase
  asked : ℕ → Phase
  answered : ℕ → Phase

-- The producer's buffer, the bytes in the data socket, and the consumer.
pub record Line : Type 0 where
  pub q : Mc121
  pub unread : List ℕ
  pub phase : Phase

-- `__bc_read_data` at the end of `__bc_r_pipe`, with what the calls of recv return.
unfoldable pub r_pipe : ℕ → List ℕ → List ℕ → List ℕ → ℕ → ℕ → Option (List ℕ × List ℕ)
r_pipe bytes sizes unread local p du = read_data sizes unread local p (mul_size bytes du)

-- The passes that change a line: a put that goes through, a request, the answer to it, and the read
-- into the consumer's memory, once all that it waits for has come. With each step go the bytes that the
-- producer has put and those that the consumer has got. A type has `made` bytes at the producer, and `took`
-- at the consumer.
pub data Step (made took : ℕ) : Line → List ℕ → List ℕ → Line → Type 0 where
  puts :
      {l : Line} {q' : Mc121}
      → (local : List ℕ) (du : ℕ) → mul_size made du ≤ length local
      → p_pipe made l.q local du ≡ some q'
      → Step made took l (take (mul_size made du) local) [] (record l { q = q' })
  asks :
      {l : Line}
      → (du : ℕ) → l.phase ≡ idle
      → Step made took l [] [] (record l { phase = asked du })
  serves :
      {l : Line} {out : List Packet} {q' : Mc121}
      → (du : ℕ) → l.phase ≡ asked du
      → s_pipe made l.q du false ≡ some (out, q')
      → Step made took l [] []
          (record { q = q'; unread = l.unread ++ payload out; phase = answered du })
  reads :
      {l : Line} {after rest : List ℕ}
      → (sizes mem : List ℕ) (p du : ℕ) → l.phase ≡ answered du
      → Legal sizes (mul_size took du)
      → mul_size took du ≤ length sizes
      → mul_size took du ≤ length l.unread
      → p + mul_size took du ≤ length mem
      → r_pipe took sizes l.unread mem p du ≡ some (after, rest)
      → Step made took l []
          (slice after p (mul_size took du))
          (record l { unread = rest; phase = idle })

-- Any number of steps, in any order.
pub data Run (made took : ℕ) (start : Line) : List ℕ → List ℕ → Line → Type 0 where
  begins : Run made took start [] [] start
  goes :
      {l l' : Line} {put got put' got' : List ℕ}
      → Run made took start put got l
      → Step made took l put' got' l'
      → Run made took start (put ++ put') (got ++ got') l'
