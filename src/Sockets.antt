-- ===== src/Sockets.antt =====
-- The connections between all processes, `__bc_socket_network_create` of libdsys/sockets.c. Each process
-- runs its part of the calls in order, and the steps of all processes interleave. The system holds for
-- each listener the connections that have been made and not accepted. A failed call of `connect` is
-- tried again by the source, so that a step is a call that succeeds; it needs the listener of the other
-- process. That the listeners can be created is an assumption.
pub mod Programs
pub mod Sums
pub mod Pending
pub mod Progress
pub mod Entries
pub mod Waiting
pub mod Table
mod Tests
use libdsys.Prelude.{
  ℕ, zero, suc, ◌+◌, ◌-◌, ◌<◌, ◌≡◌, Bool, true, false, ◌&&◌, Option, none, some, List, [], ◌∷◌,
  ◌++◌, ◌==◌, if◌then◌else◌,
}
use libdsys.Net.{rank2idx}

-- The two types of socket.
pub data Sock : Type 0 where
  req_sock data_sock : Sock

-- `struct id_s`, which goes over a new connection first.
pub record SockId : Type 0 where
  pub rank : ℕ
  pub type : Sock

-- The two ends of a connection and its type: who called `connect`, and who accepted.
pub record Conn : Type 0 where
  pub from : ℕ
  pub to : ℕ
  pub type : Sock

-- The calls: `__bc_create_listeners`, `__bc_accept` on one of the two listeners, the `close` of both, and
-- `__bc_connect`.
pub data Call : Type 0 where
  listen close : Call
  accept : Sock → Call
  connect : ℕ → Sock → Call

-- `for (i = 0; i < bc_rank; i++)`, with `n` rounds left.
unfoldable pub accepts : ℕ → List Call
accepts zero = []
accepts (suc n) = accept req_sock ∷ accept data_sock ∷ accepts n

-- `for (i = bc_rank + 1; i <= size; i++)`, with `n` rounds left.
unfoldable pub connects : ℕ → ℕ → List Call
connects i zero = []
connects i (suc n) = connect i req_sock ∷ connect i data_sock ∷ connects (suc i) n

-- The calls of the process `rank` of `n`.
unfoldable pub programme : ℕ → ℕ → List Call
programme n rank = listen ∷ (accepts rank ++ (close ∷ connects (suc rank) (n - suc rank)))

-- What each process has left to do, what waits at its listeners, and its table of sockets.
pub record Network : Type 0 where
  pub left : ℕ → List Call
  pub pending : ℕ → Sock → List SockId
  pub slist : ℕ → ℕ → Sock → Option Conn

abbrev pub is_sock : Sock → Sock → Bool
is_sock req_sock req_sock = true
is_sock req_sock data_sock = false
is_sock data_sock req_sock = false
is_sock data_sock data_sock = true

-- A change at one process.
abbrev pub at {ℓ} : {A : Type ℓ} → (ℕ → A) → ℕ → A → ℕ → A
at f r v x = if x == r then v else f x

-- A change at one process, or entry, and type.
abbrev pub at_sock {ℓ} : {A : Type ℓ} → (ℕ → Sock → A) → ℕ → Sock → A → ℕ → Sock → A
at_sock f r t v x s = if x == r && is_sock s t then v else f x s

-- Before the first call.
unfoldable pub start : ℕ → Network
start n = record { left = programme n; pending = λ p t. []; slist = λ p i t. none }

-- Whether a call is among those that are left.
abbrev pub is_listen : Call → ℕ
is_listen listen = 1
is_listen close = 0
is_listen (accept t) = 0
is_listen (connect p t) = 0

abbrev pub is_close : Call → ℕ
is_close listen = 0
is_close close = 1
is_close (accept t) = 0
is_close (connect p t) = 0

unfoldable pub how_many : (Call → ℕ) → List Call → ℕ
how_many is [] = 0
how_many is (c ∷ cs) = is c + how_many is cs

-- The listeners of a process exist: it has created them and not closed them.
abbrev pub Listening : List Call → Type 0
Listening cs = (how_many is_listen cs ≡ 0) × (how_many is_close cs ≡ 1)

-- The steps of the process `r` of `n`.
pub data Step (n : ℕ) (s : Network) : Network → Type 0 where
  listens :
      (r : ℕ) {cs : List Call}
      → r < n
      → s.left r ≡ listen ∷ cs
      → Step n s (record s { left = at s.left r cs })
  accepts_one :
      (r : ℕ) (t : Sock) {cs : List Call} {id : SockId} {ids : List SockId}
      → r < n
      → s.left r ≡ accept t ∷ cs
      → s.pending r t ≡ id ∷ ids
      → Step n s (record s {
        left = at s.left r cs;
        pending = at_sock s.pending r t ids;
        slist = at s.slist r (
            at_sock
              (s.slist r)
              (rank2idx r id.rank)
              id.type
              (some (record { from = id.rank; to = r; type = id.type })));
      })
  closes :
      (r : ℕ) {cs : List Call}
      → r < n
      → s.left r ≡ close ∷ cs
      → Step n s (record s { left = at s.left r cs })
  connects_one :
      (r p : ℕ) (t : Sock) {cs : List Call}
      → r < n
      → s.left r ≡ connect p t ∷ cs
      → Listening (s.left p)
      → Step n s (record {
        left = at s.left r cs;
        pending = at_sock s.pending p t (s.pending p t ++ (record { rank = r; type = t } ∷ []));
        slist =
            at s.slist r
              (at_sock (s.slist r) (rank2idx r p) t (some (record { from = r; to = p; type = t })));
      })

-- Any number of steps.
pub data Run (n : ℕ) (s : Network) : ℕ → Network → Type 0 where
  stays : Run n s 0 s
  moves : {k : ℕ} {a b : Network} → Run n s k a → Step n a b → Run n s (suc k) b

-- Every process has returned from `__bc_socket_network_create`.
abbrev pub Finished : ℕ → Network → Type 0
Finished n s = (r : ℕ) → r < n → s.left r ≡ []
