-- ===== src/Server.antt =====
-- The threads that serve the requests of the other processes, `__bc_service_thread` of
-- libdsys/threads.c: which link a request is served from, with the link that the thread has cached. The
-- serving changes only the pointer `vptr` of a link, which no search reads; it is that of the insertion here.
pub mod Cache
mod Tests
use libdsys.Prelude.{
  ◌≡◌, ℕ, Bool, true, false, Option, none, some, List, [], ◌∷◌, ◌==◌, if◌then◌else◌,
}
use libdsys.Ltab.{Link, search_links, Removed, crashes, awaits, removed, link_destroy}

-- The links to the process that the thread serves, `clink` and `ctag`.
pub record Server : Type 0 where
  pub links : List Link
  pub clink : Option Link
  pub ctag : ℕ

-- A thread at its start, before there are links.
abbrev pub at_start : Server
at_start = record { links = []; clink = none; ctag = 9999 }

-- The requests, by the codes of `bc_service_t`; `get` tells whether it is conditional.
pub data Service : Type 0 where
  get : Bool → ℕ → Service
  kill : ℕ → Service
  echo : Service
  num : Service

-- What the serving of a request comes to: the data of a link are sent, a link is gone, a message is
-- printed, nothing, a wait for an insertion, or an access through a null pointer.
pub data Answer : Type 0 where
  sends : Link → Bool → Server → Answer
  kills : ℕ → ℕ → Server → Answer
  prints : Server → Answer
  passes : Server → Answer
  blocks : Answer
  faults : Answer

-- "Cache miss."
unfoldable pub on_miss : Server → Bool → ℕ → Answer
on_miss s cond tag = elim (search_links s.links tag) [
  | none ↦ blocks
  | some l ↦ sends l cond (record s { clink = some l; ctag = tag })
]

-- The switch over the code of a request.
unfoldable pub serve : Server → Service → Answer
serve s (get cond tag) =
    let miss = on_miss s cond tag in
    elim s.clink [ none ↦ miss | some l ↦ if tag == s.ctag then sends l cond s else miss ]
serve s (kill tag) = elim (link_destroy s.links tag) [
  | crashes ↦ faults
  | awaits ↦ blocks
  | removed by channel rest ↦ kills by channel (record s { links = rest; clink = none })
]
serve s echo = prints s
serve s num = passes s

-- The thread after a request, where it goes on.
unfoldable pub next : Answer → Option Server
next (sends l cond s) = some s
next (kills by channel s) = some s
next (prints s) = some s
next (passes s) = some s
next blocks = none
next faults = none

-- What the two threads of a process do with the links to one other process: the computation thread
-- inserts links, with tags that are not in use, and the server thread serves requests.
pub data Reached : Server → Type 0 where
  starts : Reached at_start
  inserts :
      {s : Server}
      → (l : Link) → Reached s
      → search_links s.links l.tag ≡ none
      → Reached (record s { links = l ∷ s.links })
  serves : {s t : Server} → (r : Service) → Reached s → next (serve s r) ≡ some t → Reached t
