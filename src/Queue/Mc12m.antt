-- ===== src/Queue/Mc12m.antt =====
-- The one-to-many buffer with memory copy, `bc_mc12m_t` of libdsys/queue.c: a one-to-one buffer for
-- each process of a list, found by the tag. Also the two ways in which a put reaches all of them:
-- `__bc_p_replicate` of libdsys/replicate.c and `__bc_p_spread` of libdsys/spread.c.
pub mod Tags
pub mod Scatter
mod Tests
use libdsys.Prelude.{
  ℕ, ◌*◌, Bool, true, false, Option, none, some, List, [], ◌∷◌, ◌++◌, ◌==◌, if◌then◌else◌, drop,
}
use libdsys.Prelude.Words.{mul_size}
use libdsys.Queue.Wire.{Packet}
use libdsys.Queue.Mc121.{Mc121, mc121_create, mc121_put, mc121_send}

-- `struct bc_mc12m_s`; the list of the nodes stands for the links `next`.
pub record Node : Type 0 where
  pub tag : ℕ
  pub mc121 : Mc121

-- What the three calls of malloc for a node return: the node, its buffer and the block.
pub record Memory : Type 0 where
  pub node : Bool
  pub buffer : Bool
  pub block : Option (List ℕ)

-- The loop of `__bc_c_mc12m` over the process list; at `none` all that was made is freed.
unfoldable pub create_nodes : List ℕ → List Memory → ℕ → Option (List Node)
create_nodes [] ms s = some []
create_nodes (r ∷ rs) [] s = none
create_nodes (r ∷ rs) (m ∷ ms) s =
    let rest = create_nodes rs ms s in
    if m.node
    then elim (mc121_create m.buffer m.block s) [
      | none ↦ none
      | some q ↦ elim rest [ none ↦ none | some ns ↦ some (record { tag = r; mc121 = q } ∷ ns) ]
    ]
    else none

-- `__bc_c_mc12m`; `queue` is what its own malloc returns.
unfoldable pub c_mc12m : Bool → List Memory → List ℕ → ℕ → ℕ → Option (List Node)
c_mc12m false ms ranks du bytes = none
c_mc12m true ms ranks du bytes = create_nodes ranks ms (mul_size du bytes)

-- What a put comes to: -1 for a tag that no node has, a wait at a full buffer with what has been
-- stored until then, or 0.
pub data Stored : Type 0 where
  missing : Stored
  waits : List Node → Stored
  stored : List Node → Stored

-- A node before the ones that a put has gone through.
abbrev pub behind : Node → Stored → Stored
behind n missing = missing
behind n (waits ns) = waits (n ∷ ns)
behind n (stored ns) = stored (n ∷ ns)

-- `__bc_p_mc12m` with one pass of its loop.
unfoldable pub p_mc12m : List Node → List ℕ → ℕ → ℕ → Stored
p_mc12m [] local bytes tag = missing
p_mc12m (n ∷ ns) local bytes tag =
    let rest = p_mc12m ns local bytes tag in
    if n.tag == tag
    then elim (mc121_put n.mc121 local bytes) [
      | none ↦ waits (n ∷ ns)
      | some q ↦ stored (record { tag = n.tag; mc121 = q } ∷ ns)
    ]
    else behind n rest

-- What a send comes to.
pub data Sent : Type 0 where
  nobody : Sent
  stands : Sent
  sent : List Packet → List Node → Sent

-- `__bc_s_mc12m` with one pass of its loop.
unfoldable pub s_mc12m : List Node → ℕ → ℕ → Bool → Sent
s_mc12m [] bytes tag cond_recv = nobody
s_mc12m (n ∷ ns) bytes tag cond_recv =
    let rest = s_mc12m ns bytes tag cond_recv in
    if n.tag == tag
    then elim (mc121_send n.mc121 bytes cond_recv) [
      | none ↦ stands
      | some r ↦ sent r.0 (record { tag = n.tag; mc121 = r.1 } ∷ ns)
    ]
    else elim rest [ nobody ↦ nobody | stands ↦ stands | sent out left ↦ sent out (n ∷ left) ]

-- What follows a put: `absent` at a tag that no node has, nothing while it waits, or `next`.
abbrev pub after : Stored → (List Node → Stored) → Stored → Stored
after absent next missing = absent
after absent next (waits ns) = waits ns
after absent next (stored ns) = next ns

-- The loop of `__bc_p_replicate`: a put by the tag of each node in turn.
unfoldable pub p_replicate : List Node → List Node → List ℕ → ℕ → Stored
p_replicate q [] local s = stored q
p_replicate q (temp ∷ next) local s =
    after (p_replicate q next local s) (λ q'. p_replicate q' next local s)
      (p_mc12m q local s temp.tag)

-- The loop of `__bc_p_spread`: each node gets the next `s` bytes.
unfoldable pub p_spread : List Node → List ℕ → ℕ → Stored
p_spread [] local s = stored []
p_spread (n ∷ ns) local s =
    let rest = p_spread ns (drop s local) s in
    elim (mc121_put n.mc121 local s) [
      | none ↦ waits (n ∷ ns)
      | some q ↦ behind (record { tag = n.tag; mc121 = q }) rest
    ]
