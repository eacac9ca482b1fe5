-- ===== src/Channel.antt =====
-- Channels and the roles they can have: libdsys/iface.c, and the creation and destruction of a channel
-- in libdsys/pipe.c, libdsys/replicate.c, libdsys/farm.c and libdsys/spread.c; data types and their
-- reference counts, libdsys/dtype.c.
pub mod Count
pub mod Shutdown
mod Tests
use libdsys.Prelude.{
  ℕ, zero, suc, ◌+◌, ◌-◌, ◌%◌, ◌^◌, Bool, true, false, Option, none, some, List, [], ◌∷◌, ◌==◌,
  if◌then◌else◌, map,
}
use libdsys.Prelude.Int.{ℤ, pos, negsuc}
use libdsys.Plist.{Plist, values}
use libdsys.Queue.Mc121.{Mc121, c_mc121}
use libdsys.Queue.Mc12m.{Node, Memory, c_mc12m}
use libdsys.Queue.Nmc12m.{
  Destroyed, out_of_bounds, kept as queue_kept, freed as queue_freed, Nmc12m, nmc12m_create,
  nmc12m_destroy,
}
use libdsys.Queue.Farmn.{FarmnQ, farmn_q_create, farmn_q_destroy}

-- `bc_dtype_t`; the codes other than BC_DTYPE_CUST are those of the built-in types.
pub record Dtype : Type 0 where
  pub custom : Bool
  pub bytes : ℕ
  pub rc : ℕ

-- `bc_dtype_create`; the last argument is what malloc returned.
unfoldable pub dtype_create : ℕ → Bool → Option Dtype
dtype_create zero node = none
dtype_create (suc n) false = none
dtype_create (suc n) true = some (record { custom = true; bytes = suc n; rc = 1 })

-- `__bc_internal_dtype_ref`
unfoldable pub dtype_ref : Dtype → Dtype
dtype_ref d = if d.custom then record d { rc = d.rc + 1 } else d

-- `__bc_internal_dtype_destroy`, with a count that is not 0: `none` once the type is freed.
unfoldable pub dtype_destroy : Dtype → Option Dtype
dtype_destroy d =
    if d.custom then (if d.rc - 1 == 0 then none else some (record d { rc = d.rc - 1 })) else some d

-- The roles that have functions for a producer. FARM and FARMN have the same ones.
pub data Role : Type 0 where
  pipe pipen replicate replicaten farmn spread : Role

-- `bc_queue_t`
pub data Buffer : Type 0 where
  ring : Mc121 → Buffer
  table : List Node → Buffer
  units : Nmc12m → Buffer
  handout : FarmnQ → Buffer

-- What the calls of malloc return in the creation of a channel.
pub record Given : Type 0 where
  pub channel : Bool
  pub queue : Bool
  pub buffer : Bool
  pub block : Option (List ℕ)
  pub counters : Option (List ℕ)
  pub nodes : List Memory

-- `(unsigned int) rank`
abbrev pub to_tag : ℤ → ℕ
to_tag (pos n) = n
to_tag (negsuc n) = 2 ^ 32 - (n + 1)

abbrev pub wrapped {ℓ} : {A : Type ℓ} → (A → Buffer) → Option A → Option Buffer
wrapped f none = none
wrapped f (some a) = some (f a)

-- The entry `c` of `bc_qiface` that a role calls: `__bc_c_mc121`, `__bc_c_mc12m`, `__bc_c_nmc12m` and
-- `__bc_c_farmn_q`.
unfoldable pub create_queue : Role → Given → Plist → ℕ → ℕ → Option Buffer
create_queue pipe m pl du szdu = wrapped ring (c_mc121 m.queue m.buffer m.block du szdu)
create_queue replicate m pl du szdu =
    wrapped table (c_mc12m m.queue m.nodes (map to_tag (values pl)) du szdu)
create_queue spread m pl du szdu =
    wrapped table (c_mc12m m.queue m.nodes (map to_tag (values pl)) du szdu)
create_queue pipen m pl du szdu =
    if m.queue then wrapped units (nmc12m_create du szdu m.buffer m.block m.counters) else none
create_queue replicaten m pl du szdu =
    if m.queue then wrapped units (nmc12m_create du szdu m.buffer m.block m.counters) else none
create_queue farmn m pl du szdu =
    if m.queue then wrapped handout (farmn_q_create du szdu m.buffer m.block m.counters) else none

-- `bc_channel_t`. The pipes do not assign `rc`.
pub record Channel : Type 0 where
  pub role : Role
  pub q : Buffer
  pub rc : ℕ

-- Whether the destruction of a role counts the links.
abbrev pub counts_links : Role → Bool
counts_links pipe = false
counts_links pipen = false
counts_links replicate = true
counts_links replicaten = true
counts_links farmn = true
counts_links spread = true

-- `__bc_c_pipe`, `__bc_c_pipen`, `__bc_c_replicate`, `__bc_c_replicaten`, `__bc_c_farmn` and
-- `__bc_c_spread`: the channel and the data type after it; `junk` is what `rc` held.
unfoldable pub channel_create : Role → Given → Plist → Dtype → ℕ → ℕ → Option (Channel × Dtype)
channel_create role m pl d du junk =
    if m.channel
    then elim (create_queue role m pl du d.bytes) [
      | none ↦ none
      | some q ↦ some (
        record { role = role; q = q; rc = if counts_links role then pl.count else junk },
        dtype_ref d,
      )
    ]
    else none

-- The entry `d` of `bc_qiface` that a role calls. `__bc_d_mc121` and `__bc_d_mc12m` free all that there is;
-- the destructions of the other two read the counters first, and may leave the buffer as it is.
unfoldable pub destroy_queue : Buffer → Destroyed
destroy_queue (ring q) = queue_freed
destroy_queue (table nodes) = queue_freed
destroy_queue (units q) = nmc12m_destroy q
destroy_queue (handout q) = farmn_q_destroy q

-- What is left of a channel and of its data type: the channel is kept; it is freed with its buffer;
-- it is freed but its buffer is not; or its destruction has read past the counters of the buffer.
pub data Left : Type 0 where
  kept : Channel → Dtype → Left
  freed : Option Dtype → Left
  leaked : Option Dtype → Left
  reads_past : Left

unfoldable pub release : Destroyed → Dtype → Left
release queue_freed d = freed (dtype_destroy d)
release queue_kept d = leaked (dtype_destroy d)
release out_of_bounds d = reads_past

-- `__bc_d_pipe`, `__bc_d_pipen`, `__bc_d_replicate`, `__bc_d_replicaten`, `__bc_d_farmn` and
-- `__bc_d_spread`, on an `unsigned int` count.
unfoldable pub channel_destroy : Channel → Dtype → Left
channel_destroy c d =
    let rc = (c.rc + 2 ^ 32 - 1) % 2 ^ 32 in
    if counts_links c.role
    then (if rc == 0 then release (destroy_queue c.q) d else kept (record c { rc = rc }) d)
    else release (destroy_queue c.q) d
