-- ===== src/Queue/Nmc121.antt =====
-- The one-to-one buffer without memory copy of libdsys/queue.c. The producer fills the slot at `var` in
-- place, and its put moves on to the next slot; the consumer reads at a pointer of its own. A call
-- waits at most once, since the wait stands under an `if`: `woken` says that it has waited already. `none`
-- is a call that waits.
pub mod Full
mod Tests
use libdsys.Prelude.{
  ℕ, ◌+◌, ◌-◌, Bool, true, false, not, ◌&&◌, ◌||◌, Option, none, some, List, [], ◌∷◌, ◌++◌, ◌==◌,
  if◌then◌else◌,
}
use libdsys.Prelude.Words.{mul_size}
use libdsys.Queue.Wire.{Packet, data_bytes, sorry_message, preamble_message}
use libdsys.Queue.Memory.{slice}

-- Pointers are offsets from `q->start`, and `mem` is the block there.
pub record Nmc121 : Type 0 where
  pub mem : List ℕ
  pub end : ℕ
  pub size : ℕ
  pub inbuff : ℕ
  pub du : ℕ
  pub var : ℕ

-- `__bc_internal_nmc121_create`; whether the structure could be given, and the block.
unfoldable pub nmc121_create : ℕ → ℕ → Bool → Option (List ℕ) → Option Nmc121
nmc121_create du bytes false block = none
nmc121_create du bytes true none = none
nmc121_create du bytes true (some block) =
    some
      (record { mem = block; end = mul_size bytes du; size = bytes; inbuff = 0; du = du; var = 0 })

-- The slot after another one.
abbrev pub next_slot : Nmc121 → ℕ → ℕ
next_slot q v = if v + q.size == q.end then 0 else v + q.size

-- `__bc_internal_nmc121_put`
unfoldable pub nmc121_put : Nmc121 → Bool → Option Nmc121
nmc121_put q woken =
    if q.inbuff == q.du && not woken
    then none
    else some (record q { inbuff = q.inbuff + 1; var = next_slot q q.var })

-- `__bc_internal_nmc121_send`, with the consumer's pointer: what is sent, the pointer and the buffer.
unfoldable pub nmc121_send : Nmc121 → ℕ → Bool → Bool → Option (List Packet × ℕ × Nmc121)
nmc121_send q v cond_recv woken =
    if (q.inbuff == 0 || v == q.var) && not woken
    then (if cond_recv then some (sorry_message ∷ [], v, q) else none)
    else some (
      (if cond_recv then preamble_message ∷ [] else []) ++ (data_bytes (slice q.mem v q.size) ∷ []),
      next_slot q v,
      record q { inbuff = q.inbuff - 1 },
    )
