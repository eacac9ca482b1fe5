-- ===== src/Queue/Mc121/Contents.antt =====
-- The bytes that a buffer of libdsys/queue.c holds, oldest first, and where `__bc_putq_mc121` writes.
use libdsys.Prelude.{
  ℕ, ◌+◌, ◌-◌, ◌≤◌, ◌<◌, ◌≡◌, ◌∙◌, ap, ◌&&◌, some, List, arith, ltb, leb, if◌then◌else◌, length,
  get_or, take, drop, length-take, length-drop, get_or-take, get_or-drop, tabulate_from,
  length-tabulate_from, get_or-tabulate_from,
}
use libdsys.Prelude.Words.{sub_size}
use libdsys.Queue.Memory.{memcpy_to, length-memcpy_to, get_or-memcpy_to}
use libdsys.Queue.Mc121.{Mc121, putq_mc121}
use libdsys.Queue.Mc121.Inv.{IsValid, wrap}

-- The byte `k` places after the oldest one.
abbrev pub byte_at : Mc121 → ℕ → ℕ
byte_at q k = get_or q.buff (wrap q.size (q.data_start + k)) 0

unfoldable pub contents : Mc121 → List ℕ
contents q = tabulate_from (byte_at q) 0 q.bytes_inbuff

pub length-contents : (q : Mc121) → length (contents q) ≡ q.bytes_inbuff
unfolding contents
length-contents q = length-tabulate_from (byte_at q) 0 q.bytes_inbuff

pub get_or-contents :
    (q : Mc121) (k : ℕ) → k < q.bytes_inbuff → get_or (contents q) k 0 ≡ byte_at q k
unfolding contents
get_or-contents q k h =
    get_or-tabulate_from (byte_at q) 0 q.bytes_inbuff k 0 h ∙ ap (byte_at q) (omega arith)

-- The first copy of a put, and the second, which goes to the start of the block.
get_or-first_copy :
    (mem : List ℕ) (f n : ℕ) (local : List ℕ) (i : ℕ)
    → f + n ≤ length mem
    → n ≤ length local
    → get_or (memcpy_to mem f (take n local)) i 0
      ≡ (if leb f i && ltb (i - f) n then get_or local (i - f) 0 else get_or mem i 0)
get_or-first_copy mem f n local i h k = ground (
  arith,
  get_or-memcpy_to mem f (take n local) i,
  length-take n local,
  get_or-take n local (i - f) 0,
)

get_or-second_copy :
    (mem : List ℕ) (u n : ℕ) (local : List ℕ) (i : ℕ)
    → n ≤ length mem
    → u + n ≤ length local
    → get_or (memcpy_to mem 0 (take n (drop u local))) i 0
      ≡ (if ltb i n then get_or local (u + i) 0 else get_or mem i 0)
get_or-second_copy mem u n local i h k = ground (
  arith,
  get_or-first_copy mem 0 n (drop u local) i,
  length-drop u local,
  get_or-drop u local (i - 0) 0,
)

-- How far index `i` lies after `free_start`, going round.
abbrev pub free_offset : Mc121 → ℕ → ℕ
free_offset q i = if leb q.free_start i then i - q.free_start else i + q.size - q.free_start

-- What stands at any index after a put: the new bytes from `free_start` on, and else what was there.
pub get_or-putq :
    (q : Mc121) (local : List ℕ) (bytes : ℕ) {q' : Mc121} (i : ℕ)
    → IsValid q
    → bytes ≤ length local
    → i < q.size
    → putq_mc121 q local bytes ≡ some q'
    → get_or q'.buff i 0 ≡ (
        if ltb (free_offset q i) bytes then get_or local (free_offset q i) 0 else get_or q.buff i 0)
unfolding putq_mc121
get_or-putq q local bytes {q'} i v h b e =
    let upper = sub_size q.buff_end q.free_start in
    let first = memcpy_to q.buff q.free_start (take upper local) in
    let off = free_offset q i in
    ground (
      arith,
      get_or-first_copy q.buff q.free_start bytes local i,
      get_or-first_copy q.buff q.free_start upper local i,
      get_or-second_copy first upper (bytes - upper) local i,
      length-memcpy_to q.buff q.free_start (take upper local),
    )
