-- ===== src/Queue/Nmc12m/System/Send.antt =====
-- A server thread's pass on a buffer without memory copy (libdsys/queue.c) against the invariant.
use native.Mathlib.Nat.{mod-eq_of_lt, mod-lt}
use mathlib.Core.Path.{subst}
use libdsys.Prelude.{
  ℕ, suc, ◌+◌, ◌-◌, ◌*◌, ◌%◌, ◌≤◌, ◌<◌, ◌≡◌, ◌≢◌, refl, sym, ◌∙◌, ap, Bool, true, false, some, List,
  [], ◌∷◌, ◌++◌, arith, ◌==◌, if◌then◌else◌, length, get_or, get_elem?, set, take, inl, inr,
  Bool-cases, length-set, length-append, get_or-set, get_elem?-set_cases, take-suc, dec_lt,
  append-nil,
}
use libdsys.Queue.Wire.{data_bytes, payload}
use libdsys.Queue.Memory.{slice}
use libdsys.Queue.Nmc12m.{Vptr, is_ready, nmc12m_send}
use libdsys.Queue.Mc121.{preamble}
use libdsys.Queue.Nmc12m.Rounds.{slots_differ, slot-suc, next_slot}
use libdsys.Queue.Nmc12m.System.{Consumer, System, receive, answer, step}
use libdsys.Queue.Nmc12m.System.Inv.{Inv, Reader, pending-set}

-- The consumer `j`, which is behind, after the unit at its pointer has been sent to it.
abbrev pub advanced_link : System → Consumer → Vptr
advanced_link s c = record {
  var = if c.link.var + s.q.size == s.q.end then 0 else c.link.var + s.q.size;
  rcidx = (c.link.rcidx + 1) % s.q.du;
}

abbrev pub sent_to : System → ℕ → Consumer → System
sent_to s j c = record s {
  q = record s.q { rc = set s.q.rc c.link.rcidx (get_or s.q.rc c.link.rcidx 0 - 1) };
  consumers =
      set s.consumers j (record {
        link = advanced_link s c;
        got = c.got ++ slice s.q.mem c.link.var s.q.size ∷ [];
      });
}

pub sent-Inv :
    (a : ℕ) (s : System) (j : ℕ) (c : Consumer)
    → Inv a s
    → get_elem? s.consumers j ≡ some c
    → length c.got < a
    → Inv a (sent_to s j c)
sent-Inv a s j c v e h = record {
  some_units = v.some_units;
  some_bytes = v.some_bytes;
  counters =
      omega (arith, v.counters, length-set s.q.rc c.link.rcidx (get_or s.q.rc c.link.rcidx 0 - 1));
  block = v.block;
  last = v.last;
  few = omega (arith, v.few, length-set s.consumers j after);
  place = v.place;
  idle = v.idle;
  busy = v.busy;
  counts = λ k b n. ground (
    arith,
    r.place,
    v.counters,
    v.counts k b n,
    v.counts (length c.got),
    enough,
    get_or-set s.q.rc c.link.rcidx (k % s.q.du) (get_or s.q.rc c.link.rcidx 0 - 1) 0,
    pending-set k s.consumers j c after e longer,
    apart k,
    mod-lt (length c.got) v.some_units,
  );
  stored = v.stored;
  unused = λ k b n p. ground (
    arith,
    r.place,
    enough,
    get_or-set s.q.rc c.link.rcidx k (get_or s.q.rc c.link.rcidx 0 - 1) 0,
    v.unused k,
    mod-eq_of_lt {n = length c.got} {m = s.q.du},
  );
  readers = λ i d f. elim (get_elem?-set_cases s.consumers j i after d f) [
    | inl same ↦ subst (Reader (sent_to s j c) a) (sym same) reader_after
    | inr other ↦
        let r' = v.readers i d other in
        record {
          place = r'.place;
          var = r'.var;
          behind = r'.behind;
          near = r'.near;
          received = r'.received;
        }
  ];
}
  where
    r : Reader s a c
    r = v.readers j c e

    after : Consumer
    after = record {
      link = advanced_link s c;
      got = c.got ++ slice s.q.mem c.link.var s.q.size ∷ [];
    }

    longer : length after.got ≡ suc (length c.got)
    longer = omega (arith, length-append c.got (slice s.q.mem c.link.var s.q.size ∷ []))

    enough : a ≤ length s.produced
    enough = ground (arith, v.idle, v.busy)

    most : length s.produced ≤ a + 1
    most = ground (arith, v.idle, v.busy)

    -- A unit in the slot of the one that is sent is that one.
    apart :
        (k : ℕ)
        → k < length s.produced
        → a < k + s.q.du
        → k ≢ length c.got
        → k % s.q.du ≢ length c.got % s.q.du
    apart k b n ne = elim (dec_lt k (length c.got)) [
      | yes p ↦ slots_differ k (length c.got) s.q.du p (omega (arith, r.behind))
      | no p ↦ λ q.
          slots_differ (length c.got) k s.q.du (omega arith) (omega (arith, r.near, most)) (sym q)
    ]

    moved :
        (if c.link.var + s.q.size == s.q.end then 0 else c.link.var + s.q.size)
        ≡ (length c.got + 1) % s.q.du * s.q.size
    moved = ground (arith, r.var, v.last, next_slot (length c.got) s.q.du s.q.size)

    unit : slice s.q.mem c.link.var s.q.size ≡ get_or s.produced (length c.got) []
    unit =
        ap (λ p. slice s.q.mem p s.q.size) r.var
        ∙ v.stored (length c.got) (omega (arith, enough)) r.near

    reader_after : Reader (sent_to s j c) a after
    reader_after = record {
      place =
          ap (λ i. (i + 1) % s.q.du) r.place
          ∙ slot-suc (length c.got) s.q.du
          ∙ ap (λ i. i % s.q.du) (omega (arith, longer));
      var = moved ∙ ap (λ i. i % s.q.du * s.q.size) (omega (arith, longer));
      behind = omega (arith, longer);
      near = omega (arith, longer, r.near);
      received =
          ap (λ us. us ++ slice s.q.mem c.link.var s.q.size ∷ []) r.received
          ∙ ap (λ u. take (length c.got) s.produced ++ u ∷ []) unit
          ∙ sym (take-suc (length c.got) s.produced [] (omega (arith, enough)))
          ∙ ap (λ n. take n s.produced) (sym longer);
    }

-- A link whose data are ready is behind the producer.
pub ready_behind :
    (a : ℕ) (s : System) (j : ℕ) (c : Consumer)
    → Inv a s
    → get_elem? s.consumers j ≡ some c
    → is_ready s.q c.link ≡ true
    → length c.got < a
ready_behind a s j c v e h = elim (dec_lt (length c.got) a) [
  | yes p ↦ p
  | no p ↦
      let r = v.readers j c e in
      let level : length c.got ≡ a = omega (arith, r.behind) in
      absurd (same (r.place ∙ ap (λ n. n % s.q.du) level ∙ sym v.place))
]
  where
    same : c.link.rcidx ≡ s.q.vptr.rcidx → ⊥
    same q = ground arith

payload_of_unit : (c : Bool) (xs : List ℕ) → payload (preamble c ++ data_bytes xs ∷ []) ≡ xs
unfolding payload
payload_of_unit true xs = append-nil xs
payload_of_unit false xs = append-nil xs

-- What a pass of a server thread does to the state.
pub receive_lem :
    (a : ℕ) (s : System) (j : ℕ) (c : Consumer) (cond_recv : Bool)
    → Inv a s
    → get_elem? s.consumers j ≡ some c
    → step s (receive j cond_recv) ≡ (if is_ready s.q c.link then sent_to s j c else s)
unfolding step nmc12m_send
receive_lem a s j c cond_recv v e = elim (Bool-cases (is_ready s.q c.link)) [
  | inl ready ↦
      rw
        (
          e,
          ready,
          step,
          answer,
          nmc12m_send,
          payload_of_unit cond_recv (slice s.q.mem c.link.var s.q.size),
        )
        refl
  | inr not_ready ↦ elim (Bool-cases cond_recv) [
    | inl told ↦ rw (e, not_ready, told, step, nmc12m_send) refl
    | inr silent ↦ rw (e, not_ready, silent, step, nmc12m_send) refl
  ]
]
