-- ===== src/Queue/Nmc12m/System/Put.antt =====
-- The producer's events on a buffer without memory copy (libdsys/queue.c) against the invariant.
use native.Mathlib.Nat.{mod-eq_of_lt, mod-lt, mod-eq-sub-mod}
use mathlib.Core.Path.{subst}
use libdsys.Prelude.{
  ℕ, ◌+◌, ◌-◌, ◌*◌, ◌%◌, ◌≤◌, ◌<◌, ◌≡◌, sym, ◌∙◌, ap, true, false, some, [], ◌∷◌, ◌++◌, arith, ◌==◌,
  if◌then◌else◌, length, get_or, get_elem?, set, inl, inr, Bool-cases, length-set, length-append,
  get_or-set, get_or-append, take-append_le, dec_lt,
}
use libdsys.Queue.Memory.{slice}
use libdsys.Queue.Nmc12m.{put_enter, put_check, ushort}
use libdsys.Queue.Nmc12m.Rounds.{slots_differ, slot-suc, next_slot, slice-set_ne}
use libdsys.Queue.Nmc12m.System.{Consumer, System, front, check}
use libdsys.Queue.Nmc12m.System.Inv.{Inv, pending, pending_all, pending_empty}

pub store-Inv :
    (a : ℕ) (s : System) (o x : ℕ)
    → Inv a s
    → s.blocked ≡ false
    → o < s.q.size
    → Inv a (record s { q = record s.q { mem = set s.q.mem (s.q.vptr.var + o) x } })
store-Inv a s o x v free h = record {
  some_units = v.some_units;
  some_bytes = v.some_bytes;
  counters = v.counters;
  block = length-set s.q.mem (s.q.vptr.var + o) x ∙ v.block;
  last = v.last;
  few = v.few;
  place = v.place;
  idle = v.idle;
  busy = v.busy;
  counts = v.counts;
  stored = λ k b n.
      let there = v.idle free in
      ap (λ p. slice (set s.q.mem (p + o) x) (k % s.q.du * s.q.size) s.q.size) there.1
      ∙ slice-set_ne s.q.mem (a % s.q.du) (k % s.q.du) s.q.size o x
          (λ e. slots_differ k a s.q.du (omega arith) n (sym e)) h
      ∙ v.stored k b n;
  unused = v.unused;
  readers = λ j c e.
      let r = v.readers j c e in
      record {
        place = r.place;
        var = r.var;
        behind = r.behind;
        near = r.near;
        received = r.received;
      };
}

-- The state of a producer that has just entered the loop of a put.
abbrev pub entered : System → System
entered s = record s {
  q = put_enter s.q (length s.consumers);
  blocked = true;
  produced = s.produced ++ front s.q ∷ [];
}

pub entered-Inv : (a : ℕ) (s : System) → Inv a s → s.blocked ≡ false → Inv a (entered s)
unfolding put_enter
entered-Inv a s v free = record {
  some_units = v.some_units;
  some_bytes = v.some_bytes;
  counters =
      omega (arith, v.counters, length-set s.q.rc s.q.vptr.rcidx (ushort (length s.consumers)));
  block = v.block;
  last = v.last;
  few = v.few;
  place = v.place;
  idle = λ e. cc;
  busy = λ e. (omega (arith, there, length-append s.produced (front s.q ∷ [])), advanced);
  counts = λ k b n. ground (
    arith,
    there,
    v.place,
    v.counters,
    longer,
    get_or-set s.q.rc s.q.vptr.rcidx (k % s.q.du) (ushort (length s.consumers)) 0,
    v.counts k,
    pending_all a s.consumers (λ j c e. (v.readers j c e).behind),
    slots_differ k a s.q.du,
    mod-lt a v.some_units,
  );
  stored = λ k b n.
      ground (arith, there, longer, get_or-append s.produced (front s.q ∷ []) k [], v.stored k);
  unused = λ k b n p. ground (
    arith,
    there,
    v.place,
    longer,
    get_or-set s.q.rc s.q.vptr.rcidx k (ushort (length s.consumers)) 0,
    v.unused k,
    mod-eq_of_lt {n = a} {m = s.q.du},
  );
  readers = λ j c e.
      let r = v.readers j c e in
      record {
        place = r.place;
        var = r.var;
        behind = r.behind;
        near = r.near;
        received =
            r.received
            ∙ sym (
                take-append_le (length c.got) s.produced (front s.q ∷ [])
                  (omega (arith, r.behind, there)));
      };
}
  where
    there : (length s.produced ≡ a) × (s.q.vptr.var ≡ a % s.q.du * s.q.size)
    there = v.idle free

    longer : length (s.produced ++ front s.q ∷ []) ≡ a + 1
    longer = omega (arith, there, length-append s.produced (front s.q ∷ []))

    advanced :
        (if s.q.vptr.var + s.q.size == s.q.end then 0 else s.q.vptr.var + s.q.size)
        ≡ (a + 1) % s.q.du * s.q.size
    advanced = ground (arith, there, v.last, next_slot a s.q.du s.q.size)

-- The producer leaves the loop: the slot that it moves to has been read by every consumer.
left-Inv :
    (a : ℕ) (s : System)
    → Inv a s
    → s.blocked ≡ true
    → get_or s.q.rc ((s.q.vptr.rcidx + 1) % s.q.du) 0 ≡ 0
    → Inv (a + 1) (record s {
      q = record s.q {
        vptr = record { var = s.q.vptr.var; rcidx = (s.q.vptr.rcidx + 1) % s.q.du };
      };
      blocked = false;
    })
left-Inv a s v held empty = record {
  some_units = v.some_units;
  some_bytes = v.some_bytes;
  counters = v.counters;
  block = v.block;
  last = v.last;
  few = v.few;
  place = turned;
  idle = λ e. there;
  busy = λ e. cc;
  counts = λ k b n. v.counts k b (omega arith);
  stored = λ k b n. v.stored k b (omega arith);
  unused = v.unused;
  readers = λ j c e.
      let r = v.readers j c e in
      record {
        place = r.place;
        var = r.var;
        behind = omega (arith, r.behind);
        near = near j c e;
        received = r.received;
      };
}
  where
    there : (length s.produced ≡ a + 1) × (s.q.vptr.var ≡ (a + 1) % s.q.du * s.q.size)
    there = v.busy held

    turned : (s.q.vptr.rcidx + 1) % s.q.du ≡ (a + 1) % s.q.du
    turned = ap (λ i. (i + 1) % s.q.du) v.place ∙ slot-suc a s.q.du

    near : (j : ℕ) (c : Consumer) → get_elem? s.consumers j ≡ some c → a + 1 < length c.got + s.q.du
    near j c e = elim (dec_lt (a + 1) s.q.du) [
      | yes early ↦ omega arith
      | no late ↦
          let k = a + 1 - s.q.du in
          let slot : k % s.q.du ≡ (s.q.vptr.rcidx + 1) % s.q.du =
            sym (mod-eq-sub-mod {n = a + 1} {m = s.q.du} (omega arith)) ∙ sym turned in
          let zero_left : pending k s.consumers ≡ 0 =
            sym (v.counts k (omega (arith, there, v.some_units)) (omega arith))
            ∙ ap (λ i. get_or s.q.rc i 0) slot
            ∙ empty in
          omega (arith, pending_empty k s.consumers j c zero_left e)
    ]

pub check-Inv :
    (a : ℕ) (s : System) → Inv a s → s.blocked ≡ true → (b : ℕ) × (a ≤ b) × Inv b (check s)
unfolding check put_check
check-Inv a s v held = elim (Bool-cases (get_or s.q.rc ((s.q.vptr.rcidx + 1) % s.q.du) 0 == 0)) [
  | inl yes_empty ↦
      (a + 1, omega arith, rw (yes_empty, check, put_check) (left-Inv a s v held (ground arith)))
  | inr not_empty ↦ (
    a,
    omega arith,
    rw (not_empty, check, put_check) (subst (Inv a) (λ i. record s { blocked = held i }) v),
  )
]
