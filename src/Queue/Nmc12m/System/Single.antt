-- ===== src/Queue/Nmc12m/System/Single.antt =====
-- A buffer without memory copy (libdsys/queue.c) of a single unit: what becomes of its producer.
use native.Mathlib.Nat.{mod-lt}
use libdsys.Prelude.{
  ℕ, ◌+◌, ◌%◌, ◌^◌, ◌<◌, ◌≡◌, refl, sym, ◌∙◌, ap, true, false, some, List, [], ◌∷◌, ◌++◌, arith,
  ◌==◌, length, get_or, get_elem?, set, inl, inr, Bool-cases, if_of_true, if_of_false, Option-cases,
  length-set, get_or-set,
}
use libdsys.Queue.Nmc12m.{nmc12m_send, put_enter, Nmc12m, nmc12m_create, put_check, is_ready}
use libdsys.Queue.Nmc12m.System.{
  front, answer, Consumer, System, Event, store, commit, resume, receive, check, step, run, start,
}
use libdsys.Queue.Nmc12m.System.Inv.{Inv, pending_all}
use libdsys.Queue.Nmc12m.System.Send.{receive_lem}
use libdsys.Queue.Nmc12m.System.Keep.{step-Inv}
use libdsys.Queue.Nmc12m.System.Deliver.{length-new_consumers, create-Inv, run-Inv}

-- While a producer waits in a put on a buffer of a single unit, no thread changes anything.
one_unit_kept :
    (a : ℕ) (s : System) (e : Event)
    → Inv a s
    → s.q.du ≡ 1
    → 0 < length s.consumers
    → s.blocked ≡ true
    → step s e ≡ s
unfolding step check put_check
one_unit_kept a s (store o x) v one some_one held = if_of_true _ _ _ held
one_unit_kept a s commit v one some_one held = if_of_true _ _ _ held
one_unit_kept a s resume v one some_one held = if_of_true _ _ _ held ∙ waiting
  where
    in_use : (get_or s.q.rc ((s.q.vptr.rcidx + 1) % s.q.du) 0 == 0) ≡ false
    in_use = ground (
      arith,
      v.place,
      v.busy held,
      v.counts a,
      pending_all a s.consumers (λ j c e. (v.readers j c e).behind),
      mod-lt a v.some_units,
      mod-lt (s.q.vptr.rcidx + 1) v.some_units,
    )

    waiting : check s ≡ s
    waiting = rw (in_use, check, put_check) (λ i. record s { blocked = sym held i })
one_unit_kept a s (receive j cond_recv) v one some_one held =
    elim (Option-cases (get_elem? s.consumers j)) [
      | inl absent ↦ rw (absent, step) refl
      | inr (c, e) ↦ receive_lem a s j c cond_recv v e ∙ if_of_false _ _ _ (unready j c e)
    ]
  where
    unready :
        (j : ℕ) (c : Consumer) → get_elem? s.consumers j ≡ some c → is_ready s.q c.link ≡ false
    unready j c e = ground (
      arith,
      v.place,
      (v.readers j c e).place,
      mod-lt a v.some_units,
      mod-lt (length c.got) v.some_units,
    )

entered : System → System
entered s = record s {
  q = put_enter s.q (length s.consumers);
  produced = s.produced ++ front s.q ∷ [];
  blocked = true;
}

commit_waits :
    (a : ℕ) (s : System)
    → Inv a s
    → s.q.du ≡ 1
    → 0 < length s.consumers
    → s.blocked ≡ false
    → step s commit ≡ entered s
unfolding step check put_check put_enter entered
commit_waits a s v one some_one free = if_of_false _ _ _ free ∙ rw (in_use, check, put_check) refl
  where
    in_use :
        (get_or
            (set s.q.rc s.q.vptr.rcidx (length s.consumers % 2 ^ 16))
            ((s.q.vptr.rcidx + 1) % s.q.du)
            0
          == 0)
        ≡ false
    in_use = ground (
      arith,
      v.place,
      v.few,
      v.counters,
      mod-lt a v.some_units,
      mod-lt (s.q.vptr.rcidx + 1) v.some_units,
      get_or-set s.q.rc s.q.vptr.rcidx ((s.q.vptr.rcidx + 1) % s.q.du) (length s.consumers % 2 ^ 16)
          0,
    )

-- What no step changes.
abbrev Alike : System → System → Type 0
Alike s t = (t.q.du ≡ s.q.du) × (length t.consumers ≡ length s.consumers)

check-Alike : (s : System) → Alike s (check s)
unfolding check put_check
check-Alike s = elim (Bool-cases (get_or s.q.rc ((s.q.vptr.rcidx + 1) % s.q.du) 0 == 0)) [
  | inl empty ↦ rw (empty, check, put_check) (refl, refl)
  | inr in_use ↦ rw (in_use, check, put_check) (refl, refl)
]

step-Alike : (s : System) (e : Event) → Alike s (step s e)
unfolding step put_enter answer nmc12m_send
step-Alike s (store o x) = ground arith
step-Alike s commit = elim (Bool-cases s.blocked) [
  | inl held ↦ rw (held, step) (refl, refl)
  | inr free ↦
      rw (free, step)
        (check-Alike (record s {
          q = put_enter s.q (length s.consumers);
          produced = s.produced ++ front s.q ∷ [];
        }))
]
step-Alike s resume = elim (Bool-cases s.blocked) [
  | inl held ↦ rw (held, step) (check-Alike s)
  | inr free ↦ rw (free, step) (refl, refl)
]
step-Alike s (receive j cond_recv) = elim (Option-cases (get_elem? s.consumers j)) [
  | inl absent ↦ rw (absent, step) (refl, refl)
  | inr (c, e) ↦ elim (Bool-cases (is_ready s.q c.link)) [
    | inl ready ↦ rw (e, ready, step, answer, nmc12m_send) (refl, length-set s.consumers j _)
    | inr not_ready ↦ elim (Bool-cases cond_recv) [
      | inl told ↦ rw (e, not_ready, told, step, answer, nmc12m_send) (refl, refl)
      | inr silent ↦ rw (e, not_ready, silent, step, answer, nmc12m_send) (refl, refl)
    ]
  ]
]

run-Alike : (es : List Event) (s : System) → Alike s (run s es)
unfolding run
run-Alike [] s = (refl, refl)
run-Alike (e ∷ es) s =
    let (du, size) = step-Alike s e in
    let (du', size') = run-Alike es (step s e) in (du' ∙ du, size' ∙ size)

run_kept :
    (es : List Event) (a : ℕ) (s : System)
    → Inv a s
    → s.q.du ≡ 1
    → 0 < length s.consumers
    → s.blocked ≡ true
    → run s es ≡ s
unfolding run
run_kept [] a s v one some_one held = refl
run_kept (e ∷ es) a s v one some_one held =
    ap (λ t. run t es) (one_unit_kept a s e v one some_one held)
    ∙ run_kept es a s v one some_one held

-- On a buffer that `__bc_internal_nmc12m_create` made for a single unit, with a consumer, no put ever
-- returns: after any events that leave the producer outside of a put, the first pass of a put waits, and
-- whatever any thread does then, the state stays the same.
pub one_unit_stuck :
    (bytes n : ℕ) (block counters : List ℕ) {q : Nmc12m} (before later : List Event)
    → 0 < bytes
    → bytes < 2 ^ 64
    → 0 < n
    → n < 2 ^ 16
    → length block ≡ bytes
    → 0 < length counters
    → nmc12m_create 1 bytes true (some block) (some counters) ≡ some q
    → (run (start q n) before).blocked ≡ false
    → let after = step (run (start q n) before) commit in
      (after.blocked ≡ true) × (run after later ≡ after)
unfolding entered nmc12m_create
one_unit_stuck bytes n block counters {q} before later b w m m' hb hc e free =
    let (a, _, v) = run-Inv before 0 (start q n) (
      create-Inv 1 bytes n block counters (omega arith) b (omega arith) m' (omega (arith, hb)) hc
        e) in
    let (a', _, v') = step-Inv a (run (start q n) before) commit v in
    let (du, size) = run-Alike before (start q n) in
    let single : (run (start q n) before).q.du ≡ 1 = du ∙ one_slot e in
    let some_one : 0 < length (run (start q n) before).consumers =
      omega (arith, size, length-new_consumers n) in
    let waits = commit_waits a (run (start q n) before) v single some_one free in
    let (du', size') = step-Alike (run (start q n) before) commit in
    let held = ap (λ (t : System). t.blocked) waits in
    (
      held,
      run_kept later a' (step (run (start q n) before) commit) v' (du' ∙ single)
          (omega (arith, size', some_one)) held,
    )
  where
    one_slot : nmc12m_create 1 bytes true (some block) (some counters) ≡ some q → q.du ≡ 1
    one_slot e = ground (arith, e)
