-- ===== src/Queue/Farmn/Share.antt =====
-- The fan-out buffer of libdsys/queue.c against the one-to-many buffer with a single consumer, which
-- stands for all the workers together.
use mathlib.Core.Path.{subst}
use mathlib.Core.Option.{some-injective}
use libdsys.Prelude.{
  ℕ, ◌+◌, ◌*◌, ◌%◌, ◌^◌, ◌≤◌, ◌<◌, ◌≡◌, refl, sym, ◌∙◌, ap, Bool, true, not, ◌&&◌, some, List, [],
  ◌∷◌, ◌++◌, arith, ltb, ◌==◌, if◌then◌else◌, if_of_true, if_of_false, inl, inr, Bool-cases, length,
  get_or, get_elem?, take, map, length-map,
}
use libdsys.Queue.Memory.{slice}
use libdsys.Queue.Nmc12m.{Nmc12m, nmc12m_create, put_enter, put_check, nmc12m_send}
use libdsys.Queue.Nmc12m.System as Shared
use libdsys.Queue.Nmc12m.System.{Consumer, System, Event, store, commit, resume, receive}
use libdsys.Queue.Nmc12m.System.Deliver.{deliver_in_order}
use libdsys.Queue.Farmn.{
  FarmnQ, farmn_q_create, farmn_q_put_enter, farmn_q_put_check, farmn_q_send, Farm, check, answer,
  step, run, start,
}

abbrev pub units : List (ℕ × List ℕ) → List (List ℕ)
units log = map (λ r. r.1) log

-- The one-to-many buffer that a fan-out buffer is.
abbrev pub shared : FarmnQ → Nmc12m
shared q = record { rc = q.rc; mem = q.mem; end = q.end; size = q.size; du = q.du; vptr = q.pptr }

abbrev pub as_one : Farm → System
as_one s = record {
  q = shared s.q;
  blocked = s.blocked;
  consumers = record { link = s.q.cptr; got = units s.log } ∷ [];
  produced = s.produced;
}

-- The event of the single consumer, or one without effect where no such worker exists.
abbrev pub as_event : ℕ → Event → Event
as_event n (store o x) = store o x
as_event n commit = commit
as_event n resume = resume
as_event n (receive j cond_recv) = receive (if ltb j n then 0 else 1) cond_recv

check-as_one : (s : Farm) → as_one (check s) ≡ Shared.check (as_one s)
unfolding check farmn_q_put_check Shared.check put_check
check-as_one s = elim (Bool-cases (get_or s.q.rc ((s.q.pptr.rcidx + 1) % s.q.du) 0 == 0)) [
  | inl free ↦ rw (check, farmn_q_put_check, Shared.check, put_check, free) refl
  | inr used ↦ rw (check, farmn_q_put_check, Shared.check, put_check, used) refl
]

units-snoc :
    (log : List (ℕ × List ℕ)) (j : ℕ) (u : List ℕ)
    → units (log ++ (j, u) ∷ []) ≡ units log ++ u ∷ []
units-snoc [] j u = refl
units-snoc (r ∷ log) j u = ap (λ us. r.1 ∷ us) (units-snoc log j u)

-- The test of both sends.
abbrev ready : FarmnQ → Bool
ready q = not (get_or q.rc q.cptr.rcidx 0 == 0) && not (q.pptr.rcidx == q.cptr.rcidx)

receive-as_one :
    (s : Farm) (j : ℕ) (cond_recv : Bool)
    → as_one (answer s j (farmn_q_send s.q cond_recv))
      ≡ Shared.step (as_one s) (receive 0 cond_recv)
unfolding Shared.step farmn_q_send nmc12m_send answer Shared.answer
receive-as_one s j cond_recv = elim (Bool-cases (ready s.q)) [
  | inl held ↦ rw (held, units-snoc s.log j) refl
  | inr loose ↦ elim (Bool-cases cond_recv) [
    | inl once ↦ rw (loose, once) refl
    | inr again ↦ rw (loose, again) refl
  ]
]

step-as_one :
    (s : Farm) (e : Event) → as_one (step s e) ≡ Shared.step (as_one s) (as_event s.workers e)
unfolding step Shared.step farmn_q_put_enter put_enter farmn_q_send nmc12m_send answer Shared.answer
step-as_one s (store o x) = elim (Bool-cases s.blocked) [
  | inl held ↦ rw held refl
  | inr loose ↦ elim (Bool-cases (ltb o s.q.size)) [
    | inl inside ↦ rw (loose, inside) refl
    | inr outside ↦ rw (loose, outside) refl
  ]
]
step-as_one s commit = elim (Bool-cases s.blocked) [
  | inl held ↦ ap as_one (if_of_true _ _ _ held) ∙ sym (if_of_true _ _ _ held)
  | inr loose ↦
      ap as_one (if_of_false _ _ _ loose)
      ∙ check-as_one (record s {
        q = farmn_q_put_enter s.q;
        produced = s.produced ++ slice s.q.mem s.q.pptr.var s.q.size ∷ [];
      })
      ∙ sym (if_of_false _ _ _ loose)
]
step-as_one s resume = elim (Bool-cases s.blocked) [
  | inl held ↦ ap as_one (if_of_true _ _ _ held) ∙ check-as_one s ∙ sym (if_of_true _ _ _ held)
  | inr loose ↦ ap as_one (if_of_false _ _ _ loose) ∙ sym (if_of_false _ _ _ loose)
]
step-as_one s (receive j cond_recv) = elim (Bool-cases (ltb j s.workers)) [
  | inl there ↦ rw there (receive-as_one s j cond_recv)
  | inr absent ↦ rw absent refl
]

step-workers : (s : Farm) (e : Event) → (step s e).workers ≡ s.workers
unfolding step check answer farmn_q_send
step-workers s (store o x) = ground arith
step-workers s commit = ground arith
step-workers s resume = ground arith
step-workers s (receive j cond_recv) = ground arith

run-as_one :
    (es : List Event) (s : Farm)
    → as_one (run s es) ≡ Shared.run (as_one s) (map (as_event s.workers) es)
unfolding run Shared.run
run-as_one [] s = refl
run-as_one (e ∷ es) s = run-as_one es (step s e) ∙ rw (step-workers s e, step-as_one s e) refl

create-shared :
    (du bytes n : ℕ) (block counters : List ℕ) {q : FarmnQ}
    → farmn_q_create du bytes true (some block) (some counters) ≡ some q
    → (nmc12m_create du bytes true (some block) (some counters) ≡ some (shared q))
      × (as_one (start q n) ≡ Shared.start (shared q) 1)
unfolding farmn_q_create nmc12m_create
create-shared du bytes n block counters {q} e =
    let same = some-injective _ _ e in
    (
      ap (λ r. some (shared r)) same,
      subst (λ r. as_one (start r n) ≡ Shared.start (shared r) 1) same refl,
    )

-- On a fan-out buffer that `__bc_internal_farmn_q_create` made, with room for the size computation
-- and any interleaving of stores, puts and sends of any number of workers: the units that the
-- workers received, in the order of the passes, are the first so many of the committed units. So
-- each unit goes whole to one worker and none is skipped, handed out twice or overwritten before it
-- was read; and the workers together are at most one round behind.
pub farm_in_order :
    (du bytes n : ℕ) (block counters : List ℕ) {q : FarmnQ} (es : List Event)
    → 0 < du
    → 0 < bytes
    → bytes * du < 2 ^ 64
    → length block ≡ bytes * du
    → du ≤ length counters
    → farmn_q_create du bytes true (some block) (some counters) ≡ some q
    → (units (run (start q n) es).log
        ≡ take (length (run (start q n) es).log) (run (start q n) es).produced)
      × (length (run (start q n) es).log ≤ length (run (start q n) es).produced)
      × (length (run (start q n) es).produced
          ≤ length (run (start q n) es).log + (run (start q n) es).q.du)
farm_in_order du bytes n block counters {q} es p b w m hb e =
    let (made, begun) = create-shared du bytes n block counters e in
    let t = map (as_event n) es in
    subst
      (λ k.
        (units (run (start q n) es).log ≡ take k (run (start q n) es).produced)
        × (k ≤ length (run (start q n) es).produced)
        × (length (run (start q n) es).produced ≤ k + (run (start q n) es).q.du))
      (length-map _ _)
      (subst
        (λ s.
          (c : Consumer)
          → get_elem? s.consumers 0 ≡ some c
          → (c.got ≡ take (length c.got) s.produced)
            × (length c.got ≤ length s.produced)
            × (length s.produced ≤ length c.got + s.q.du))
        (sym (run-as_one es (start q n) ∙ ap (λ s. Shared.run s t) begun))
        (deliver_in_order du bytes 1 block counters t p b w (omega arith) m hb made 0) _ refl)
