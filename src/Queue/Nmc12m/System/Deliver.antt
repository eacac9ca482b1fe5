-- ===== src/Queue/Nmc12m/System/Deliver.antt =====
-- What a buffer without memory copy (libdsys/queue.c) promises to its consumers and its producer.
use native.Mathlib.Nat.{mod-eq_of_lt, mod-eq-sub-mod}
use mathlib.Core.Path.{subst}
use mathlib.Core.Option.{some-injective}
use libdsys.Prelude.{
  ℕ, zero, suc, ◌+◌, ◌-◌, ◌*◌, ◌%◌, ◌^◌, ◌≤◌, ◌<◌, ◌≡◌, ◌⊎◌, refl, sym, ◌∙◌, ap, true, ◌&&◌, some,
  List, [], ◌∷◌, arith, leb, ltb, ◌==◌, if◌then◌else◌, length, get_or, get_elem?, set, take, inl,
  inr, Bool-cases, length-set, get_or-set, dec_lt,
}
use libdsys.Queue.Nmc12m.{
  Nmc12m, clear_counters, nmc12m_create, put_check, is_ready, out_of_bounds, destroy_from,
  nmc12m_destroy,
}
use libdsys.Queue.Nmc12m.System.{Consumer, System, Event, step, run, new_consumers, start}
use libdsys.Queue.Nmc12m.Rounds.{slots_differ, slot-suc}
use libdsys.Queue.Nmc12m.System.Inv.{Inv, pending_exists, pending_own}
use libdsys.Queue.Nmc12m.System.Keep.{step-Inv}

pub length-clear_counters : (rc : List ℕ) (i : ℕ) → length (clear_counters rc i) ≡ length rc
unfolding clear_counters
length-clear_counters rc zero = refl
length-clear_counters rc (suc i) =
    length-clear_counters (set rc (suc i) 0) i ∙ length-set rc (suc i) 0

-- The loop clears every counter but the first.
pub clear_counters_lem :
    (rc : List ℕ) (i k : ℕ)
    → k < length rc
    → get_or (clear_counters rc i) k 0 ≡ (if ltb 0 k && leb k i then 0 else get_or rc k 0)
unfolding clear_counters
clear_counters_lem rc zero k b = ground arith
clear_counters_lem rc (suc i) k b = ground (
  arith,
  clear_counters_lem (set rc (suc i) 0) i k,
  length-set rc (suc i) 0,
  get_or-set rc (suc i) k 0 0,
)

pub length-new_consumers : (n : ℕ) → length (new_consumers n) ≡ n
length-new_consumers zero = refl
length-new_consumers (suc n) = ap suc (length-new_consumers n)

new_consumers_lem :
    (n j : ℕ) (c : Consumer)
    → get_elem? (new_consumers n) j ≡ some c
    → (c.link.var ≡ 0) × (c.link.rcidx ≡ 0) × (c.got ≡ [])
new_consumers_lem zero j c e = cc
new_consumers_lem (suc n) zero c e = ground arith
new_consumers_lem (suc n) (suc j) c e = new_consumers_lem n j c e

-- What `__bc_internal_nmc12m_create` returns is in order before the first event, whatever the two
-- blocks of memory held.
pub create-Inv :
    (du bytes n : ℕ) (block counters : List ℕ) {q : Nmc12m}
    → 0 < du
    → 0 < bytes
    → bytes * du < 2 ^ 64
    → n < 2 ^ 16
    → length block ≡ bytes * du
    → du ≤ length counters
    → nmc12m_create du bytes true (some block) (some counters) ≡ some q
    → Inv 0 (start q n)
unfolding nmc12m_create
create-Inv du bytes n block counters {q} p b w m hb hc e =
    subst (λ r. Inv 0 (start r n)) (some-injective _ _ e)
      (record {
        some_units = p;
        some_bytes = b;
        counters = omega (arith, length-clear_counters counters (du - 1));
        block = hb;
        last = mod-eq_of_lt w;
        few = omega (arith, length-new_consumers n);
        place = sym (mod-eq_of_lt p);
        idle = λ _. (refl, sym zero_slot);
        busy = λ f. cc;
        counts = λ k h i. elim h [ ];
        stored = λ k h i. elim h [ ];
        unused = λ k h i z. ground (arith, clear_counters_lem counters (du - 1) k);
        readers = λ j c f.
            let (at_var, at_place, nothing) = new_consumers_lem n j c f in
            record {
              place = rw nothing (at_place ∙ sym (mod-eq_of_lt p));
              var = rw nothing (at_var ∙ sym zero_slot);
              behind = rw nothing (omega arith);
              near = rw nothing (omega arith);
              received = rw nothing refl;
            };
      })
  where
    zero_slot : 0 % du * bytes ≡ 0
    zero_slot = ap (λ i. i * bytes) (mod-eq_of_lt p) ∙ omega arith

pub run-Inv :
    (es : List Event) (a : ℕ) (s : System) → Inv a s → (b : ℕ) × (a ≤ b) × Inv b (run s es)
unfolding run
run-Inv [] a s v = (a, omega arith, v)
run-Inv (e ∷ es) a s v =
    let (b, h, w) = step-Inv a s e v in
    let (c, k, x) = run-Inv es b (step s e) w in (c, omega arith, x)

pub deliver_in_order :
    (du bytes n : ℕ) (block counters : List ℕ) {q : Nmc12m} (es : List Event)
    → 0 < du
    → 0 < bytes
    → bytes * du < 2 ^ 64
    → n < 2 ^ 16
    → length block ≡ bytes * du
    → du ≤ length counters
    → nmc12m_create du bytes true (some block) (some counters) ≡ some q
    → (j : ℕ) (c : Consumer) → get_elem? (run (start q n) es).consumers j ≡ some c
    → (c.got ≡ take (length c.got) (run (start q n) es).produced)
      × (length c.got ≤ length (run (start q n) es).produced)
      × (length (run (start q n) es).produced ≤ length c.got + (run (start q n) es).q.du)
deliver_in_order du bytes n block counters {q} es p b w m hb hc e j c f =
    let (a, _, v) =
      run-Inv es 0 (start q n) (create-Inv du bytes n block counters p b w m hb hc e) in
    let r = v.readers j c f in
    (r.received, ground (arith, r.behind, v.idle, v.busy), ground (arith, r.near, v.idle, v.busy))

-- The data of a consumer that is behind are ready.
ready_of_behind :
    (a : ℕ) (s : System) (j : ℕ) (c : Consumer)
    → Inv a s
    → get_elem? s.consumers j ≡ some c
    → length c.got < a
    → is_ready s.q c.link ≡ true
ready_of_behind a s j c v e h =
    let r = v.readers j c e in
    ground (
      arith,
      r.place,
      r.near,
      v.place,
      v.idle,
      v.busy,
      v.counts (length c.got),
      pending_own s.consumers j c e,
      slots_differ (length c.got) a s.q.du h r.near,
    )

-- A producer that waits in a put on a buffer of two units or more is not stuck: its next pass leaves
-- the loop, or the data of some consumer are ready.
pub put_not_stuck :
    (a : ℕ) (s : System)
    → Inv a s
    → 1 < s.q.du
    → s.blocked ≡ true
    → ((q : Nmc12m) × (put_check s.q ≡ some q))
      ⊎ ((j : ℕ) × (c : Consumer) × (get_elem? s.consumers j ≡ some c)
          × (is_ready s.q c.link ≡ true))
unfolding put_check
put_not_stuck a s v two held =
    elim (Bool-cases (get_or s.q.rc ((s.q.vptr.rcidx + 1) % s.q.du) 0 == 0)) [
      | inl empty ↦ inl (
        record s.q { vptr = record { var = s.q.vptr.var; rcidx = (s.q.vptr.rcidx + 1) % s.q.du } },
        rw (empty, put_check) refl,
      )
      | inr in_use ↦ elim (dec_lt (a + 1) s.q.du) [
        | yes early ↦ absurd (
            ground
              (arith, there, turned, mod-eq_of_lt {n = a + 1} {m = s.q.du} early, v.unused (a + 1)))
        | no late ↦
            let k = a + 1 - s.q.du in
            let slot : k % s.q.du ≡ (a + 1) % s.q.du =
              sym (mod-eq-sub-mod {n = a + 1} {m = s.q.du} (omega arith)) in
            let (j, c, e, b) =
              pending_exists k s.consumers (ground (arith, there, turned, slot, v.counts k)) in
            inr (j, c, e, ready_of_behind a s j c v e (omega arith))
      ]
    ]
  where
    there : length s.produced ≡ a + 1
    there = (v.busy held).0

    turned : (s.q.vptr.rcidx + 1) % s.q.du ≡ (a + 1) % s.q.du
    turned = ap (λ i. (i + 1) % s.q.du) v.place ∙ slot-suc a s.q.du

-- The destruction of a buffer that has `du` counters always reads a counter after the last one
-- before it reads any other.
pub destroy_reads_past_end :
    (q : Nmc12m) → 0 < q.du → length q.rc ≡ q.du → nmc12m_destroy q ≡ out_of_bounds
unfolding nmc12m_destroy destroy_from
destroy_reads_past_end q p e = from q.du p (omega arith)
  where
    from : (i : ℕ) → 0 < i → length q.rc ≤ i → destroy_from q.rc i ≡ out_of_bounds
    from zero h b = elim h [ ]
    from (suc i) h b = ground arith
