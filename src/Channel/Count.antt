-- ===== src/Channel/Count.antt =====
-- When the buffer of a channel is freed (libdsys/replicate.c, libdsys/farm.c, libdsys/spread.c,
-- libdsys/pipe.c), and what its destruction reads (libdsys/queue.c).
use libdsys.Prelude.{
  ◌%◌, ℕ, zero, suc, ◌+◌, ◌-◌, ◌*◌, ◌^◌, ◌<◌, ◌≤◌, ◌≡◌, refl, sym, ◌∙◌, ap, Bool, false, true,
  Option, none, some, List, arith, if◌then◌else◌, ◌==◌, ltb, length, get_or,
}
use mathlib.Core.Option.{some-injective}
use libdsys.Plist.{Plist}
use libdsys.Queue.Mc12m.{Node}
use libdsys.Queue.Nmc12m.{
  out_of_bounds, kept as queue_kept, freed as queue_freed, clear_counters, destroy_from,
  nmc12m_create,
}
use libdsys.Queue.Farmn.{farmn_q_create, farmn_q_destroy}
use libdsys.Queue.Nmc12m.System.Deliver.{
  length-clear_counters, clear_counters_lem, destroy_reads_past_end,
}
use libdsys.Channel.{
  Dtype, dtype_ref, dtype_destroy, Role, pipe, pipen, replicate, replicaten, farmn, spread, Given,
  Channel, counts_links, wrapped, create_queue, channel_create, Left, Buffer, table, units, handout,
  kept, freed, leaked, reads_past, destroy_queue, release, channel_destroy,
}

-- The channel after `n` links to it have been destroyed; nothing is left to destroy once it is freed.
unfoldable pub destroy_links : ℕ → Left → Left
destroy_links zero l = l
destroy_links (suc n) (freed d) = freed d
destroy_links (suc n) (leaked d) = leaked d
destroy_links (suc n) reads_past = reads_past
destroy_links (suc n) (kept c d) = destroy_links n (channel_destroy c d)

destroy_counted :
    (n : ℕ) (c : Channel) (d : Dtype)
    → counts_links c.role ≡ true
    → n < c.rc
    → c.rc < 2 ^ 32
    → destroy_links n (kept c d) ≡ kept (record c { rc = c.rc - n }) d
unfolding destroy_links channel_destroy
destroy_counted zero c d e h b = ground arith
destroy_counted (suc n) c d e h b = ground (arith, destroy_counted n (record c { rc = c.rc - 1 }) d)

destroy_next :
    (c : Channel) (d : Dtype)
    → counts_links c.role ≡ true
    → 1 < c.rc
    → c.rc < 2 ^ 32
    → channel_destroy c d ≡ kept (record c { rc = c.rc - 1 }) d
unfolding channel_destroy
destroy_next c d e h b = ground (arith, e)

destroy_last :
    (n : ℕ) (c : Channel) (d : Dtype)
    → counts_links c.role ≡ true
    → c.rc ≡ suc n
    → c.rc < 2 ^ 32
    → destroy_links (suc n) (kept c d) ≡ release (destroy_queue c.q) d
unfolding destroy_links channel_destroy
destroy_last zero c d e h b = rw (destroy_links, e, last c h) refl
  where
    last : (c : Channel) → c.rc ≡ 1 → (c.rc + 2 ^ 32 - 1) % 2 ^ 32 == 0 ≡ true
    last c h = ground arith
destroy_last (suc n) c d e h b =
    ap (destroy_links (suc n)) (destroy_next c d e (omega arith) b)
    ∙ destroy_last n (record c { rc = c.rc - 1 }) d e (omega arith) (omega arith)

pub create_fields :
    (role : Role) (m : Given) (pl : Plist) (d : Dtype) (du junk : ℕ) {c : Channel} {d' : Dtype}
    → counts_links role ≡ true
    → channel_create role m pl d du junk ≡ some (c, d')
    → (counts_links c.role ≡ true) × (c.rc ≡ pl.count) × (d' ≡ dtype_ref d)
unfolding channel_create
create_fields role m pl d du junk {c} {d'} e made = ground (arith, e)

created_queue :
    (role : Role) (m : Given) (pl : Plist) (d : Dtype) (du junk : ℕ) {c : Channel} {d' : Dtype}
    → channel_create role m pl d du junk ≡ some (c, d')
    → create_queue role m pl du d.bytes ≡ some c.q
unfolding channel_create
created_queue role m pl d du junk {c} {d'} made = ground (arith, made)

destroy-ref : (d : Dtype) → 0 < d.rc → dtype_destroy (dtype_ref d) ≡ some d
unfolding dtype_destroy dtype_ref
destroy-ref d h = ground arith

-- How many counters a buffer of a role asks for.
abbrev pub counters_of : Role → ℕ → ℕ
counters_of pipe du = 0
counters_of pipen du = du
counters_of replicate du = 0
counters_of replicaten du = du
counters_of farmn du = 2 * du
counters_of spread du = 0

-- What the last destruction of a channel comes to, by its role and by what malloc left in the counters.
unfoldable pub at_last : Role → Option (List ℕ) → ℕ → Dtype → Left
at_last pipe counters du d = freed (some d)
at_last pipen counters du d = reads_past
at_last replicate counters du d = freed (some d)
at_last replicaten counters du d = reads_past
at_last farmn none du d = reads_past
at_last farmn (some cs) du d = if get_or cs du 0 == 0 then freed (some d) else leaked (some d)
at_last spread counters du d = freed (some d)

none_set :
    (rc : List ℕ) (i : ℕ)
    → i < length rc
    → ((k : ℕ) → 0 < k → k ≤ i → get_or rc k 0 ≡ 0)
    → destroy_from rc i ≡ queue_freed
unfolding destroy_from
none_set rc zero b h = refl
none_set rc (suc i) b h = ground (
  arith,
  h (suc i) (omega arith) (omega arith),
  none_set rc i (omega arith) (λ k p q. h k p (omega arith)),
)

farm_counters :
    (cs : List ℕ) (du : ℕ)
    → 0 < du
    → length cs ≡ 2 * du
    → destroy_from (clear_counters cs (du - 1)) du
      ≡ (if get_or cs du 0 == 0 then queue_freed else queue_kept)
unfolding destroy_from
farm_counters cs zero p e = absurd (omega arith)
farm_counters cs (suc n) p e =
    let rc = clear_counters cs n in
    let long : length rc ≡ 2 * suc n = length-clear_counters cs n ∙ e in
    let last : get_or rc (suc n) 0 ≡ get_or cs (suc n) 0 =
      ground (arith, clear_counters_lem cs n (suc n) (omega arith)) in
    let before : destroy_from rc n ≡ queue_freed =
      none_set rc n (omega (arith, long))
        (λ k h b. ground (arith, clear_counters_lem cs n k (omega arith))) in
    let there : ltb (suc n) (length rc) ≡ true = ground (arith, long) in
    ap (λ k. destroy_from (clear_counters cs k) (suc n)) {x = suc n - 1} {y = n} (omega arith)
    ∙ rw (destroy_from, there, last, before) refl

table_last :
    (o : Option (List Node)) (d : Dtype) {q : Buffer}
    → wrapped table o ≡ some q
    → release (destroy_queue q) d ≡ freed (dtype_destroy d)
unfolding destroy_queue release
table_last none d made = absurd cc
table_last (some nodes) d {q} made =
    ap (λ b. release (destroy_queue b) d) {x = q} {y = table nodes} cc

units_last :
    (queue buffer : Bool) (block counters : Option (List ℕ)) (du szdu : ℕ) {q : Buffer}
    → 0 < du
    → ((cs : List ℕ) → counters ≡ some cs → length cs ≡ du)
    → (if queue then wrapped units (nmc12m_create du szdu buffer block counters) else none) ≡ some q
    → destroy_queue q ≡ out_of_bounds
unfolding destroy_queue nmc12m_create
units_last false buffer block counters du szdu p long made = absurd cc
units_last true false block counters du szdu p long made = absurd cc
units_last true true none counters du szdu p long made = absurd cc
units_last true true (some b) none du szdu p long made = absurd cc
units_last true true (some b) (some cs) du szdu {q} p long made =
    ap destroy_queue {x = q} {y = units _} (sym (some-injective _ _ made))
    ∙ destroy_reads_past_end _ p (length-clear_counters cs (du - 1) ∙ long cs refl)

handout_last :
    (queue buffer : Bool) (block counters : Option (List ℕ)) (du szdu : ℕ) (d : Dtype) {q : Buffer}
    → 0 < du
    → 0 < d.rc
    → ((cs : List ℕ) → counters ≡ some cs → length cs ≡ 2 * du)
    → (if queue then wrapped handout (farmn_q_create du szdu buffer block counters) else none)
      ≡ some q
    → release (destroy_queue q) (dtype_ref d) ≡ at_last farmn counters du d
unfolding destroy_queue farmn_q_create farmn_q_destroy at_last release
handout_last false buffer block counters du szdu d p h long made = absurd cc
handout_last true false block counters du szdu d p h long made = absurd cc
handout_last true true none counters du szdu d p h long made = absurd cc
handout_last true true (some b) none du szdu d p h long made = absurd cc
handout_last true true (some b) (some cs) du szdu d {q} p h long made =
    ap (λ x. release (destroy_queue x) (dtype_ref d)) {x = q} {y = handout _}
      (sym (some-injective _ _ made))
    ∙ ap (λ r. release r (dtype_ref d)) (farm_counters cs du p (long cs refl))
    ∙ by_first (get_or cs du 0 == 0)
  where
    by_first :
        (b : Bool)
        → release (if b then queue_freed else queue_kept) (dtype_ref d)
          ≡ (if b then freed (some d) else leaked (some d))
    by_first true = ap freed (destroy-ref d h)
    by_first false = ap leaked (destroy-ref d h)

destroy_created :
    (role : Role) (m : Given) (pl : Plist) (d : Dtype) (du szdu : ℕ) {q : Buffer}
    → counts_links role ≡ true
    → 0 < du
    → 0 < d.rc
    → ((cs : List ℕ) → m.counters ≡ some cs → length cs ≡ counters_of role du)
    → create_queue role m pl du szdu ≡ some q
    → release (destroy_queue q) (dtype_ref d) ≡ at_last role m.counters du d
unfolding create_queue at_last release
destroy_created pipe m pl d du szdu e p h long made = absurd cc
destroy_created pipen m pl d du szdu e p h long made = absurd cc
destroy_created replicate m pl d du szdu e p h long made =
    table_last _ (dtype_ref d) made ∙ ap freed (destroy-ref d h)
destroy_created spread m pl d du szdu e p h long made =
    table_last _ (dtype_ref d) made ∙ ap freed (destroy-ref d h)
destroy_created replicaten m pl d du szdu e p h long made =
    ap (λ r. release r (dtype_ref d))
      (units_last m.queue m.buffer m.block m.counters du szdu p long made)
    ∙ past
  where
    past : release out_of_bounds (dtype_ref d) ≡ reads_past
    past = refl
destroy_created farmn m pl d du szdu e p h long made =
    handout_last m.queue m.buffer m.block m.counters du szdu d p h long made

-- A channel of a role that counts its links, created for a process list and not used: before as many
-- links as the list has entries are destroyed the buffer is kept with the data type held, and the last
-- destruction is the one that its role and its counters say.
pub destroy_links_lem :
    (role : Role) (m : Given) (pl : Plist) (d : Dtype) (du junk : ℕ) {c : Channel} {d' : Dtype}
    → counts_links role ≡ true
    → 0 < du
    → 0 < d.rc
    → 0 < pl.count
    → pl.count < 2 ^ 32
    → ((cs : List ℕ) → m.counters ≡ some cs → length cs ≡ counters_of role du)
    → channel_create role m pl d du junk ≡ some (c, d')
    → ((n : ℕ)
        → n < pl.count
        → destroy_links n (kept c d') ≡ kept (record c { rc = pl.count - n }) (dtype_ref d))
      × (destroy_links pl.count (kept c d') ≡ at_last role m.counters du d)
destroy_links_lem role m pl d du junk {c} {d'} e z h p b long made =
    let (counted, all, held) = create_fields role m pl d du junk e made in
    (
      λ n i. ground (arith, destroy_counted n c d', counted, all, held),
      ap (λ n. destroy_links n (kept c d')) (omega arith)
          ∙ destroy_last (pl.count - 1) c d' counted (omega (arith, all)) (omega (arith, all))
          ∙ ap (release (destroy_queue c.q)) held
          ∙ destroy_created role m pl d du d.bytes e z h long
              (created_queue role m pl d du junk made),
    )
