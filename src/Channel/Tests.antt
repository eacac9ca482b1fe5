-- ===== src/Channel/Tests.antt =====
-- Instances of the theorems on the destruction of channels (libdsys/replicate.c).
use mathlib.Core.Option.{some-injective}
use libdsys.Prelude.{List, length, sym, ap, ◌-◌, ℕ, ◌<◌, ◌≡◌, ◌≢◌, refl, true, some, [], ◌∷◌, arith}
use libdsys.Prelude.Int.{pos}
use libdsys.Plist.{Plist, made_of}
use libdsys.Channel.{
  Dtype, dtype_ref, replicaten, units, Given, Channel, create_queue, channel_create, kept,
  reads_past,
}
use libdsys.Queue.Nmc12m.{nmc12m_create, clear_counters}
use libdsys.Ltab.{link_insert, ltab_create, ltab_destroy, links_destroy}
use libdsys.Ltab.Tags.{in_table}
use libdsys.Channel.Shutdown.{count_of, links_of, shutdown_lem}
use libdsys.Channel.Count.{destroy_links, at_last}

abbrev consumers : Plist
consumers = made_of (pos 1 ∷ pos 2 ∷ [])

abbrev word : Dtype
word = record { custom = true; bytes = 2; rc = 1 }

abbrev given : Given
given = record {
  channel = true;
  queue = true;
  buffer = true;
  block = some (0 ∷ 0 ∷ 0 ∷ 0 ∷ []);
  counters = some (0 ∷ 0 ∷ []);
  nodes = [];
}

abbrev shared : Channel
shared = record {
  role = replicaten;
  q = units (record {
    rc = 0 ∷ 0 ∷ [];
    mem = 0 ∷ 0 ∷ 0 ∷ 0 ∷ [];
    end = 4;
    size = 2;
    du = 2;
    vptr = record { var = 0; rcidx = 0 };
  });
  rc = 2;
}

shared_created : channel_create replicaten given consumers word 2 9 ≡ some (shared, dtype_ref word)
unfolding channel_create create_queue nmc12m_create clear_counters
shared_created = refl

two_counters : (cs : List ℕ) → given.counters ≡ some cs → length cs ≡ 2
two_counters cs e = ap length (sym (some-injective _ _ e))

shutdown_lem_example :
    let after = link_insert (ltab_create 3) (1 ∷ 2 ∷ []) (0 ∷ 0 ∷ []) 6 in
    ((other : ℕ) → other ≢ 6 → links_of other after ≡ links_of other (ltab_create 3))
    × (links_of 6 after ≡ 2)
    × (destroy_links (links_of 6 after) (kept shared (dtype_ref word)) ≡ reads_past)
    × ((n : ℕ)
        → n < links_of 6 after
        → destroy_links n (kept shared (dtype_ref word))
          ≡ kept (record shared { rc = 2 - n }) (dtype_ref word))
unfolding in_table ltab_create ltab_destroy links_destroy count_of at_last
shutdown_lem_example =
    shutdown_lem (ltab_create 3) (1 ∷ 2 ∷ []) (0 ∷ 0 ∷ []) 6 replicaten given consumers word 2 9
      refl refl refl refl refl (omega arith) (omega arith) (omega arith) (omega arith) two_counters
      shared_created
