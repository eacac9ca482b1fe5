-- ===== src/Branch/Tests.antt =====
-- Instances of the theorems on branching channels (libdsys/branch.c).
use libdsys.Prelude.{Option, ℕ, ◌≡◌, refl, true, some, List, [], ◌∷◌, length, map, if◌then◌else◌}
use libdsys.Prelude.Int.{ℤ, pos}
use libdsys.Plist.{Plist, made_of, values, plist_ref}
use libdsys.Ltab.{Hook}
use libdsys.Ltab.Tags.{channel_at, pair_in, in_table}
use libdsys.Channel.{
  Dtype, dtype_ref, replicaten, units, Given, to_tag, Channel, create_queue, channel_create,
}
use libdsys.Queue.Nmc12m.{nmc12m_create, clear_counters}
use libdsys.Branch.{Chan, producer, iface, is_role, created, sink_create}
use libdsys.Branch.Ends.{sink_create_lem}

abbrev consumers : Plist
consumers = made_of (pos 1 ∷ pos 2 ∷ [])

abbrev word : Dtype
word = record { custom = true; bytes = 2; rc = 1 }

abbrev given : Given
given = record {
  channel = true;
  queue = true;
  buffer = true;
  block = some (0 ∷ 0 ∷ 0 ∷ 0 ∷ []);
  counters = some (0 ∷ 0 ∷ []);
  nodes = [];
}

abbrev shared : Channel
shared = record {
  role = replicaten;
  q = units (record {
    rc = 0 ∷ 0 ∷ [];
    mem = 0 ∷ 0 ∷ 0 ∷ 0 ∷ [];
    end = 4;
    size = 2;
    du = 2;
    vptr = record { var = 0; rcidx = 0 };
  });
  rc = 2;
}

shared_created : channel_create replicaten given consumers word 2 9 ≡ some (shared, dtype_ref word)
unfolding channel_create create_queue nmc12m_create clear_counters
shared_created = refl

abbrev hook : Hook
hook = record { links = []; src_tag = 0; sink_tag = 0 }

abbrev hooks : List Hook
hooks = hook ∷ hook ∷ hook ∷ []

sink_create_lem_example :
    (bc : Chan) × (hooks' : List Hook) × (sink_create hooks 6 true true given 9
        (some consumers)
        (some word)
        2
        (pos 4)
      ≡ created bc (some shared) (plist_ref consumers) (dtype_ref (dtype_ref word)) hooks')
    × (length bc.tags ≡ length (map to_tag (values consumers)))
    × ((p t : ℕ)
        → channel_at hooks' p t ≡ (
            if pair_in p t (map to_tag (values consumers)) bc.tags
            then some 6
            else channel_at hooks p t))
unfolding is_role iface in_table
sink_create_lem_example =
    sink_create_lem hooks 6 given 9 consumers word 2 (pos 4) replicaten shared (dtype_ref word) refl
      refl shared_created refl

abbrev sink : Chan
sink = record { mode = producer; ranks = 1 ∷ []; tags = 0 ∷ []; channel = 3 }

abbrev two : ℤ
two = pos 2

abbrev given_data : Option (List ℕ)
given_data = some (7 ∷ [])
