-- ===== src/Ltab/Tests.antt =====
-- Instances of the theorems on the table of links (libdsys/ltab.c).
use libdsys.Prelude.{ℕ, ◌+◌, arith, get_or, take, ◌≡◌, refl, some, List, [], ◌∷◌}
use libdsys.Ltab.{Hook, ltab_create, src_tags}
use libdsys.Ltab.Taking.{times}
use libdsys.Ltab.Sinks.{open_sinks, total_times, owner, all_in_table}
use libdsys.Ltab.Meet.{open_srcs, times_in, lists_in_table, channels_meet}
use libdsys.Ltab.Tags.{channel_at, in_table}

abbrev hooks : List Hook
hooks =
    record { links = []; src_tag = 0; sink_tag = 0 }
    ∷ record { links = []; src_tag = 0; sink_tag = 0 }
    ∷ record { links = []; src_tag = 0; sink_tag = 0 }
    ∷ []

hooks_created : ltab_create 3 ≡ hooks
unfolding ltab_create
hooks_created = refl

-- Process 0 creates sinks for 1 and 2 and then for 2, and process 2 sources for 0 and then for 1 and 0.
abbrev sinks : List (List ℕ × ℕ)
sinks = (1 ∷ 2 ∷ [], 7) ∷ (2 ∷ [], 8) ∷ []

abbrev srcs : List (List ℕ)
srcs = (0 ∷ []) ∷ []

abbrev ranks : List ℕ
ranks = 1 ∷ 0 ∷ []

channels_meet_example :
    (table_a table_b after : List Hook) × (tags : List ℕ) × (open_sinks (ltab_create 3) sinks
      ≡ some table_a)
    × (open_srcs (ltab_create 3) srcs ≡ some table_b)
    × (src_tags table_b ranks ≡ some (tags, after))
    × (channel_at table_a 2 (get_or tags 1 0)
        ≡ owner 2 sinks (times_in 0 srcs + times 0 (take 1 ranks)))
unfolding all_in_table lists_in_table in_table total_times times_in times
channels_meet_example =
    channels_meet 3 0 2 sinks srcs ranks 1 refl refl refl (omega arith) (omega arith) (omega arith)
      refl

second_sink : owner 2 sinks (times_in 0 srcs + times 0 (take 1 ranks)) ≡ some 8
unfolding owner times_in times
second_sink = refl
