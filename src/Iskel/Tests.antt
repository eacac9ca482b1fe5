-- ===== src/Iskel/Tests.antt =====
-- Skeletons of libdsys/iskel.c over the ranks 4, 2 and 7, and instances of the theorems.
use libdsys.Prelude.{
  ℕ, ◌+◌, ◌-◌, ◌<◌, ◌≡◌, ◌≢◌, refl, true, false, not, ◌&&◌, none, some, [], ◌∷◌, arith,
  if◌then◌else◌, get_or,
}
use libdsys.Prelude.Int.{ℤ, pos, eqb}
use libdsys.Plist.{Plist, custom, plist_isvalid, values}
use libdsys.Plist.Members.{elem, distinct}
use libdsys.Iskel.{
  sink_end, src_end, Dmap, role_pipe, role_pipen, role_replicate, role_collect, role_spread,
}
use libdsys.Iskel.Pipeline.{Pipe, pipe_create}
use libdsys.Iskel.Hub.{
  Self, null, freed, nothing, reads_freed, made, Exchange, all2all_create, Farm, farmer, worker,
  farm_create,
}
use libdsys.Iskel.Stages.{all_given, just, stage_of, pipe_lem}
use libdsys.Iskel.Star.{OwnList, all_blocks, all2all_lem}
use libdsys.Iskel.Root.{IsSmallest}
use libdsys.Iskel.Farming.{farm_lem}

abbrev team : Plist
team = record {
  type = custom;
  count = 3;
  valid = pos 0;
  entries = pos 4 ∷ pos 2 ∷ pos 7 ∷ [];
  rc = pos 1;
}

abbrev functions : ℕ → ℕ
functions i = i + 10

abbrev types : ℕ → Dmap
types i = record { input = i; output = i + 1 }

abbrev rank_at : ℕ → ℤ
rank_at k = get_or team.entries k (pos 0)

team_valid : plist_isvalid (some team) ≡ true
unfolding plist_isvalid
team_valid = refl

team-distinct : distinct (values team) ≡ true
unfolding distinct elem
team-distinct = refl

null-OwnList : (me : ℤ) → OwnList me null
unfolding OwnList
null-OwnList me = tt

pipe_lem_example :
    ((k : ℕ)
      → k < 3
      → (p : Pipe) × (pipe_create
            (rank_at k)
            (all_given (pos 9))
            (some team)
            (some functions)
            (some types)
            true
          ≡ some p)
        × (p.role ≡ stage_of 3 k)
        × (p.fptr ≡ functions k)
        × (k ≡ 0 → p.src ≡ none)
        × (k ≡ 3 - 1 → p.sink ≡ none))
    × ((k : ℕ)
        → k + 1 < 3
        → (p q : Pipe) × (pipe_create
              (rank_at k)
              (all_given (pos 9))
              (some team)
              (some functions)
              (some types)
              true
            ≡ some p)
          × (pipe_create
                (rank_at (k + 1))
                (all_given (pos 9))
                (some team)
                (some functions)
                (some types)
                true
              ≡ some q)
          × (p.sink
              ≡ some (
                  sink_end
                    (just (pos 9) (rank_at (k + 1)))
                    (types k).output
                    (if true then 7 else 10)
                    (if true then role_pipe else role_pipen)))
          × (q.src
              ≡ some (
                  src_end
                    (just (pos 9) (rank_at k))
                    (types (k + 1)).input
                    (if true then role_pipe else role_pipen))))
    × ((me : ℤ)
        → elem me (values team) ≡ false
        → pipe_create me (all_given (pos 9)) (some team) (some functions) (some types) true ≡ none)
pipe_lem_example =
    pipe_lem team functions types true (pos 9) team_valid (omega arith) (omega arith) team-distinct

all2all_lem_example :
    (root : ℤ) × IsSmallest root (values team)
    × (elem (pos 2) (values team) ≡ false
        → all2all_create (pos 2) null (all_blocks (pos 9)) (some team) 5 ≡ (nothing, null))
    × (pos 2 ≡ root
        → (x : Exchange) × (list : Plist) × (next : Self) × (all2all_create
              (pos 2)
              null
              (all_blocks (pos 9))
              (some team)
              5
            ≡ (made x, next))
          × OwnList (pos 2) next
          × (x.src ≡ src_end (some list) 5 role_collect)
          × (x.sink ≡ sink_end (some list) 5 3 role_replicate)
          × ((v : ℤ) → elem v (values list) ≡ (elem v (values team) && not (eqb v root))))
    × (elem (pos 2) (values team) ≡ true
        → pos 2 ≢ root
        → (x : Exchange) × (all2all_create (pos 2) null (all_blocks (pos 9)) (some team) 5
            ≡ (made x, null))
          × (x.src ≡ src_end (just (pos 9) root) 5 role_pipe)
          × (x.sink ≡ sink_end (just (pos 9) root) 5 1 role_pipe))
    × (pos 2 ≡ root
        → (all2all_create
              (pos 2)
              null
              (record (all_blocks (pos 9)) { self_block = false })
              (some team)
              5
            ≡ (nothing, freed))
          × (all2all_create (pos 2) freed (all_blocks (pos 9)) (some team) 5
              ≡ (reads_freed, freed)))
all2all_lem_example =
    all2all_lem (pos 2) null (pos 9) team 5 (null-OwnList (pos 2)) team_valid (omega arith)
      (omega arith) team-distinct

farm_lem_example :
    (rank_at 0 ≡ get_or (values team) 0 (pos 0)
      → (x : Farm) × (list : Plist) × (next : Self) × (farm_create
            (rank_at 0)
            null
            (all_blocks (pos 9))
            (some team)
            (some 1)
            (some 2)
            (some types)
            false
          ≡ (made x, next))
        × OwnList (rank_at 0) next
        × (x.role ≡ farmer)
        × (x.fptr ≡ 1)
        × (x.src ≡ src_end (some list) (types 0).input role_collect)
        × (x.sink ≡ sink_end (some list) (types 0).output (3 - 1) role_spread)
        × ((v : ℤ) → elem v (values list) ≡ (elem v (values team) && not (eqb v (rank_at 0)))))
    × (elem (rank_at 0) (values team) ≡ true
        → rank_at 0 ≢ get_or (values team) 0 (pos 0)
        → (x : Farm) × (farm_create
              (rank_at 0)
              null
              (all_blocks (pos 9))
              (some team)
              (some 1)
              (some 2)
              (some types)
              false
            ≡ (made x, null))
          × (x.role ≡ worker)
          × (x.fptr ≡ 2)
          × (x.src
              ≡ src_end (just (pos 9) (get_or (values team) 0 (pos 0))) (types 1).input role_pipe)
          × (x.sink
              ≡ sink_end
                  (just (pos 9) (get_or (values team) 0 (pos 0)))
                  (types 1).output
                  (if false then 1 else 2)
                  (if false then role_pipe else role_pipen)))
    × (elem (rank_at 0) (values team) ≡ false
        → farm_create
            (rank_at 0)
            null
            (all_blocks (pos 9))
            (some team)
            (some 1)
            (some 2)
            (some types)
            false
          ≡ (nothing, null))
farm_lem_example =
    farm_lem (rank_at 0) null (pos 9) team 1 2 types false (null-OwnList (rank_at 0)) team_valid
      (omega arith) (omega arith) team-distinct
