-- ===== src/Boot/Tests.antt =====
-- Runs of the start and the end of the library, with two processes.
use libdsys.Prelude.{◌<◌, ◌≤◌, ℕ, zero, ◌≡◌, refl, Bool, true, false, [], ◌∷◌}
use libdsys.Boot.{
  returns, bad_free, never_returns, both, no_structure, no_entries, Held, init_mpi, Given,
  nothing_held, no_nodes, invalid_plist, bc_init, bc_final, create_names, mpi_info_create,
  names_given, free_names,
}
use libdsys.Boot.Names.{all_given}
use libdsys.Boot.Unwind.{ending, all_both, first_no_entries, outcome, left_over}
use libdsys.Boot.Balance.{bc_init_lem, bc_final_lem}

abbrev second_name_missing : ℕ → Bool
second_name_missing zero = true
second_name_missing i = false

abbrev every_name : ℕ → Bool
every_name i = true

abbrev all_given_but_lists : Given
all_given_but_lists = record {
  layer = true;
  mpi = true;
  hnames = true;
  name = every_name;
  ltab = true;
  snet = true;
  slist = true;
  tmgr = true;
  thread = true;
  flags = true;
  lists = both ∷ no_structure ∷ [];
}

abbrev all_given_really : Given
all_given_really = record all_given_but_lists { lists = both ∷ both ∷ [] }

name_missing :
    bc_init (record all_given_really { name = second_name_missing }) 2
    ≡ returns (no_nodes, nothing_held 2)
unfolding bc_init init_mpi mpi_info_create create_names names_given free_names
name_missing = refl

bc_init_lem_example :
    bc_init all_given_but_lists 2
    ≡ returns (invalid_plist, record (nothing_held 2) { snet = true; slist = true; tmgr = true })
unfolding outcome left_over ending all_given all_both first_no_entries
bc_init_lem_example = bc_init_lem all_given_but_lists 2

-- A list whose structure is freed twice.
structure_freed_twice :
    bc_init (record all_given_really { lists = both ∷ no_entries ∷ [] }) 2 ≡ bad_free
unfolding outcome ending all_given all_both first_no_entries
structure_freed_twice = bc_init_lem (record all_given_really { lists = both ∷ no_entries ∷ [] }) 2

abbrev everything : Held
everything = record {
  layer = true;
  mpi = true;
  hnames = true;
  names = true ∷ true ∷ [];
  ltab = true;
  snet = true;
  slist = true;
  tmgr = true;
  lists = 2;
}

bc_final_lem_example :
    (1 < 2 → bc_final true 2 everything ≡ returns (nothing_held 2))
    × (2 ≤ 1 → bc_final true 2 everything ≡ never_returns)
unfolding outcome left_over ending all_given all_both
bc_final_lem_example = bc_final_lem all_given_really 2 everything (bc_init_lem all_given_really 2)
