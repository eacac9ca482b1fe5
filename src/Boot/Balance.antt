-- ===== src/Boot/Balance.antt =====
-- What `bc_init` of libdsys/base.c holds after each of its failures, and what `bc_final` frees.
use libdsys.Prelude.{
  arith, Bool, leb, ◌<◌, ◌≤◌, ℕ, ◌≡◌, refl, sym, ap, ◌∙◌, true, false, not, ◌&&◌, if◌then◌else◌,
  inl, inr, Bool-cases,
}
use libdsys.Boot.{
  returns, never_returns, join_manager, lists_created, no_layer, no_nodes, Held, Given,
  nothing_held, mpi_info_destroy, ltab_block_create, ltab_block_destroy, socket_network_create,
  socket_network_destroy, sthreads_create, Code, success, no_ltab, no_sockets, no_threads,
  invalid_plist, init_lists, init_threads, init_sockets, init_ltab, init_mpi, bc_init, bc_final,
}
use libdsys.Boot.Names.{all_given}
use libdsys.Boot.Unwind.{
  ending, all_both, first_no_entries, all_created, freed_twice, refused, outcome, all_held,
  left_over, with_mpi, free_all, mpi_created, mpi_failed, unwind_lem,
}

-- The stages after the MPI.
lists_lem :
    (g : Given) (size : ℕ)
    → init_lists g size (record (all_held g size) { lists = 0 }) ≡ (
        let code = if g.flags && not (all_both g.lists) then invalid_plist else success in
        ending g size code)
unfolding init_lists lists_created ltab_block_destroy left_over ending
lists_lem g size = elim (Bool-cases g.flags) [
  | inl flags ↦ elim (Bool-cases (all_both g.lists)) [
    | inl lists ↦ rw (flags, lists, all_created g.lists lists) refl
    | inr missing ↦ elim (Bool-cases (first_no_entries g.lists)) [
      | inl twice ↦ rw (flags, missing, twice, freed_twice g.lists missing twice) refl
      | inr once ↦
          rw (flags, missing, once, refused g.lists missing once, unwind_lem size true true) refl
    ]
  ]
  | inr flags ↦ rw (flags) refl
]

threads_lem :
    (g : Given) (size : ℕ)
    → init_threads g size
        (sthreads_create g (record (with_mpi size) { ltab = true; snet = true; slist = true }))
      ≡ (let code =
            if not (g.tmgr && g.thread)
            then no_threads
            else if g.flags && not (all_both g.lists)
            then invalid_plist
            else success in
          ending g size code)
unfolding init_threads sthreads_create ltab_block_destroy left_over ending
threads_lem g size = elim (Bool-cases g.tmgr) [
  | inl tmgr ↦ elim (Bool-cases g.thread) [
    | inl thread ↦ simp (tmgr, thread, lists_lem g size)
    | inr thread ↦ rw (tmgr, thread, unwind_lem size true true) refl
  ]
  | inr tmgr ↦ rw (tmgr, unwind_lem size true false) refl
]

after_mpi :
    (g : Given) (size : ℕ)
    → init_ltab g size (ltab_block_create g (with_mpi size)) ≡ (
        let code =
          if not g.ltab
          then no_ltab
          else if not (g.snet && g.slist)
          then no_sockets
          else if not (g.tmgr && g.thread)
          then no_threads
          else if g.flags && not (all_both g.lists)
          then invalid_plist
          else success in
        ending g size code)
unfolding init_ltab ltab_block_create init_sockets socket_network_create ltab_block_destroy
    left_over ending
after_mpi g size = elim (Bool-cases g.ltab) [
  | inl ltab ↦ elim (Bool-cases g.snet) [
    | inl snet ↦ elim (Bool-cases g.slist) [
      | inl slist ↦ simp (ltab, snet, slist, threads_lem g size)
      | inr slist ↦ rw (ltab, snet, slist, unwind_lem size false false) refl
    ]
    | inr snet ↦ rw (ltab, snet, unwind_lem size false false) refl
  ]
  | inr ltab ↦ rw (ltab, unwind_lem size false false) refl
]

-- `bc_init` for any answers of malloc and any number of processes: its end is that of the first part
-- that fails. When that is the layer, the information on the processes, the link table or the
-- connections, it returns their code and nothing is held any more. When it is the server threads, the
-- blocks of the connections are still held, and the manager's buffer if it was given. When it is one of
-- the optional lists, all of these three are still held if there was no memory for its structure, and the
-- structure is freed twice if there was none for its entries. On success everything is held.
pub bc_init_lem : (g : Given) (size : ℕ) → bc_init g size ≡ ending g size (outcome g size)
unfolding bc_init outcome left_over ending init_mpi
bc_init_lem g size = elim (Bool-cases g.layer) [
  | inl layer ↦ elim (Bool-cases (g.mpi && g.hnames && all_given g.name size 0)) [
    | inl names ↦ simp (layer, mpi_created g size names, names, after_mpi g size)
    | inr names ↦ simp (layer, mpi_failed g size names, names)
  ]
  | inr layer ↦ rw (layer) refl
]

freed :
    (size : ℕ)
    → mpi_info_destroy size (with_mpi size) ≡ returns (record (nothing_held size) { layer = true })
unfolding mpi_info_destroy
freed size = rw (free_all size) refl

all_freed :
    (g : Given) (size : ℕ)
    → leb size 1 ≡ false
    → bc_final g.flags size (all_held g size) ≡ returns (nothing_held size)
unfolding bc_final socket_network_destroy join_manager ltab_block_destroy
all_freed g size several = elim (Bool-cases g.flags) [
  | inl flags ↦ simp (several, flags, freed size)
  | inr flags ↦ simp (several, flags, freed size)
]

alone :
    (flags : Bool) (size : ℕ) (h : Held) → leb size 1 ≡ true → bc_final flags size h ≡ never_returns
unfolding bc_final socket_network_destroy join_manager
alone flags size h one = simp (one)

-- A run that has succeeded ends with everything held.
held_of :
    (g : Given) (size : ℕ) (h : Held) (code : Code)
    → ending g size code ≡ returns (success, h)
    → all_held g size ≡ h
unfolding left_over ending
held_of g size h no_layer e = absurd cc
held_of g size h no_nodes e = absurd cc
held_of g size h no_ltab e = absurd cc
held_of g size h no_sockets e = absurd cc
held_of g size h no_threads e = absurd cc
held_of g size h invalid_plist e = absurd (ground (arith, e))
held_of g size h success e = cc

-- When `bc_init` has succeeded, `bc_final` with the same flags frees every block that it holds, each of
-- them once, if there are two processes or more; in a single process it never returns.
pub bc_final_lem :
    (g : Given) (size : ℕ) (h : Held)
    → bc_init g size ≡ returns (success, h)
    → (1 < size → bc_final g.flags size h ≡ returns (nothing_held size))
      × (size ≤ 1 → bc_final g.flags size h ≡ never_returns)
bc_final_lem g size h started =
    let all = held_of g size h (outcome g size) (sym (bc_init_lem g size) ∙ started) in
    (
      λ b. ap (bc_final g.flags size) (sym all) ∙ all_freed g size (ground arith),
      λ b. alone g.flags size h (ground arith),
    )
