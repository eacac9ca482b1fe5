-- ===== src/Boot/Unwind.antt =====
-- What the parts of `bc_init` of libdsys/base.c hold when they succeed and when they fail.
use libdsys.Prelude.{
  List, [], ◌∷◌, length, ℕ, ◌+◌, ◌≡◌, refl, sym, ap, ◌∙◌, Bool, true, false, not, ◌&&◌, arith,
  if◌then◌else◌, inl, inr, Bool-cases, replicate,
}
use libdsys.Boot.{
  Result, returns, bad_free, Asked, both, no_structure, no_entries, optional_plists_create, Held,
  Given, nothing_held, names_given, mpi_info_create, mpi_info_destroy, Code, success, no_layer,
  no_nodes, no_ltab, no_sockets, no_threads, invalid_plist, free_names, create_names,
}
use libdsys.Boot.Names.{mixed_all, free_mixed, all_given, create_all, create_some}

-- Every optional list that is asked for gets its memory.
unfoldable pub all_both : List Asked → Bool
all_both [] = true
all_both (both ∷ rest) = all_both rest
all_both (no_structure ∷ rest) = false
all_both (no_entries ∷ rest) = false

-- The first one that does not get all of its memory gets a structure, but no entries.
unfoldable pub first_no_entries : List Asked → Bool
first_no_entries [] = false
first_no_entries (both ∷ rest) = first_no_entries rest
first_no_entries (no_structure ∷ rest) = false
first_no_entries (no_entries ∷ rest) = true

-- The first part that fails, and the code for it.
unfoldable pub outcome : Given → ℕ → Code
outcome g size =
    if not g.layer
    then no_layer
    else if not (g.mpi && g.hnames && all_given g.name size 0)
    then no_nodes
    else if not g.ltab
    then no_ltab
    else if not (g.snet && g.slist)
    then no_sockets
    else if not (g.tmgr && g.thread)
    then no_threads
    else if g.flags && not (all_both g.lists)
    then invalid_plist
    else success

-- Everything is held.
abbrev pub all_held : Given → ℕ → Held
all_held g size = record {
  layer = true;
  mpi = true;
  hnames = true;
  names = replicate size true;
  ltab = true;
  snet = true;
  slist = true;
  tmgr = true;
  lists = if g.flags then length g.lists else 0;
}

-- What is held when `bc_init` has returned a code.
unfoldable pub left_over : Given → ℕ → Code → Held
left_over g size no_layer = nothing_held size
left_over g size no_nodes = nothing_held size
left_over g size no_ltab = nothing_held size
left_over g size no_sockets = nothing_held size
left_over g size no_threads = record (nothing_held size) {
  snet = true;
  slist = true;
  tmgr = g.tmgr;
}
left_over g size invalid_plist = record (nothing_held size) {
  snet = true;
  slist = true;
  tmgr = true;
}
left_over g size success = all_held g size

-- How `bc_init` ends, by the first part that fails.
unfoldable pub ending : Given → ℕ → Code → Result (Code × Held)
ending g size no_layer = returns (no_layer, left_over g size no_layer)
ending g size no_nodes = returns (no_nodes, left_over g size no_nodes)
ending g size no_ltab = returns (no_ltab, left_over g size no_ltab)
ending g size no_sockets = returns (no_sockets, left_over g size no_sockets)
ending g size no_threads = returns (no_threads, left_over g size no_threads)
ending g size invalid_plist =
    if first_no_entries g.lists
    then bad_free
    else returns (invalid_plist, left_over g size invalid_plist)
ending g size success = returns (success, left_over g size success)

optional_plists_create_lem :
    (lists : List Asked) (made : ℕ)
    → optional_plists_create lists made ≡ (
        if all_both lists
        then returns (true, made + length lists)
        else if first_no_entries lists
        then bad_free
        else returns (false, 0))
unfolding optional_plists_create all_both first_no_entries
optional_plists_create_lem [] made = ap (λ (k : ℕ). returns (true, k)) (omega arith)
optional_plists_create_lem (both ∷ rest) made =
    optional_plists_create_lem rest (made + 1)
    ∙ ap
        (λ (k : ℕ).
          if all_both rest
          then returns (true, k)
          else if first_no_entries rest
          then bad_free
          else returns (false, 0))
        (omega arith)
optional_plists_create_lem (no_structure ∷ rest) made = refl
optional_plists_create_lem (no_entries ∷ rest) made = refl

pub all_created :
    (lists : List Asked)
    → all_both lists ≡ true
    → optional_plists_create lists 0 ≡ returns (true, length lists)
all_created lists e =
    optional_plists_create_lem lists 0 ∙ rw (e) (ap (λ (k : ℕ). returns (true, k)) (omega arith))

pub freed_twice :
    (lists : List Asked)
    → all_both lists ≡ false
    → first_no_entries lists ≡ true
    → optional_plists_create lists 0 ≡ bad_free
freed_twice lists e d = optional_plists_create_lem lists 0 ∙ rw (e, d) refl

pub refused :
    (lists : List Asked)
    → all_both lists ≡ false
    → first_no_entries lists ≡ false
    → optional_plists_create lists 0 ≡ returns (false, 0)
refused lists e d = optional_plists_create_lem lists 0 ∙ rw (e, d) refl

-- Nothing is held but the blocks of the connections, the manager's buffer and the names.
abbrev pub unwound : ℕ → Bool → Bool → Held
unwound size nets tmgr = record (nothing_held size) { snet = nets; slist = nets; tmgr = tmgr }

-- What `mpi_info_create` leaves behind it.
abbrev pub with_mpi : ℕ → Held
with_mpi size = record (nothing_held size) {
  layer = true;
  mpi = true;
  hnames = true;
  names = replicate size true;
}

pub free_all : (size : ℕ) → free_names size 0 (replicate size true) ≡ returns (replicate size false)
free_all size =
    ap (free_names size 0) (sym (mixed_all size))
    ∙ free_mixed size 0
    ∙ ap (λ (k : ℕ). returns (replicate k false)) (omega arith)

abbrev pub with_blocks : ℕ → Held
with_blocks size = record (nothing_held size) { layer = true; mpi = true; hnames = true }

pub names_created :
    (g : Given) (size : ℕ)
    → all_given g.name size 0 ≡ true
    → names_given (with_blocks size) (create_names g.name size 0 (replicate size false))
      ≡ returns (true, with_mpi size)
unfolding names_given
names_created g size all = rw (create_all g.name size 0 all) (
    ap (λ (names : List Bool). returns (true, record (with_blocks size) { names = names }))
      (mixed_all (0 + size) ∙ ap (λ (k : ℕ). replicate k true) (omega arith)))

pub names_failed :
    (g : Given) (size : ℕ)
    → all_given g.name size 0 ≡ false
    → names_given (with_blocks size) (create_names g.name size 0 (replicate size false))
      ≡ returns (false, record (nothing_held size) { layer = true })
unfolding names_given
names_failed g size all =
    let (k, m, e, total) = create_some g.name size 0 all in
    rw (e, free_mixed k m)
      (ap (λ (l : ℕ). returns (false, record (nothing_held l) { layer = true })) (omega arith))

pub mpi_created :
    (g : Given) (size : ℕ)
    → (g.mpi && g.hnames && all_given g.name size 0) ≡ true
    → mpi_info_create g size (record (nothing_held size) { layer = true })
      ≡ returns (true, with_mpi size)
unfolding mpi_info_create
mpi_created g size given = elim (Bool-cases g.mpi) [
  | inl mpi ↦ elim (Bool-cases g.hnames) [
    | inl hnames ↦ rw (mpi, hnames) (names_created g size (rw (sym given, mpi, hnames) refl))
    | inr hnames ↦ absurd cc
  ]
  | inr mpi ↦ absurd cc
]

pub mpi_failed :
    (g : Given) (size : ℕ)
    → (g.mpi && g.hnames && all_given g.name size 0) ≡ false
    → mpi_info_create g size (record (nothing_held size) { layer = true })
      ≡ returns (false, record (nothing_held size) { layer = true })
unfolding mpi_info_create
mpi_failed g size given = elim (Bool-cases g.mpi) [
  | inl mpi ↦ elim (Bool-cases g.hnames) [
    | inl hnames ↦ rw (mpi, hnames) (names_failed g size (rw (sym given, mpi, hnames) refl))
    | inr hnames ↦ rw (mpi, hnames) refl
  ]
  | inr mpi ↦ rw (mpi_info_create, mpi) refl
]

pub unwind_lem :
    (size : ℕ) (nets tmgr : Bool)
    → mpi_info_destroy size (record (with_mpi size) { snet = nets; slist = nets; tmgr = tmgr })
      ≡ returns (record (unwound size nets tmgr) { layer = true })
unfolding mpi_info_destroy
unwind_lem size nets tmgr = rw (free_all size) refl
