-- ===== src/Boot.antt =====
-- The start and the end of the library: `bc_init` and `bc_final` of libdsys/base.c, with what they hold
-- of memory by libdsys/infmpi.c, libdsys/ltab.c, libdsys/sockets.c and libdsys/threads.c. What malloc and
-- the creation of a thread return is an argument. MPI, the sockets themselves and the debugging build are
-- left out, and the service threads are taken to end: the other processes shut their sockets down too.
pub mod Names
pub mod Unwind
pub mod Balance
mod Tests
use libdsys.Prelude.{
  leb, ℕ, zero, suc, ◌+◌, Bool, true, false, Option, none, some, List, [], ◌∷◌, if◌then◌else◌,
  get_or, set, replicate,
}

-- What a call comes to: it returns; it frees a block that it does not hold; or it never returns.
pub data Result (A : Type 0) : Type 0 where
  returns : A → Result A
  bad_free : Result A
  never_returns : Result A

infixl 5 ◌>>=◌
abbrev pub ◌>>=◌ : {A B : Type 0} → Result A → (A → Result B) → Result B
returns a >>= f = f a
bad_free >>= f = bad_free
never_returns >>= f = never_returns

-- The blocks that are held: the layer, `mpi`, `hnames` and the names in it, `ltab`, `snet`, `slist`, `tmgr`
-- and how many of the optional process lists.
pub record Held : Type 0 where
  pub layer : Bool
  pub mpi : Bool
  pub hnames : Bool
  pub names : List Bool
  pub ltab : Bool
  pub snet : Bool
  pub slist : Bool
  pub tmgr : Bool
  pub lists : ℕ

-- What malloc returns for one of the optional lists that the flags ask for: nothing for its structure,
-- the structure but nothing for its entries, or both.
pub data Asked : Type 0 where
  no_structure no_entries both : Asked

-- What malloc returns for each block; whether the manager thread can be created; whether the flags are not
-- 0; and what the optional lists that they ask for get.
pub record Given : Type 0 where
  pub layer : Bool
  pub mpi : Bool
  pub hnames : Bool
  pub name : ℕ → Bool
  pub ltab : Bool
  pub snet : Bool
  pub slist : Bool
  pub tmgr : Bool
  pub thread : Bool
  pub flags : Bool
  pub lists : List Asked

-- Nothing is held, for `size` processes.
abbrev pub nothing_held : ℕ → Held
nothing_held size = record {
  layer = false;
  mpi = false;
  hnames = false;
  names = replicate size false;
  ltab = false;
  snet = false;
  slist = false;
  tmgr = false;
  lists = 0;
}

-- A free of a block: it must be held.
abbrev pub free_block : Bool → Held → Result Held
free_block held after = if held then returns after else bad_free

abbrev pub free_layer : Held → Result Held
free_layer h = free_block h.layer (record h { layer = false })

-- The loop of `__bc_mpi_info_create` that allocates the names, with `n` rounds left: the name that could not
-- be given, if there is one.
unfoldable pub create_names : (ℕ → Bool) → ℕ → ℕ → List Bool → List Bool × Option ℕ
create_names given zero i names = (names, none)
create_names given (suc n) i names =
    let rest = create_names given n (suc i) (set names i true) in
    if given i then rest else (names, some i)

-- `for (j = 0; j < …; j++) bc_free(bc_base_layer->mpi->hnames[j]);`
unfoldable pub free_names : ℕ → ℕ → List Bool → Result (List Bool)
free_names zero j names = returns names
free_names (suc n) j names =
    let rest = free_names n (suc j) (set names j false) in
    if get_or names j false then rest else bad_free

-- The blocks of `__bc_mpi_info_create` after its names, freed.
abbrev pub free_mpi : Held → Result Held
free_mpi h = free_block h.hnames (record h { hnames = false }) >>= λ h'.
    free_block h'.mpi (record h' { mpi = false })

-- What becomes of the names.
unfoldable pub names_given : Held → List Bool × Option ℕ → Result (Bool × Held)
names_given h (names, none) = returns (true, record h { names = names })
names_given h (names, some i) = free_names i 0 names >>= λ left.
    free_mpi (record h { names = left }) >>= λ h'. returns (false, h')

-- `__bc_mpi_info_create`, which returns 0 for `true` and -1 for `false`.
unfoldable pub mpi_info_create : Given → ℕ → Held → Result (Bool × Held)
mpi_info_create g size h =
    if g.mpi
    then (if g.hnames
        then names_given (record h { mpi = true; hnames = true })
            (create_names g.name size 0 h.names)
        else returns (false, h))
    else returns (false, h)

-- `__bc_mpi_info_destroy`
unfoldable pub mpi_info_destroy : ℕ → Held → Result Held
mpi_info_destroy size h = free_names size 0 h.names >>= λ left. free_mpi (record h { names = left })

-- The block of `__bc_ltab_create`, and its free in `__bc_ltab_destroy`.
unfoldable pub ltab_block_create : Given → Held → Bool × Held
ltab_block_create g h = if g.ltab then (true, record h { ltab = true }) else (false, h)

unfoldable pub ltab_block_destroy : Held → Result Held
ltab_block_destroy h = free_block h.ltab (record h { ltab = false })

-- `__bc_socket_network_create`, which passes over the failures of its calls to the system.
unfoldable pub socket_network_create : Given → Held → Bool × Held
socket_network_create g h =
    if g.snet
    then (if g.slist then (true, record h { snet = true; slist = true }) else (false, h))
    else (false, h)

-- `bc_join` of the thread manager: it ends when a service thread signals it, and in a single process
-- there is none.
unfoldable pub join_manager : ℕ → Held → Result Held
join_manager size h = if leb size 1 then never_returns else returns h

-- `__bc_socket_network_destroy`
unfoldable pub socket_network_destroy : ℕ → Held → Result Held
socket_network_destroy size h = join_manager size h >>= λ a.
    free_block a.tmgr (record a { tmgr = false }) >>= λ b.
    free_block b.slist (record b { slist = false }) >>= λ c.
    free_block c.snet (record c { snet = false })

-- `__bc_sthreads_create`
unfoldable pub sthreads_create : Given → Held → Bool × Held
sthreads_create g h = if g.tmgr then (g.thread, record h { tmgr = true }) else (false, h)

-- The codes that `bc_init` returns.
pub data Code : Type 0 where
  success no_layer no_nodes no_ltab no_sockets no_threads invalid_plist : Code

-- The end of several of its error paths.
abbrev pub leave : ℕ → Code → Held → Result (Code × Held)
leave size code h = mpi_info_destroy size h >>= λ h'. free_layer h' >>= λ h''. returns (code, h'')

abbrev pub leave_ltab : ℕ → Code → Held → Result (Code × Held)
leave_ltab size code h = ltab_block_destroy h >>= λ h'. leave size code h'

-- `__bc_optional_plists_create` with `made` lists created so far, which returns 0 for `true` and
-- BC_EMEM for `false`. Its error path frees every list whose pointer is not null: where there was no
-- memory for the entries, that is one whose structure has just been freed.
unfoldable pub optional_plists_create : List Asked → ℕ → Result (Bool × ℕ)
optional_plists_create [] made = returns (true, made)
optional_plists_create (both ∷ rest) made = optional_plists_create rest (made + 1)
optional_plists_create (no_structure ∷ rest) made = returns (false, 0)
optional_plists_create (no_entries ∷ rest) made = bad_free

-- What `bc_init` makes of it.
unfoldable pub lists_created : ℕ → Held → Bool × ℕ → Result (Code × Held)
lists_created size h (true, made) = returns (success, record h { lists = made })
lists_created size h (false, made) = leave_ltab size invalid_plist (record h { lists = made })

-- `bc_init` from its part on that creates the optional lists.
unfoldable pub init_lists : Given → ℕ → Held → Result (Code × Held)
init_lists g size h =
    if g.flags
    then optional_plists_create g.lists 0 >>= lists_created size h
    else returns (success, h)

unfoldable pub init_threads : Given → ℕ → Bool × Held → Result (Code × Held)
init_threads g size (true, h) = init_lists g size h
init_threads g size (false, h) = leave_ltab size no_threads h

unfoldable pub init_sockets : Given → ℕ → Bool × Held → Result (Code × Held)
init_sockets g size (true, h) = init_threads g size (sthreads_create g h)
init_sockets g size (false, h) = leave_ltab size no_sockets h

unfoldable pub init_ltab : Given → ℕ → Bool × Held → Result (Code × Held)
init_ltab g size (true, h) = init_sockets g size (socket_network_create g h)
init_ltab g size (false, h) = leave size no_ltab h

unfoldable pub init_mpi : Given → ℕ → Bool × Held → Result (Code × Held)
init_mpi g size (true, h) = init_ltab g size (ltab_block_create g h)
init_mpi g size (false, h) = free_layer h >>= λ h'. returns (no_nodes, h')

-- `bc_init`
unfoldable pub bc_init : Given → ℕ → Result (Code × Held)
bc_init g size =
    if g.layer
    then mpi_info_create g size (record (nothing_held size) { layer = true }) >>= init_mpi g size
    else returns (no_layer, nothing_held size)

-- `bc_final`; `flags` tells whether the flags are not 0.
unfoldable pub bc_final : Bool → ℕ → Held → Result Held
bc_final flags size h = socket_network_destroy size h >>= λ a. ltab_block_destroy a >>= λ b.
    (if flags then returns (record b { lists = 0 }) else returns b) >>= λ c.
    mpi_info_destroy size c >>= free_layer
