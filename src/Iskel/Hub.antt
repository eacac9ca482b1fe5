-- ===== src/Iskel/Hub.antt =====
-- The all-to-all exchange and the farm of libdsys/iskel.c.
use libdsys.Prelude.{
  ℕ, ◌-◌, Bool, true, false, ◌&&◌, Option, none, some, List, [], ◌∷◌, leb, if◌then◌else◌, get_or,
  drop,
}
use libdsys.Prelude.Int.{ℤ, pos, ltb_ℤ, eqb}
use libdsys.Plist.{Plist, internal, plist_isvalid, plist_iselem, plist_create, values}
use libdsys.Plist.Diff.{plist_diff}
use libdsys.Iskel.{
  role_pipe, role_pipen, role_replicate, role_collect, role_spread, End, sink_end, src_end, Dmap,
}

-- The global `bc_plist_self`: a null pointer, a list, or a pointer to memory that has been freed.
pub data Self : Type 0 where
  null : Self
  own : Plist → Self
  freed : Self

-- The lines that create `bc_plist_self` where it is null, with what malloc returned for the list and for
-- its entry; `true` where the function goes on. The flag BC_PLIST_SELF is raised exactly where the list is
-- made. `rc` is not assigned: it is the junk of the block.
unfoldable pub make_self : ℤ → Self → Bool → Bool → ℤ → Bool × Self
make_self me null false block junk = (false, null)
make_self me null true false junk = (false, freed)
make_self me null true true junk =
    (true, own (record { type = internal; count = 1; valid = pos 0; entries = me ∷ []; rc = junk }))
make_self me (own pl) node block junk = (true, own pl)
make_self me freed node block junk = (true, freed)

-- What malloc returns in the creation of an exchange or of a farm: for the skeleton, the process's own
-- list and the list of the others.
pub record Blocks : Type 0 where
  pub skeleton : Bool
  pub self_node : Bool
  pub self_block : Bool
  pub node : Bool
  pub block : Bool
  pub junk : ℤ

-- What a creation comes to: a null pointer, a read of freed memory, or the skeleton.
pub data Made {ℓ} (A : Type ℓ) : Type ℓ where
  nothing : Made A
  reads_freed : Made A
  made : A → Made A

-- "Find the root (the smallest rank)."
unfoldable pub smallest : ℤ → List ℤ → ℤ
smallest root [] = root
smallest root (x ∷ xs) = smallest (if ltb_ℤ x root then x else root) xs

-- `iskel_all2all_t`, whose member `plist` is the list of both ends.
pub record Exchange : Type 0 where
  pub num : ℕ
  pub root : ℤ
  pub src : End
  pub sink : End

-- `bc_plist_diff(pl, bc_plist_self)`
abbrev pub others : Blocks → Plist → Plist → Option Plist
others m pl self = plist_diff (some pl) (some self) m.node m.block

-- `bc_plist_create(1, rank)`
abbrev pub only : Blocks → ℤ → Option Plist
only m rank = plist_create (rank ∷ []) m.junk m.node m.block

-- The branch of the process that is connected to all others, with the state of `bc_plist_self`.
unfoldable pub at_centre {ℓ} :
    {A : Type ℓ} → ℤ → Self → Blocks → Plist → (Option Plist → A) → Made A × Self
at_centre me self m pl finish =
    let (goes_on, next) = make_self me self m.self_node m.self_block m.junk in
    if goes_on
    then elim next [
      | null ↦ (nothing, null)
      | own mine ↦ (made (finish (others m pl mine)), own mine)
      | freed ↦ (reads_freed, freed)
    ]
    else (nothing, next)

-- `iskel_all2all_create`
unfoldable pub all2all_create : ℤ → Self → Blocks → Option Plist → ℕ → Made Exchange × Self
all2all_create me self m none dtype = (nothing, self)
all2all_create me self m (some pl) dtype =
    let root = smallest (get_or (values pl) 0 (pos 0)) (drop 1 (values pl)) in
    if plist_isvalid (some pl) && plist_iselem me (some pl) me && m.skeleton
    then (if eqb me root
        then at_centre me self m pl (λ list. record {
          num = pl.count;
          root = root;
          src = src_end list dtype role_collect;
          sink = sink_end list dtype pl.count role_replicate;
        })
        else (
          made (record {
            num = pl.count;
            root = root;
            src = src_end (only m root) dtype role_pipe;
            sink = sink_end (only m root) dtype 1 role_pipe;
          }),
          self,
        ))
    else (nothing, self)

-- `__iskel_farm_role_t`
pub data Part : Type 0 where
  farmer worker : Part

-- `iskel_farm_t`; `mc` is never assigned.
pub record Farm : Type 0 where
  pub num : ℕ
  pub role : Part
  pub fptr : ℕ
  pub src : End
  pub sink : End

-- `iskel_farm_create`
unfoldable pub farm_create :
    ℤ
    → Self
    → Blocks
    → Option Plist
    → Option ℕ
    → Option ℕ
    → Option (ℕ → Dmap)
    → Bool
    → Made Farm × Self
farm_create me self m none farmer_fptr worker_fptr dmap mc = (nothing, self)
farm_create me self m (some pl) none worker_fptr dmap mc = (nothing, self)
farm_create me self m (some pl) (some f) none dmap mc = (nothing, self)
farm_create me self m (some pl) (some f) (some g) none mc = (nothing, self)
farm_create me self m (some pl) (some f) (some g) (some d) mc =
    let head = get_or (values pl) 0 (pos 0) in
    if plist_isvalid (some pl) && plist_iselem me (some pl) me && leb 2 pl.count && m.skeleton
    then (if eqb me head
        then at_centre me self m pl (λ list. record {
          num = pl.count - 1;
          role = farmer;
          fptr = f;
          src = src_end list (d 0).input role_collect;
          sink = sink_end list (d 0).output (pl.count - 1) role_spread;
        })
        else (
          made (record {
            num = pl.count - 1;
            role = worker;
            fptr = g;
            src = src_end (only m head) (d 1).input role_pipe;
            sink =
                sink_end (only m head) (d 1).output (if mc then 1 else 2)
                  (if mc then role_pipe else role_pipen);
          }),
          self,
        ))
    else (nothing, self)
