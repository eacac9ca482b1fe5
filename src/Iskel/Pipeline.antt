-- ===== src/Iskel/Pipeline.antt =====
-- Pipelines of libdsys/iskel.c.
use libdsys.Prelude.{
  ℕ, suc, ◌+◌, ◌-◌, Bool, ◌&&◌, Option, none, some, List, [], ◌∷◌, ◌==◌, leb, if◌then◌else◌, get_or,
}
use libdsys.Prelude.Int.{ℤ, pos, eqb}
use libdsys.Plist.{Plist, plist_isvalid, plist_iselem, plist_create, values}
use libdsys.Iskel.{role_pipe, role_pipen, End, sink_end, src_end, Dmap}

-- `__iskel_pipe_role_t`
pub data Stage : Type 0 where
  first last inter : Stage

-- `iskel_pipe_t`; `none` for a pointer that is not assigned. The counts are never assigned.
pub record Pipe : Type 0 where
  pub mc : Bool
  pub role : Stage
  pub fptr : ℕ
  pub src : Option End
  pub sink : Option End

-- What malloc returns for the skeleton, for its four arrays, and for its process lists, whose member
-- `valid` is the junk of the block.
pub record Given : Type 0 where
  pub skeleton : Bool
  pub prod : Bool
  pub src : Bool
  pub cons : Bool
  pub sink : Bool
  pub prod_node : Bool
  pub prod_block : Bool
  pub cons_node : Bool
  pub cons_block : Bool
  pub junk : ℤ

-- The loop that looks for the calling process.
unfoldable pub position : ℤ → List ℤ → Option ℕ
position me [] = none
position me (x ∷ xs) =
    let rest = position me xs in
    if eqb me x then some 0 else elim rest [ none ↦ none | some i ↦ some (suc i) ]

-- `BC_ROLE_PIPE` with 7 units, or `BC_ROLE_PIPEN` with 10.
abbrev pub pipe_role : Bool → ℤ
pipe_role mc = if mc then role_pipe else role_pipen

abbrev pub pipe_units : Bool → ℕ
pipe_units mc = if mc then 7 else 10

-- The end towards the stage after stage `i`.
abbrev pub to_next : Given → Plist → (ℕ → Dmap) → Bool → ℕ → End
to_next m pl d mc i =
    sink_end (plist_create (get_or pl.entries (i + 1) (pos 0) ∷ []) m.junk m.cons_node m.cons_block)
      (d i).output (pipe_units mc) (pipe_role mc)

-- The end towards the stage before stage `i`.
abbrev pub to_previous : Given → Plist → (ℕ → Dmap) → Bool → ℕ → End
to_previous m pl d mc i =
    src_end (plist_create (get_or pl.entries (i - 1) (pos 0) ∷ []) m.junk m.prod_node m.prod_block)
      (d i).input (pipe_role mc)

-- The stage of the process at index `i`.
unfoldable pub make_stage : Given → Plist → (ℕ → ℕ) → (ℕ → Dmap) → Bool → ℕ → Option Pipe
make_stage m pl f d mc i =
    if i == 0
    then (if m.cons && m.sink
        then some (record {
          mc = mc;
          role = first;
          fptr = f i;
          src = none;
          sink = some (to_next m pl d mc i);
        })
        else none)
    else if i == pl.count - 1
    then (if m.prod && m.src
        then some (record {
          mc = mc;
          role = last;
          fptr = f i;
          src = some (to_previous m pl d mc i);
          sink = none;
        })
        else none)
    else if m.prod && m.src && m.cons && m.sink
    then some (record {
      mc = mc;
      role = inter;
      fptr = f i;
      src = some (to_previous m pl d mc i);
      sink = some (to_next m pl d mc i);
    })
    else none

-- `iskel_pipe_create`, in the process `me`.
unfoldable pub pipe_create :
    ℤ → Given → Option Plist → Option (ℕ → ℕ) → Option (ℕ → Dmap) → Bool → Option Pipe
pipe_create me m none fptr dmap mc = none
pipe_create me m (some pl) none dmap mc = none
pipe_create me m (some pl) (some f) none mc = none
pipe_create me m (some pl) (some f) (some d) mc =
    if plist_isvalid (some pl) && plist_iselem me (some pl) me && leb 2 pl.count && m.skeleton
    then elim (position me (values pl)) [ none ↦ none | some i ↦ make_stage m pl f d mc i ]
    else none
