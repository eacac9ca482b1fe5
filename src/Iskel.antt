-- ===== src/Iskel.antt =====
-- Skeletons, libdsys/iskel.c and libdsys/iskel.h: what each process of a pipeline, of an all-to-all
-- exchange or of a farm creates. An end of a branching channel is the arguments of the call of
-- `bc_sink_create` or `bc_src_create` that makes it. The arrays `fptr` and `dmap` are functions of the
-- index, and a function or a data type of the caller's is a number.
pub mod Root
pub mod Pipeline
pub mod Hub
pub mod Stages
pub mod Star
pub mod Farming
mod Tests
use libdsys.Prelude.{
  ℕ, zero, suc, ◌+◌, ◌-◌, Bool, true, false, ◌&&◌, Option, none, some, List, [], ◌∷◌, ◌==◌, leb,
  if◌then◌else◌, get_or, drop,
}
use libdsys.Prelude.Int.{ℤ, pos, ltb_ℤ, eqb}
use libdsys.Plist.{Plist, internal, plist_isvalid, plist_iselem, plist_create, values}
use libdsys.Plist.Diff.{plist_diff}

-- The roles of `bc_role_t` that skeletons use, with their values.
abbrev pub role_pipe : ℤ
role_pipe = pos 1

abbrev pub role_pipen : ℤ
role_pipen = pos 2

abbrev pub role_replicate : ℤ
role_replicate = pos 3

abbrev pub role_collect : ℤ
role_collect = pos 13

abbrev pub role_spread : ℤ
role_spread = pos 14

-- A call of `bc_sink_create` or of `bc_src_create`.
pub data End : Type 0 where
  sink_end : Option Plist → ℕ → ℕ → ℤ → End
  src_end : Option Plist → ℕ → ℤ → End

-- `iskel_pipe_dmap_t` and `iskel_farm_dmap_t`
pub record Dmap : Type 0 where
  pub input : ℕ
  pub output : ℕ
