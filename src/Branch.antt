-- ===== src/Branch.antt =====
-- Branching channels, libdsys/branch.c and libdsys/branch.h: creation of the two ends, destruction, and
-- the guards of the calls that move data.
pub mod Ends
pub mod Guards
mod Tests
use libdsys.Prelude.{
  ℕ, zero, suc, Bool, true, false, Option, none, some, List, [], ◌∷◌, map, ltb, if◌then◌else◌,
  get_or,
}
use libdsys.Prelude.Int.{ℤ, pos, negsuc}
use libdsys.Plist.{Plist, values, plist_ref, plist_destroy}
use libdsys.Ltab.{Hook, sink_tags, src_tags, link_insert}
use libdsys.Channel.{
  Dtype, dtype_ref, dtype_destroy, Role, pipe, pipen, replicate, replicaten, farmn, spread, Given,
  to_tag, Channel, channel_create,
}

-- The codes of libdsys/error.h: BC_EIBC, BC_EIFUNC, BC_EIROLE, BC_EICONS, BC_EIPROD, BC_EIDTYPE, BC_EMEM,
-- BC_EIPTR, BC_EIVAL.
pub data Error : Type 0 where
  no_channel wrong_function no_role no_consumers no_producers no_dtype no_memory no_pointer
        wrong_value :
      Error

-- `__BC_PRODUCER` and `__BC_CONSUMER`
pub data Mode : Type 0 where
  producer consumer : Mode

-- `bc_chan_t`, with a number for the channel.
pub record Chan : Type 0 where
  pub mode : Mode
  pub ranks : List ℕ
  pub tags : List ℕ
  pub channel : ℕ

-- The rows of `bc_iface` of libdsys/iface.c that have an entry `c`, by the value of `bc_role_t`.
unfoldable pub iface : List (Option Role)
iface =
    none
    ∷ some pipe
    ∷ some pipen
    ∷ some replicate
    ∷ some replicaten
    ∷ none
    ∷ none
    ∷ none
    ∷ none
    ∷ none
    ∷ none
    ∷ some farmn
    ∷ some farmn
    ∷ none
    ∷ some spread
    ∷ none
    ∷ []

-- `role < 0 || role >= BC_ROLE_NUM`
unfoldable pub is_role : ℤ → Bool
is_role (pos n) = ltb n 16
is_role (negsuc n) = false

abbrev pub role_at : ℤ → Option Role
role_at (pos n) = get_or iface n none
role_at (negsuc n) = none

-- What the creation of an end comes to. `undefined`: a call of a null pointer or an access outside the
-- table of links. A producer's end has a channel.
pub data Created : Type 0 where
  failed : Error → Created
  undefined : Created
  created : Chan → Option Channel → Plist → Dtype → List Hook → Created

-- The end of `bc_sink_create`: reference counts, tags and links. `number` names the new channel.
unfoldable pub finish_sink : List Hook → ℕ → Plist → Channel → Dtype → Created
finish_sink hooks number cons c d =
    let ranks = map to_tag (values cons) in
    elim (sink_tags hooks ranks) [
      | none ↦ undefined
      | some taken ↦
          created (record { mode = producer; ranks = ranks; tags = taken.0; channel = number })
            (some c) (plist_ref cons) (dtype_ref d) (link_insert taken.1 ranks taken.0 number)
    ]

-- `bc_sink_create`. `node` and `block` are what its own two calls of malloc return, `m` what those of
-- the role return.
unfoldable pub sink_create :
    List Hook → ℕ → Bool → Bool → Given → ℕ → Option Plist → Option Dtype → ℕ → ℤ → Created
sink_create hooks number node block m junk none dtype bunits role = failed no_consumers
sink_create hooks number node block m junk (some cons) none bunits role = failed no_dtype
sink_create hooks number node block m junk (some cons) (some d) bunits role =
    if is_role role
    then (if node
        then (if block
            then elim (role_at role) [
              | none ↦ undefined
              | some r ↦ elim (channel_create r m cons d bunits junk) [
                | none ↦ failed no_memory
                | some made ↦ finish_sink hooks number cons made.0 made.1
              ]
            ]
            else failed no_memory)
        else failed no_memory)
    else failed no_role

-- `bc_src_create`; the last of its three calls of malloc is for a channel without a queue.
unfoldable pub src_create :
    List Hook → ℕ → Bool → Bool → Bool → Option Plist → Option Dtype → ℤ → Created
src_create hooks number node block shell none dtype role = failed no_producers
src_create hooks number node block shell (some prod) none role = failed no_dtype
src_create hooks number node block shell (some prod) (some d) role =
    let ranks = map to_tag (values prod) in
    if is_role role
    then (if node
        then (if block
            then (if shell
                then elim (src_tags hooks ranks) [
                  | none ↦ undefined
                  | some taken ↦
                      created
                        (record {
                          mode = consumer;
                          ranks = ranks;
                          tags = taken.0;
                          channel = number;
                        })
                        none (plist_ref prod) (dtype_ref d) taken.1
                ]
                else failed no_memory)
            else failed no_memory)
        else failed no_memory)
    else failed no_role

-- What the destruction of an end comes to. A consumer's end asks each producer to kill its link, frees
-- the channel, and then reads the data type out of the freed channel.
pub data Gone : Type 0 where
  refused : Error → Gone
  reads_freed : List (ℕ × ℕ) → Gone
  gone : Option Dtype → Option Plist → Gone

-- The requests `__BC_SERVICE_KILL`: a rank and a tag each.
unfoldable pub kill_requests : List ℕ → List ℕ → List (ℕ × ℕ)
kill_requests [] tags = []
kill_requests (r ∷ rs) [] = []
kill_requests (r ∷ rs) (t ∷ tags) = (r, t) ∷ kill_requests rs tags

-- `bc_chan_destroy`, with the channel's data type and process list.
unfoldable pub chan_destroy : Option Chan → Dtype → Plist → Gone
chan_destroy none d pl = refused no_channel
chan_destroy (some bc) d pl = elim bc.mode [
  | consumer ↦ reads_freed (kill_requests bc.ranks bc.tags)
  | producer ↦ gone (dtype_destroy d) (plist_destroy pl)
]

-- What a call that moves data comes to: a code, or the function of the role with its arguments.
pub data Outcome : Type 0 where
  code : Error → Outcome
  forwards : Option (List ℕ) → ℕ → Outcome

-- The guards on `du` and what follows them.
abbrev pub forward_units : List ℕ → ℤ → Outcome
forward_units local (pos zero) = code wrong_value
forward_units local (pos (suc n)) = forwards (some local) (suc n)
forward_units local (negsuc n) = code wrong_value

abbrev pub forward_local : Option (List ℕ) → ℤ → Outcome
forward_local none du = code no_pointer
forward_local (some local) du = forward_units local du

-- `bc_put`
unfoldable pub bc_put : Option Chan → Option (List ℕ) → ℤ → Outcome
bc_put none local du = code no_channel
bc_put (some bc) local du = elim bc.mode [
  | producer ↦ forward_local local du
  | consumer ↦ code wrong_function
]

-- `bc_commit`
unfoldable pub bc_commit : Option Chan → Outcome
bc_commit none = code no_channel
bc_commit (some bc) = elim bc.mode [ producer ↦ forwards none 1 | consumer ↦ code wrong_function ]

-- `bc_get`
unfoldable pub bc_get : Option Chan → Option (List ℕ) → ℤ → Outcome
bc_get none local du = code no_channel
bc_get (some bc) local du = elim bc.mode [
  | consumer ↦ forward_local local du
  | producer ↦ code wrong_function
]
