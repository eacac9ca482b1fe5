-- ===== src/Ltab.antt =====
-- The table of links, libdsys/ltab.c and libdsys/ltab.h: for each process a list of the links that
-- lead to it, and the numbers from which the tags of links are taken.
pub mod Tags
pub mod Taking
pub mod Sinks
pub mod Srcs
pub mod Meet
pub mod Destroy
mod Tests
use libdsys.Prelude.{
  ℕ, zero, suc, ◌+◌, Bool, true, false, Option, none, some, List, [], ◌∷◌, ◌++◌, ◌==◌,
  if◌then◌else◌, get_elem?, set,
}
use libdsys.Prelude.Words.{add_size}
use libdsys.Queue.Nmc12m.{Vptr}

-- `bc_link_s`; the list of a hook stands for the links `next`, and a channel is named by a number.
pub record Link : Type 0 where
  pub tag : ℕ
  pub channel : ℕ
  pub vptr : Vptr

-- `bc_hook_s` without its lock and condition variable.
pub record Hook : Type 0 where
  pub links : List Link
  pub src_tag : ℕ
  pub sink_tag : ℕ

-- `__bc_ltab_create`, for `size` processes.
unfoldable pub ltab_create : ℕ → List Hook
ltab_create zero = []
ltab_create (suc n) = record { links = []; src_tag = 0; sink_tag = 0 } ∷ ltab_create n

-- `__bc_ptag` for each rank of a list, as `bc_sink_create` takes them; a rank out of range reads
-- outside the table (`none`).
unfoldable pub sink_tags : List Hook → List ℕ → Option (List ℕ × List Hook)
sink_tags hooks [] = some ([], hooks)
sink_tags hooks (r ∷ rs) = elim (get_elem? hooks r) [
  | none ↦ none
  | some h ↦ elim (sink_tags (set hooks r (record h { sink_tag = add_size h.sink_tag 1 })) rs) [
    | none ↦ none
    | some next ↦ some (h.sink_tag ∷ next.0, next.1)
  ]
]

-- `__bc_gtag` for each rank of a list, as `bc_src_create` takes them.
unfoldable pub src_tags : List Hook → List ℕ → Option (List ℕ × List Hook)
src_tags hooks [] = some ([], hooks)
src_tags hooks (r ∷ rs) = elim (get_elem? hooks r) [
  | none ↦ none
  | some h ↦ elim (src_tags (set hooks r (record h { src_tag = add_size h.src_tag 1 })) rs) [
    | none ↦ none
    | some next ↦ some (h.src_tag ∷ next.0, next.1)
  ]
]

-- The pointer of a new link is at the start of the buffer; where the sends do not use it it is not set.
abbrev pub new_link : ℕ → ℕ → Link
new_link tag channel = record { tag = tag; channel = channel; vptr = record { var = 0; rcidx = 0 } }

-- `__bc_link_insert`, if memory is given: a link at the head of the list of each rank, with its tag.
unfoldable pub link_insert : List Hook → List ℕ → List ℕ → ℕ → List Hook
link_insert hooks [] tags channel = hooks
link_insert hooks (r ∷ rs) [] channel = hooks
link_insert hooks (r ∷ rs) (t ∷ tags) channel = elim (get_elem? hooks r) [
  | none ↦ hooks
  | some h ↦
      link_insert (set hooks r (record h { links = new_link t channel ∷ h.links })) rs tags channel
]

-- The walk of `__bc_link_search`; `none` waits for an insertion.
unfoldable pub search_links : List Link → ℕ → Option Link
search_links [] tag = none
search_links (l ∷ ls) tag = let rest = search_links ls tag in if l.tag == tag then some l else rest

-- `__bc_link_search`, one pass of its loop.
unfoldable pub link_search : List Hook → ℕ → ℕ → Option Link
link_search hooks rank tag = elim (get_elem? hooks rank) [
  | none ↦ none
  | some h ↦ search_links h.links tag
]

-- What `__bc_link_destroy` comes to: an access through a null pointer, a wait for an insertion, or a link
-- less. In the last case the destructor is that of the role of the first channel, and what is destroyed is
-- the second.
pub data Removed : Type 0 where
  crashes : Removed
  awaits : Removed
  removed : ℕ → ℕ → List Link → Removed

-- What a link is put back in front of.
abbrev pub behind : Link → Removed → Removed
behind l crashes = crashes
behind l awaits = awaits
behind l (removed by channel rest) = removed by channel (l ∷ rest)

-- "Search for internal link.", from `temp` on, with the links after it. The condition of the loop reads
-- the next link before there is a test that it exists.
unfoldable pub internal_destroy : Link → List Link → ℕ → Removed
internal_destroy temp [] tag = crashes
internal_destroy temp (x ∷ []) tag =
    if x.tag == tag then removed temp.channel x.channel (temp ∷ []) else awaits
internal_destroy temp (x ∷ y ∷ ls) tag =
    let rest = internal_destroy x (y ∷ ls) tag in
    if x.tag == tag then removed temp.channel x.channel (temp ∷ y ∷ ls) else behind temp rest

-- `__bc_link_destroy`, one pass from `again` on in which no link is inserted.
unfoldable pub link_destroy : List Link → ℕ → Removed
link_destroy [] tag = crashes
link_destroy (l ∷ ls) tag =
    if l.tag == tag then removed l.channel l.channel ls else internal_destroy l ls tag

-- The destruction of the links of a list, and `__bc_ltab_destroy`: the channels on which a destructor is
-- called, in that order.
unfoldable pub links_destroy : List Link → List ℕ
links_destroy [] = []
links_destroy (l ∷ ls) = l.channel ∷ links_destroy ls

unfoldable pub ltab_destroy : List Hook → List ℕ
ltab_destroy [] = []
ltab_destroy (h ∷ hooks) = links_destroy h.links ++ ltab_destroy hooks
