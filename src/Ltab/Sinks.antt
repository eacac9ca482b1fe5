-- ===== src/Ltab/Sinks.antt =====
-- The tags and links of the sinks that a process creates one after the other: `bc_sink_create` of
-- libdsys/branch.c and libdsys/ltab.c.
use mathlib.Core.Path.{ap₂}
use libdsys.Prelude.{
  ℕ, zero, suc, ◌+◌, ◌-◌, ◌^◌, leb, ◌<◌, ◌≡◌, refl, ap, ◌∙◌, Bool, true, ◌&&◌, Option, none, some,
  List, [], ◌∷◌, arith, ltb, if◌then◌else◌, inl, inr, Option-cases, length, get_elem?, set,
  length-set,
}
use libdsys.Ltab.{Link, Hook, new_link, sink_tags, link_insert}
use libdsys.Ltab.Tags.{
  channel_at, pair_in, in_table, link_insert_lem, insert_next, length_of_outside,
}
use libdsys.Ltab.Taking.{times, sink_tag_at, tags_taken}

-- Insertion of links leaves the tags alone.
set_links_tag :
    (hooks : List Hook) (x : ℕ) (h : Hook) (l : Link) (r : ℕ)
    → get_elem? hooks x ≡ some h
    → sink_tag_at (set hooks x (record h { links = l ∷ h.links })) r ≡ sink_tag_at hooks r
set_links_tag [] x h l r e = cc
set_links_tag (g ∷ hooks) zero h l zero e = ground arith
set_links_tag (g ∷ hooks) zero h l (suc r) e = ground arith
set_links_tag (g ∷ hooks) (suc x) h l zero e = ground arith
set_links_tag (g ∷ hooks) (suc x) h l (suc r) e = set_links_tag hooks x h l r e

link_insert_keeps :
    (hooks : List Hook) (ranks tags : List ℕ) (channel r : ℕ)
    → in_table ranks (length hooks) ≡ true
    → (sink_tag_at (link_insert hooks ranks tags channel) r ≡ sink_tag_at hooks r)
      × (length (link_insert hooks ranks tags channel) ≡ length hooks)
unfolding link_insert in_table
link_insert_keeps hooks [] tags channel r i = (refl, refl)
link_insert_keeps hooks (x ∷ xs) [] channel r i = (refl, refl)
link_insert_keeps hooks (x ∷ xs) (y ∷ ys) channel r i = elim (Option-cases (get_elem? hooks x)) [
  | inl outside ↦ absurd (ground (arith, length_of_outside hooks x outside))
  | inr (k, e) ↦
      let l : Link = new_link y channel in
      let next : List Hook = set hooks x (record k { links = l ∷ k.links }) in
      let size : length next ≡ length hooks =
        length-set hooks x (record k { links = l ∷ k.links }) in
      let same : link_insert hooks (x ∷ xs) (y ∷ ys) channel ≡ link_insert next xs ys channel =
        insert_next hooks x xs y ys channel k e in
      let (tag, long) = link_insert_keeps next xs ys channel r (ground (arith, size)) in
      (
        ap (λ t. sink_tag_at t r) same ∙ tag ∙ set_links_tag hooks x k l r e,
        ap (λ (t : List Hook). length t) same ∙ long ∙ size,
      )
]

-- The sinks that a process creates one after the other, each with its ranks and its channel: the tags and
-- links of `finish_sink`.
unfoldable pub open_sinks : List Hook → List (List ℕ × ℕ) → Option (List Hook)
open_sinks hooks [] = some hooks
open_sinks hooks ((ranks, channel) ∷ sinks) = elim (sink_tags hooks ranks) [
  | none ↦ none
  | some taken ↦ open_sinks (link_insert taken.1 ranks taken.0 channel) sinks
]

unfoldable pub total_times : ℕ → List (List ℕ × ℕ) → ℕ
total_times r [] = 0
total_times r ((ranks, channel) ∷ sinks) = times r ranks + total_times r sinks

-- The channel of the place number `k`, from 0, that sinks have for a rank.
unfoldable pub owner : ℕ → List (List ℕ × ℕ) → ℕ → Option ℕ
owner r [] k = none
owner r ((ranks, channel) ∷ sinks) k =
    let rest = owner r sinks (k - times r ranks) in
    if ltb k (times r ranks) then some channel else rest

unfoldable pub all_in_table : List (List ℕ × ℕ) → ℕ → Bool
all_in_table [] n = true
all_in_table ((ranks, channel) ∷ sinks) n = in_table ranks n && all_in_table sinks n

open_sinks_next :
    (hooks : List Hook) (ranks : List ℕ) (channel : ℕ) (sinks : List (List ℕ × ℕ)) (tags : List ℕ)
    (after : List Hook)
    → sink_tags hooks ranks ≡ some (tags, after)
    → open_sinks hooks ((ranks, channel) ∷ sinks)
      ≡ open_sinks (link_insert after ranks tags channel) sinks
unfolding open_sinks
open_sinks_next hooks ranks channel sinks tags after e = rw (open_sinks, e) refl

minus_sum : (k n u : ℕ) → u - (k + n) ≡ u - k - n
minus_sum k n u = omega arith

join_ranges :
    (k n m u : ℕ) (c o old : Option ℕ)
    → (if leb (k + n) u && ltb u (k + n + m)
        then o
        else (if leb k u && ltb u (k + n) then c else old))
      ≡ (if leb k u && ltb u (k + (n + m)) then (if ltb (u - k) n then c else o) else old)
join_ranges k n m u c o old = ground arith

one_more :
    (k n m u s : ℕ) (o : ℕ → Option ℕ) (c x now mid old : Option ℕ) (p : Bool)
    → s ≡ k + n
    → x ≡ (if leb s u && ltb u (s + m) then o (u - s) else now)
    → now ≡ (if p then c else mid)
    → p ≡ (leb k u && ltb u (k + n))
    → mid ≡ old
    → x ≡ (
        if leb k u && ltb u (k + (n + m))
        then (if ltb (u - k) n then c else o (u - k - n))
        else old)
one_more k n m u s o c x now mid old p start found inserted pairs kept =
    found
    ∙ ap (λ s. if leb s u && ltb u (s + m) then o (u - s) else now) start
    ∙ ap (λ c. if leb (k + n) u && ltb u (k + n + m) then o (u - (k + n)) else c)
        (inserted ∙ ap₂ (λ p d. if p then c else d) pairs kept)
    ∙ ap
        (λ d.
          if leb (k + n) u && ltb u (k + n + m)
          then d
          else (if leb k u && ltb u (k + n) then c else old))
        (ap o (minus_sum k n u))
    ∙ join_ranges k n m u c (o (u - k - n)) old

pub open_sinks_lem :
    (hooks : List Hook) (sinks : List (List ℕ × ℕ)) (r : ℕ)
    → all_in_table sinks (length hooks) ≡ true
    → sink_tag_at hooks r + total_times r sinks < 2 ^ 64
    → (table : List Hook) × (open_sinks hooks sinks ≡ some table)
      × ((t : ℕ)
          → channel_at table r t ≡ (
              if leb (sink_tag_at hooks r) t && ltb t (sink_tag_at hooks r + total_times r sinks)
              then owner r sinks (t - sink_tag_at hooks r)
              else channel_at hooks r t))
unfolding open_sinks total_times owner all_in_table
open_sinks_lem hooks [] r i b = (hooks, refl, λ t. ground arith)
open_sinks_lem hooks ((ranks, channel) ∷ sinks) r i b =
    let (tags, after, t) = tags_taken hooks ranks r (ground (arith, i)) (omega (arith, b)) in
    let next : List Hook = link_insert after ranks tags channel in
    let inside : in_table ranks (length after) ≡ true = ground (arith, i, t.same_length) in
    let (tag, long) = link_insert_keeps after ranks tags channel r inside in
    let start : sink_tag_at next r ≡ sink_tag_at hooks r + times r ranks = tag ∙ t.next_tag in
    let (table, e, found) =
      open_sinks_lem next sinks r (ground (arith, i, long ∙ t.same_length))
        (omega (arith, start, b)) in
    (
      table,
      open_sinks_next hooks ranks channel sinks tags after t.taken ∙ e,
      λ u.
          one_more (sink_tag_at hooks r) (times r ranks) (total_times r sinks) u
            (sink_tag_at next r) (owner r sinks) (some channel) (channel_at table r u)
            (channel_at next r u) (channel_at after r u) (channel_at hooks r u)
            (pair_in r u ranks tags) start (found u)
            (link_insert_lem after ranks tags channel r u inside) (t.pairs u) (t.kept_channels u),
    )
