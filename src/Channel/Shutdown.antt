-- ===== src/Channel/Shutdown.antt =====
-- How often the destructor of a channel is called when the table of links is destroyed (libdsys/ltab.c,
-- libdsys/replicate.c, libdsys/farm.c, libdsys/spread.c).
use libdsys.Prelude.{
  ℕ, zero, suc, ◌+◌, ◌-◌, ◌^◌, ◌<◌, ◌≡◌, ◌≢◌, sym, ap, ◌∙◌, true, some, List, [], ◌∷◌, ◌++◌, arith,
  ◌==◌, if◌then◌else◌, inl, inr, Option-cases, length, get_elem?, set, length-set,
}
use libdsys.Plist.{Plist}
use libdsys.Ltab.{Link, Hook, new_link, link_insert, links_destroy, ltab_destroy}
use libdsys.Ltab.Tags.{insert_next, in_table, length_of_outside}
use libdsys.Channel.{Dtype, Role, Given, Channel, counts_links, channel_create, kept}
use libdsys.Channel.Count.{destroy_links, create_fields, counters_of, at_last, destroy_links_lem}

unfoldable pub count_of : ℕ → List ℕ → ℕ
count_of c [] = 0
count_of c (x ∷ xs) = (if x == c then 1 else 0) + count_of c xs

count_of-append : (c : ℕ) (xs ys : List ℕ) → count_of c (xs ++ ys) ≡ count_of c xs + count_of c ys
unfolding count_of
count_of-append c [] ys = omega arith
count_of-append c (x ∷ xs) ys = ground (arith, count_of-append c xs ys)

-- How many links lead to a channel.
abbrev pub links_of : ℕ → List Hook → ℕ
links_of c hooks = count_of c (ltab_destroy hooks)

links_of-set :
    (c : ℕ) (hooks : List Hook) (r : ℕ) (h : Hook) (l : Link)
    → get_elem? hooks r ≡ some h
    → links_of c (set hooks r (record h { links = l ∷ h.links }))
      ≡ (if l.channel == c then 1 else 0) + links_of c hooks
unfolding ltab_destroy links_destroy count_of
links_of-set c [] r h l e = cc
links_of-set c (g ∷ hooks) zero h l e =
    let same : g ≡ h = cc in
    ap (λ (k : Hook). (if l.channel == c then 1 else 0) + links_of c (k ∷ hooks)) {x = h} {y = g}
      (sym same)
links_of-set c (g ∷ hooks) (suc r) h l e = ground (
  arith,
  links_of-set c hooks r h l e,
  count_of-append c (links_destroy g.links) (ltab_destroy hooks),
  count_of-append c (links_destroy g.links)
      (ltab_destroy (set hooks r (record h { links = l ∷ h.links }))),
)

links_of-link_insert :
    (c : ℕ) (hooks : List Hook) (ranks tags : List ℕ) (channel : ℕ)
    → length tags ≡ length ranks
    → in_table ranks (length hooks) ≡ true
    → links_of c (link_insert hooks ranks tags channel)
      ≡ (if channel == c then length ranks else 0) + links_of c hooks
unfolding link_insert in_table
links_of-link_insert c hooks [] tags channel h i = ground arith
links_of-link_insert c hooks (x ∷ xs) [] channel h i = absurd (omega arith)
links_of-link_insert c hooks (x ∷ xs) (y ∷ ys) channel h i =
    elim (Option-cases (get_elem? hooks x)) [
      | inl outside ↦ absurd (ground (arith, length_of_outside hooks x outside))
      | inr (k, e) ↦
          ap (links_of c) (insert_next hooks x xs y ys channel k e)
          ∙ links_of-link_insert c (set hooks x (record k { links = new_link y channel ∷ k.links }))
              xs ys channel (omega arith)
              (ground
                (arith, length-set hooks x (record k { links = new_link y channel ∷ k.links })))
          ∙ ground (arith, links_of-set c hooks x k (new_link y channel) e)
    ]

-- For a channel of a role that counts its links, created for a process list, whose ranks are all in the
-- table, and a table in which no link leads to it yet: after the insertion of its links the destruction of
-- the table calls its destructor once for each rank, and every other channel's as often as before. When
-- the channel has not been used, all of these calls but the last keep it, and the last one frees it with
-- its buffer and lets go of its data type for REPLICATE and SPREAD; for REPLICATEN it reads a counter
-- past those of the buffer; and for FARM and FARMN it frees the buffer only if the first counter that
-- nobody has set, that numbered `du`, is 0.
pub shutdown_lem :
    (hooks : List Hook) (ranks tags : List ℕ) (channel : ℕ) (role : Role) (m : Given) (pl : Plist)
    (d : Dtype) (du junk : ℕ) {c : Channel} {d' : Dtype}
    → length tags ≡ length ranks
    → in_table ranks (length hooks) ≡ true
    → length ranks ≡ pl.count
    → links_of channel hooks ≡ 0
    → counts_links role ≡ true
    → 0 < du
    → 0 < d.rc
    → 0 < pl.count
    → pl.count < 2 ^ 32
    → ((cs : List ℕ) → m.counters ≡ some cs → length cs ≡ counters_of role du)
    → channel_create role m pl d du junk ≡ some (c, d')
    → let after = link_insert hooks ranks tags channel in
      ((other : ℕ) → other ≢ channel → links_of other after ≡ links_of other hooks)
      × (links_of channel after ≡ length ranks)
      × (destroy_links (links_of channel after) (kept c d') ≡ at_last role m.counters du d)
      × ((n : ℕ)
          → n < links_of channel after
          → destroy_links n (kept c d') ≡ kept (record c { rc = pl.count - n }) d')
shutdown_lem hooks ranks tags channel role m pl d du junk {c} {d'} h i k z e y r p b long made =
    let (before, last) = destroy_links_lem role m pl d du junk e y r p b long made in
    let (counted, all, held) = create_fields role m pl d du junk e made in
    (
      λ other ne. ground (arith, links_of-link_insert other hooks ranks tags channel h i),
      each_rank,
      ap (λ n. destroy_links n (kept c d')) (each_rank ∙ k) ∙ last,
      λ n l.
          before n (omega (arith, each_rank, k, l))
          ∙ ap (kept (record c { rc = pl.count - n })) (sym held),
    )
  where
    each_rank : links_of channel (link_insert hooks ranks tags channel) ≡ length ranks
    each_rank = ground (arith, links_of-link_insert channel hooks ranks tags channel h i, z)
