-- ===== src/Branch/Ends.antt =====
-- What `bc_sink_create` of libdsys/branch.c leaves in the table of links.
use libdsys.Prelude.{
  ℕ, zero, suc, ◌≡◌, refl, ap, ◌∙◌, true, some, List, [], ◌∷◌, arith, if◌then◌else◌, map, length,
  get_elem?, set, length-set, inl, inr, Option-cases,
}
use libdsys.Prelude.Int.{ℤ}
use libdsys.Prelude.Words.{add_size}
use libdsys.Plist.{Plist, values, plist_ref}
use libdsys.Ltab.{Hook, sink_tags, link_search, link_insert}
use libdsys.Ltab.Tags.{channel_at, pair_in, in_table, length_of_outside, link_insert_lem}
use libdsys.Channel.{Dtype, dtype_ref, Role, Given, to_tag, Channel, channel_create}
use libdsys.Branch.{Chan, producer, is_role, role_at, created, finish_sink, sink_create}

-- Taking a tag does not change what a search finds.
channel_at-set :
    (hooks : List Hook) (x : ℕ) (k : Hook) (n r t : ℕ)
    → get_elem? hooks x ≡ some k
    → channel_at (set hooks x (record k { sink_tag = n })) r t ≡ channel_at hooks r t
unfolding link_search
channel_at-set [] x k n r t e = cc
channel_at-set (g ∷ hooks) zero k n zero t e = ground arith
channel_at-set (g ∷ hooks) zero k n (suc r) t e = refl
channel_at-set (g ∷ hooks) (suc x) k n zero t e = refl
channel_at-set (g ∷ hooks) (suc x) k n (suc r) t e = channel_at-set hooks x k n r t e

next_tags :
    (hooks : List Hook) (x : ℕ) (xs : List ℕ) (k : Hook) {tags : List ℕ} {left : List Hook}
    → get_elem? hooks x ≡ some k
    → sink_tags (set hooks x (record k { sink_tag = add_size k.sink_tag 1 })) xs ≡ some (tags, left)
    → sink_tags hooks (x ∷ xs) ≡ some (k.sink_tag ∷ tags, left)
unfolding sink_tags
next_tags hooks x xs k e f = rw (sink_tags, e, f) refl

-- Tags are taken for every rank, and neither the size of the table nor what a search finds changes.
sink_tags_lem :
    (ranks : List ℕ) (hooks : List Hook)
    → in_table ranks (length hooks) ≡ true
    → (tags : List ℕ) × (left : List Hook) × (sink_tags hooks ranks ≡ some (tags, left))
      × (length tags ≡ length ranks)
      × (length left ≡ length hooks)
      × ((r t : ℕ) → channel_at left r t ≡ channel_at hooks r t)
unfolding in_table sink_tags
sink_tags_lem [] hooks h = ([], hooks, refl, refl, refl, λ r t. refl)
sink_tags_lem (x ∷ xs) hooks h = elim (Option-cases (get_elem? hooks x)) [
  | inl outside ↦ absurd (ground (arith, length_of_outside hooks x outside))
  | inr (k, e) ↦
      let after = set hooks x (record k { sink_tag = add_size k.sink_tag 1 }) in
      let same = length-set hooks x (record k { sink_tag = add_size k.sink_tag 1 }) in
      let (tags, left, taken, n, m, found) = sink_tags_lem xs after (ground (arith, same)) in
      (
        k.sink_tag ∷ tags,
        left,
        next_tags hooks x xs k e taken,
        ap suc n,
        m ∙ same,
        λ r t. found r t ∙ channel_at-set hooks x k (add_size k.sink_tag 1) r t e,
      )
]

finish_lem :
    (hooks : List Hook) (number : ℕ) (cons : Plist) (c : Channel) (d : Dtype) {tags : List ℕ}
    {left : List Hook}
    → sink_tags hooks (map to_tag (values cons)) ≡ some (tags, left)
    → finish_sink hooks number cons c d
      ≡ created
          (record {
            mode = producer;
            ranks = map to_tag (values cons);
            tags = tags;
            channel = number;
          })
          (some c)
          (plist_ref cons)
          (dtype_ref d)
          (link_insert left (map to_tag (values cons)) tags number)
unfolding finish_sink
finish_lem hooks number cons c d e = rw (finish_sink, e) refl

-- With a known role, memory given and all consumers in the table, `bc_sink_create` makes an end with a
-- tag for each consumer, holding the process list once more and the data type once more than the
-- channel does; a search then finds the new channel at each consumer with its tag, and everywhere else
-- what it found before.
pub sink_create_lem :
    (hooks : List Hook) (number : ℕ) (m : Given) (junk : ℕ) (cons : Plist) (d : Dtype) (bunits : ℕ)
    (role : ℤ) (r : Role) (c : Channel) (d' : Dtype)
    → is_role role ≡ true
    → role_at role ≡ some r
    → channel_create r m cons d bunits junk ≡ some (c, d')
    → in_table (map to_tag (values cons)) (length hooks) ≡ true
    → (bc : Chan) × (hooks' : List Hook) × (sink_create hooks number true true m junk
          (some cons)
          (some d)
          bunits
          role
        ≡ created bc (some c) (plist_ref cons) (dtype_ref d') hooks')
      × (length bc.tags ≡ length (map to_tag (values cons)))
      × ((p t : ℕ)
          → channel_at hooks' p t ≡ (
              if pair_in p t (map to_tag (values cons)) bc.tags
              then some number
              else channel_at hooks p t))
unfolding sink_create
sink_create_lem hooks number m junk cons d bunits role r c d' known row made inside =
    let ranks = map to_tag (values cons) in
    let (tags, left, taken, n, same, found) = sink_tags_lem ranks hooks inside in
    (
      record { mode = producer; ranks = ranks; tags = tags; channel = number },
      link_insert left ranks tags number,
      rw (sink_create, known, row, made) (finish_lem hooks number cons c d' taken),
      n,
      λ p t.
          link_insert_lem left ranks tags number p t (ap (in_table ranks) same ∙ inside)
          ∙ ap (λ o. if pair_in p t ranks tags then some number else o) (found p t),
    )
