-- ===== src/Ltab/Taking.antt =====
-- The tags that one sink of libdsys/branch.c takes.
use libdsys.Prelude.{
  ℕ, zero, suc, ◌+◌, ◌^◌, leb, ◌<◌, ◌≡◌, refl, sym, ap, ◌∙◌, true, ◌&&◌, none, some, List, [], ◌∷◌,
  arith, ltb, ◌==◌, if◌then◌else◌, inl, inr, Bool-cases, Option-cases, length, get_elem?, set,
  length-set,
}
use libdsys.Prelude.Words.{add_size}
use libdsys.Ltab.{Hook, sink_tags, link_search}
use libdsys.Ltab.Tags.{channel_at, pair_in, in_table, length_of_outside}

-- How often a rank stands in a list.
unfoldable pub times : ℕ → List ℕ → ℕ
times r [] = 0
times r (x ∷ xs) = (if x == r then 1 else 0) + times r xs

-- The next tag for a rank, in the table of the sinks.
abbrev pub sink_tag_at : List Hook → ℕ → ℕ
sink_tag_at hooks r = elim (get_elem? hooks r) [ none ↦ 0 | some h ↦ h.sink_tag ]

-- The table after one tag for a sink has been taken.
abbrev pub bump_sink : List Hook → ℕ → Hook → List Hook
bump_sink hooks x h = set hooks x (record h { sink_tag = add_size h.sink_tag 1 })

pub bump_sink_tag :
    (hooks : List Hook) (x : ℕ) (h : Hook) (r : ℕ)
    → get_elem? hooks x ≡ some h
    → sink_tag_at hooks r + (if x == r then 1 else 0) < 2 ^ 64
    → sink_tag_at (bump_sink hooks x h) r ≡ sink_tag_at hooks r + (if x == r then 1 else 0)
bump_sink_tag [] x h r e b = cc
bump_sink_tag (g ∷ hooks) zero h zero e b = ground arith
bump_sink_tag (g ∷ hooks) zero h (suc r) e b = ground arith
bump_sink_tag (g ∷ hooks) (suc x) h zero e b = ground arith
bump_sink_tag (g ∷ hooks) (suc x) h (suc r) e b =
    bump_sink_tag hooks x h r e (ground arith) ∙ ground arith

pub bump_sink_channels :
    (hooks : List Hook) (x : ℕ) (h : Hook) (r t : ℕ)
    → get_elem? hooks x ≡ some h
    → channel_at (bump_sink hooks x h) r t ≡ channel_at hooks r t
unfolding link_search
bump_sink_channels [] x h r t e = cc
bump_sink_channels (g ∷ hooks) zero h zero t e = ground arith
bump_sink_channels (g ∷ hooks) zero h (suc r) t e = ground arith
bump_sink_channels (g ∷ hooks) (suc x) h zero t e = ground arith
bump_sink_channels (g ∷ hooks) (suc x) h (suc r) t e = bump_sink_channels hooks x h r t e

-- What the taking of tags for a list of ranks does, as seen from one rank.
pub record Takes (hooks : List Hook) (ranks : List ℕ) (r : ℕ) (tags : List ℕ) (after : List Hook)
    : Type 0 where
  pub taken : sink_tags hooks ranks ≡ some (tags, after)
  pub next_tag : sink_tag_at after r ≡ sink_tag_at hooks r + times r ranks
  pub kept_channels : (t : ℕ) → channel_at after r t ≡ channel_at hooks r t
  pub pairs :
      (t : ℕ)
      → pair_in r t ranks tags
        ≡ (leb (sink_tag_at hooks r) t && ltb t (sink_tag_at hooks r + times r ranks))
  pub same_length : length after ≡ length hooks

pub sink_tags_next :
    (hooks : List Hook) (x : ℕ) (xs : List ℕ) (h : Hook) (ts : List ℕ) (after : List Hook)
    → get_elem? hooks x ≡ some h
    → sink_tags (bump_sink hooks x h) xs ≡ some (ts, after)
    → sink_tags hooks (x ∷ xs) ≡ some (h.sink_tag ∷ ts, after)
unfolding sink_tags
sink_tags_next hooks x xs h ts after e d = rw (sink_tags, e, d) refl

pub sink_tag_of :
    (hooks : List Hook) (x : ℕ) (h : Hook)
    → get_elem? hooks x ≡ some h
    → sink_tag_at hooks x ≡ h.sink_tag
sink_tag_of hooks x h e = rw (sink_tag_at, e) refl

pub is_rank : (x r : ℕ) → x == r ≡ true → x ≡ r
is_rank x r e = ground arith

pub tags_taken :
    (hooks : List Hook) (ranks : List ℕ) (r : ℕ)
    → in_table ranks (length hooks) ≡ true
    → sink_tag_at hooks r + times r ranks < 2 ^ 64
    → (tags : List ℕ) × (after : List Hook) × Takes hooks ranks r tags after
unfolding in_table times pair_in sink_tags
tags_taken hooks [] r i b = (
  [],
  hooks,
  record {
    taken = refl;
    next_tag = omega arith;
    kept_channels = λ t. refl;
    pairs = λ t. ground arith;
    same_length = refl;
  },
)
tags_taken hooks (x ∷ xs) r i b = elim (Option-cases (get_elem? hooks x)) [
  | inl outside ↦ absurd (ground (arith, length_of_outside hooks x outside))
  | inr (h, e) ↦
      let next : List Hook = bump_sink hooks x h in
      let size : length next ≡ length hooks =
        length-set hooks x (record h { sink_tag = add_size h.sink_tag 1 }) in
      let fits : sink_tag_at hooks r + (if x == r then 1 else 0) < 2 ^ 64 = omega arith in
      let bumped : sink_tag_at next r ≡ sink_tag_at hooks r + (if x == r then 1 else 0) =
        bump_sink_tag hooks x h r e fits in
      let small : sink_tag_at next r + times r xs < 2 ^ 64 = omega (arith, bumped) in
      let (ts, after, rest) = tags_taken next xs r (ground (arith, size)) small in
      (
        h.sink_tag ∷ ts,
        after,
        record {
          taken = sink_tags_next hooks x xs h ts after e rest.taken;
          next_tag = omega (arith, rest.next_tag, bumped);
          kept_channels = λ t. rest.kept_channels t ∙ bump_sink_channels hooks x h r t e;
          pairs = λ t. elim (Bool-cases (x == r)) [
            | inl same ↦
                let here : sink_tag_at hooks r ≡ h.sink_tag =
                  ap (sink_tag_at hooks) (sym (is_rank x r same)) ∙ sink_tag_of hooks x h e in
                ground (arith, rest.pairs t, bumped, here)
            | inr other ↦ ground (arith, rest.pairs t, bumped)
          ];
          same_length = rest.same_length ∙ size;
        },
      )
]
