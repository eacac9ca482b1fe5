-- ===== src/Ltab/Srcs.antt =====
-- The tags of the sources that a process creates one after the other: `bc_src_create` of
-- libdsys/branch.c and libdsys/ltab.c.
use libdsys.Prelude.{
  ℕ, zero, suc, ◌+◌, ◌^◌, ◌<◌, ◌≡◌, refl, sym, ap, ◌∙◌, true, none, some, List, [], ◌∷◌, arith,
  ◌==◌, if◌then◌else◌, inl, inr, Option-cases, length, get_elem?, get_or, set, take, length-set,
}
use libdsys.Prelude.Words.{add_size}
use libdsys.Ltab.{Hook, src_tags}
use libdsys.Ltab.Tags.{in_table, length_of_outside}
use libdsys.Ltab.Taking.{times}

-- The next tag for a rank, in the table of the sources.
abbrev pub src_tag_at : List Hook → ℕ → ℕ
src_tag_at hooks r = elim (get_elem? hooks r) [ none ↦ 0 | some h ↦ h.src_tag ]

-- The table after one tag for a source has been taken.
abbrev bump_src : List Hook → ℕ → Hook → List Hook
bump_src hooks x h = set hooks x (record h { src_tag = add_size h.src_tag 1 })

bump_src_tag :
    (hooks : List Hook) (x : ℕ) (h : Hook) (r : ℕ)
    → get_elem? hooks x ≡ some h
    → src_tag_at hooks r + (if x == r then 1 else 0) < 2 ^ 64
    → src_tag_at (bump_src hooks x h) r ≡ src_tag_at hooks r + (if x == r then 1 else 0)
bump_src_tag [] x h r e b = cc
bump_src_tag (g ∷ hooks) zero h zero e b = ground arith
bump_src_tag (g ∷ hooks) zero h (suc r) e b = ground arith
bump_src_tag (g ∷ hooks) (suc x) h zero e b = ground arith
bump_src_tag (g ∷ hooks) (suc x) h (suc r) e b =
    bump_src_tag hooks x h r e (ground arith) ∙ ground arith

src_tag_of :
    (hooks : List Hook) (x : ℕ) (h : Hook)
    → get_elem? hooks x ≡ some h
    → src_tag_at hooks x ≡ h.src_tag
src_tag_of hooks x h e = rw (src_tag_at, e) refl

src_tags_next :
    (hooks : List Hook) (x : ℕ) (xs : List ℕ) (h : Hook) (ts : List ℕ) (after : List Hook)
    → get_elem? hooks x ≡ some h
    → src_tags (bump_src hooks x h) xs ≡ some (ts, after)
    → src_tags hooks (x ∷ xs) ≡ some (h.src_tag ∷ ts, after)
unfolding src_tags
src_tags_next hooks x xs h ts after e d = rw (src_tags, e, d) refl

-- What the taking of tags for a list of ranks does, as seen from one rank.
pub record Gives (hooks : List Hook) (ranks : List ℕ) (r : ℕ) (tags : List ℕ) (after : List Hook)
    : Type 0 where
  pub given : src_tags hooks ranks ≡ some (tags, after)
  pub next_tag : src_tag_at after r ≡ src_tag_at hooks r + times r ranks
  pub tag_at :
      (j : ℕ)
      → j < length ranks
      → get_or ranks j 0 ≡ r
      → get_or tags j 0 ≡ src_tag_at hooks r + times r (take j ranks)
  pub same_length : length after ≡ length hooks

at_place :
    (hooks : List Hook) (x : ℕ) (xs : List ℕ) (h : Hook) (ts : List ℕ) (r s : ℕ)
    → get_elem? hooks x ≡ some h
    → s ≡ src_tag_at hooks r + (if x == r then 1 else 0)
    → ((j : ℕ) → j < length xs → get_or xs j 0 ≡ r → get_or ts j 0 ≡ s + times r (take j xs))
    → (j : ℕ) → j < length (x ∷ xs)
    → get_or (x ∷ xs) j 0 ≡ r
    → get_or (h.src_tag ∷ ts) j 0 ≡ src_tag_at hooks r + times r (take j (x ∷ xs))
unfolding times
at_place hooks x xs h ts r s e b rest zero k same =
    sym (src_tag_of hooks x h e) ∙ ap (src_tag_at hooks) same ∙ omega arith
at_place hooks x xs h ts r s e b rest (suc j) k same = rest j (omega arith) same ∙ omega (arith, b)

pub tags_given :
    (hooks : List Hook) (ranks : List ℕ) (r : ℕ)
    → in_table ranks (length hooks) ≡ true
    → src_tag_at hooks r + times r ranks < 2 ^ 64
    → (tags : List ℕ) × (after : List Hook) × Gives hooks ranks r tags after
unfolding in_table times src_tags
tags_given hooks [] r i b = (
  [],
  hooks,
  record {
    given = refl;
    next_tag = omega arith;
    tag_at = λ j k e. absurd (omega (arith, k));
    same_length = refl;
  },
)
tags_given hooks (x ∷ xs) r i b = elim (Option-cases (get_elem? hooks x)) [
  | inl outside ↦ absurd (ground (arith, length_of_outside hooks x outside))
  | inr (h, e) ↦
      let next : List Hook = bump_src hooks x h in
      let size : length next ≡ length hooks =
        length-set hooks x (record h { src_tag = add_size h.src_tag 1 }) in
      let fits : src_tag_at hooks r + (if x == r then 1 else 0) < 2 ^ 64 = omega arith in
      let bumped : src_tag_at next r ≡ src_tag_at hooks r + (if x == r then 1 else 0) =
        bump_src_tag hooks x h r e fits in
      let small : src_tag_at next r + times r xs < 2 ^ 64 = omega (arith, bumped) in
      let (ts, after, rest) = tags_given next xs r (ground (arith, size)) small in
      (
        h.src_tag ∷ ts,
        after,
        record {
          given = src_tags_next hooks x xs h ts after e rest.given;
          next_tag = omega (arith, rest.next_tag, bumped);
          tag_at = λ j. at_place hooks x xs h ts r (src_tag_at next r) e bumped rest.tag_at j;
          same_length = rest.same_length ∙ size;
        },
      )
]
