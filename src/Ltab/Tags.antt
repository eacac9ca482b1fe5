-- ===== src/Ltab/Tags.antt =====
-- Which channel a server thread finds for a rank and a tag in the table of links (libdsys/ltab.c).
use libdsys.Prelude.{
  ℕ, zero, suc, ◌≤◌, ◌≡◌, refl, ap, ◌∙◌, Bool, true, false, ◌&&◌, ◌||◌, Option, none, some, List,
  [], ◌∷◌, arith, ltb, ◌==◌, if◌then◌else◌, inl, inr, Option-cases, length, get_elem?, set,
  length-set,
}
use libdsys.Ltab.{Link, Hook, new_link, link_insert, search_links, link_search}

-- The channel that a search finds.
abbrev pub channel_at : List Hook → ℕ → ℕ → Option ℕ
channel_at hooks rank tag = elim (link_search hooks rank tag) [
  | none ↦ none
  | some l ↦ some l.channel
]

-- A rank and a tag stand at the same place of two lists.
unfoldable pub pair_in : ℕ → ℕ → List ℕ → List ℕ → Bool
pair_in r t [] tags = false
pair_in r t (x ∷ xs) [] = false
pair_in r t (x ∷ xs) (y ∷ ys) = ((x == r) && (y == t)) || pair_in r t xs ys

unfoldable pub in_table : List ℕ → ℕ → Bool
in_table [] n = true
in_table (r ∷ rs) n = ltb r n && in_table rs n

-- One insertion shows at the place of its rank and tag and at no other.
channel_at_inserted :
    (hooks : List Hook) (r0 : ℕ) (h : Hook) (l : Link) (r t : ℕ)
    → get_elem? hooks r0 ≡ some h
    → channel_at (set hooks r0 (record h { links = l ∷ h.links })) r t
      ≡ (if (r0 == r) && (l.tag == t) then some l.channel else channel_at hooks r t)
unfolding link_search search_links
channel_at_inserted [] r0 h l r t e = cc
channel_at_inserted (g ∷ hooks) zero h l zero t e = ground arith
channel_at_inserted (g ∷ hooks) zero h l (suc r) t e = ground arith
channel_at_inserted (g ∷ hooks) (suc r0) h l zero t e = ground arith
channel_at_inserted (g ∷ hooks) (suc r0) h l (suc r) t e =
    channel_at_inserted hooks r0 h l r t e ∙ ground arith

pub insert_next :
    (hooks : List Hook) (x : ℕ) (xs : List ℕ) (y : ℕ) (ys : List ℕ) (channel : ℕ) (k : Hook)
    → get_elem? hooks x ≡ some k
    → link_insert hooks (x ∷ xs) (y ∷ ys) channel
      ≡ link_insert (set hooks x (record k { links = new_link y channel ∷ k.links })) xs ys channel
unfolding link_insert
insert_next hooks x xs y ys channel k e = rw (link_insert, e) refl

pub length_of_outside : (hooks : List Hook) (x : ℕ) → get_elem? hooks x ≡ none → length hooks ≤ x
length_of_outside [] x e = omega arith
length_of_outside (h ∷ hooks) zero e = cc
length_of_outside (h ∷ hooks) (suc x) e = omega (arith, length_of_outside hooks x e)

-- After the insertion of the links of a channel, whose ranks are all in the table, a search finds the
-- channel at each of its ranks with the tag at the same place, and everywhere else what it found
-- before.
pub link_insert_lem :
    (hooks : List Hook) (ranks tags : List ℕ) (channel r t : ℕ)
    → in_table ranks (length hooks) ≡ true
    → channel_at (link_insert hooks ranks tags channel) r t
      ≡ (if pair_in r t ranks tags then some channel else channel_at hooks r t)
unfolding link_insert pair_in in_table
link_insert_lem hooks [] tags channel r t h = refl
link_insert_lem hooks (x ∷ xs) [] channel r t h = refl
link_insert_lem hooks (x ∷ xs) (y ∷ ys) channel r t h = elim (Option-cases (get_elem? hooks x)) [
  | inl outside ↦ absurd (ground (arith, length_of_outside hooks x outside))
  | inr (k, e) ↦
      ap (λ t0. channel_at t0 r t) (insert_next hooks x xs y ys channel k e)
      ∙ link_insert_lem (set hooks x (record k { links = new_link y channel ∷ k.links })) xs ys
          channel r t
          (ground (arith, length-set hooks x (record k { links = new_link y channel ∷ k.links })))
      ∙ ground (arith, channel_at_inserted hooks x k (new_link y channel) r t e)
]
