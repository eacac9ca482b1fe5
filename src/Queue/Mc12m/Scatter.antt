-- ===== src/Queue/Mc12m/Scatter.antt =====
-- What one put leaves in the buffers of all the consumers (libdsys/replicate.c, libdsys/spread.c).
use mathlib.Core.Path.{ap₂}
use libdsys.Prelude.{
  ℕ, ◌-◌, ◌*◌, ◌≤◌, ◌≡◌, refl, ap, ◌∙◌, Bool, true, false, some, List, [], ◌∷◌, ◌++◌, arith, map,
  inl, inr, Option-cases, length, take, drop, length-drop, if_of_false, not, ◌&&◌, ◌||◌, ◌==◌,
}
use libdsys.Queue.Mc121.{Mc121, mc121_put}
use libdsys.Queue.Mc121.Inv.{IsValid}
use libdsys.Queue.Mc121.Contents.{contents}
use libdsys.Queue.Mc121.Refine.{putq_waits}
use libdsys.Queue.Mc121.Fields.{contents-putq}
use libdsys.Queue.Mc12m.{
  Node, Stored, waits, stored, missing, behind, after, p_mc12m, p_replicate, p_spread,
}

-- Every buffer is valid and has room for `s` more bytes.
unfoldable pub AllReady : List Node → ℕ → Type 0
AllReady [] s = Unit {0}
AllReady (n ∷ ns) s = IsValid n.mc121 × (s ≤ n.mc121.size - n.mc121.bytes_inbuff) × AllReady ns s

-- The contents after each buffer has got its part of `local`.
unfoldable pub with_parts : List (List ℕ) → List ℕ → ℕ → List (List ℕ)
with_parts [] local s = []
with_parts (c ∷ cs) local s = (c ++ take s local) ∷ with_parts cs (drop s local) s

spread_next :
    (n : Node) (ns : List Node) (local : List ℕ) (s : ℕ) (q : Mc121) {ns' : List Node}
    → mc121_put n.mc121 local s ≡ some q
    → p_spread ns (drop s local) s ≡ stored ns'
    → p_spread (n ∷ ns) local s ≡ stored (record { tag = n.tag; mc121 = q } ∷ ns')
unfolding p_spread
spread_next n ns local s q put e = rw (p_spread, put, e) refl

-- If every buffer has room, `__bc_p_spread` deals the local data out: the first `s` bytes to the first
-- buffer, the next `s` to the second, and so on.
pub p_spread_lem :
    (ns : List Node) (local : List ℕ) (s : ℕ)
    → AllReady ns s
    → s * length ns ≤ length local
    → (ns' : List Node) × (p_spread ns local s ≡ stored ns')
      × (map (λ n. n.tag) ns' ≡ map (λ n. n.tag) ns)
      × (map (λ n. contents n.mc121) ns' ≡ with_parts (map (λ n. contents n.mc121) ns) local s)
unfolding p_spread AllReady with_parts mc121_put
p_spread_lem [] local s h b = ([], refl, refl, refl)
p_spread_lem (n ∷ ns) local s (v, room, h) b =
    let (ns', e, tags, parts) =
      p_spread_lem ns (drop s local) s h (ground (arith, length-drop s local)) in
    elim (Option-cases (mc121_put n.mc121 local s)) [
      | inl full ↦ absurd (omega (arith, (putq_waits n.mc121 local s v).0 full))
      | inr (q, put) ↦ (
        record { tag = n.tag; mc121 = q } ∷ ns',
        spread_next n ns local s q put e,
        ap (λ ts. n.tag ∷ ts) tags,
        ap₂ (λ c cs. c ∷ cs) (contents-putq n.mc121 local s v (ground arith) put) parts,
      )
    ]

unfoldable pub has_tag : ℕ → List Node → Bool
has_tag tag [] = false
has_tag tag (n ∷ ns) = (n.tag == tag) || has_tag tag ns

-- No tag stands twice.
unfoldable pub tags_differ : List Node → Bool
tags_differ [] = true
tags_differ (n ∷ ns) = not (has_tag n.tag ns) && tags_differ ns

after-behind :
    (m : Node) (o a b : Stored) (f g : List Node → Stored)
    → a ≡ behind m b
    → ((r : List Node) → f (m ∷ r) ≡ behind m (g r))
    → after a f (behind m o) ≡ behind m (after b g o)
after-behind m missing a b f g e h = e
after-behind m (waits r) a b f g e h = refl
after-behind m (stored r) a b f g e h = h r

-- Nodes whose tag is not asked for are passed by.
replicate_behind :
    (m : Node) (next q : List Node) (local : List ℕ) (s : ℕ)
    → has_tag m.tag next ≡ false
    → p_replicate (m ∷ q) next local s ≡ behind m (p_replicate q next local s)
unfolding p_replicate p_mc12m has_tag
replicate_behind m [] q local s h = refl
replicate_behind m (n ∷ next) q local s h =
    ap (after (p_replicate (m ∷ q) next local s) (λ r. p_replicate r next local s))
      (if_of_false (m.tag == n.tag) _ _ (ground arith))
    ∙ after-behind m (p_mc12m q local s n.tag) _ _ (λ r. p_replicate r next local s)
        (λ r. p_replicate r next local s) (replicate_behind m next q local s (ground arith))
        (λ r. replicate_behind m next r local s (ground arith))

put_first :
    (n : Node) (ns : List Node) (local : List ℕ) (s : ℕ) (q : Mc121)
    → mc121_put n.mc121 local s ≡ some q
    → p_mc12m (n ∷ ns) local s n.tag ≡ stored (record { tag = n.tag; mc121 = q } ∷ ns)
unfolding p_mc12m
put_first n ns local s q put = ground arith

replicate_next :
    (n : Node) (ns : List Node) (local : List ℕ) (s : ℕ) (q : Mc121) {ns' : List Node}
    → has_tag n.tag ns ≡ false
    → mc121_put n.mc121 local s ≡ some q
    → p_replicate ns ns local s ≡ stored ns'
    → p_replicate (n ∷ ns) (n ∷ ns) local s ≡ stored (record { tag = n.tag; mc121 = q } ∷ ns')
unfolding p_replicate
replicate_next n ns local s q {ns'} h put e =
    ap (after (p_replicate (n ∷ ns) ns local s) (λ r. p_replicate r ns local s))
      (put_first n ns local s q put)
    ∙ replicate_behind (record { tag = n.tag; mc121 = q }) ns ns local s h
    ∙ ap (behind (record { tag = n.tag; mc121 = q })) e

-- If every buffer has room and no tag stands twice, `__bc_p_replicate` appends the first `s` bytes of
-- the local data to the contents of every buffer.
pub p_replicate_lem :
    (ns : List Node) (local : List ℕ) (s : ℕ)
    → AllReady ns s
    → s ≤ length local
    → tags_differ ns ≡ true
    → (ns' : List Node) × (p_replicate ns ns local s ≡ stored ns')
      × (map (λ n. n.tag) ns' ≡ map (λ n. n.tag) ns)
      × (map (λ n. contents n.mc121) ns' ≡ map (λ n. contents n.mc121 ++ take s local) ns)
unfolding AllReady tags_differ mc121_put p_replicate
p_replicate_lem [] local s h b d = ([], refl, refl, refl)
p_replicate_lem (n ∷ ns) local s (v, room, h) b d =
    let (ns', e, tags, parts) = p_replicate_lem ns local s h b (ground arith) in
    elim (Option-cases (mc121_put n.mc121 local s)) [
      | inl full ↦ absurd (omega (arith, (putq_waits n.mc121 local s v).0 full))
      | inr (q, put) ↦ (
        record { tag = n.tag; mc121 = q } ∷ ns',
        replicate_next n ns local s q (ground arith) put e,
        ap (λ ts. n.tag ∷ ts) tags,
        ap₂ (λ c cs. c ∷ cs) (contents-putq n.mc121 local s v b put) parts,
      )
    ]
