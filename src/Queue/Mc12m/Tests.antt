-- ===== src/Queue/Mc12m/Tests.antt =====
-- The one-to-many buffer of libdsys/queue.c with two consumers, and instances of the theorems.
use libdsys.Prelude.{ℕ, ◌≡◌, ◌≢◌, refl, true, none, some, List, [], ◌∷◌, ◌++◌, arith, map, take}
use libdsys.Queue.Wire.{Packet}
use libdsys.Queue.Mc121.{Mc121, mc121_send}
use libdsys.Queue.Mc121.Inv.{IsValid}
use libdsys.Queue.Mc121.Contents.{contents}
use libdsys.Queue.Mc12m.{Node, stored, nobody, stands, sent, s_mc12m, p_replicate, p_spread}
use libdsys.Queue.Mc12m.Tags.{buffer_of, s_mc12m_lem}
use libdsys.Queue.Mc12m.Scatter.{
  AllReady, with_parts, tags_differ, has_tag, p_spread_lem, p_replicate_lem,
}

-- A ring of three bytes, of which one is in use.
abbrev ring : Mc121
ring = record {
  bytes_inbuff = 1;
  size = 3;
  free_start = 0;
  data_start = 2;
  buff = 9 ∷ 9 ∷ 7 ∷ [];
  buff_end = 3;
}

abbrev nodes : List Node
nodes = record { tag = 4; mc121 = ring } ∷ record { tag = 6; mc121 = ring } ∷ []

ring-IsValid : IsValid ring
ring-IsValid = record {
  block = refl;
  last = refl;
  small = omega arith;
  free_in = omega arith;
  data_in = omega arith;
  fits = omega arith;
  agree = refl;
}

nodes-AllReady : AllReady nodes 2
unfolding AllReady
nodes-AllReady = (ring-IsValid, omega arith, (ring-IsValid, omega arith, tt))

s_mc12m_lem_example :
    (buffer_of 6 nodes ≡ none → s_mc12m nodes 1 6 true ≡ nobody)
    × ((q : Mc121)
        → buffer_of 6 nodes ≡ some q
        → (mc121_send q 1 true ≡ none → s_mc12m nodes 1 6 true ≡ stands)
          × ((q' : Mc121) (out : List Packet)
              → mc121_send q 1 true ≡ some (out, q')
              → (ns' : List Node) × (s_mc12m nodes 1 6 true ≡ sent out ns')
                × (buffer_of 6 ns' ≡ some q')
                × ((t : ℕ) → t ≢ 6 → buffer_of t ns' ≡ buffer_of t nodes)))
s_mc12m_lem_example = s_mc12m_lem nodes 1 6 true

p_spread_lem_example :
    (ns' : List Node) × (p_spread nodes (1 ∷ 2 ∷ 3 ∷ 4 ∷ []) 2 ≡ stored ns')
    × (map (λ n. n.tag) ns' ≡ map (λ n. n.tag) nodes)
    × (map (λ n. contents n.mc121) ns'
        ≡ with_parts (map (λ n. contents n.mc121) nodes) (1 ∷ 2 ∷ 3 ∷ 4 ∷ []) 2)
p_spread_lem_example = p_spread_lem nodes (1 ∷ 2 ∷ 3 ∷ 4 ∷ []) 2 nodes-AllReady (omega arith)

p_replicate_lem_example :
    (ns' : List Node) × (p_replicate nodes nodes (1 ∷ 2 ∷ []) 2 ≡ stored ns')
    × (map (λ n. n.tag) ns' ≡ map (λ n. n.tag) nodes)
    × (map (λ n. contents n.mc121) ns' ≡ map (λ n. contents n.mc121 ++ take 2 (1 ∷ 2 ∷ [])) nodes)
unfolding tags_differ has_tag
p_replicate_lem_example = p_replicate_lem nodes (1 ∷ 2 ∷ []) 2 nodes-AllReady (omega arith) refl
