-- ===== src/Queue/Mc12m/Tags.antt =====
-- The one-to-many buffer of libdsys/queue.c as a table of buffers by tag.
use libdsys.Prelude.{
  ℕ, ◌≡◌, ◌≢◌, refl, Bool, Option, none, some, List, [], ◌∷◌, arith, ◌==◌, if◌then◌else◌, inl, inr,
  Bool-cases, sym, ◌∙◌, if_of_false,
}
use libdsys.Queue.Wire.{Packet}
use libdsys.Queue.Mc121.{Mc121, mc121_put, mc121_send}
use libdsys.Queue.Mc12m.{Node, missing, waits, stored, p_mc12m, nobody, stands, sent, s_mc12m}

-- The buffer of a tag.
unfoldable pub buffer_of : ℕ → List Node → Option Mc121
buffer_of tag [] = none
buffer_of tag (n ∷ ns) = let rest = buffer_of tag ns in if n.tag == tag then some n.mc121 else rest

put_missing :
    (ns : List Node) (local : List ℕ) (bytes tag : ℕ)
    → buffer_of tag ns ≡ none
    → p_mc12m ns local bytes tag ≡ missing
unfolding p_mc12m buffer_of
put_missing [] local bytes tag e = refl
put_missing (n ∷ ns) local bytes tag e = ground (arith, put_missing ns local bytes tag)

put_waits :
    (ns : List Node) (local : List ℕ) (bytes tag : ℕ) (q : Mc121)
    → buffer_of tag ns ≡ some q
    → mc121_put q local bytes ≡ none
    → p_mc12m ns local bytes tag ≡ waits ns
unfolding p_mc12m buffer_of
put_waits [] local bytes tag q e f = cc
put_waits (n ∷ ns) local bytes tag q e f = ground (arith, put_waits ns local bytes tag q)

put_stored :
    (ns : List Node) (local : List ℕ) (bytes tag : ℕ) (q q' : Mc121)
    → buffer_of tag ns ≡ some q
    → mc121_put q local bytes ≡ some q'
    → (ns' : List Node) × (p_mc12m ns local bytes tag ≡ stored ns')
      × (buffer_of tag ns' ≡ some q')
      × ((t : ℕ) → t ≢ tag → buffer_of t ns' ≡ buffer_of t ns)
unfolding p_mc12m buffer_of
put_stored [] local bytes tag q q' e f = cc
put_stored (n ∷ ns) local bytes tag q q' e f = elim (Bool-cases (n.tag == tag)) [
  | inl here ↦
      (record { tag = n.tag; mc121 = q' } ∷ ns, ground arith, ground arith, λ t d. ground arith)
  | inr there ↦
      let (ns', g, h, others) =
        put_stored ns local bytes tag q q' (sym (if_of_false _ _ _ there) ∙ e) f in
      (n ∷ ns', ground arith, ground arith, λ t d. ground (arith, others t d))
]

-- A put fails at a tag without a buffer; at a full one it waits with nothing changed; and else it
-- puts into the buffer of the tag and changes that of no other tag.
pub p_mc12m_lem :
    (ns : List Node) (local : List ℕ) (bytes tag : ℕ)
    → (buffer_of tag ns ≡ none → p_mc12m ns local bytes tag ≡ missing)
      × ((q : Mc121)
          → buffer_of tag ns ≡ some q
          → (mc121_put q local bytes ≡ none → p_mc12m ns local bytes tag ≡ waits ns)
            × ((q' : Mc121)
                → mc121_put q local bytes ≡ some q'
                → (ns' : List Node) × (p_mc12m ns local bytes tag ≡ stored ns')
                  × (buffer_of tag ns' ≡ some q')
                  × ((t : ℕ) → t ≢ tag → buffer_of t ns' ≡ buffer_of t ns)))
p_mc12m_lem ns local bytes tag = (
  put_missing ns local bytes tag,
  λ q e. (put_waits ns local bytes tag q e, λ q' f. put_stored ns local bytes tag q q' e f),
)

send_missing :
    (ns : List Node) (bytes tag : ℕ) (cond_recv : Bool)
    → buffer_of tag ns ≡ none
    → s_mc12m ns bytes tag cond_recv ≡ nobody
unfolding s_mc12m buffer_of
send_missing [] bytes tag cond_recv e = refl
send_missing (n ∷ ns) bytes tag cond_recv e = ground (arith, send_missing ns bytes tag cond_recv)

send_waits :
    (ns : List Node) (bytes tag : ℕ) (cond_recv : Bool) (q : Mc121)
    → buffer_of tag ns ≡ some q
    → mc121_send q bytes cond_recv ≡ none
    → s_mc12m ns bytes tag cond_recv ≡ stands
unfolding s_mc12m buffer_of
send_waits [] bytes tag cond_recv q e f = cc
send_waits (n ∷ ns) bytes tag cond_recv q e f = ground (arith, send_waits ns bytes tag cond_recv q)

send_sent :
    (ns : List Node) (bytes tag : ℕ) (cond_recv : Bool) (q q' : Mc121) (out : List Packet)
    → buffer_of tag ns ≡ some q
    → mc121_send q bytes cond_recv ≡ some (out, q')
    → (ns' : List Node) × (s_mc12m ns bytes tag cond_recv ≡ sent out ns')
      × (buffer_of tag ns' ≡ some q')
      × ((t : ℕ) → t ≢ tag → buffer_of t ns' ≡ buffer_of t ns)
unfolding s_mc12m buffer_of
send_sent [] bytes tag cond_recv q q' out e f = cc
send_sent (n ∷ ns) bytes tag cond_recv q q' out e f = elim (Bool-cases (n.tag == tag)) [
  | inl here ↦
      (record { tag = n.tag; mc121 = q' } ∷ ns, ground arith, ground arith, λ t d. ground arith)
  | inr there ↦
      let (ns', g, h, others) =
        send_sent ns bytes tag cond_recv q q' out (sym (if_of_false _ _ _ there) ∙ e) f in
      (n ∷ ns', ground arith, ground arith, λ t d. ground (arith, others t d))
]

-- A send finds nobody at a tag without a buffer; where the buffer of the tag waits it waits; and else
-- it sends what that buffer sends and changes the buffer of no other tag.
pub s_mc12m_lem :
    (ns : List Node) (bytes tag : ℕ) (cond_recv : Bool)
    → (buffer_of tag ns ≡ none → s_mc12m ns bytes tag cond_recv ≡ nobody)
      × ((q : Mc121)
          → buffer_of tag ns ≡ some q
          → (mc121_send q bytes cond_recv ≡ none → s_mc12m ns bytes tag cond_recv ≡ stands)
            × ((q' : Mc121) (out : List Packet)
                → mc121_send q bytes cond_recv ≡ some (out, q')
                → (ns' : List Node) × (s_mc12m ns bytes tag cond_recv ≡ sent out ns')
                  × (buffer_of tag ns' ≡ some q')
                  × ((t : ℕ) → t ≢ tag → buffer_of t ns' ≡ buffer_of t ns)))
s_mc12m_lem ns bytes tag cond_recv = (
  send_missing ns bytes tag cond_recv,
  λ q e. (
    send_waits ns bytes tag cond_recv q e,
    λ q' out f. send_sent ns bytes tag cond_recv q q' out e f,
  ),
)
