-- ===== src/Queue/Mc121/Stream.antt =====
-- Any interleaving of the passes of putting and serving threads on one buffer of libdsys/queue.c.
use mathlib.Core.Path.{ap₂}
use libdsys.Prelude.{
  ℕ, ◌≡◌, refl, sym, ◌∙◌, ap, Bool, none, some, List, [], ◌∷◌, ◌++◌, arith, length,
  take-append-drop, take-length, append-nil, append_assoc, Option-cases, Bool-cases, inl, inr,
}
use libdsys.Queue.Wire.{Packet, payload, payload-append}
use libdsys.Queue.Mc121.{Mc121, putq_mc121, sendq_mc121, mc121_put, mc121_send}
use libdsys.Queue.Mc121.Inv.{IsValid, putq-IsValid, sendq-IsValid}
use libdsys.Queue.Mc121.Contents.{contents}
use libdsys.Queue.Mc121.Refine.{payload-sendq}
use libdsys.Queue.Mc121.Fields.{putq_fields, sendq_fields, contents-putq, contents-sendq}

-- A pass of the loop of `__bc_mc121_put` with a message, or of `__bc_mc121_send` for a request of so
-- many bytes, conditional or not.
pub data Pass : Type 0 where
  put : List ℕ → Pass
  send : ℕ → Bool → Pass

-- What one pass changes: the buffer, the bytes accepted into it and the packets sent from it. A pass
-- that waits changes nothing.
unfoldable pub pass : Mc121 → Pass → Mc121 × List ℕ × List Packet
unfolding mc121_put mc121_send
pass q (put xs) = elim (mc121_put q xs (length xs)) [ none ↦ (q, [], []) | some q' ↦ (q', xs, []) ]
pass q (send n c) = elim (mc121_send q n c) [ none ↦ (q, [], []) | some (out, q') ↦ (q', [], out) ]

-- A history: the passes in the order in which the lock was taken.
unfoldable pub run : Mc121 → List Pass → Mc121 × List ℕ × List Packet
run q [] = (q, [], [])
run q (p ∷ ps) =
    let (q₁, a₁, o₁) = pass q p in let (q₂, a₂, o₂) = run q₁ ps in (q₂, a₁ ++ a₂, o₁ ++ o₂)

-- One pass keeps the invariant, and the bytes that were there and those accepted are the bytes sent
-- and those that remain, in one order.
pass_lem :
    (q : Mc121) (p : Pass)
    → IsValid q
    → let (q', accepted, out) = pass q p in
      IsValid q' × (contents q ++ accepted ≡ payload out ++ contents q') × (q'.size ≡ q.size)
unfolding pass payload
pass_lem q (put xs) v = elim (Option-cases (putq_mc121 q xs (length xs))) [
  | inl e ↦ rw (e, pass) (v, append-nil (contents q), refl)
  | inr (q', e) ↦
      rw (e, pass)
        (
          putq-IsValid q xs (length xs) v e,
          ap (λ ys. contents q ++ ys) (sym (take-length xs))
              ∙ sym (contents-putq q xs (length xs) v (omega arith) e),
          (putq_fields q xs (length xs) v e).2,
        )
]
pass_lem q (send n c) v = elim (Option-cases (sendq_mc121 q n c)) [
  | inl e ↦ elim (Bool-cases c) [
    | inl told ↦ rw (e, told, pass) (v, append-nil (contents q), refl)
    | inr silent ↦ rw (e, silent, pass) (v, append-nil (contents q), refl)
  ]
  | inr ((out, q'), e) ↦
      rw (e, pass)
        (
          sendq-IsValid q n c v e,
          append-nil (contents q)
              ∙ sym (take-append-drop n (contents q))
              ∙ ap₂ ◌++◌ (sym (payload-sendq q n c v e)) (sym (contents-sendq q n c v e)),
          (sendq_fields q n c v e).2,
        )
]

-- Whatever threads put and get on one buffer, in whatever order they take its lock, with conditional
-- requests and passes that wait among them: the bytes that were in the buffer followed by all those
-- put into it are the data bytes sent followed by those still in it. So no byte is lost, doubled,
-- changed or overtaken, and the buffer stays valid.
pub run_stream :
    (ps : List Pass) (q : Mc121)
    → IsValid q
    → let (q', accepted, out) = run q ps in
      IsValid q' × (contents q ++ accepted ≡ payload out ++ contents q')
unfolding run payload
run_stream [] q v = (v, append-nil (contents q))
run_stream (p ∷ ps) q v =
    let (q₁, a₁, o₁) = pass q p in
    let (q₂, a₂, o₂) = run q₁ ps in
    let (v₁, moved, _) = pass_lem q p v in
    let (v₂, rest) = run_stream ps q₁ v₁ in
    (
      v₂,
      sym (append_assoc (contents q) a₁ a₂)
          ∙ ap (λ s. s ++ a₂) moved
          ∙ append_assoc (payload o₁) (contents q₁) a₂
          ∙ ap (λ s. payload o₁ ++ s) rest
          ∙ sym (append_assoc (payload o₁) (payload o₂) (contents q₂))
          ∙ ap (λ s. s ++ contents q₂) (sym (payload-append o₁ o₂)),
    )
