-- ===== src/Queue/Nmc12m/System/Keep.antt =====
-- Every event on a buffer without memory copy (libdsys/queue.c) against the invariant.
use mathlib.Core.Path.{subst}
use libdsys.Prelude.{
  ℕ, ◌≤◌, refl, sym, ◌∙◌, arith, ltb, get_elem?, inl, inr, Bool-cases, if_of_true, if_of_false,
  Option-cases,
}
use libdsys.Queue.Nmc12m.{is_ready}
use libdsys.Queue.Nmc12m.System.{System, Event, store, commit, resume, receive, step}
use libdsys.Queue.Nmc12m.System.Put.{store-Inv, entered, entered-Inv, check-Inv}
use libdsys.Queue.Nmc12m.System.Send.{sent-Inv, ready_behind, receive_lem}
use libdsys.Queue.Nmc12m.System.Inv.{Inv}

-- From any state in which the invariant holds, each event leads to one in which it holds, and the
-- number of visible units does not fall.
pub step-Inv : (a : ℕ) (s : System) (e : Event) → Inv a s → (b : ℕ) × (a ≤ b) × Inv b (step s e)
unfolding step
step-Inv a s (store o x) v = elim (Bool-cases s.blocked) [
  | inl held ↦ (a, omega arith, subst (Inv a) (sym (if_of_true _ _ _ held)) v)
  | inr free ↦ elim (Bool-cases (ltb o s.q.size)) [
    | inl inside ↦
        let w = store-Inv a s o x v free (ground arith) in
        (a, omega arith, subst (Inv a) (sym (if_of_false _ _ _ free ∙ if_of_true _ _ _ inside)) w)
    | inr outside ↦
        (a, omega arith, subst (Inv a) (sym (if_of_false _ _ _ free ∙ if_of_false _ _ _ outside)) v)
  ]
]
step-Inv a s commit v = elim (Bool-cases s.blocked) [
  | inl held ↦ (a, omega arith, subst (Inv a) (sym (if_of_true _ _ _ held)) v)
  | inr free ↦
      let (b, h, w) = check-Inv a (entered s) (entered-Inv a s v free) refl in
      (b, h, subst (Inv b) (sym (if_of_false _ _ _ free)) w)
]
step-Inv a s resume v = elim (Bool-cases s.blocked) [
  | inl held ↦
      let (b, h, w) = check-Inv a s v held in (b, h, subst (Inv b) (sym (if_of_true _ _ _ held)) w)
  | inr free ↦ (a, omega arith, subst (Inv a) (sym (if_of_false _ _ _ free)) v)
]
step-Inv a s (receive j cond_recv) v = elim (Option-cases (get_elem? s.consumers j)) [
  | inl absent ↦ (a, omega arith, rw (absent, step) v)
  | inr (c, e) ↦ elim (Bool-cases (is_ready s.q c.link)) [
    | inl ready ↦
        let w = sent-Inv a s j c v e (ready_behind a s j c v e ready) in
        (
          a,
          omega arith,
          subst (Inv a) (sym (receive_lem a s j c cond_recv v e ∙ if_of_true _ _ _ ready)) w,
        )
    | inr not_ready ↦ (
      a,
      omega arith,
      subst (Inv a) (sym (receive_lem a s j c cond_recv v e ∙ if_of_false _ _ _ not_ready)) v,
    )
  ]
]
