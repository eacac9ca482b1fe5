-- ===== src/Sockets/Table.antt =====
-- The tables of sockets that libdsys/sockets.c fills in, entry by entry.
use libdsys.Prelude.{
  ℕ, ◌<◌, ◌⊎◌, inl, inr, ◌≡◌, refl, sym, ap, ◌∙◌, true, false, ◌&&◌, List, [], ◌∷◌, ◌++◌, arith,
  ◌==◌, length, some, Bool-cases,
}
use libdsys.Net.{rank2idx}
use libdsys.Sockets.{
  Sock, Call, listen, close, accept, connect, how_many, at, at_sock, Network, start, Step, listens,
  accepts_one, closes, connects_one, Run, stays, moves, Finished, SockId, is_sock,
}
use libdsys.Sockets.Programs.{is_accept, is_connect, comes_later, connects_to_come}
use libdsys.Sockets.Pending.{Inv, start-Inv}
use libdsys.Sockets.Progress.{run-Inv}
use libdsys.Sockets.Entries.{conn, entry, same_conn, other_way, own_way, made_before, made_old}
use libdsys.Sockets.Waiting.{
  waits, all_for, more_wait, new_waits, connect_right, accept_waits, accept_right, first_right,
}

-- The connection of a type from `q` to `p` has been made.
abbrev Made : Network → ℕ → ℕ → Sock → Type 0
Made s q p t = how_many (is_connect p t) (s.left q) ≡ 0

-- What the tables hold of the connections that have been made.
pub record Wired (n : ℕ) (s : Network) : Type 0 where
  pub calls :
      (q p : ℕ) (t : Sock)
      → q < p
      → p < n
      → Made s q p t
      → s.slist q (rank2idx q p) t ≡ some (conn q p t)
  pub answers :
      (q p : ℕ) (t : Sock)
      → q < p
      → p < n
      → Made s q p t
      → (s.slist p (rank2idx p q) t ≡ some (conn q p t)) ⊎ (waits q (s.pending p t) ≡ true)
  pub right_ones : (p : ℕ) (t : Sock) → p < n → all_for p t (s.pending p t) ≡ true

start-Wired : (n : ℕ) → Wired n (start n)
unfolding start all_for
start-Wired n = record {
  calls = λ q p t l b m. absurd (omega (arith, connects_to_come n q p t l b));
  answers = λ q p t l b m. absurd (omega (arith, connects_to_come n q p t l b));
  right_ones = λ p t b. refl;
}

quiet-Wired :
    (n : ℕ) (s : Network) (r : ℕ) (c : Call) (cs : List Call)
    → Wired n s
    → s.left r ≡ c ∷ cs
    → ((p : ℕ) (t : Sock) → is_connect p t c ≡ 0)
    → Wired n (record s { left = at s.left r cs })
quiet-Wired n s r c cs w e none_made = record {
  calls = λ q p t l b m. w.calls q p t l b (made_before s.left r q p t c cs e (none_made p t) m);
  answers =
      λ q p t l b m. w.answers q p t l b (made_before s.left r q p t c cs e (none_made p t) m);
  right_ones = w.right_ones;
}

connect-Wired :
    (n : ℕ) (s : Network) (r z : ℕ) (t : Sock) (cs : List Call)
    → Wired n s
    → s.left r ≡ connect z t ∷ cs
    → r < z
    → Wired n (record {
      left = at s.left r cs;
      pending = at_sock s.pending z t (s.pending z t ++ (record { rank = r; type = t } ∷ []));
      slist =
          at s.slist r
            (at_sock (s.slist r) (rank2idx r z) t (some (record { from = r; to = z; type = t })));
    })
connect-Wired n s r z t cs w e later = record {
  calls = λ q p t' l b m. elim (Bool-cases ((q == r && p == z) && is_sock t' t)) [
    | inl here ↦
        entry s.slist r z t (some (conn r z t)) q p t' (omega arith) (omega arith)
        ∙ (let (same_q, same_p, same_t) = same_conn q p r z t t' here in
            rw (here, same_q, same_p, same_t) refl)
    | inr elsewhere ↦
        entry s.slist r z t (some (conn r z t)) q p t' (omega arith) (omega arith)
        ∙ rw (elsewhere) (w.calls q p t' l b (made_old s.left r z t cs q p t' e elsewhere m))
  ];
  answers = λ q p t' l b m. elim (Bool-cases ((q == r && p == z) && is_sock t' t)) [
    | inl here ↦
        let (same_q, same_p, same_t) = same_conn q p r z t t' here in
        inr (rw (same_q, same_p, same_t) (new_waits s.pending z t r))
    | inr elsewhere ↦ elim (w.answers q p t' l b (made_old s.left r z t cs q p t' e elsewhere m)) [
      | inl stored ↦ inl (
          entry s.slist r z t (some (conn r z t)) p q t' (omega arith) (omega arith)
          ∙ rw (other_way q p r z t t' l later) stored)
      | inr waiting ↦ inr (more_wait s.pending z t (record { rank = r; type = t }) q p t' waiting)
    ]
  ];
  right_ones = λ p t' b. connect_right s.pending r z t p t' later (λ t''. w.right_ones p t'' b);
}

accept-Wired :
    (n : ℕ) (s : Network) (r : ℕ) (t : Sock) (cs : List Call) (id : SockId) (ids : List SockId)
    → Wired n s
    → r < n
    → s.left r ≡ accept t ∷ cs
    → s.pending r t ≡ id ∷ ids
    → Wired n (record s {
      left = at s.left r cs;
      pending = at_sock s.pending r t ids;
      slist = at s.slist r (
          at_sock
            (s.slist r)
            (rank2idx r id.rank)
            id.type
            (some (record { from = id.rank; to = r; type = id.type })));
    })
accept-Wired n s r t cs id ids w b e d =
    let (less, type) = first_right s.pending r t id ids d (w.right_ones r t b) in
    let new = entry s.slist r id.rank id.type (some (conn id.rank r id.type)) in
    record {
      calls = λ q p t' l c m.
          new q p t' (omega arith) (omega arith)
          ∙ rw (own_way q p r id.rank id.type t' l less)
              (w.calls q p t' l c (made_before s.left r q p t' (accept t) cs e refl m));
      answers = λ q p t' l c m. elim (Bool-cases ((p == r && q == id.rank) && is_sock t' id.type)) [
        | inl here ↦
            let (same_p, same_q, same_t) = same_conn p q r id.rank id.type t' here in
            inl (new p q t' (omega arith) (omega arith) ∙ rw (here, same_q, same_p, same_t) refl)
        | inr elsewhere ↦
            elim (w.answers q p t' l c (made_before s.left r q p t' (accept t) cs e refl m)) [
              | inl stored ↦ inl (new p q t' (omega arith) (omega arith) ∙ rw (elsewhere) stored)
              | inr waiting ↦
                  inr (accept_waits s.pending r t id ids q p t' d type elsewhere waiting)
            ]
      ];
      right_ones = λ p t' c. accept_right s.pending r t id ids p t' d (w.right_ones p t' c);
    }

Step-Wired : (n : ℕ) (s s' : Network) → Inv n s → Wired n s → Step n s s' → Wired n s'
Step-Wired n s _ i w (listens r {cs} b e) = quiet-Wired n s r listen cs w e (λ p t. refl)
Step-Wired n s _ i w (closes r {cs} b e) = quiet-Wired n s r close cs w e (λ p t. refl)
Step-Wired n s _ i w (accepts_one r t {cs} {id} {ids} b e d) =
    accept-Wired n s r t cs id ids w b e d
Step-Wired n s _ i w (connects_one r z t {cs} b e ready) =
    connect-Wired n s r z t cs w e (comes_later n r z t cs (s.left r) (i.places r b) e).0

run-Wired :
    (n : ℕ) (s : Network) (k : ℕ) (s' : Network) → Inv n s → Wired n s → Run n s k s' → Wired n s'
run-Wired n s _ _ i w stays = w
run-Wired n s _ _ i w (moves {k} {a} {b} run step) =
    Step-Wired n a b (run-Inv n s k a i run).0 (run-Wired n s k a i w run) step

-- When every process has returned, each of two processes holds, in its entry for the other and for each
-- type of socket, one end of the connection that the one with the lower rank has made, whatever the
-- order in which the calls of all processes have come.
pub network_lem :
    (n k : ℕ) (s : Network) (q p : ℕ) (t : Sock)
    → Run n (start n) k s
    → Finished n s
    → q < p
    → p < n
    → (s.slist q (rank2idx q p) t ≡ some (conn q p t))
      × (s.slist p (rank2idx p q) t ≡ some (conn q p t))
unfolding how_many waits
network_lem n k s q p t run f l b =
    let i = (run-Inv n (start n) k s (start-Inv n) run).0 in
    let w = run-Wired n (start n) k s (start-Inv n) (start-Wired n) run in
    let made : Made s q p t = none_left (s.left q) (f q (omega arith)) in
    let none_waits : s.pending p t ≡ [] =
      no_length (s.pending p t) (omega (arith, i.balance p t b, none_accepts (s.left p) (f p b))) in
    (
      w.calls q p t l b made,
      elim (w.answers q p t l b made) [
        | inl stored ↦ stored
        | inr waiting ↦
            let no_one : false ≡ true = ap (waits q) (sym none_waits) ∙ waiting in absurd cc
      ],
    )
  where
    none_left : (cs : List Call) → cs ≡ [] → how_many (is_connect p t) cs ≡ 0
    none_left cs e = ap (how_many (is_connect p t)) e

    none_accepts : (cs : List Call) → cs ≡ [] → how_many (is_accept t) cs ≡ 0
    none_accepts cs e = ap (how_many (is_accept t)) e

    no_length : (ids : List SockId) → length ids ≡ 0 → ids ≡ []
    no_length [] e = refl
    no_length (id ∷ ids) e = absurd (omega arith)
