-- ===== src/Sockets/Progress.antt =====
-- The processes of libdsys/sockets.c do not wait for each other in a circle.
use libdsys.Prelude.{
  ℕ, zero, suc, ◌+◌, ◌-◌, ◌*◌, ◌<◌, ◌≤◌, ◌⊎◌, inl, inr, ◌≡◌, refl, ap, ◌∙◌, true, List, [], ◌∷◌,
  ◌++◌, arith, ◌==◌, length,
}
use libdsys.Sockets.{
  Sock, req_sock, data_sock, Call, listen, close, accept, connect, accepts, connects, programme,
  how_many, at, Network, start, Step, listens, accepts_one, closes, connects_one, Run, stays, moves,
  Finished, SockId, is_sock,
}
use libdsys.Sockets.Programs.{
  is_accept, is_connect, comes_later, listens_first, has_closed, last_part,
}
use libdsys.Sockets.Sums.{sum_below, sum_at, coming}
use libdsys.Sockets.Pending.{Inv, start-Inv, Step-Inv}

-- The calls that are still to be made.
abbrev pub total : ℕ → Network → ℕ
total n s = sum_below (λ r. length (s.left r)) n

-- The first process that has not finished.
record First (s : Network) (n : ℕ) : Type 0 where
  r : ℕ
  c : Call
  cs : List Call
  inside : r < n
  next : s.left r ≡ c ∷ cs
  others : (q : ℕ) → q < r → s.left q ≡ []

earliest_of :
    (s : Network) (n : ℕ) (todo : List Call)
    → s.left n ≡ todo
    → Finished n s
    → Finished (suc n) s ⊎ First s (suc n)
earliest_of s n [] e f =
    inl
      (λ r b. elim (at_end r (omega arith)) [ inl less ↦ f r less | inr same ↦ ap s.left same ∙ e ])
  where
    at_end : (r : ℕ) → r ≤ n → (r < n) ⊎ (r ≡ n)
    at_end r b = omega arith
earliest_of s n (c ∷ cs) e f =
    inr (record { r = n; c = c; cs = cs; inside = omega arith; next = e; others = f })

earliest_left : (s : Network) (n : ℕ) → Finished n s ⊎ First s n
earliest_left s zero = inl (λ r b. absurd (omega arith))
earliest_left s (suc n) = elim (earliest_left s n) [
  | inl f ↦ earliest_of s n (s.left n) refl f
  | inr h ↦ inr (record {
    r = h.r;
    c = h.c;
    cs = h.cs;
    inside = omega (arith, h.inside);
    next = h.next;
    others = h.others;
  })
]

zeros : (f : ℕ → ℕ) (k : ℕ) → ((q : ℕ) → q < k → f q ≡ 0) → sum_below f k ≡ 0
unfolding sum_below
zeros f zero h = refl
zeros f (suc k) h = rw (h k (omega arith), zeros f k (λ q b. h q (omega arith))) refl

term-sum_below : (f : ℕ → ℕ) (k r : ℕ) → r < k → f r ≤ sum_below f k
unfolding sum_below
term-sum_below f zero r b = absurd (omega arith)
term-sum_below f (suc k) r b = elim (at_end (omega arith)) [
  | inl c ↦ omega (arith, term-sum_below f k r c)
  | inr same ↦ omega (arith, ap f same)
]
  where
    at_end : r ≤ k → (r < k) ⊎ (r ≡ k)
    at_end b = omega arith

pub is_sock_same : (t : Sock) → is_sock t t ≡ true
is_sock_same req_sock = refl
is_sock_same data_sock = refl

-- Nothing is to come for a listener when all processes before it have finished.
none_coming :
    (s : Network) (r : ℕ) (t : Sock) → ((q : ℕ) → q < r → s.left q ≡ []) → coming s.left r t ≡ 0
unfolding how_many
none_coming s r t f = zeros _ r (λ q b. ap (how_many (is_connect r t)) (f q b))

one_to_accept :
    (cs rest : List Call) (t : Sock) → cs ≡ accept t ∷ rest → 0 < how_many (is_accept t) cs
unfolding how_many
one_to_accept cs rest t e = rw (e, is_sock_same t) (omega arith)

one_to_connect :
    (cs rest : List Call) (p : ℕ) (t : Sock)
    → cs ≡ connect p t ∷ rest
    → 0 < how_many (is_connect p t) cs
unfolding how_many
one_to_connect cs rest p t e =
    let same : p == p ≡ true = ground arith in rw (e, same, is_sock_same t) (omega arith)

accept_pending :
    (n : ℕ) (s : Network) (r : ℕ) (t : Sock) (cs : List Call) (ids : List SockId)
    → r < n
    → s.left r ≡ accept t ∷ cs
    → s.pending r t ≡ ids
    → 0 < length ids
    → (s' : Network) × Step n s s'
accept_pending n s r t cs [] b e w l = absurd (omega arith)
accept_pending n s r t cs (id ∷ ids) b e w l = (_, accepts_one r t b e w)

-- The first process that has not finished can go on, or the one that it wants to connect to can.
can_go_on :
    (n : ℕ) (s : Network)
    → Inv n s
    → (r : ℕ) (c : Call) (cs : List Call) → r < n
    → s.left r ≡ c ∷ cs
    → ((q : ℕ) → q < r → s.left q ≡ [])
    → (s' : Network) × Step n s s'
can_go_on n s i r listen cs b e f = (_, listens r b e)
can_go_on n s i r close cs b e f = (_, closes r b e)
can_go_on n s i r (accept t) cs b e f =
    accept_pending n s r t cs (s.pending r t) b e refl
      (omega (arith, i.balance r t b, none_coming s r t f, one_to_accept (s.left r) cs t e))
can_go_on n s i r (connect p t) cs b e f =
    let (later, inside) = comes_later n r p t cs (s.left r) (i.places r b) e in
    elim (listens_first n p (s.left p) (i.places p inside)) [
      | inl (rest, d) ↦ (_, listens p inside d)
      | inr created ↦ elim (has_closed n p (s.left p) (i.places p inside) created) [
        | inl opened ↦ (_, connects_one r p t b e (created, opened))
        | inr closed ↦ absurd (
            omega (
              arith,
              i.balance p t inside,
              closed t,
              one_to_connect (s.left r) cs p t e,
              term-sum_below (λ q. how_many (is_connect p t) (s.left q)) p r later,
            ))
      ]
    ]

total_step :
    (n : ℕ) (left : ℕ → List Call) (r : ℕ) (c : Call) (cs : List Call)
    → r < n
    → left r ≡ c ∷ cs
    → sum_below (λ q. length (left q)) n ≡ suc (sum_below (λ q. length (at left r cs q)) n)
total_step n left r c cs b e =
    let here : length (left r) ≡ suc (length cs) = rw (e) refl in
    omega (arith, sum_at left r cs length n b)

-- Each step is one call.
Step-total : (n : ℕ) (s s' : Network) → Step n s s' → total n s ≡ suc (total n s')
Step-total n s _ (listens r {cs} b e) = total_step n s.left r listen cs b e
Step-total n s _ (closes r {cs} b e) = total_step n s.left r close cs b e
Step-total n s _ (accepts_one r t {cs} {id} {ids} b e w) = total_step n s.left r (accept t) cs b e
Step-total n s _ (connects_one r q t {cs} b e ready) = total_step n s.left r (connect q t) cs b e

pub run-Inv :
    (n : ℕ) (s : Network) (k : ℕ) (s' : Network)
    → Inv n s
    → Run n s k s'
    → Inv n s' × (total n s ≡ k + total n s')
run-Inv n s _ _ i stays = (i, omega arith)
run-Inv n s _ _ i (moves {k} {a} {b} run step) =
    let (j, e) = run-Inv n s k a i run in
    (Step-Inv n a b j step, omega (arith, e, Step-total n a b step))

first_step :
    (n : ℕ) (a b : Network) (k : ℕ) (c : Network) → Step n a b → Run n b k c → Run n a (suc k) c
first_step n a b _ _ step stays = moves stays step
first_step n a b _ _ step (moves {k} {a = d} run last) = moves (first_step n a b k d step run) last

finish :
    (n m : ℕ) (s : Network)
    → Inv n s
    → total n s ≡ m
    → (s' : Network) × Run n s m s' × Finished n s'
finish n zero s i e = elim (earliest_left s n) [
  | inl f ↦ (s, stays, f)
  | inr h ↦
      let some_left : length (s.left h.r) ≡ suc (length h.cs) = ap length h.next in
      absurd (omega (arith, term-sum_below (λ r. length (s.left r)) n h.r h.inside))
]
finish n (suc m) s i e = elim (earliest_left s n) [
  | inl f ↦ absurd (omega (arith, zeros (λ r. length (s.left r)) n (λ r b. ap length (f r b))))
  | inr h ↦
      let (next, step) = can_go_on n s i h.r h.c h.cs h.inside h.next h.others in
      let (s', run, f) =
        finish n m next (Step-Inv n s next i step) (omega (arith, Step-total n s next step)) in
      (s', first_step n s next m s' step run, f)
]

length-accepts : (i : ℕ) (cs : List Call) → length (accepts i ++ cs) ≡ i + i + length cs
unfolding accepts
length-accepts zero cs = omega arith
length-accepts (suc i) cs = omega (arith, length-accepts i cs)

length-connects : (i m : ℕ) → length (connects i m) ≡ m + m
unfolding connects
length-connects i zero = refl
length-connects i (suc m) = omega (arith, length-connects (suc i) m)

length-programme : (n r : ℕ) → r < n → length (programme n r) ≡ n + n
unfolding programme
length-programme n r b =
    omega (arith, length-accepts r (last_part n r), length-connects (suc r) (n - suc r))

all_alike : (f : ℕ → ℕ) (k x : ℕ) → ((q : ℕ) → q < k → f q ≡ x) → sum_below f k ≡ k * x
unfolding sum_below
all_alike f zero x h = omega arith
all_alike f (suc k) x h =
    rw (h k (omega arith), all_alike f k x (λ q b. h q (omega arith))) (grind arith)

total-start : (n : ℕ) → total n (start n) ≡ n * (n + n)
unfolding start
total-start n = all_alike (λ r. length (programme n r)) n (n + n) (λ r b. length-programme n r b)

-- However the calls of `n` processes have interleaved so far, the processes can go on until each of
-- them has returned, and that takes n * 2n calls in all, those of the past included.
pub network_completes :
    (n k : ℕ) (s : Network)
    → Run n (start n) k s
    → (m : ℕ) × (k + m ≡ n * (n + n)) × (s' : Network) × Run n s m s' × Finished n s'
network_completes n k s run =
    let (i, e) = run-Inv n (start n) k s (start-Inv n) run in
    let (s', rest, f) = finish n (total n s) s i refl in
    (total n s, omega (arith, total-start n), s', rest, f)
