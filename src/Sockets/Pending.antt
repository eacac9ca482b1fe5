-- ===== src/Sockets/Pending.antt =====
-- How many connections wait at the listeners of libdsys/sockets.c.
use libdsys.Prelude.{
  ℕ, zero, suc, ◌+◌, ◌<◌, ltb, inl, inr, ◌≡◌, refl, ap, ◌∙◌, Bool, true, false, List, [], ◌∷◌, ◌++◌,
  arith, ◌==◌, if◌then◌else◌, length, Bool-cases,
}
use libdsys.Sockets.{
  Sock, req_sock, data_sock, Call, listen, close, accept, connect, programme, how_many, at, at_sock,
  Network, start, Step, listens, accepts_one, closes, connects_one, SockId,
}
use libdsys.Sockets.Programs.{
  At, before, is_accept, is_connect, next_place, comes_later, accepts_to_come, connects_to_come,
}
use libdsys.Sockets.Sums.{sum_below, sum_after, sum_at, coming}

-- The balance of the listeners: each accept that a process has still to make has a connection, which
-- either waits or is still to be made.
pub record Inv (n : ℕ) (s : Network) : Type 0 where
  pub places : (r : ℕ) → r < n → At n r (s.left r)
  pub balance :
      (p : ℕ) (t : Sock)
      → p < n
      → length (s.pending p t) + coming s.left p t ≡ how_many (is_accept t) (s.left p)

-- What a call changes in the balance of `p` and `t`.
left_accepts :
    (left : ℕ → List Call) (r p : ℕ) (t : Sock) (c : Call) (cs : List Call)
    → left r ≡ c ∷ cs
    → how_many (is_accept t) (at left r cs p) + (if p == r then is_accept t c else 0)
      ≡ how_many (is_accept t) (left p)
unfolding how_many
left_accepts left r p t c cs e = elim (Bool-cases (p == r)) [
  | inl here ↦ let same : p ≡ r = ground arith in rw (here, same, e) (omega arith)
  | inr elsewhere ↦ rw (elsewhere) (omega arith)
]

left_connects :
    (left : ℕ → List Call) (r p : ℕ) (t : Sock) (c : Call) (cs : List Call)
    → left r ≡ c ∷ cs
    → coming (at left r cs) p t + (if ltb r p then is_connect p t c else 0) ≡ coming left p t
unfolding how_many
left_connects left r p t c cs e = elim (Bool-cases (ltb r p)) [
  | inl first ↦
      let here : how_many (is_connect p t) (left r)
          ≡ is_connect p t c + how_many (is_connect p t) cs =
        rw (e) refl in
      rw (first)
        (omega (arith, sum_at left r cs (how_many (is_connect p t)) p (ground arith), here))
  | inr later ↦
      rw (later, sum_after left r cs (how_many (is_connect p t)) p (ground arith)) (omega arith)
]

ones : (f : ℕ → ℕ) (k : ℕ) → ((q : ℕ) → q < k → f q ≡ 1) → sum_below f k ≡ k
unfolding sum_below
ones f zero h = refl
ones f (suc k) h = rw (h k (omega arith), ones f k (λ q b. h q (omega arith))) (omega arith)

pub start-Inv : (n : ℕ) → Inv n (start n)
unfolding start
start-Inv n = record {
  places = λ r b. before;
  balance = λ p t b. rw (accepts_to_come n p t) (
      omega (
        arith,
        ones (λ q. how_many (is_connect p t) (programme n q)) p
            (λ q c. connects_to_come n q p t c b),
      ));
}

next_places :
    (n r : ℕ) (left : ℕ → List Call) (c : Call) (cs : List Call)
    → ((x : ℕ) → x < n → At n x (left x))
    → left r ≡ c ∷ cs
    → (x : ℕ) → x < n
    → At n x (at left r cs x)
next_places n r left c cs places e x b = elim (Bool-cases (x == r)) [
  | inl here ↦
      let same : x ≡ r = ground arith in
      let next : At n x cs = next_place n x c cs (left x) b (places x b) (ap left same ∙ e) in
      rw (here) next
  | inr elsewhere ↦ rw (elsewhere) (places x b)
]

length-at_end : (xs : List SockId) (x : SockId) → length (xs ++ (x ∷ [])) ≡ length xs + 1
length-at_end [] x = refl
length-at_end (y ∷ ys) x = rw (length-at_end ys x) (omega arith)

accept_here :
    (pending : ℕ → Sock → List SockId) (r : ℕ) (t t' : Sock) (id : SockId) (ids : List SockId)
    → pending r t ≡ id ∷ ids
    → r == r ≡ true
    → length (at_sock pending r t ids r t') + (if r == r then is_accept t' (accept t) else 0)
      ≡ length (pending r t')
accept_here pending r req_sock req_sock id ids e d = rw (d, e) (omega arith)
accept_here pending r req_sock data_sock id ids e d = rw (d) (omega arith)
accept_here pending r data_sock req_sock id ids e d = rw (d) (omega arith)
accept_here pending r data_sock data_sock id ids e d = rw (d, e) (omega arith)

accept_pending :
    (pending : ℕ → Sock → List SockId) (r p : ℕ) (t t' : Sock) (id : SockId) (ids : List SockId)
    → pending r t ≡ id ∷ ids
    → length (at_sock pending r t ids p t') + (if p == r then is_accept t' (accept t) else 0)
      ≡ length (pending p t')
accept_pending pending r p t t' id ids e = elim (Bool-cases (p == r)) [
  | inl here ↦
      let same : p ≡ r = ground arith in
      rw (same) (accept_here pending r t t' id ids e (ground arith))
  | inr elsewhere ↦ rw (elsewhere) (omega arith)
]

connect_here :
    (pending : ℕ → Sock → List SockId) (r q : ℕ) (t t' : Sock) (id : SockId)
    → q == q ≡ true
    → ltb r q ≡ true
    → length (at_sock pending q t (pending q t ++ (id ∷ [])) q t')
      ≡ length (pending q t') + (if ltb r q then is_connect q t' (connect q t) else 0)
connect_here pending r q req_sock req_sock id d l = rw (d, l) (length-at_end _ id)
connect_here pending r q req_sock data_sock id d l = rw (d, l) (omega arith)
connect_here pending r q data_sock req_sock id d l = rw (d, l) (omega arith)
connect_here pending r q data_sock data_sock id d l = rw (d, l) (length-at_end _ id)

-- A connection to another process does not count.
not_counted :
    (r q p : ℕ) (t t' : Sock)
    → p == q ≡ false
    → (if ltb r p then is_connect p t' (connect q t) else 0) ≡ 0
not_counted r q p t t' e = let other : q == p ≡ false = ground arith in rw (other) (ground arith)

connect_pending :
    (pending : ℕ → Sock → List SockId) (r q p : ℕ) (t t' : Sock) (id : SockId)
    → r < q
    → length (at_sock pending q t (pending q t ++ (id ∷ [])) p t')
      ≡ length (pending p t') + (if ltb r p then is_connect p t' (connect q t) else 0)
connect_pending pending r q p t t' id later = elim (Bool-cases (p == q)) [
  | inl here ↦
      let same : p ≡ q = ground arith in
      rw (same) (connect_here pending r q t t' id (ground arith) (ground arith))
  | inr elsewhere ↦ rw (elsewhere, not_counted r q p t t' elsewhere) (omega arith)
]

pub not_if : (b : Bool) (x : ℕ) → x ≡ 0 → (if b then x else 0) ≡ 0
not_if true x e = e
not_if false x e = refl

pub Step-Inv : (n : ℕ) (s s' : Network) → Inv n s → Step n s s' → Inv n s'
Step-Inv n s _ i (listens r {cs} b e) = record {
  places = next_places n r s.left listen cs i.places e;
  balance = λ p t c. omega (
    arith,
    i.balance p t c,
    left_accepts s.left r p t listen cs e,
    left_connects s.left r p t listen cs e,
    not_if (p == r) (is_accept t listen) refl,
    not_if (ltb r p) (is_connect p t listen) refl,
  );
}
Step-Inv n s _ i (closes r {cs} b e) = record {
  places = next_places n r s.left close cs i.places e;
  balance = λ p t c. omega (
    arith,
    i.balance p t c,
    left_accepts s.left r p t close cs e,
    left_connects s.left r p t close cs e,
    not_if (p == r) (is_accept t close) refl,
    not_if (ltb r p) (is_connect p t close) refl,
  );
}
Step-Inv n s _ i (accepts_one r t {cs} {id} {ids} b e w) = record {
  places = next_places n r s.left (accept t) cs i.places e;
  balance = λ p t' c. omega (
    arith,
    i.balance p t' c,
    left_accepts s.left r p t' (accept t) cs e,
    left_connects s.left r p t' (accept t) cs e,
    not_if (ltb r p) (is_connect p t' (accept t)) refl,
    accept_pending s.pending r p t t' id ids w,
  );
}
Step-Inv n s _ i (connects_one r q t {cs} b e ready) =
    let (later, inside) = comes_later n r q t cs (s.left r) (i.places r b) e in
    record {
      places = next_places n r s.left (connect q t) cs i.places e;
      balance = λ p t' c. omega (
        arith,
        i.balance p t' c,
        left_accepts s.left r p t' (connect q t) cs e,
        left_connects s.left r p t' (connect q t) cs e,
        not_if (p == r) (is_accept t' (connect q t)) refl,
        connect_pending s.pending r q p t t' (record { rank = r; type = t }) later,
      );
    }
