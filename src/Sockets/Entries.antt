-- ===== src/Sockets/Entries.antt =====
-- The entries of the tables of libdsys/sockets.c, and which connections have been made.
use libdsys.Prelude.{
  ℕ, ◌+◌, ◌<◌, inl, inr, ◌≡◌, ◌≢◌, refl, ap, ◌∙◌, Bool, true, false, ◌&&◌, List, ◌∷◌, arith, ◌==◌,
  Option, if◌then◌else◌, Bool-cases,
}
use libdsys.Net.{rank2idx}
use libdsys.Sockets.{Sock, req_sock, data_sock, Call, connect, how_many, at, at_sock, Conn, is_sock}
use libdsys.Sockets.Programs.{is_connect}
use libdsys.Sockets.Sums.{at_same, at_other}
use libdsys.Sockets.Pending.{not_if}

abbrev pub Slist : Type 0
Slist = ℕ → ℕ → Sock → Option Conn

abbrev pub conn : ℕ → ℕ → Sock → Conn
conn q p t = record { from = q; to = p; type = t }

-- An entry of the table after one has been written.
pub written :
    (slist : Slist) (r i : ℕ) (t : Sock) (v : Option Conn) (p j : ℕ) (t' : Sock)
    → at slist r (at_sock (slist r) i t v) p j t'
      ≡ (if p == r && (j == i && is_sock t' t) then v else slist p j t')
written slist r i t v p j t' = elim (Bool-cases (p == r)) [
  | inl here ↦
      let same : p ≡ r = ground arith in
      rw (at_same slist r p (at_sock (slist r) i t v) here, here, same) refl
  | inr elsewhere ↦ rw (at_other slist r p (at_sock (slist r) i t v) elsewhere, elsewhere) refl
]

-- A call that is not a connection makes none.
pub not_made :
    (left : ℕ → List Call) (r q p : ℕ) (t : Sock) (c : Call) (cs : List Call)
    → left r ≡ c ∷ cs
    → how_many (is_connect p t) (at left r cs q) + (if q == r then is_connect p t c else 0)
      ≡ how_many (is_connect p t) (left q)
unfolding how_many
not_made left r q p t c cs e = elim (Bool-cases (q == r)) [
  | inl here ↦ let same : q ≡ r = ground arith in rw (here, same, e) (omega arith)
  | inr elsewhere ↦ rw (elsewhere) (omega arith)
]

pub and_cases : (a b : Bool) → (a && b) ≡ true → (a ≡ true) × (b ≡ true)
and_cases true b e = (refl, e)
and_cases false b e = absurd cc

pub and_regroup : (a b c : Bool) → (a && (b && c)) ≡ ((a && b) && c)
and_regroup true b c = refl
and_regroup false b c = refl

pub is_sock_eq : (t t' : Sock) → is_sock t t' ≡ true → t ≡ t'
is_sock_eq req_sock req_sock e = refl
is_sock_eq req_sock data_sock e = absurd cc
is_sock_eq data_sock req_sock e = absurd cc
is_sock_eq data_sock data_sock e = refl

pub is_sock_sym : (t t' : Sock) → is_sock t t' ≡ is_sock t' t
is_sock_sym req_sock req_sock = refl
is_sock_sym req_sock data_sock = refl
is_sock_sym data_sock req_sock = refl
is_sock_sym data_sock data_sock = refl

-- The entry of `x` for `y` after `r` has written its entry for `z`.
pub same_place :
    (x y r z : ℕ) → x ≢ y → r ≢ z → (x == r && rank2idx x y == rank2idx r z) ≡ (x == r && y == z)
unfolding rank2idx
same_place x y r z d e = ground (arith, d, e)

pub entry :
    (slist : Slist) (r z : ℕ) (t : Sock) (v : Option Conn) (x y : ℕ) (t' : Sock)
    → x ≢ y
    → r ≢ z
    → at slist r (at_sock (slist r) (rank2idx r z) t v) x (rank2idx x y) t'
      ≡ (if (x == r && y == z) && is_sock t' t then v else slist x (rank2idx x y) t')
entry slist r z t v x y t' d e =
    written slist r (rank2idx r z) t v x (rank2idx x y) t'
    ∙ ap (λ b. if b then v else slist x (rank2idx x y) t')
        (and_regroup (x == r) (rank2idx x y == rank2idx r z) (is_sock t' t)
          ∙ ap (λ b. b && is_sock t' t) (same_place x y r z d e))

-- A step without a connection.
pub made_before :
    (left : ℕ → List Call) (r q p : ℕ) (t : Sock) (c : Call) (cs : List Call)
    → left r ≡ c ∷ cs
    → is_connect p t c ≡ 0
    → how_many (is_connect p t) (at left r cs q) ≡ 0
    → how_many (is_connect p t) (left q) ≡ 0
made_before left r q p t c cs e none_made m =
    omega (arith, not_made left r q p t c cs e, not_if (q == r) (is_connect p t c) none_made)

pub same_both : (a : Bool) (t t' : Sock) → (a && is_sock t' t) ≡ true → (a ≡ true) × (t' ≡ t)
same_both a t t' e =
    let (yes_a, yes_t) = and_cases a (is_sock t' t) e in (yes_a, is_sock_eq t' t yes_t)

pub is_same : (p z : ℕ) → p == z ≡ true → p ≡ z
is_same p z e = ground arith

pub same_conn :
    (q p r z : ℕ) (t t' : Sock)
    → ((q == r && p == z) && is_sock t' t) ≡ true
    → (q ≡ r) × (p ≡ z) × (t' ≡ t)
same_conn q p r z t t' e =
    let (ranks, type) = same_both (q == r && p == z) t t' e in
    let (same_q, same_p) = and_cases (q == r) (p == z) ranks in
    (is_same q r same_q, is_same p z same_p, type)

-- A connection that is not the new one has been made before.
pub made_old :
    (left : ℕ → List Call) (r z : ℕ) (t : Sock) (cs : List Call) (q p : ℕ) (t' : Sock)
    → left r ≡ connect z t ∷ cs
    → ((q == r && p == z) && is_sock t' t) ≡ false
    → how_many (is_connect p t') (at left r cs q) ≡ 0
    → how_many (is_connect p t') (left q) ≡ 0
made_old left r z t cs q p t' e other m =
    omega (arith, not_made left r q p t' (connect z t) cs e, not_this)
  where
    not_this : (if q == r then is_connect p t' (connect z t) else 0) ≡ 0
    not_this = rw (is_sock_sym t t') (ground arith)

-- A caller's entry is not a listener's.
pub other_way :
    (q p r z : ℕ) (t t' : Sock) → q < p → r < z → ((p == r && q == z) && is_sock t' t) ≡ false
other_way q p r z t t' l m =
    let different : (p == r && q == z) ≡ false = ground (arith, l, m) in rw (different) refl

pub own_way :
    (q p r z : ℕ) (t t' : Sock) → q < p → z < r → ((q == r && p == z) && is_sock t' t) ≡ false
own_way q p r z t t' l m =
    let different : (q == r && p == z) ≡ false = ground (arith, l, m) in rw (different) refl
