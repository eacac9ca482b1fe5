-- ===== src/Sockets/Programs.antt =====
-- Where a process can be in its calls of `__bc_socket_network_create`, libdsys/sockets.c.
use libdsys.Prelude.{
  ℕ, zero, suc, ◌+◌, ◌-◌, ◌<◌, leb, ltb, ◌⊎◌, inl, inr, ◌≡◌, refl, ap, List, [], ◌∷◌, ◌++◌, arith,
  ◌==◌, ◌&&◌, if◌then◌else◌,
}
use libdsys.Sockets.{
  Sock, req_sock, data_sock, Call, listen, close, accept, connect, accepts, connects, programme,
  how_many, is_listen, is_close, is_sock,
}

-- The calls that come after the accepts.
abbrev pub last_part : ℕ → ℕ → List Call
last_part n r = close ∷ connects (suc r) (n - suc r)

-- What a process can have left.
pub data At (n r : ℕ) : List Call → Type 0 where
  before : At n r (programme n r)
  accepting : (i : ℕ) → At n r (accepts i ++ last_part n r)
  half_accepted : (i : ℕ) → At n r (accept data_sock ∷ (accepts i ++ last_part n r))
  connecting : (i m : ℕ) → r < i → i + m ≡ n → At n r (connects i m)
  half_connected :
      (i m : ℕ) → r < i → suc i + m ≡ n → At n r (connect i data_sock ∷ connects (suc i) m)

-- Accepts and connections of a kind.
abbrev pub is_accept : Sock → Call → ℕ
is_accept t listen = 0
is_accept t close = 0
is_accept t (accept t') = if is_sock t' t then 1 else 0
is_accept t (connect p t') = 0

abbrev pub is_connect : ℕ → Sock → Call → ℕ
is_connect p t listen = 0
is_connect p t close = 0
is_connect p t (accept t') = 0
is_connect p t (connect p' t') = if p' == p && is_sock t' t then 1 else 0

how_many-append :
    (is : Call → ℕ) (xs ys : List Call) → how_many is (xs ++ ys) ≡ how_many is xs + how_many is ys
unfolding how_many
how_many-append is [] ys = omega arith
how_many-append is (x ∷ xs) ys = rw (how_many-append is xs ys) (omega arith)

abbrev tail : List Call → List Call
tail [] = []
tail (c ∷ cs) = cs

tail_place : (n r : ℕ) (ds : List Call) → r < n → At n r ds → At n r (tail ds)
unfolding programme accepts connects
tail_place n r _ b before = accepting r
tail_place n r _ b (accepting zero) = connecting (suc r) (n - suc r) (omega arith) (omega arith)
tail_place n r _ b (accepting (suc i)) = half_accepted i
tail_place n r _ b (half_accepted i) = accepting i
tail_place n r _ b (connecting i zero l e) = connecting i zero l e
tail_place n r _ b (connecting i (suc m) l e) = half_connected i m l (omega arith)
tail_place n r _ b (half_connected i m l e) = connecting (suc i) m (omega arith) e

-- What a process has left after a call is again such a place.
pub next_place :
    (n r : ℕ) (c : Call) (cs ds : List Call) → r < n → At n r ds → ds ≡ c ∷ cs → At n r cs
next_place n r c cs ds b a e = rw⁻¹ (ap tail e) (tail_place n r ds b a)

none_in_accepts :
    (is : Call → ℕ) (i : ℕ) → ((t : Sock) → is (accept t) ≡ 0) → how_many is (accepts i) ≡ 0
unfolding how_many accepts
none_in_accepts is zero h = refl
none_in_accepts is (suc i) h = rw (h req_sock, h data_sock, none_in_accepts is i h) refl

none_in_connects :
    (is : Call → ℕ) (i m : ℕ)
    → ((p : ℕ) (t : Sock) → is (connect p t) ≡ 0)
    → how_many is (connects i m) ≡ 0
unfolding how_many connects
none_in_connects is i zero h = refl
none_in_connects is i (suc m) h =
    rw (h i req_sock, h i data_sock, none_in_connects is (suc i) m h) refl

only_close :
    (is : Call → ℕ) (n r i : ℕ)
    → ((t : Sock) → is (accept t) ≡ 0)
    → ((p : ℕ) (t : Sock) → is (connect p t) ≡ 0)
    → how_many is (accepts i ++ last_part n r) ≡ is close
unfolding how_many
only_close is n r i h g =
    rw
      (
        how_many-append is (accepts i) (last_part n r),
        none_in_accepts is i h,
        none_in_connects is (suc r) (n - suc r) g,
      )
      (omega arith)

-- Only a process that has made no call has still to create its listeners.
pub listens_first :
    (n r : ℕ) (ds : List Call)
    → At n r ds
    → ((cs : List Call) × (ds ≡ listen ∷ cs)) ⊎ (how_many is_listen ds ≡ 0)
unfolding how_many programme
listens_first n r _ before = inl (_, refl)
listens_first n r _ (accepting i) = inr (only_close is_listen n r i (λ t. refl) (λ p t. refl))
listens_first n r _ (half_accepted i) =
    inr (omega (arith, only_close is_listen n r i (λ t. refl) (λ p t. refl)))
listens_first n r _ (connecting i m l e) = inr (none_in_connects is_listen i m (λ p t. refl))
listens_first n r _ (half_connected i m l e) =
    inr (omega (arith, none_in_connects is_listen (suc i) m (λ p t. refl)))

-- A process that has its listeners has closed them when it has nothing to accept.
pub has_closed :
    (n r : ℕ) (ds : List Call)
    → At n r ds
    → how_many is_listen ds ≡ 0
    → (how_many is_close ds ≡ 1) ⊎ ((t : Sock) → how_many (is_accept t) ds ≡ 0)
unfolding how_many programme
has_closed n r _ before created = absurd (omega arith)
has_closed n r _ (accepting i) created = inl (only_close is_close n r i (λ t. refl) (λ p t. refl))
has_closed n r _ (half_accepted i) created =
    inl (omega (arith, only_close is_close n r i (λ t. refl) (λ p t. refl)))
has_closed n r _ (connecting i m l e) created =
    inr (λ t. none_in_connects (is_accept t) i m (λ p t'. refl))
has_closed n r _ (half_connected i m l e) created =
    inr (λ t. omega (arith, none_in_connects (is_accept t) (suc i) m (λ p t'. refl)))

-- A process connects to those after it.
pub comes_later :
    (n r p : ℕ) (t : Sock) (cs ds : List Call)
    → At n r ds
    → ds ≡ connect p t ∷ cs
    → (r < p) × (p < n)
unfolding programme accepts connects
comes_later n r p t cs _ before e = absurd cc
comes_later n r p t cs _ (accepting zero) e = absurd cc
comes_later n r p t cs _ (accepting (suc i)) e = absurd cc
comes_later n r p t cs _ (half_accepted i) e = absurd cc
comes_later n r p t cs _ (connecting i zero l b) e = absurd cc
comes_later n r p t cs _ (connecting i (suc m) l b) e =
    let same : i ≡ p = cc in (omega arith, omega arith)
comes_later n r p t cs _ (half_connected i m l b) e =
    let same : i ≡ p = cc in (omega arith, omega arith)

-- What the programmes have in common: a process has as many accepts of a type as there are processes
-- before it, and each of these has one connection of that type to it.
accepts_of : (t : Sock) (i : ℕ) → how_many (is_accept t) (accepts i) ≡ i
unfolding how_many accepts
accepts_of req_sock zero = refl
accepts_of data_sock zero = refl
accepts_of req_sock (suc i) = rw (accepts_of req_sock i) (omega arith)
accepts_of data_sock (suc i) = rw (accepts_of data_sock i) (omega arith)

pub accepts_to_come : (n p : ℕ) (t : Sock) → how_many (is_accept t) (programme n p) ≡ p
unfolding how_many programme
accepts_to_come n p t =
    rw
      (
        how_many-append (is_accept t) (accepts p) (last_part n p),
        accepts_of t p,
        none_in_connects (is_accept t) (suc p) (n - suc p) (λ q t'. refl),
      )
      (omega arith)

connects_of :
    (p i m : ℕ) (t : Sock)
    → how_many (is_connect p t) (connects i m) ≡ (if leb i p && ltb p (i + m) then 1 else 0)
unfolding how_many connects
connects_of p i zero t = ground arith
connects_of p i (suc m) req_sock = rw (connects_of p (suc i) m req_sock) (ground arith)
connects_of p i (suc m) data_sock = rw (connects_of p (suc i) m data_sock) (ground arith)

pub connects_to_come :
    (n q p : ℕ) (t : Sock) → q < p → p < n → how_many (is_connect p t) (programme n q) ≡ 1
unfolding how_many programme
connects_to_come n q p t after b =
    rw
      (
        how_many-append (is_connect p t) (accepts q) (last_part n q),
        none_in_accepts (is_connect p t) q (λ t'. refl),
        connects_of p (suc q) (n - suc q) t,
      )
      (ground arith)
