-- ===== src/Sockets/Waiting.antt =====
-- Which connections wait at the listeners of libdsys/sockets.c.
use libdsys.Prelude.{
  ℕ, ◌<◌, ltb, inl, inr, ◌≡◌, refl, sym, ap, ◌∙◌, Bool, true, false, ◌&&◌, ◌||◌, List, [], ◌∷◌,
  ◌++◌, arith, ◌==◌, Bool-cases,
}
use libdsys.Sockets.{Sock, at_sock, SockId, is_sock}
use libdsys.Sockets.Progress.{is_sock_same}
use libdsys.Sockets.Entries.{and_cases, is_sock_sym, same_both, is_same}

-- Whether a connection from `q` waits.
unfoldable pub waits : ℕ → List SockId → Bool
waits q [] = false
waits q (id ∷ ids) = id.rank == q || waits q ids

pub waits-append : (q : ℕ) (xs ys : List SockId) → waits q (xs ++ ys) ≡ (waits q xs || waits q ys)
unfolding waits
waits-append q [] ys = refl
waits-append q (x ∷ xs) ys = rw (waits-append q xs ys) (ground arith)

-- Whether what waits at a listener is all from processes before it, and of its type.
unfoldable pub all_for : ℕ → Sock → List SockId → Bool
all_for p t [] = true
all_for p t (id ∷ ids) = (ltb id.rank p && is_sock id.type t) && all_for p t ids

pub all_for-append :
    (p : ℕ) (t : Sock) (xs ys : List SockId)
    → all_for p t (xs ++ ys) ≡ (all_for p t xs && all_for p t ys)
unfolding all_for
all_for-append p t [] ys = refl
all_for-append p t (x ∷ xs) ys = rw (all_for-append p t xs ys) (ground arith)

pub at_first : (a b : Bool) → a ≡ true → (a || b) ≡ true
at_first a b e = rw (e) refl

pub at_second : (a b : Bool) → b ≡ true → (a || b) ≡ true
at_second true b e = refl
at_second false b e = e

-- What waits after a connection or an accept.
pub more_wait :
    (pending : ℕ → Sock → List SockId) (z : ℕ) (t : Sock) (id : SockId) (q p : ℕ) (t' : Sock)
    → waits q (pending p t') ≡ true
    → waits q (at_sock pending z t (pending z t ++ (id ∷ [])) p t') ≡ true
more_wait pending z t id q p t' m = elim (Bool-cases (p == z && is_sock t' t)) [
  | inl here ↦
      let (same_p, same_t) = same_both (p == z) t t' here in
      let old : pending p t' ≡ pending z t =
        ap (λ x. pending x t') (is_same p z same_p) ∙ ap (pending z) same_t in
      rw (here, waits-append q (pending z t) (id ∷ []))
        (at_first (waits q (pending z t)) (waits q (id ∷ [])) (ap (waits q) (sym old) ∙ m))
  | inr elsewhere ↦ rw (elsewhere) m
]

pub new_waits :
    (pending : ℕ → Sock → List SockId) (z : ℕ) (t : Sock) (r : ℕ)
    → waits r (at_sock pending z t (pending z t ++ ((record { rank = r; type = t }) ∷ [])) z t)
      ≡ true
unfolding waits
new_waits pending z t r =
    let here : z == z ≡ true = ground arith in
    let itself : r == r ≡ true = ground arith in
    rw (here, is_sock_same t, waits-append r (pending z t) (record { rank = r; type = t } ∷ []))
      (at_second (waits r (pending z t)) (r == r || false) (at_first (r == r) false itself))

pub connect_right :
    (pending : ℕ → Sock → List SockId) (r z : ℕ) (t : Sock) (p : ℕ) (t' : Sock)
    → r < z
    → ((t'' : Sock) → all_for p t'' (pending p t'') ≡ true)
    → all_for p t'
        (at_sock pending z t (pending z t ++ ((record { rank = r; type = t }) ∷ [])) p t')
      ≡ true
unfolding all_for
connect_right pending r z t p t' later right = elim (Bool-cases (p == z && is_sock t' t)) [
  | inl here ↦
      let (same_p, same_t) = same_both (p == z) t t' here in
      let old : pending p t' ≡ pending z t =
        ap (λ x. pending x t') (is_same p z same_p) ∙ ap (pending z) same_t in
      let before_p : ltb r p ≡ true = ground (arith, is_same p z same_p) in
      let right_type : is_sock t t' ≡ true = ap (is_sock t) same_t ∙ is_sock_same t in
      rw
        (
          here,
          all_for-append p t' (pending z t) (record { rank = r; type = t } ∷ []),
          sym old,
          right t',
          before_p,
          right_type,
        )
        refl
  | inr elsewhere ↦ rw (elsewhere) (right t')
]

pub accept_waits :
    (pending : ℕ → Sock → List SockId) (r : ℕ) (t : Sock) (id : SockId) (ids : List SockId)
    (q p : ℕ) (t' : Sock)
    → pending r t ≡ id ∷ ids
    → is_sock t id.type ≡ true
    → ((p == r && q == id.rank) && is_sock t' id.type) ≡ false
    → waits q (pending p t') ≡ true
    → waits q (at_sock pending r t ids p t') ≡ true
unfolding waits
accept_waits pending r t id ids q p t' d type other m = elim (Bool-cases (p == r && is_sock t' t)) [
  | inl here ↦
      let (same_p, same_t) = same_both (p == r) t t' here in
      let old : pending p t' ≡ id ∷ ids =
        ap (λ x. pending x t') (is_same p r same_p) ∙ ap (pending r) same_t ∙ d in
      let right_type : is_sock t' id.type ≡ true = ap (λ x. is_sock x id.type) same_t ∙ type in
      let was : (id.rank == q || waits q ids) ≡ true = ap (waits q) (sym old) ∙ m in
      let not_it : id.rank == q ≡ false = ground (arith, same_p, right_type, other) in
      rw (here) (sym (rw (not_it) refl) ∙ was)
  | inr elsewhere ↦ rw (elsewhere) m
]

pub accept_right :
    (pending : ℕ → Sock → List SockId) (r : ℕ) (t : Sock) (id : SockId) (ids : List SockId) (p : ℕ)
    (t' : Sock)
    → pending r t ≡ id ∷ ids
    → all_for p t' (pending p t') ≡ true
    → all_for p t' (at_sock pending r t ids p t') ≡ true
unfolding all_for
accept_right pending r t id ids p t' d right = elim (Bool-cases (p == r && is_sock t' t)) [
  | inl here ↦
      let (same_p, same_t) = same_both (p == r) t t' here in
      let old : pending p t' ≡ id ∷ ids =
        ap (λ x. pending x t') (is_same p r same_p) ∙ ap (pending r) same_t ∙ d in
      rw (here)
        (and_cases (ltb id.rank p && is_sock id.type t') (all_for p t' ids)
          (ap (all_for p t') (sym old) ∙ right)).1
  | inr elsewhere ↦ rw (elsewhere) right
]

-- What waits first is from a process before the listener, and of its type.
pub first_right :
    (pending : ℕ → Sock → List SockId) (r : ℕ) (t : Sock) (id : SockId) (ids : List SockId)
    → pending r t ≡ id ∷ ids
    → all_for r t (pending r t) ≡ true
    → (id.rank < r) × (is_sock t id.type ≡ true)
unfolding all_for
first_right pending r t id ids d right =
    let (first, rest) =
      and_cases (ltb id.rank r && is_sock id.type t) (all_for r t ids)
        (ap (all_for r t) (sym d) ∙ right) in
    let (less, type) = and_cases (ltb id.rank r) (is_sock id.type t) first in
    (ground arith, is_sock_sym t id.type ∙ type)
