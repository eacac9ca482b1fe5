-- ===== src/Sockets/Sums.antt =====
-- Sums over the processes of libdsys/sockets.c.
use libdsys.Prelude.{
  ℕ, zero, suc, ◌+◌, ◌<◌, ◌≤◌, inl, inr, ◌≡◌, refl, ap, true, false, List, arith, ◌==◌, Bool-cases,
}
use libdsys.Sockets.{Sock, Call, how_many, at}
use libdsys.Sockets.Programs.{is_connect}

unfoldable pub sum_below : (ℕ → ℕ) → ℕ → ℕ
sum_below f zero = 0
sum_below f (suc k) = f k + sum_below f k

pub sum_below_same :
    (f g : ℕ → ℕ) (k : ℕ) → ((q : ℕ) → q < k → f q ≡ g q) → sum_below f k ≡ sum_below g k
unfolding sum_below
sum_below_same f g zero h = refl
sum_below_same f g (suc k) h =
    rw (h k (omega arith), sum_below_same f g k (λ q b. h q (omega arith))) refl

pub at_same : {A : Type 0} → (f : ℕ → A) (r x : ℕ) (v : A) → x == r ≡ true → at f r v x ≡ v
at_same f r x v e = rw (at, e) refl

pub at_other : {A : Type 0} → (f : ℕ → A) (r x : ℕ) (v : A) → x == r ≡ false → at f r v x ≡ f x
at_other f r x v e = rw (at, e) refl

abbrev pub changed : (ℕ → List Call) → ℕ → List Call → (List Call → ℕ) → ℕ → ℕ
changed left r cs g k = sum_below (λ q. g (at left r cs q)) k

pub sum_after :
    (left : ℕ → List Call) (r : ℕ) (cs : List Call) (g : List Call → ℕ) (k : ℕ)
    → k ≤ r
    → changed left r cs g k ≡ sum_below (λ q. g (left q)) k
sum_after left r cs g k b = sum_below_same _ _ k (λ q c. ap g (at_other left r q cs (ground arith)))

pub sum_at :
    (left : ℕ → List Call) (r : ℕ) (cs : List Call) (g : List Call → ℕ) (k : ℕ)
    → r < k
    → changed left r cs g k + g (left r) ≡ sum_below (λ q. g (left q)) k + g cs
unfolding sum_below
sum_at left r cs g zero b = absurd (omega arith)
sum_at left r cs g (suc k) b = elim (Bool-cases (k == r)) [
  | inl here ↦
      let same : k ≡ r = ground arith in
      rw
        (
          at_same left r k cs here,
          sum_after left r cs g k (omega (arith, same)),
          ap (λ x. g (left x)) same,
        )
        (omega arith)
  | inr elsewhere ↦
      rw (at_other left r k cs elsewhere) (omega (arith, sum_at left r cs g k (ground arith)))
]

-- The connections of a type to `p` that the processes before it have still to make.
abbrev pub coming : (ℕ → List Call) → ℕ → Sock → ℕ
coming left p t = sum_below (λ q. how_many (is_connect p t) (left q)) p
