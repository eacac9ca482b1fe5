-- ===== src/Prelude/Int.antt =====
-- C's `int` as an integer. The development compares integers and steps them by one; the values in
-- question (ranks, counts, reference counts) are far from the limits of an `int`.
use Prim.Native.Nat.{ℕ, zero, suc}
use mathlib.Core.Path.{◌≡◌, refl}
use mathlib.Core.Logic.{◌≢◌, ◌↔◌}
use mathlib.Core.Bool.{Bool, true, false}
use native.Mathlib.Omega.{arith}
use libdsys.Prelude.Tests.{ltb, ◌==◌}

-- `negsuc n` is -(n + 1).
pub data ℤ : Type 0 where
  pos : ℕ → ℤ
  negsuc : ℕ → ℤ

abbrev pub minus_one : ℤ
minus_one = negsuc 0

-- `x--`
abbrev pub pred_ℤ : ℤ → ℤ
pred_ℤ (pos zero) = negsuc 0
pred_ℤ (pos (suc n)) = pos n
pred_ℤ (negsuc n) = negsuc (suc n)

-- `a == b`
abbrev pub eqb : ℤ → ℤ → Bool
eqb (pos a) (pos b) = a == b
eqb (pos a) (negsuc b) = false
eqb (negsuc a) (pos b) = false
eqb (negsuc a) (negsuc b) = a == b

pub eqb_iff : (a b : ℤ) → (eqb a b ≡ true) ↔ (a ≡ b)
eqb_iff (pos a) (pos b) = ground arith
eqb_iff (pos a) (negsuc b) = ground arith
eqb_iff (negsuc a) (pos b) = ground arith
eqb_iff (negsuc a) (negsuc b) = ground arith

pub eqb_refl : (a : ℤ) → eqb a a ≡ true
eqb_refl a = (eqb_iff a a).1 refl

pub eqb_ne : (a b : ℤ) → eqb a b ≡ false → a ≢ b
eqb_ne a b e p = ground (arith, eqb_iff a b)

-- `a < b`
abbrev pub ltb_ℤ : ℤ → ℤ → Bool
ltb_ℤ (pos a) (pos b) = ltb a b
ltb_ℤ (pos a) (negsuc b) = false
ltb_ℤ (negsuc a) (pos b) = true
ltb_ℤ (negsuc a) (negsuc b) = ltb b a

pub ltb_ℤ_irrefl : (a : ℤ) → ltb_ℤ a a ≡ false
ltb_ℤ_irrefl (pos a) = ground arith
ltb_ℤ_irrefl (negsuc a) = ground arith

pub ltb_ℤ_asymm : (a b : ℤ) → ltb_ℤ a b ≡ true → ltb_ℤ b a ≡ false
ltb_ℤ_asymm (pos a) (pos b) h = ground arith
ltb_ℤ_asymm (pos a) (negsuc b) h = ground arith
ltb_ℤ_asymm (negsuc a) (pos b) h = ground arith
ltb_ℤ_asymm (negsuc a) (negsuc b) h = ground arith

-- At least is transitive.
pub ltb_ℤ_neg_trans : (a b c : ℤ) → ltb_ℤ a b ≡ false → ltb_ℤ b c ≡ false → ltb_ℤ a c ≡ false
ltb_ℤ_neg_trans (pos a) (pos b) (pos c) h k = ground arith
ltb_ℤ_neg_trans (pos a) (pos b) (negsuc c) h k = ground arith
ltb_ℤ_neg_trans (pos a) (negsuc b) c h k = ground arith
ltb_ℤ_neg_trans (negsuc a) (pos b) c h k = ground arith
ltb_ℤ_neg_trans (negsuc a) (negsuc b) (pos c) h k = ground arith
ltb_ℤ_neg_trans (negsuc a) (negsuc b) (negsuc c) h k = ground arith
