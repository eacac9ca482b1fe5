-- ===== src/Branch/Guards.antt =====
-- Which calls of libdsys/branch.c reach the function of a role.
use libdsys.Prelude.{ℕ, zero, suc, ◌≡◌, ◌≢◌, ◌↔◌, refl, Option, none, some, List, Bool, true, false}
use libdsys.Prelude.Int.{ℤ, pos, negsuc}
use libdsys.Branch.{
  Chan, Mode, producer, consumer, Outcome, wrong_function, code, forwards, forward_local, bc_put,
  bc_commit, bc_get,
}

abbrev pub Reaches : Outcome → Type 0
Reaches o = (local : Option (List ℕ)) × (n : ℕ) × (o ≡ forwards local n)

-- What a guarded call comes to, by the two functions' common form.
abbrev guarded : Bool → Option (List ℕ) → ℤ → Outcome
guarded true local du = forward_local local du
guarded false local du = code wrong_function

only_then :
    (mine : Bool) (local : Option (List ℕ)) (du : ℤ)
    → Reaches (guarded mine local du)
    → (mine ≡ true) × (local ≢ none) × (n : ℕ) × (du ≡ pos (suc n))
only_then false local du (l, n, e) = cc
only_then true none du (l, n, e) = cc
only_then true (some local) (pos zero) (l, n, e) = cc
only_then true (some local) (pos (suc k)) (l, n, e) = (refl, λ f. cc, k, refl)
only_then true (some local) (negsuc k) (l, n, e) = cc

whenever :
    (mine : Bool) (local : Option (List ℕ)) (du : ℤ)
    → (mine ≡ true) × (local ≢ none) × (n : ℕ) × (du ≡ pos (suc n))
    → Reaches (guarded mine local du)
whenever false local du (m, l, n, e) = cc
whenever true none du (m, l, n, e) = absurd (l refl)
whenever true (some local) (pos zero) (m, l, n, e) = cc
whenever true (some local) (pos (suc k)) (m, l, n, e) = (some local, suc k, refl)
whenever true (some local) (negsuc k) (m, l, n, e) = cc

put_form :
    (m : Mode) (local : Option (List ℕ)) (du : ℤ)
    → (Reaches (elim m as (λ _. Outcome) [
      | producer ↦ forward_local local du
      | consumer ↦ code wrong_function
    ])
        ↔ ((m ≡ producer) × (local ≢ none) × (n : ℕ) × (du ≡ pos (suc n))))
put_form producer local du = (
  λ h. let (_, l, n, e) = only_then true local du h in (refl, l, n, e),
  λ h. whenever true local du (refl, h.1, h.2, h.3),
)
put_form consumer local du =
    (λ h. let (f, l, n, e) = only_then false local du h in absurd cc, λ h. absurd cc)

get_form :
    (m : Mode) (local : Option (List ℕ)) (du : ℤ)
    → (Reaches (elim m as (λ _. Outcome) [
      | consumer ↦ forward_local local du
      | producer ↦ code wrong_function
    ])
        ↔ ((m ≡ consumer) × (local ≢ none) × (n : ℕ) × (du ≡ pos (suc n))))
get_form consumer local du = (
  λ h. let (_, l, n, e) = only_then true local du h in (refl, l, n, e),
  λ h. whenever true local du (refl, h.1, h.2, h.3),
)
get_form producer local du =
    (λ h. let (f, l, n, e) = only_then false local du h in absurd cc, λ h. absurd cc)

commit_form :
    (m : Mode)
    → (Reaches
          (elim m as (λ _. Outcome) [ producer ↦ forwards none 1 | consumer ↦ code wrong_function ])
        ↔ (m ≡ producer))
commit_form producer = (λ h. refl, λ e. (none, 1, refl))
commit_form consumer = (λ h. cc, λ e. cc)

-- On any channel and with any arguments: a put reaches the role exactly when the channel is there and
-- is a producer's, the local data are there, and the number of units is positive; a get exactly when
-- the same holds of a consumer's channel; a commit exactly when the channel is a producer's.
pub guards_lem :
    (bc : Chan) (local : Option (List ℕ)) (du : ℤ)
    → (Reaches (bc_put (some bc) local du)
        ↔ ((bc.mode ≡ producer) × (local ≢ none) × (n : ℕ) × (du ≡ pos (suc n))))
      × (Reaches (bc_get (some bc) local du)
          ↔ ((bc.mode ≡ consumer) × (local ≢ none) × (n : ℕ) × (du ≡ pos (suc n))))
      × (Reaches (bc_commit (some bc)) ↔ (bc.mode ≡ producer))
unfolding bc_put bc_get bc_commit
guards_lem bc local du = (put_form bc.mode local du, get_form bc.mode local du, commit_form bc.mode)
