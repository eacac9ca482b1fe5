-- ===== src/Iskel/Star.antt =====
-- The exchange of all with all and the farm of libdsys/iskel.c: one process is connected to all others.
use libdsys.Prelude.{
  ℕ, ◌≤◌, ◌≡◌, ◌≢◌, refl, ap, ◌∙◌, true, false, not, ◌&&◌, Option, some, List, [], ◌∷◌, arith,
  length, take, length-take, Bool-cases, inl, inr,
}
use libdsys.Prelude.Int.{ℤ, eqb, eqb_iff}
use libdsys.Plist.{Plist, plist_isvalid, values, made_of, some_invalid}
use libdsys.Plist.Members.{elem, distinct, plist_iselem_lem}
use libdsys.Plist.Diff.{without, plist_diff_lem}
use libdsys.Iskel.Stages.{just}
use libdsys.Iskel.{sink_end, src_end, role_pipe, role_replicate, role_collect}
use libdsys.Iskel.Hub.{
  Exchange, Self, null, own, freed, make_self, Blocks, nothing, reads_freed, made, only, at_centre,
  all2all_create,
}
use libdsys.Iskel.Root.{IsSmallest, root_of, root_of-IsSmallest}

elem-without : (v : ℤ) (vs xs : List ℤ) → elem v (without vs xs) ≡ (elem v xs && not (elem v vs))
unfolding elem without
elem-without v vs [] = ground arith
elem-without v vs (x ∷ xs) = elim (Bool-cases (eqb v x)) [
  | inl e ↦
      let same : elem v vs ≡ elem x vs = ap (λ w. elem w vs) ((eqb_iff v x).0 e) in
      ground (arith, elem-without v vs xs, same)
  | inr e ↦ ground (arith, elem-without v vs xs)
]

take_all : (xs : List ℤ) → take (length xs) xs ≡ xs
take_all [] = refl
take_all (x ∷ xs) = ap (λ ys. x ∷ ys) (take_all xs)

-- What `bc_plist_self` may hold in the process `me`: nothing, or the list of `me` alone.
unfoldable pub OwnList : ℤ → Self → Type 0
OwnList me null = Unit {0}
OwnList me (own p) = (plist_isvalid (some p) ≡ true) × (values p ≡ me ∷ [])
OwnList me freed = false ≡ true

-- All memory is given.
abbrev pub all_blocks : ℤ → Blocks
all_blocks junk = record {
  skeleton = true;
  self_node = true;
  self_block = true;
  node = true;
  block = true;
  junk = junk;
}

make_self_lem :
    (me : ℤ) (self : Self) (junk : ℤ)
    → OwnList me self
    → (p : Plist) × (make_self me self true true junk ≡ (true, own p)) × OwnList me (own p)
unfolding make_self OwnList plist_isvalid
make_self_lem me null junk h = (_, refl, (refl, refl))
make_self_lem me (own p) junk h = (p, refl, h)
make_self_lem me freed junk h = absurd cc

both_valid :
    (a b : Plist)
    → plist_isvalid (some a) ≡ true
    → plist_isvalid (some b) ≡ true
    → some_invalid (a ∷ b ∷ []) ≡ false
unfolding plist_isvalid some_invalid
both_valid a b h k = ground (arith, h, k)

-- The process at the centre is connected to all others.
pub at_centre_lem {ℓ} :
    {A : Type ℓ}
    → (me : ℤ) (self : Self) (junk : ℤ) (pl : Plist) (finish : Option Plist → A) → OwnList me self
    → plist_isvalid (some pl) ≡ true
    → distinct (values pl) ≡ true
    → (p : Plist) × (at_centre me self (all_blocks junk) pl finish
        ≡ (made (finish (some (made_of (without (me ∷ []) (values pl))))), own p))
      × OwnList me (own p)
unfolding at_centre OwnList
at_centre_lem me self junk pl finish h valid apart =
    let (p, e, (good, only_me)) = make_self_lem me self junk h in
    (
      p,
      rw (at_centre, e, (plist_diff_lem pl p apart).0 (both_valid pl p valid good), only_me) refl,
      (good, only_me),
    )

-- Its list has the others.
pub others_lem :
    (me v : ℤ) (xs : List ℤ)
    → elem v (values (made_of (without (me ∷ []) xs))) ≡ (elem v xs && not (eqb v me))
unfolding elem
others_lem me v xs =
    ap (elem v) (take_all (without (me ∷ []) xs)) ∙ elem-without v (me ∷ []) xs ∙ ground arith

abbrev exchange_at : Plist → ℕ → Option Plist → Exchange
exchange_at pl dtype list = record {
  num = pl.count;
  root = root_of (values pl);
  src = src_end list dtype role_collect;
  sink = sink_end list dtype pl.count role_replicate;
}

module _ (me : ℤ) (self : Self) (m : Blocks) (pl : Plist) (dtype : ℕ)
    (valid : plist_isvalid (some pl) ≡ true) (inside : elem me (values pl) ≡ true)
    (given : m.skeleton ≡ true) where
  as_root :
      eqb me (root_of (values pl)) ≡ true
      → all2all_create me self m (some pl) dtype ≡ at_centre me self m pl (exchange_at pl dtype)
  unfolding all2all_create root_of
  as_root is = rw (all2all_create, plist_iselem_lem me me pl, inside, valid, given, is) refl

  as_other :
      eqb me (root_of (values pl)) ≡ false
      → all2all_create me self m (some pl) dtype ≡ (
        made (record {
          num = pl.count;
          root = root_of (values pl);
          src = src_end (only m (root_of (values pl))) dtype role_pipe;
          sink = sink_end (only m (root_of (values pl))) dtype 1 role_pipe;
        }),
        self,
      )
  unfolding all2all_create root_of
  as_other is = rw (all2all_create, plist_iselem_lem me me pl, inside, valid, given, is) refl

-- In a valid list of at least one rank, none of which stands twice, with memory given, and where
-- `bc_plist_self` is null or the process's own list: the smallest rank is the root. A process outside the
-- list gets nothing. The root collects from all other processes of the list and replicates to them, as
-- many units as the list has ranks. Any other process of the list sends to the root alone and receives
-- from it alone. But once the entry of the own list could not be given to the root, nothing is made, and
-- the next attempt reads memory that has been freed.
pub all2all_lem :
    (me : ℤ) (self : Self) (junk : ℤ) (pl : Plist) (dtype : ℕ)
    → OwnList me self
    → plist_isvalid (some pl) ≡ true
    → 1 ≤ pl.count
    → pl.count ≤ length pl.entries
    → distinct (values pl) ≡ true
    → (root : ℤ) × IsSmallest root (values pl)
      × (elem me (values pl) ≡ false
          → all2all_create me self (all_blocks junk) (some pl) dtype ≡ (nothing, self))
      × (me ≡ root
          → (x : Exchange) × (list : Plist) × (next : Self) × (all2all_create me self
                (all_blocks junk)
                (some pl)
                dtype
              ≡ (made x, next))
            × OwnList me next
            × (x.src ≡ src_end (some list) dtype role_collect)
            × (x.sink ≡ sink_end (some list) dtype pl.count role_replicate)
            × ((v : ℤ) → elem v (values list) ≡ (elem v (values pl) && not (eqb v root))))
      × (elem me (values pl) ≡ true
          → me ≢ root
          → (x : Exchange) × (all2all_create me self (all_blocks junk) (some pl) dtype
              ≡ (made x, self))
            × (x.src ≡ src_end (just junk root) dtype role_pipe)
            × (x.sink ≡ sink_end (just junk root) dtype 1 role_pipe))
      × (me ≡ root
          → (all2all_create me null
                (record (all_blocks junk) { self_block = false })
                (some pl)
                dtype
              ≡ (nothing, freed))
            × (all2all_create me freed (all_blocks junk) (some pl) dtype ≡ (reads_freed, freed)))
unfolding all2all_create at_centre make_self
all2all_lem me self junk pl dtype h valid some_rank long apart =
    let vs = values pl in
    let root = root_of vs in
    let smallest_root = root_of-IsSmallest vs (omega (arith, length-take pl.count pl.entries)) in
    (
      root,
      smallest_root,
      λ out. rw (all2all_create, plist_iselem_lem me me pl, out, valid) refl,
      λ e.
          let is : eqb me root ≡ true = (eqb_iff me root).1 e in
          let (p, d, o) = at_centre_lem me self junk pl (exchange_at pl dtype) h valid apart in
          (
            exchange_at pl dtype (some (made_of (without (me ∷ []) vs))),
            made_of (without (me ∷ []) vs),
            own p,
            as_root me self (all_blocks junk) pl dtype valid (inside_root e) refl is ∙ d,
            o,
            refl,
            refl,
            λ v. others_lem me v vs ∙ ap (λ r. elem v vs && not (eqb v r)) e,
          ),
      λ inside other. (
        _,
        as_other me self (all_blocks junk) pl dtype valid inside refl
            (ground (arith, eqb_iff me root)),
        refl,
        refl,
      ),
      λ e.
          let is : eqb me root ≡ true = (eqb_iff me root).1 e in
          (
            as_root me null (record (all_blocks junk) { self_block = false }) pl dtype valid
                (inside_root e) refl is,
            as_root me freed (all_blocks junk) pl dtype valid (inside_root e) refl is,
          ),
    )
  where
    inside_root : me ≡ root_of (values pl) → elem me (values pl) ≡ true
    inside_root e =
        ap (λ r. elem r (values pl)) e
        ∙ (root_of-IsSmallest (values pl) (omega (arith, length-take pl.count pl.entries))).0
