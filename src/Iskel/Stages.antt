-- ===== src/Iskel/Stages.antt =====
-- The ends of neighbouring stages of a pipeline of libdsys/iskel.c.
use libdsys.Prelude.{
  ℕ, zero, suc, ◌+◌, ◌-◌, ◌≤◌, ◌<◌, ◌≡◌, refl, sym, ap, ◌∙◌, Bool, true, false, Option, none, some,
  List, [], ◌∷◌, arith, ◌==◌, leb, if◌then◌else◌, length, get_or, length-take, get_or-take,
  if_of_true, if_of_false, Bool-cases, inl, inr,
}
use libdsys.Prelude.Int.{ℤ, pos, eqb_iff, eqb_refl}
use libdsys.Plist.{Plist, plist_create, plist_isvalid, plist_iselem, values}
use libdsys.Plist.Members.{elem, distinct, plist_iselem_lem}
use libdsys.Iskel.{sink_end, src_end, Dmap, role_pipe, role_pipen}
use libdsys.Iskel.Pipeline.{
  Stage, first, last, inter, Pipe, Given, position, pipe_role, pipe_units, make_stage, pipe_create,
}

pub elem-get_or : (xs : List ℤ) (k : ℕ) → k < length xs → elem (get_or xs k (pos 0)) xs ≡ true
unfolding elem
elem-get_or [] k h = absurd (omega arith)
elem-get_or (x ∷ xs) zero h = ground (arith, eqb_refl x)
elem-get_or (x ∷ xs) (suc k) h = ground (arith, elem-get_or xs k)

position-get_or :
    (xs : List ℤ) (k : ℕ)
    → distinct xs ≡ true
    → k < length xs
    → position (get_or xs k (pos 0)) xs ≡ some k
unfolding position distinct
position-get_or [] k d h = absurd (omega arith)
position-get_or (x ∷ xs) zero d h = ground (arith, eqb_refl x)
position-get_or (x ∷ xs) (suc k) d h =
    ground (arith, position-get_or xs k, elem-get_or xs k, eqb_iff (get_or xs k (pos 0)) x)

position_absent : (me : ℤ) (xs : List ℤ) → elem me xs ≡ false → position me xs ≡ none
unfolding position elem
position_absent me [] h = refl
position_absent me (x ∷ xs) h = ground (arith, position_absent me xs)

-- All memory is given.
abbrev pub all_given : ℤ → Given
all_given junk = record {
  skeleton = true;
  prod = true;
  src = true;
  cons = true;
  sink = true;
  prod_node = true;
  prod_block = true;
  cons_node = true;
  cons_block = true;
  junk = junk;
}

-- The list of one rank.
abbrev pub just : ℤ → ℤ → Option Plist
just junk rank = plist_create (rank ∷ []) junk true true

-- The role of stage `k` of `n`.
abbrev pub stage_of : ℕ → ℕ → Stage
stage_of n k = if k == 0 then first else if k == n - 1 then last else inter

-- What the process of stage `k` gets.
abbrev pub stage_at : Plist → (ℕ → ℕ) → (ℕ → Dmap) → Bool → ℤ → ℕ → Pipe
stage_at pl f d mc junk k = record {
  mc = mc;
  role = stage_of pl.count k;
  fptr = f k;
  src =
      if k == 0
      then none
      else some
          (src_end (just junk (get_or pl.entries (k - 1) (pos 0))) (d k).input (pipe_role mc));
  sink =
      if k == pl.count - 1
      then none
      else some (
          sink_end (just junk (get_or pl.entries (k + 1) (pos 0))) (d k).output (pipe_units mc)
            (pipe_role mc));
}

make_stage_lem :
    (pl : Plist) (f : ℕ → ℕ) (d : ℕ → Dmap) (mc : Bool) (junk : ℤ) (k : ℕ)
    → 2 ≤ pl.count
    → k < pl.count
    → make_stage (all_given junk) pl f d mc k ≡ some (stage_at pl f d mc junk k)
unfolding make_stage
make_stage_lem pl f d mc junk k h b = elim (Bool-cases (k == 0)) [
  | inl e ↦ rw (e, later e) refl
  | inr e ↦ elim (Bool-cases (k == pl.count - 1)) [
    | inl l ↦ rw (e, l) refl
    | inr l ↦ rw (e, l) refl
  ]
]
  where
    later : k == 0 ≡ true → k == pl.count - 1 ≡ false
    later e = ground arith

module _ (pl : Plist) (f : ℕ → ℕ) (d : ℕ → Dmap) (mc : Bool) (junk : ℤ)
    (valid : plist_isvalid (some pl) ≡ true) (h : 2 ≤ pl.count)
    (long : pl.count ≤ length pl.entries) (apart : distinct (values pl) ≡ true) where
  abbrev in_rank : ℤ → Option Pipe
  in_rank me = pipe_create me (all_given junk) (some pl) (some f) (some d) mc

  pipe_create_at :
      (k : ℕ)
      → k < pl.count
      → in_rank (get_or pl.entries k (pos 0)) ≡ some (stage_at pl f d mc junk k)
  unfolding pipe_create
  pipe_create_at k b = rw (valid, is_member, enough, is_at) (make_stage_lem pl f d mc junk k h b)
    where
      me : ℤ
      me = get_or pl.entries k (pos 0)

      read : get_or (values pl) k (pos 0) ≡ me
      read = ground (arith, get_or-take pl.count pl.entries k (pos 0))

      inside : k < length (values pl)
      inside = omega (arith, length-take pl.count pl.entries)

      is_member : plist_iselem me (some pl) me ≡ true
      is_member =
          plist_iselem_lem me me pl
          ∙ ap (λ v. elem v (values pl)) (sym read)
          ∙ elem-get_or (values pl) k inside

      is_at : position me (values pl) ≡ some k
      is_at =
          ap (λ v. position v (values pl)) (sym read) ∙ position-get_or (values pl) k apart inside

      enough : leb 2 pl.count ≡ true
      enough = ground arith

  outsider : (me : ℤ) → elem me (values pl) ≡ false → in_rank me ≡ none
  unfolding pipe_create
  outsider me out = rw (plist_iselem_lem me me pl, out, valid) refl

-- In a valid list of at least two ranks, none of which stands twice, with memory given: each process of
-- the list gets the stage of its place, the first, the last or one between, with the function of that place;
-- of two neighbouring stages the first one's sink leads to just the second one's process and the second one's
-- source to just the first one's, in the same role and with the data types of the places, and the sink
-- has 7 units with memory copy and 10 without; the first stage has no source and the last no sink;
-- and a process that is not in the list gets nothing.
pub pipe_lem :
    (pl : Plist) (f : ℕ → ℕ) (d : ℕ → Dmap) (mc : Bool) (junk : ℤ)
    → plist_isvalid (some pl) ≡ true
    → 2 ≤ pl.count
    → pl.count ≤ length pl.entries
    → distinct (values pl) ≡ true
    → ((k : ℕ)
        → k < pl.count
        → (p : Pipe) × (pipe_create
              (get_or pl.entries k (pos 0))
              (all_given junk)
              (some pl)
              (some f)
              (some d)
              mc
            ≡ some p)
          × (p.role ≡ stage_of pl.count k)
          × (p.fptr ≡ f k)
          × (k ≡ 0 → p.src ≡ none)
          × (k ≡ pl.count - 1 → p.sink ≡ none))
      × ((k : ℕ)
          → k + 1 < pl.count
          → (p q : Pipe) × (pipe_create
                (get_or pl.entries k (pos 0))
                (all_given junk)
                (some pl)
                (some f)
                (some d)
                mc
              ≡ some p)
            × (pipe_create
                  (get_or pl.entries (k + 1) (pos 0))
                  (all_given junk)
                  (some pl)
                  (some f)
                  (some d)
                  mc
                ≡ some q)
            × (p.sink
                ≡ some (
                    sink_end
                      (just junk (get_or pl.entries (k + 1) (pos 0)))
                      (d k).output
                      (if mc then 7 else 10)
                      (if mc then role_pipe else role_pipen)))
            × (q.src
                ≡ some (
                    src_end
                      (just junk (get_or pl.entries k (pos 0)))
                      (d (k + 1)).input
                      (if mc then role_pipe else role_pipen))))
      × ((me : ℤ)
          → elem me (values pl) ≡ false
          → pipe_create me (all_given junk) (some pl) (some f) (some d) mc ≡ none)
pipe_lem pl f d mc junk valid h long apart = (
  λ k b. (
    stage_at pl f d mc junk k,
    pipe_create_at pl f d mc junk valid h long apart k b,
    refl,
    refl,
    λ e. if_of_true (k == 0) _ _ (ground arith),
    λ e. if_of_true (k == pl.count - 1) _ _ (ground arith),
  ),
  λ k b. (
    stage_at pl f d mc junk k,
    stage_at pl f d mc junk (k + 1),
    pipe_create_at pl f d mc junk valid h long apart k (omega arith),
    pipe_create_at pl f d mc junk valid h long apart (k + 1) b,
    if_of_false (k == pl.count - 1) _ _ (ground arith),
    if_of_false (k + 1 == 0) _ _ (ground arith)
        ∙ ap
            (λ i.
              some (
                src_end (just junk (get_or pl.entries i (pos 0))) (d (k + 1)).input (pipe_role mc)))
            (back k),
  ),
  outsider pl f d mc junk valid h long apart,
)
  where
    back : (k : ℕ) → k + 1 - 1 ≡ k
    back k = omega arith
