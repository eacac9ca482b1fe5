-- ===== src/Reduce/Poll.antt =====
-- Data from whichever producer has some, libdsys/collect_any.c.
use libdsys.Prelude.{
  ℕ, zero, suc, ◌+◌, ◌≤◌, ◌<◌, ◌≡◌, refl, sym, ap, ◌∙◌, append_assoc, true, ◌-◌, Option, none, some,
  List, [], ◌∷◌, ◌++◌, arith, length, get_or, take, drop, replicate, ltb, if◌then◌else◌,
  length-take, get_or-append, get_or-take, get_or-drop,
}
use libdsys.Reduce.{Request, ask_each, collect_any}

-- `n` producers that have no data.
abbrev pub silent : ℕ → List (Option (List ℕ))
silent n = replicate n none

-- One conditional request for each producer, in the order of the list.
unfoldable pub one_each : List ℕ → List ℕ → ℕ → List Request
one_each (r ∷ rs) (t ∷ tags) du =
    record { rank = r; tag = t; dunits = du; conditional = true } ∷ one_each rs tags du
one_each [] tags du = []
one_each (r ∷ rs) [] du = []

unfoldable pub rounds_of : ℕ → List Request → List Request
rounds_of zero asked = []
rounds_of (suc k) asked = asked ++ rounds_of k asked

ask_silent :
    (ranks tags : List ℕ) (du : ℕ)
    → length tags ≡ length ranks
    → ask_each ranks tags du (silent (length ranks)) ≡ (one_each ranks tags du, none)
unfolding ask_each one_each
ask_silent [] tags du h = refl
ask_silent (r ∷ rs) [] du h = absurd (omega arith)
ask_silent (r ∷ rs) (t ∷ tags) du h = rw (ask_silent rs tags du (omega arith)) refl

ask_some :
    (ranks tags : List ℕ) (du i : ℕ) (row : List ℕ) (later : List (Option (List ℕ)))
    → length tags ≡ length ranks
    → i < length ranks
    → ask_each ranks tags du (silent i ++ some row ∷ later)
      ≡ (take (suc i) (one_each ranks tags du), some row)
unfolding ask_each one_each
ask_some [] tags du i row later h b = absurd (omega arith)
ask_some (r ∷ rs) [] du i row later h b = absurd (omega arith)
ask_some (r ∷ rs) (t ∷ tags) du zero row later h b = refl
ask_some (r ∷ rs) (t ∷ tags) du (suc i) row later h b =
    rw (ask_some rs tags du i row later (omega arith) (omega arith)) refl

-- Rounds in which no producer has data.
abbrev pub silent_rounds : ℕ → ℕ → List (List (Option (List ℕ)))
silent_rounds n k = replicate k (silent n)

module _ (ranks tags : List ℕ) (du : ℕ) (local : List ℕ) where
  round_some :
      (answers : List (Option (List ℕ))) (rest : List (List (Option (List ℕ))))
      (asked : List Request) (row : List ℕ)
      → ask_each ranks tags du answers ≡ (asked, some row)
      → collect_any ranks tags du (answers ∷ rest) local
        ≡ some (asked, take du row ++ drop du local)
  unfolding collect_any
  round_some answers rest asked row e =
      rw (collect_any, e)
        (ap (λ (p : List Request × Option (List ℕ)). some (p.0, take du row ++ drop du local)) e)

  round_more :
      (answers : List (Option (List ℕ))) (rest : List (List (Option (List ℕ))))
      (asked more : List Request) (after : List ℕ)
      → ask_each ranks tags du answers ≡ (asked, none)
      → collect_any ranks tags du rest local ≡ some (more, after)
      → collect_any ranks tags du (answers ∷ rest) local ≡ some (asked ++ more, after)
  unfolding collect_any
  round_more answers rest asked more after e d =
      rw (collect_any, e, d)
        (ap (λ (p : List Request × Option (List ℕ)). some (p.0 ++ more, after)) e)

  module _ (h : length tags ≡ length ranks) where
    polls : (k : ℕ) → collect_any ranks tags du (silent_rounds (length ranks) k) local ≡ none
    unfolding collect_any
    polls zero = refl
    polls (suc k) = rw (collect_any, ask_silent ranks tags du h, polls k) refl

    finds :
        (k i : ℕ) (row : List ℕ) (later : List (Option (List ℕ)))
        (rest : List (List (Option (List ℕ))))
        → i < length ranks
        → collect_any ranks tags du
            (silent_rounds (length ranks) k ++ (silent i ++ some row ∷ later) ∷ rest)
            local
          ≡ some (
            rounds_of k (one_each ranks tags du) ++ take (suc i) (one_each ranks tags du),
            take du row ++ drop du local,
          )
    unfolding rounds_of
    finds zero i row later rest b =
        round_some (silent i ++ some row ∷ later) rest (take (suc i) (one_each ranks tags du)) row
          (ask_some ranks tags du i row later h b)
    finds (suc k) i row later rest b =
        let all = one_each ranks tags du in
        let more = rounds_of k all ++ take (suc i) all in
        round_more (silent (length ranks))
          (silent_rounds (length ranks) k ++ (silent i ++ some row ∷ later) ∷ rest) all more
          (take du row ++ drop du local) (ask_silent ranks tags du h) (finds k i row later rest b)
        ∙ ap (λ (a : List Request). some (a, take du row ++ drop du local))
            (sym (append_assoc all (rounds_of k all) (take (suc i) all)))

-- With as many tags as producers: while no producer has data, the call goes on; and once `k` rounds
-- were silent and then producer `i` is the first to have data, the call returns with the first `du`
-- units of them at the start of the local data, the rest of which stays, whatever the others would have
-- sent later. Its requests are conditional ones for `du` units, to each producer in order and with its
-- tag in each silent round, and then to the first `i + 1` producers.
pub collect_any_lem :
    (ranks tags : List ℕ) (du : ℕ) (local : List ℕ) (k i : ℕ) (row : List ℕ)
    (later : List (Option (List ℕ))) (rest : List (List (Option (List ℕ))))
    → length tags ≡ length ranks
    → (collect_any ranks tags du (silent_rounds (length ranks) k) local ≡ none)
      × (i < length ranks
          → du ≤ length row
          → (after : List ℕ) × (collect_any ranks tags du
                (silent_rounds (length ranks) k ++ (silent i ++ some row ∷ later) ∷ rest)
                local
              ≡ some (
                rounds_of k (one_each ranks tags du) ++ take (suc i) (one_each ranks tags du),
                after,
              ))
            × ((j : ℕ) → j < du → get_or after j 0 ≡ get_or row j 0)
            × ((j : ℕ) → du ≤ j → get_or after j 0 ≡ get_or local j 0))
collect_any_lem ranks tags du local k i row later rest h = (
  polls ranks tags du local h k,
  λ b d. (
    take du row ++ drop du local,
    finds ranks tags du local h k i row later rest b,
    λ j c. ground (arith, at j d),
    λ j c.
        ground
          (arith, at j d, get_or-drop du local (j - du) 0, ap (λ m. get_or local m 0) (back j c)),
  ),
)
  where
    at :
        (j : ℕ)
        → du ≤ length row
        → get_or (take du row ++ drop du local) j 0
          ≡ (if ltb j du then get_or row j 0 else get_or (drop du local) (j - du) 0)
    at j d = ground (
      arith,
      get_or-append (take du row) (drop du local) j 0,
      length-take du row,
      get_or-take du row j 0,
    )

    back : (j : ℕ) → du ≤ j → du + (j - du) ≡ j
    back j c = omega arith
