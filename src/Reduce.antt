-- ===== src/Reduce.antt =====
-- Receiving from several producers at once: libdsys/reduce.c, libdsys/collect.c and
-- libdsys/collect_any.c. Memory is counted in values of the channel's data type. What each producer
-- sends on a request is an argument: `rows` has the data that the calls of `__bc_read_data` read, in the
-- order of the process list.
pub mod Picks
pub mod Rows
pub mod Sums
pub mod Extremes
pub mod Store
pub mod Poll
mod Tests
use libdsys.Prelude.{
  ℕ, zero, suc, ◌+◌, ◌*◌, Bool, true, false, Option, none, some, List, [], ◌∷◌, ◌++◌, if◌then◌else◌,
  length, take, drop, map,
}
use libdsys.Variable.{
  Code, Mode, add, multiply, maximum, minimum, Floats, variable_operation, variable_assign,
}

-- A call of `__bc_request_send`: the rank, the tag and the number of units.
pub record Request : Type 0 where
  pub rank : ℕ
  pub tag : ℕ
  pub dunits : ℕ
  pub conditional : Bool

-- `for (i = 0; i < bc->plist->count; i++) __bc_request_send(…, __BC_SERVICE_GET, bc->tags[i], du);`
unfoldable pub get_requests : List ℕ → List ℕ → ℕ → List Request
get_requests [] tags du = []
get_requests (r ∷ rs) [] du = []
get_requests (r ∷ rs) (t ∷ tags) du =
    record { rank = r; tag = t; dunits = du; conditional = false } ∷ get_requests rs tags du

-- What a reduction comes to: -1 where memory is not given, a read of the first producer of none, or
-- the requests that were sent and the local data.
pub data Outcome : Type 0 where
  no_memory : Outcome
  out_of_bounds : Outcome
  done : List Request → List ℕ → Outcome

-- `for (i = 0; i < du; i++) { bc_variable_assign(…, out_ptr, value); out_ptr += …; }`
unfoldable pub assign_units : Floats → Code → ℕ → ℕ → List ℕ → List ℕ
assign_units f c value zero local = local
assign_units f c value (suc n) [] = []
assign_units f c value (suc n) (x ∷ local) =
    variable_assign f c x value ∷ assign_units f c value n local

-- `for (j = 0; j < du; j++) { bc_variable_operation(…, out_ptr, out_ptr, temp_ptr); … }`
unfoldable pub combine_units : Floats → Code → Mode → ℕ → List ℕ → List ℕ → List ℕ
combine_units f c mode zero out temp = out
combine_units f c mode (suc n) [] temp = []
combine_units f c mode (suc n) (x ∷ out) [] = x ∷ out
combine_units f c mode (suc n) (x ∷ out) (t ∷ temp) =
    variable_operation f c mode x x t ∷ combine_units f c mode n out temp

-- The loop over the producers.
unfoldable pub combine_rows : Floats → Code → Mode → ℕ → List (List ℕ) → List ℕ → List ℕ
combine_rows f c mode du [] local = local
combine_rows f c mode du (temp ∷ rows) local =
    combine_rows f c mode du rows (combine_units f c mode du local temp)

-- `__bc_r_sum_reduce`; `block` is what malloc returned.
unfoldable pub sum_reduce :
    Floats → Code → Bool → List ℕ → List ℕ → ℕ → List (List ℕ) → List ℕ → Outcome
sum_reduce f c false ranks tags du rows local = no_memory
sum_reduce f c true ranks tags du rows local =
    done (get_requests ranks tags du) (combine_rows f c add du rows (assign_units f c 0 du local))

-- `__bc_r_mul_reduce`
unfoldable pub mul_reduce :
    Floats → Code → Bool → List ℕ → List ℕ → ℕ → List (List ℕ) → List ℕ → Outcome
mul_reduce f c false ranks tags du rows local = no_memory
mul_reduce f c true ranks tags du rows local =
    done (get_requests ranks tags du)
      (combine_rows f c multiply du rows (assign_units f c 1 du local))

-- `__bc_r_max_reduce` and `__bc_r_min_reduce`, by the mode: the first row is read into the local data.
unfoldable pub pick_reduce :
    Mode → Floats → Code → Bool → List ℕ → List ℕ → ℕ → List (List ℕ) → List ℕ → Outcome
pick_reduce mode f c false ranks tags du rows local = no_memory
pick_reduce mode f c true ranks tags du [] local = out_of_bounds
pick_reduce mode f c true ranks tags du (first ∷ rows) local =
    done (get_requests ranks tags du)
      (combine_rows f c mode du rows (take du first ++ drop du local))

unfoldable pub max_reduce :
    Floats → Code → Bool → List ℕ → List ℕ → ℕ → List (List ℕ) → List ℕ → Outcome
unfolding pick_reduce
max_reduce f c = pick_reduce maximum f c

unfoldable pub min_reduce :
    Floats → Code → Bool → List ℕ → List ℕ → ℕ → List (List ℕ) → List ℕ → Outcome
unfolding pick_reduce
min_reduce f c = pick_reduce minimum f c

-- The loop of `__bc_r_minmax_reduce` over the producers: `low` and `high` are the two halves of the local
-- data.
unfoldable pub minmax_rows : Floats → Code → ℕ → List (List ℕ) → List ℕ → List ℕ → List ℕ × List ℕ
minmax_rows f c du [] low high = (low, high)
minmax_rows f c du (temp ∷ rows) low high =
    minmax_rows f c du rows (combine_units f c minimum du low temp)
      (combine_units f c maximum du high temp)

-- `__bc_r_minmax_reduce`, into local data with room for twice as many units.
unfoldable pub minmax_reduce :
    Floats → Code → Bool → List ℕ → List ℕ → ℕ → List (List ℕ) → List ℕ → Outcome
minmax_reduce f c false ranks tags du rows local = no_memory
minmax_reduce f c true ranks tags du [] local = out_of_bounds
minmax_reduce f c true ranks tags du (first ∷ rows) local =
    let both = minmax_rows f c du rows (take du first) (take du first) in
    done (get_requests ranks tags du) (both.0 ++ both.1 ++ drop (du + du) local)

-- The second loop of `__bc_r_collect`: the rows one after the other, from the start of the local data on.
unfoldable pub store_rows : ℕ → List (List ℕ) → List ℕ → List ℕ
store_rows du [] local = local
store_rows du (row ∷ rows) local = take du row ++ store_rows du rows (drop du local)

-- `__bc_r_collect`
unfoldable pub collect : List ℕ → List ℕ → ℕ → List (List ℕ) → List ℕ → List Request × List ℕ
collect ranks tags du rows local = (get_requests ranks tags du, store_rows du rows local)

-- One attempt of `__bc_r_collect_any` at each producer of a list: the first that has data gives them.
-- The answers are what the producers send: `none` is a preamble of 0.
unfoldable pub ask_each :
    List ℕ → List ℕ → ℕ → List (Option (List ℕ)) → List Request × Option (List ℕ)
ask_each [] tags du answers = ([], none)
ask_each (r ∷ rs) [] du answers = ([], none)
ask_each (r ∷ rs) (t ∷ tags) du [] = ([], none)
ask_each (r ∷ rs) (t ∷ tags) du (some row ∷ answers) =
    (record { rank = r; tag = t; dunits = du; conditional = true } ∷ [], some row)
ask_each (r ∷ rs) (t ∷ tags) du (none ∷ answers) =
    let rest = ask_each rs tags du answers in
    (record { rank = r; tag = t; dunits = du; conditional = true } ∷ rest.0, rest.1)

-- `__bc_r_collect_any`: rounds until there are data, with the answers of each round; `none` is a call
-- that has not returned.
unfoldable pub collect_any :
    List ℕ → List ℕ → ℕ → List (List (Option (List ℕ))) → List ℕ → Option (List Request × List ℕ)
collect_any ranks tags du [] local = none
collect_any ranks tags du (answers ∷ rounds) local =
    let rest = collect_any ranks tags du rounds local in
    let (asked, got) = ask_each ranks tags du answers in
    elim got [
      | some row ↦ some (asked, take du row ++ drop du local)
      | none ↦ elim rest [ none ↦ none | some r ↦ some (asked ++ r.0, r.1) ]
    ]
