-- ===== src/Reduce/Store.antt =====
-- The units of several producers in one row, libdsys/collect.c.
use libdsys.Prelude.{
  ℕ, zero, suc, ◌+◌, ◌-◌, ◌*◌, ◌≤◌, ◌<◌, ◌≡◌, refl, ap, ◌∙◌, sym, List, [], ◌∷◌, arith, length,
  get_or, take, drop, length-take, get_or-append, get_or-take, get_or-drop,
}
use libdsys.Reduce.{Request, get_requests, store_rows, collect}
use libdsys.Reduce.Rows.{AllLong}

-- How many units a list of requests asks for.
unfoldable pub units_asked : List Request → ℕ
units_asked [] = 0
units_asked (r ∷ rs) = r.dunits + units_asked rs

units_asked-get_requests :
    (ranks tags : List ℕ) (du : ℕ)
    → length tags ≡ length ranks
    → units_asked (get_requests ranks tags du) ≡ length ranks * du
unfolding units_asked get_requests
units_asked-get_requests [] tags du h = omega arith
units_asked-get_requests (r ∷ rs) [] du h = absurd (omega arith)
units_asked-get_requests (r ∷ rs) (t ∷ tags) du h =
    omega (arith, units_asked-get_requests rs tags du (omega arith))

module _ (du : ℕ) where
  store_first :
      (row : List ℕ) (rows : List (List ℕ)) (local : List ℕ) (j : ℕ)
      → du ≤ length row
      → j < du
      → get_or (store_rows du (row ∷ rows) local) j 0 ≡ get_or row j 0
  unfolding store_rows
  store_first row rows local j h b = ground (
    arith,
    get_or-append (take du row) (store_rows du rows (drop du local)) j 0,
    length-take du row,
    get_or-take du row j 0,
  )

  store_later :
      (row : List ℕ) (rows : List (List ℕ)) (local : List ℕ) (j : ℕ)
      → du ≤ length row
      → get_or (store_rows du (row ∷ rows) local) (du + j) 0
        ≡ get_or (store_rows du rows (drop du local)) j 0
  unfolding store_rows
  store_later row rows local j h = ground (
    arith,
    get_or-append (take du row) (store_rows du rows (drop du local)) (du + j) 0,
    length-take du row,
    ap (λ i. get_or (store_rows du rows (drop du local)) i 0) back,
  )
    where
      back : du + j - du ≡ j
      back = omega arith

  get_or-store_rows :
      (rows : List (List ℕ)) (local : List ℕ) (i j : ℕ)
      → AllLong rows du
      → i < length rows
      → j < du
      → get_or (store_rows du rows local) (i * du + j) 0 ≡ get_or (get_or rows i []) j 0
  unfolding AllLong
  get_or-store_rows [] local i j a b k = absurd (omega arith)
  get_or-store_rows (row ∷ rows) local zero j (h, a) b k =
      ap (λ i. get_or (store_rows du (row ∷ rows) local) i 0) (omega arith)
      ∙ store_first row rows local j h k
  get_or-store_rows (row ∷ rows) local (suc i) j (h, a) b k =
      ap (λ i. get_or (store_rows du (row ∷ rows) local) i 0) (omega arith)
      ∙ store_later row rows local (i * du + j) h
      ∙ get_or-store_rows rows (drop du local) i j a (omega arith) k

  get_or-store_rows_beyond :
      (rows : List (List ℕ)) (local : List ℕ) (j : ℕ)
      → AllLong rows du
      → get_or (store_rows du rows local) (length rows * du + j) 0
        ≡ get_or local (length rows * du + j) 0
  unfolding AllLong store_rows
  get_or-store_rows_beyond [] local j a = refl
  get_or-store_rows_beyond (row ∷ rows) local j (h, a) =
      ap (λ i. get_or (store_rows du (row ∷ rows) local) i 0) (omega arith)
      ∙ store_later row rows local (length rows * du + j) h
      ∙ get_or-store_rows_beyond rows (drop du local) j a
      ∙ get_or-drop du local (length rows * du + j) 0
      ∙ ap (λ i. get_or local i 0) (omega arith)

-- Of as many producers as there are tags, and that all send `du` units: the requests ask for just as
-- many units as the local data take in; unit `j` of producer `i` arrives at place `i * du + j`; and the
-- places behind the last producer's units stay.
pub collect_lem :
    (ranks tags : List ℕ) (du : ℕ) (rows : List (List ℕ)) (local : List ℕ)
    → length tags ≡ length ranks
    → length rows ≡ length ranks
    → AllLong rows du
    → (asked : List Request) × (after : List ℕ) × (collect ranks tags du rows local
        ≡ (asked, after))
      × (units_asked asked ≡ length rows * du)
      × ((i j : ℕ)
          → i < length rows
          → j < du
          → get_or after (i * du + j) 0 ≡ get_or (get_or rows i []) j 0)
      × ((j : ℕ) → get_or after (length rows * du + j) 0 ≡ get_or local (length rows * du + j) 0)
unfolding collect
collect_lem ranks tags du rows local h k a = (
  get_requests ranks tags du,
  store_rows du rows local,
  refl,
  units_asked-get_requests ranks tags du h ∙ ap (λ n. n * du) (sym k),
  λ i j b d. get_or-store_rows du rows local i j a b d,
  λ j. get_or-store_rows_beyond du rows local j a,
)
