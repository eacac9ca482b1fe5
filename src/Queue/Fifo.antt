-- ===== src/Queue/Fifo.antt =====
-- The promise of a byte buffer of libdsys/queue.c: a first-in first-out queue of at most `cap` bytes
-- from which whole messages are put and taken, or nothing at all.
use libdsys.Prelude.{ℕ, ◌-◌, Option, none, some, List, ◌++◌, ltb, if◌then◌else◌, length, take, drop}

unfoldable pub put : ℕ → List ℕ → List ℕ → Option (List ℕ)
put cap s xs = if ltb (cap - length s) (length xs) then none else some (s ++ xs)

unfoldable pub get : List ℕ → ℕ → Option (List ℕ × List ℕ)
get s n = if ltb (length s) n then none else some (take n s, drop n s)
