-- ===== src/Programs/Sort.antt =====
-- cs4400/simulator/tests/complex/sort.c: a selection sort. An array is the function of its entries;
-- an `int` v is written as v + 2 ^ 31, which keeps the order.
pub mod Laws
use uof_ufall.Base.{ℕ, zero, suc, ◌-◌, ◌==◌, ltb, if◌then◌else◌}

abbrev pub put : (ℕ → ℕ) → ℕ → ℕ → ℕ → ℕ
put arr i v k = if k == i then v else arr k

unfoldable pub swap : (ℕ → ℕ) → (i j : ℕ) → ℕ → ℕ
swap arr i j = let temp = arr i in put (put arr i (arr j)) j temp

-- The loop over `j`, with the rounds that are left.
unfoldable pub min_loop : (rounds : ℕ) → (ℕ → ℕ) → (j min_index : ℕ) → ℕ
min_loop zero arr j min_index = min_index
min_loop (suc rounds) arr j min_index =
    min_loop rounds arr (suc j) (if ltb (arr j) (arr min_index) then j else min_index)

-- The loop over `i`, with the rounds that are left.
unfoldable pub sort_loop : (rounds : ℕ) → (ℕ → ℕ) → (i size : ℕ) → ℕ → ℕ
unfolding swap min_loop
sort_loop zero arr i size = arr
sort_loop (suc rounds) arr i size =
    let min_index = min_loop (size - suc i) arr (suc i) i in
    sort_loop rounds (swap arr i min_index) (suc i) size

unfoldable pub sort : (ℕ → ℕ) → (size : ℕ) → ℕ → ℕ
unfolding sort_loop
sort arr size = if ltb size 2 then arr else sort_loop size arr 0 size
