-- ===== src/Tests/Programs.antt =====
-- The test programs and the simulator.
use uof_ufall.Base.{
  ◌-◌, ◌⊎◌, ◌+◌, ◌/◌, ℕ, suc, ◌*◌, ◌%◌, ◌^◌, ◌≤◌, ◌<◌, ◌≡◌, none, some, arith, [], ◌∷◌, ◌-◌, refl,
}
use uof_ufall.Fcyc.{Scale, zero_rank, Sampler, fcyc, replicate}
use uof_ufall.Fcyc.Clear.{Cache, Malloc, Ready, Gives, done}
use uof_ufall.Fcyc.Stops.{Stops}
use uof_ufall.Fcyc.Insert.{length-replicate}
use uof_ufall.Fcyc.Least.{IsLeast, fcyc-IsLeast}
use uof_ufall.Clock.{start_counter, get_counter, to_double, elapsed, get_counter-difference}
use uof_ufall.Driver.Eval.{alloc, free, realloc}
use uof_ufall.Driver.Trace.{Trace, trace, read_trace}
use uof_ufall.Driver.Trace.Printing.{print_trace, read_trace-print}
use uof_ufall.Programs.Factorial.{fact, factorial, fact-factorial}
use uof_ufall.Programs.Log2.{log2, log2_bounds}
use uof_ufall.Programs.Sort.{sort}
use uof_ufall.Programs.Sort.Laws.{count, sort-Sorted}
use uof_ufall.Simulator.{Instruction, Cpu, execute}
use uof_ufall.Simulator.Laws.{execute-frame}

fact-factorial_example : fact 10 5 ≡ some (factorial 5 % 2 ^ 32)
fact-factorial_example = fact-factorial 10 3 (omega arith) (omega arith)

log2_bounds_example : (r : ℕ) × (log2 20 10 ≡ some r) × (2 ^ r ≤ 2 * 10) × (10 < 2 ^ suc r)
log2_bounds_example = log2_bounds 20 10 (omega arith) (omega arith)

-- `addl` of the registers 3 and 5
abbrev add_3_5 : Instruction
add_3_5 = record { opcode = 1; first_register = 3; second_register = 5; immediate = 0 }

abbrev cpu : Cpu
cpu = record { registers = λ r. r * 10; printed = []; input = [] }

execute-frame_example : (execute add_3_5 cpu).registers 4 ≡ 40
execute-frame_example = execute-frame add_3_5 cpu 4 (omega arith) (omega arith)

-- the rank of 0.01, which is 1.28 * 2 ^ -7
abbrev hundredth : ℕ
hundredth = 3063 * 2 ^ 52 + 28 * 2 ^ 52 / 100

-- three values, up to 20 samples, within one hundredth, of the counter that does not compensate
abbrev sampler : Sampler
sampler = record {
  kbest = 3;
  maxsamples = 20;
  epsilon = hundredth;
  compensate = 0;
  values = [];
  samplecount = 0;
}

-- a cache of 64 bytes with blocks of 32, and no buffer yet
abbrev cache : Cache
cache = record {
  clear_cache = 1;
  cache_bytes = 64;
  cache_block = 32;
  cache_buf = none;
  sink_word = 0;
}

cache-Ready : Ready cache
cache-Ready = record { block = omega arith; room = λ buf e. cc e }

-- a malloc that gives zeros
abbrev zeros : Malloc
zeros n = some (replicate n 0)

zeros-Gives : Gives zeros
zeros-Gives n = (replicate n 0, refl, omega (arith, length-replicate n 0))

-- the rank of 1.0
abbrev one_rank : ℕ
one_rank = 3070 * 2 ^ 52

-- the product by 1.01 of a double little above 1.0
abbrev near_one : Scale
near_one epsilon value = value + 2 ^ 52 / 100

fcyc-IsLeast_example :
    (n v : ℕ) × (d : Cache) × (fcyc near_one 25 zeros
        (λ n. zero_rank)
        (λ n. one_rank + n * 7)
        cache
        sampler
      ≡ done (v, d))
    × Stops near_one 3 20 hundredth (λ n. one_rank + n * 7) n
    × IsLeast (λ n. one_rank + n * 7) n v
fcyc-IsLeast_example =
    fcyc-IsLeast near_one 25 zeros (λ n. zero_rank) (λ n. one_rank + n * 7) cache sampler
      zeros-Gives cache-Ready (omega arith) (omega arith) (omega arith) (omega arith)

-- the low half has wrapped around between the readings
get_counter-difference_example :
    (get_counter (start_counter 5 4000000000) 6 1000 ≡ to_double (elapsed 5 4000000000 6 1000))
    × ((2 ^ 53 ≤ elapsed 5 4000000000 6 1000)
        ⊎ (get_counter (start_counter 5 4000000000) 6 1000 ≡ elapsed 5 4000000000 6 1000))
get_counter-difference_example =
    get_counter-difference 5 4000000000 6 1000 (omega arith) (omega arith) (omega arith)
      (omega arith)

-- two blocks, the second of which grows
abbrev small_trace : Trace
small_trace = record {
  sugg_heapsize = 20000;
  num_ids = 2;
  num_ops = 5;
  weight = 1;
  ops = alloc 0 512 ∷ alloc 1 128 ∷ realloc 1 640 ∷ free 0 ∷ free 1 ∷ [];
}

abbrev fresh : Trace
fresh = record { sugg_heapsize = 7; num_ids = 7; num_ops = 7; weight = 7; ops = [] }

read_trace-print_example : read_trace 10 (print_trace small_trace) fresh 99 ≡ trace small_trace
read_trace-print_example = read_trace-print 10 small_trace fresh 99 (omega arith) refl refl

-- the entries 3, 2, 1, 0, 0 and so on
abbrev falling : ℕ → ℕ
falling i = 3 - i

sort-Sorted_example :
    ((a b : ℕ) → a < b → b < 6 → sort falling 6 a ≤ sort falling 6 b)
    × ((v : ℕ) → count v 6 (sort falling 6) ≡ count v 6 falling)
    × ((k : ℕ) → 6 ≤ k → sort falling 6 k ≡ falling k)
sort-Sorted_example = sort-Sorted falling 6

-- 2 ^ 53 + 1 is no double
to_double_example : to_double (2 ^ 53 + 1) ≡ 2 ^ 53
unfolding to_double
to_double_example = refl

-- and 2 ^ 64 - 1 is rounded up
to_double-up_example : to_double (2 ^ 64 - 1) ≡ 2 ^ 64
unfolding to_double
to_double-up_example = refl
