-- ===== src/Fcyc.antt =====
-- cs4400/assn5/malloclab-handout/fcyc.c: the K-best measurement scheme. A double that is a number is
-- its rank in the order of the doubles, from -inf at 0 on, so samples may be negative or fractional,
-- and comparing ranks is comparing doubles. What the floating-point unit computes is a parameter.
pub mod Clear
pub mod Ends
pub mod Insert
pub mod Best
pub mod Stops
pub mod Least
use uof_ufall.Base.{
  ℕ, zero, suc, ◌+◌, ◌-◌, ◌*◌, ◌^◌, Bool, not, ◌&&◌, Option, none, some, List, [], ◌∷◌, leb, ltb,
  if◌then◌else◌, get_elem?, set, ◌==◌,
}
use uof_ufall.Fcyc.Clear.{Result, done, out_of_fuel, and_then, Cache, Malloc, maybe_clear}

-- The static variables; `values` has the length that `calloc` was asked for.
pub record Sampler : Type 0 where
  pub kbest : ℕ
  pub maxsamples : ℕ
  pub epsilon : ℕ
  pub compensate : ℕ
  pub values : List ℕ
  pub samplecount : ℕ

-- the product `(1 + epsilon) * value` of doubles, rounded as the floating-point unit does it
abbrev pub Scale : Type 0
Scale = (epsilon value : ℕ) → ℕ

-- the rank of 0.0: 2047 * 2 ^ 52 doubles are below it
abbrev pub zero_rank : ℕ
zero_rank = 2047 * 2 ^ 52

abbrev pub replicate : ℕ → ℕ → List ℕ
replicate zero v = []
replicate (suc n) v = v ∷ replicate n v

abbrev pub at : List ℕ → ℕ → ℕ
at values i = elim (get_elem? values i) [ none ↦ 0 | some v ↦ v ]

unfoldable pub init_sampler : Sampler → Sampler
init_sampler s = record s { values = replicate s.kbest zero_rank; samplecount = 0 }

-- `Insertion sort`: move the value at `pos` down while the one before it is larger
unfoldable pub sink : ℕ → List ℕ → List ℕ
sink zero values = values
sink (suc pos) values =
    let rest = sink pos (set (set values pos (at values (suc pos))) (suc pos) (at values pos)) in
    if ltb (at values (suc pos)) (at values pos) then rest else values

unfoldable pub add_sample : ℕ → Sampler → Sampler
unfolding sink
add_sample val s = record s {
  values =
      if ltb s.samplecount s.kbest
      then sink s.samplecount (set s.values s.samplecount val)
      else if ltb val (at s.values (s.kbest - 1))
      then sink (s.kbest - 1) (set s.values (s.kbest - 1) val)
      else sink 0 s.values;
  samplecount = s.samplecount + 1;
}

unfoldable pub has_converged : Scale → Sampler → Bool
has_converged scale s =
    leb s.kbest s.samplecount && leb (at s.values (s.kbest - 1)) (scale s.epsilon (at s.values 0))

-- The `do … while`: `reading n` is what the counter gives after the call of `f` that follows `n`
-- others. `rounds` is the fuel for the samples, `fuel` that for clearing the cache.
unfoldable pub sample_loop :
    Scale → ℕ → (fuel : ℕ) → Malloc → (reading : ℕ → ℕ) → Cache → Sampler → Result (Sampler × Cache)
unfolding add_sample has_converged
sample_loop scale zero fuel malloc reading c s = out_of_fuel
sample_loop scale (suc rounds) fuel malloc reading c s = and_then (maybe_clear fuel malloc c) λ d.
    let s' = add_sample (reading s.samplecount) s in
    let rest = sample_loop scale rounds fuel malloc reading d s' in
    if not (has_converged scale s') && ltb s'.samplecount s'.maxsamples then rest else done (s', d)

-- `get_comp_counter` or `get_counter`
abbrev pub counter : Sampler → (comp_reading reading : ℕ → ℕ) → ℕ → ℕ
counter s comp_reading reading = if s.compensate == 0 then reading else comp_reading

unfoldable pub fcyc :
    Scale
    → (fuel : ℕ) → Malloc
    → (comp_reading reading : ℕ → ℕ) → Cache
    → Sampler
    → Result (ℕ × Cache)
unfolding sample_loop init_sampler
fcyc scale fuel malloc comp_reading reading c s =
    and_then
      (sample_loop scale fuel fuel malloc (counter s comp_reading reading) c (init_sampler s))
      λ (t, d). done (at t.values 0, d)

unfoldable pub set_fcyc_compensate : ℕ → Sampler → Sampler
set_fcyc_compensate compensate_arg s = record s { compensate = compensate_arg }

unfoldable pub set_fcyc_k : ℕ → Sampler → Sampler
set_fcyc_k k s = record s { kbest = k }

unfoldable pub set_fcyc_maxsamples : ℕ → Sampler → Sampler
set_fcyc_maxsamples maxsamples_arg s = record s { maxsamples = maxsamples_arg }

unfoldable pub set_fcyc_epsilon : ℕ → Sampler → Sampler
set_fcyc_epsilon epsilon_arg s = record s { epsilon = epsilon_arg }
