-- ===== src/Fcyc/Ends.antt =====
-- The loop over samples of fcyc.c ends, with what each of its rounds establishes.
use uof_ufall.Base.{
  ℕ, zero, suc, ◌+◌, ◌/◌, ◌≤◌, ◌<◌, ◌≡◌, refl, true, false, arith, ◌⊎◌, inl, inr, ltb, Bool-cases,
  ap,
}
use uof_ufall.Fcyc.{
  Scale, Sampler, init_sampler, add_sample, has_converged, sample_loop, counter, fcyc, at,
}
use uof_ufall.Fcyc.Clear.{Result, done, and_then, Cache, Malloc, Ready, Gives, maybe_clear-Cleared}

add_sample-counts :
    (v : ℕ) (s : Sampler)
    → ((add_sample v s).samplecount ≡ s.samplecount + 1)
      × ((add_sample v s).maxsamples ≡ s.maxsamples)
unfolding add_sample
add_sample-counts v s = (refl, refl)

-- the sampler at the end of the loop
pub record Ended (scale : Scale) (Q : Sampler → Type 0) (t : Sampler) : Type 0 where
  pub outcome : (has_converged scale t ≡ true) ⊎ (t.maxsamples ≤ t.samplecount)
  pub holds : Q t

-- `P` holds before a round, `Q` after it
pub record Rounds (scale : Scale) (reading : ℕ → ℕ) (P Q : Sampler → Type 0) : Type 0 where
  pub sample : (s : Sampler) → P s → Q (add_sample (reading s.samplecount) s)
  pub more :
      (s : Sampler) → Q s → has_converged scale s ≡ false → s.samplecount < s.maxsamples → P s

module _ (scale : Scale) (fuel : ℕ) (malloc : Malloc) (gives : Gives malloc) (reading : ℕ → ℕ)
    {P Q : Sampler → Type 0} (rounds_do : Rounds scale reading P Q) where
  pub sample_loop-Ended :
      (rounds : ℕ) (c : Cache) (s : Sampler)
      → 0 < rounds
      → s.maxsamples ≤ s.samplecount + rounds
      → Ready c
      → c.cache_bytes / 4 < fuel
      → P s
      → (t : Sampler) × (d : Cache) × (sample_loop scale rounds fuel malloc reading c s
          ≡ done (t, d))
        × Ended scale Q t
  unfolding sample_loop
  sample_loop-Ended zero c s pos enough r enough' p = absurd (omega arith)
  sample_loop-Ended (suc rounds) c s pos enough r enough' p =
      let s' = add_sample (reading s.samplecount) s in
      let (count, limit) = add_sample-counts (reading s.samplecount) s in
      let (d, e, cleared) = maybe_clear-Cleared fuel malloc c gives r enough' in
      let bytes = cleared.bytes in
      let q = rounds_do.sample s p in
      rw e (elim (Bool-cases (has_converged scale s')) [
        | inl finished ↦ (s', d, rw finished refl, record { outcome = inl finished; holds = q })
        | inr apart ↦ elim (Bool-cases (ltb s'.samplecount s'.maxsamples)) [
          | inl more ↦
              let (t, f, loop, ended) =
                sample_loop-Ended rounds d s' (ground arith) (omega arith) cleared.ready
                  (rw bytes enough') (rounds_do.more s' q apart (ground arith)) in
              (t, f, rw (apart, more) loop, ended)
          | inr stop ↦
              (s', d, rw (apart, stop) refl, record { outcome = inr (ground arith); holds = q })
        ]
      ])

-- The same of `fcyc`, which returns the first of the values.
pub fcyc-Ended :
    (scale : Scale) (fuel : ℕ) (malloc : Malloc) (comp_reading reading : ℕ → ℕ) (c : Cache)
    (s : Sampler) {P Q : Sampler → Type 0}
    → Gives malloc
    → Ready c
    → c.cache_bytes / 4 < fuel
    → 0 < fuel
    → s.maxsamples ≤ fuel
    → Rounds scale (counter s comp_reading reading) P Q
    → P (init_sampler s)
    → (t : Sampler) × (d : Cache) × (fcyc scale fuel malloc comp_reading reading c s
        ≡ done (at t.values 0, d))
      × Ended scale Q t
unfolding fcyc init_sampler
fcyc-Ended scale fuel malloc comp_reading reading c s gives r enough' pos enough rounds_do start =
    let (t, d, e, ended) =
      sample_loop-Ended scale fuel malloc gives (counter s comp_reading reading) rounds_do fuel c
        (init_sampler s) pos (omega arith) r enough' start in
    (
      t,
      d,
      ap (λ (z : Result (Sampler × Cache)). and_then z λ (u, f). done (at u.values 0, f)) e,
      ended,
    )
