-- ===== src/Fcyc/Stops.antt =====
-- How many samples fcyc.c takes, and what it returns, by a sorted list of the samples alone.
use uof_ufall.Base.{
  ℕ, suc, ◌/◌, ◌≤◌, ◌<◌, ◌≡◌, refl, true, false, arith, ◌⊎◌, inl, inr, ◌∙◌, sym, ap,
}
use native.Mathlib.Decide.{ℕ_discrete}
use uof_ufall.Fcyc.{Scale, Sampler, at, init_sampler, add_sample, has_converged, counter, fcyc}
use uof_ufall.Fcyc.Best.{Best, add_sample-Best, init-Best, least-Best, has_converged-Best}
use uof_ufall.Fcyc.Clear.{done, Cache, Malloc, Ready, Gives}
use uof_ufall.Fcyc.Ends.{Rounds, fcyc-Ended}
use uof_ufall.Fcyc.Insert.{sorted_samples, converged}

-- `n` samples are the fewest, and at least one, that have converged or are `maxsamples`
pub record Stops (scale : Scale) (kbest maxsamples epsilon : ℕ) (reading : ℕ → ℕ) (n : ℕ)
    : Type 0 where
  pub some_taken : 0 < n
  pub reason : (converged scale kbest epsilon reading n ≡ true) ⊎ (maxsamples ≤ n)
  pub fewest :
      (j : ℕ) → 0 < j → j < n → (converged scale kbest epsilon reading j ≡ false) × (j < maxsamples)

-- The sampler in the loop, with the parameters of `s`: fewer than `bound` samples were not enough.
record Sampling (scale : Scale) (reading : ℕ → ℕ) (s : Sampler) (bound : ℕ) (t : Sampler)
    : Type 0 where
  best : Best reading t
  kbest : t.kbest ≡ s.kbest
  maxsamples : t.maxsamples ≡ s.maxsamples
  epsilon : t.epsilon ≡ s.epsilon
  fewer :
      (j : ℕ)
      → 0 < j
      → j < bound
      → (converged scale s.kbest s.epsilon reading j ≡ false) × (j < s.maxsamples)

-- after a sample
record Sampled (scale : Scale) (reading : ℕ → ℕ) (s t : Sampler) : Type 0 where
  sampling : Sampling scale reading s t.samplecount t
  some_taken : 0 < t.samplecount

Sampled-converged :
    {scale : Scale} {reading : ℕ → ℕ} {s t : Sampler}
    → Sampled scale reading s t
    → has_converged scale t ≡ converged scale s.kbest s.epsilon reading t.samplecount
Sampled-converged {scale} {reading} {s} {t} q =
    has_converged-Best reading t q.sampling.best scale q.some_taken
    ∙ (ap (λ k. converged scale k t.epsilon reading t.samplecount) q.sampling.kbest
        ∙ ap (λ e. converged scale s.kbest e reading t.samplecount) q.sampling.epsilon)

Sampling-Rounds :
    (scale : Scale) (reading : ℕ → ℕ) (s : Sampler)
    → Rounds scale reading
        (λ t. Sampling scale reading s (suc t.samplecount) t)
        (Sampled scale reading s)
unfolding add_sample
Sampling-Rounds scale reading s = record {
  sample = λ t p. record {
    sampling = record {
      best = add_sample-Best reading t p.best;
      kbest = p.kbest;
      maxsamples = p.maxsamples;
      epsilon = p.epsilon;
      fewer = λ j pos lo. p.fewer j pos (omega arith);
    };
    some_taken = omega arith;
  };
  more = λ t q apart below. record {
    best = q.sampling.best;
    kbest = q.sampling.kbest;
    maxsamples = q.sampling.maxsamples;
    epsilon = q.sampling.epsilon;
    fewer = λ j pos lo. elim (ℕ_discrete j t.samplecount) [
      | yes here ↦ (
        ap (converged scale s.kbest s.epsilon reading) here ∙ (sym (Sampled-converged q) ∙ apart),
        omega (arith, q.sampling.maxsamples),
      )
      | no ne ↦ q.sampling.fewer j pos (omega arith)
    ];
  };
}

pub fcyc-kbest :
    (scale : Scale) (fuel : ℕ) (malloc : Malloc) (comp_reading reading : ℕ → ℕ) (c : Cache)
    (s : Sampler)
    → Gives malloc
    → Ready c
    → c.cache_bytes / 4 < fuel
    → 0 < s.kbest
    → 0 < fuel
    → s.maxsamples ≤ fuel
    → (n : ℕ) × (d : Cache) × Stops scale s.kbest s.maxsamples s.epsilon
        (counter s comp_reading reading)
        n
      × (fcyc scale fuel malloc comp_reading reading c s
          ≡ done (at (sorted_samples (counter s comp_reading reading) n) 0, d))
unfolding init_sampler
fcyc-kbest scale fuel malloc comp_reading reading c s gives r enough' keeps pos enough =
    let used = counter s comp_reading reading in
    let (t, d, e, ended) =
      fcyc-Ended scale fuel malloc comp_reading reading c s gives r enough' pos enough
        (Sampling-Rounds scale used s)
        (record {
          best = init-Best used s keeps;
          kbest = refl;
          maxsamples = refl;
          epsilon = refl;
          fewer = λ j lo hi. absurd (omega arith);
        }) in
    let q = ended.holds in
    (
      t.samplecount,
      d,
      record {
        some_taken = q.some_taken;
        reason = elim ended.outcome [
          | inl finished ↦ inl (sym (Sampled-converged q) ∙ finished)
          | inr limit ↦ inr (omega (arith, q.sampling.maxsamples))
        ];
        fewest = q.sampling.fewer;
      },
      e ∙ ap (λ v. done (v, d)) (least-Best used t q.sampling.best q.some_taken),
    )
