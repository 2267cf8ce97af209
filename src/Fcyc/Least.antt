-- ===== src/Fcyc/Least.antt =====
-- fcyc.c returns the least of its samples.
use uof_ufall.Base.{
  ℕ, zero, suc, ◌/◌, ◌≤◌, ◌<◌, ◌≡◌, refl, List, [], ◌∷◌, arith, inl, inr, ltb, if◌then◌else◌,
  length, ap, ◌∙◌, Bool-cases, sym,
}
use native.Mathlib.Decide.{ℕ_discrete}
use uof_ufall.Fcyc.{Scale, Sampler, at, counter, fcyc}
use uof_ufall.Fcyc.Clear.{done, Cache, Malloc, Ready, Gives}
use uof_ufall.Fcyc.Insert.{insert, sorted_samples, length-sorted}
use uof_ufall.Fcyc.Stops.{Stops, fcyc-kbest}

insert-first :
    (v : ℕ) (xs : List ℕ)
    → 0 < length xs
    → at (insert v xs) 0 ≡ (if ltb v (at xs 0) then v else at xs 0)
unfolding insert
insert-first v [] some_in = absurd (omega arith)
insert-first v (x ∷ xs) some_in = ground arith

-- none of the first `n` samples is below `v`, which is one of them
pub record IsLeast (reading : ℕ → ℕ) (n v : ℕ) : Type 0 where
  pub below : (i : ℕ) → i < n → v ≤ reading i
  pub at : ℕ
  pub within : at < n
  pub taken : reading at ≡ v

sorted-IsLeast :
    (reading : ℕ → ℕ) (n : ℕ) → IsLeast reading (suc n) (at (sorted_samples reading (suc n)) 0)
unfolding sorted_samples insert
sorted-IsLeast reading zero = record {
  below = λ i lo. let e : i ≡ 0 = omega arith in rw e (omega arith);
  at = 0;
  within = omega arith;
  taken = refl;
}
sorted-IsLeast reading (suc n) =
    let before = sorted_samples reading (suc n) in
    let v = reading (suc n) in
    let least = sorted-IsLeast reading n in
    let first = insert-first v before (omega (arith, length-sorted reading (suc n))) in
    elim (Bool-cases (ltb v (at before 0))) [
      | inl lower ↦
          let here : at (insert v before) 0 ≡ v = first ∙ rw lower refl in
          record {
            below = λ i lo. elim (ℕ_discrete i (suc n)) [
              | yes e ↦ omega (arith, here, ap reading e)
              | no ne ↦ ground (arith, here, least.below i)
            ];
            at = suc n;
            within = omega arith;
            taken = sym here;
          }
      | inr higher ↦
          let there : at (insert v before) 0 ≡ at before 0 = first ∙ rw higher refl in
          record {
            below = λ i lo. elim (ℕ_discrete i (suc n)) [
              | yes e ↦ ground (arith, there, ap reading e)
              | no ne ↦ ground (arith, there, least.below i)
            ];
            at = least.at;
            within = omega (arith, least.within);
            taken = least.taken ∙ sym there;
          }
    ]

-- For a sampler that keeps one value or more, any readings of the counters, any floating-point unit,
-- cache blocks of four bytes or more, a buffer for the cache of its size or none yet, and a malloc that
-- gives one, with fuel for one sample, for `maxsamples` and for the words of the cache, `fcyc` ends. It
-- returns the least of the samples it takes, which are the fewest, and at least one, that have
-- converged or are `maxsamples`.
pub fcyc-IsLeast :
    (scale : Scale) (fuel : ℕ) (malloc : Malloc) (comp_reading reading : ℕ → ℕ) (c : Cache)
    (s : Sampler)
    → Gives malloc
    → Ready c
    → c.cache_bytes / 4 < fuel
    → 0 < s.kbest
    → 0 < fuel
    → s.maxsamples ≤ fuel
    → (n v : ℕ) × (d : Cache) × (fcyc scale fuel malloc comp_reading reading c s ≡ done (v, d))
      × Stops scale s.kbest s.maxsamples s.epsilon (counter s comp_reading reading) n
      × IsLeast (counter s comp_reading reading) n v
fcyc-IsLeast scale fuel malloc comp_reading reading c s gives r enough' keeps pos enough =
    let used = counter s comp_reading reading in
    let (n, d, stops, e) =
      fcyc-kbest scale fuel malloc comp_reading reading c s gives r enough' keeps pos enough in
    (n, at (sorted_samples used n) 0, d, e, stops, least n stops.some_taken)
  where
    least :
        (n : ℕ)
        → 0 < n
        → IsLeast
            (counter s comp_reading reading)
            n
            (at (sorted_samples (counter s comp_reading reading) n) 0)
    least zero some_taken = absurd (omega arith)
    least (suc n) some_taken = sorted-IsLeast (counter s comp_reading reading) n
