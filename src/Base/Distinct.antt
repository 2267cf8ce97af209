-- ===== src/Base/Distinct.antt =====
-- Lists of numbers without repetition. One whose numbers are below a bound is no longer than the bound.
use uof_ufall.Base.{
  ℕ, zero, suc, ◌≤◌, ◌<◌, ◌≡◌, refl, Bool, true, false, ◌||◌, List, [], ◌∷◌, arith, length,
  Bool-cases, inl, inr, ◌==◌, if◌then◌else◌,
}

abbrev pub has : ℕ → List ℕ → Bool
has a [] = false
has a (p ∷ xs) = (a == p) || has a xs

-- no number stands in the list twice
abbrev pub Distinct : List ℕ → Type 0
Distinct [] = Unit
Distinct (x ∷ xs) = (has x xs ≡ false) × Distinct xs

abbrev pub without : ℕ → List ℕ → List ℕ
without a [] = []
without a (x ∷ xs) = if x == a then xs else x ∷ without a xs

pub has-without : (a b : ℕ) (xs : List ℕ) → has b (without a xs) ≡ true → has b xs ≡ true
has-without a b [] h = h
has-without a b (x ∷ xs) h = ground (arith, has-without a b xs)

pub without-Distinct : (a : ℕ) (xs : List ℕ) → Distinct xs → Distinct (without a xs)
without-Distinct a [] d = tt
without-Distinct a (x ∷ xs) d = elim (Bool-cases (x == a)) [
  | inl here ↦ rw here d.1
  | inr later ↦ rw later (
    (elim (Bool-cases (has x (without a xs))) [
      | inl h ↦ absurd (ground (arith, has-without a x xs h, d.0))
      | inr o ↦ o
    ]),
    without-Distinct a xs d.1,
  )
]

pub without-gone : (a : ℕ) (xs : List ℕ) → Distinct xs → has a (without a xs) ≡ false
without-gone a [] d = refl
without-gone a (x ∷ xs) d = ground (arith, without-gone a xs d.1, d.0)

length-without : (a : ℕ) (xs : List ℕ) → length xs ≤ suc (length (without a xs))
length-without a [] = omega arith
length-without a (x ∷ xs) = elim (Bool-cases (x == a)) [
  | inl here ↦ rw here (omega arith)
  | inr later ↦ rw later (omega (arith, length-without a xs))
]

pub Distinct-length :
    (n : ℕ) (xs : List ℕ) → Distinct xs → ((a : ℕ) → has a xs ≡ true → a < n) → length xs ≤ n
Distinct-length zero [] d below = omega arith
Distinct-length zero (x ∷ xs) d below = absurd (omega (arith, below x (ground arith)))
Distinct-length (suc n) xs d below = omega (
  arith,
  length-without n xs,
  Distinct-length n (without n xs) (without-Distinct n xs d)
      λ a h. ground (arith, below a (has-without n a xs h), without-gone n xs d),
)
