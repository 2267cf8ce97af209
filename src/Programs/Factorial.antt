-- ===== src/Programs/Factorial.antt =====
-- cs4400/simulator/tests/complex/factorial.c. An `int` is its bit pattern, so the product wraps at
-- 2 ^ 32; `fuel` bounds the depth of the recursion.
use uof_ufall.Base.{
  ℕ, zero, suc, ◌+◌, ◌-◌, ◌*◌, ◌%◌, ◌^◌, ◌<◌, ◌≡◌, ◌/◌, refl, sym, ◌∙◌, Option, none, some, ◌==◌,
  if◌then◌else◌, arith, ne→==, ap,
}
use native.Mathlib.Nat.{add-mul-mod_self_right}

-- `f * r` for a result `r` of the inner call
abbrev times : ℕ → Option ℕ → Option ℕ
times f none = none
times f (some r) = some (f * r % 2 ^ 32)

unfoldable pub fact : ℕ → ℕ → Option ℕ
fact zero f = none
fact (suc fuel) f =
    let rest = times f (fact fuel ((f + 2 ^ 32 - 1) % 2 ^ 32)) in if f == 2 then some 2 else rest

-- the product 1 * 2 * … * n
pub factorial : ℕ → ℕ
factorial zero = 1
factorial (suc n) = suc n * factorial n

mul_mod : (a b : ℕ) → a * (b % 2 ^ 32) % 2 ^ 32 ≡ a * b % 2 ^ 32
mul_mod a b =
    let split : b ≡ b / 2 ^ 32 * 2 ^ 32 + b % 2 ^ 32 = omega arith in
    let e : a * b ≡ a * (b % 2 ^ 32) + a * (b / 2 ^ 32) * 2 ^ 32 =
      ap (λ t. a * t) split ∙ omega arith in
    sym (rw e (add-mul-mod_self_right (a * (b % 2 ^ 32)) (a * (b / 2 ^ 32)) (2 ^ 32)))

-- From 2 on, with fuel for each level, `fact` returns the factorial modulo 2 ^ 32.
pub fact-factorial :
    (fuel n : ℕ)
    → suc (suc n) < 2 ^ 32
    → n < fuel
    → fact fuel (suc (suc n)) ≡ some (factorial (suc (suc n)) % 2 ^ 32)
unfolding fact factorial
fact-factorial zero n small enough = absurd (omega arith)
fact-factorial (suc fuel) zero small enough = refl
fact-factorial (suc fuel) (suc n) small enough =
    let e : (suc (suc (suc n)) + 2 ^ 32 - 1) % 2 ^ 32 ≡ suc (suc n) = omega arith in
    rw
      (
        ne→== (suc (suc (suc n))) 2 (omega arith),
        e,
        fact-factorial fuel n (omega arith) (omega arith),
      )
      (ap some (mul_mod (suc (suc (suc n))) (factorial (suc (suc n)))))
