-- ===== src/Programs/Log2.antt =====
-- cs4400/simulator/tests/complex/log2.c. `fuel` bounds the depth of the recursion.
use uof_ufall.Base.{
  ℕ, zero, suc, ◌*◌, ◌/◌, ◌^◌, ◌≤◌, ◌<◌, ◌≡◌, Option, none, some, if◌then◌else◌, leb, arith,
  Bool-cases, inl, inr, leb→le, leb→gt,
}
use mathlib.Core.Option
use native.Mathlib.Nat.{pow-suc}

unfoldable pub log2 : ℕ → ℕ → Option ℕ
log2 zero input = none
log2 (suc fuel) input =
    let rest = Option.map suc (log2 fuel (input / 2)) in if leb input 2 then some 1 else rest

-- With fuel beyond the input, `log2` returns a result `r`, and it is the logarithm of the input up
-- to one: 2 ^ r is at most twice the input, and the input is below 2 ^ (r + 1).
pub log2_bounds :
    (fuel input : ℕ)
    → 0 < input
    → input < fuel
    → (r : ℕ) × (log2 fuel input ≡ some r) × (2 ^ r ≤ 2 * input) × (input < 2 ^ suc r)
unfolding log2
log2_bounds zero input pos enough = absurd (omega arith)
log2_bounds (suc fuel) input pos enough = elim (Bool-cases (leb input 2)) [
  | inl small ↦ (1, rw small, omega (arith, leb→le), omega (arith, leb→le))
  | inr large ↦
      let big = leb→gt input 2 large in
      let (r, e, low, high) = log2_bounds fuel (input / 2) (omega arith) (omega arith) in
      (
        suc r,
        rw (large, e),
        omega (arith, pow-suc 2 r),
        omega (arith, pow-suc 2 r, pow-suc 2 (suc r)),
      )
]
