-- ===== src/Clock.antt =====
-- cs4400/assn5/malloclab-handout/clock.c: the cycle counter of the x86, whose 64 bits are read in two
-- halves. The result is a double, here as the natural number that it stands for.
use native.Mathlib.Decide.{dec_lt}
use uof_ufall.Base.{
  zero, suc, ◌/◌, ◌≤◌, ◌⊎◌, inl, inr, ap, ◌∙◌, ℕ, ◌+◌, ◌-◌, ◌*◌, ◌%◌, ◌^◌, ◌<◌, ◌≡◌, arith,
  if◌then◌else◌, ltb,
}

-- `cyc_hi` and `cyc_lo`
pub record Counter : Type 0 where
  pub cyc_hi : ℕ
  pub cyc_lo : ℕ

-- `unsigned` subtraction wraps at 2 ^ 32
abbrev sub32 : ℕ → ℕ → ℕ
sub32 a b = (a + 2 ^ 32 - b) % 2 ^ 32

-- the counter is read into the static variables
unfoldable pub start_counter : (hi lo : ℕ) → Counter
start_counter hi lo = record { cyc_hi = hi; cyc_lo = lo }

-- the multiple of `unit` that is nearest to a number, and the even one of two
abbrev nearest : (unit n : ℕ) → ℕ
nearest unit n =
    let q = n / unit in
    if ltb (2 * (n % unit)) unit
    then q * unit
    else if ltb unit (2 * (n % unit))
    then (q + 1) * unit
    else (q + q % 2) * unit

-- the distance of the doubles around a number below 2 ^ 64, whose significands have 53 bits
abbrev distance : (rounds unit n : ℕ) → ℕ
distance zero unit n = unit
distance (suc rounds) unit n =
    let rest = distance rounds (2 * unit) n in if ltb n (2 ^ 53 * unit) then unit else rest

-- the double that a number below 2 ^ 64 is rounded to
unfoldable pub to_double : ℕ → ℕ
to_double n = nearest (distance 11 1 n) n

to_double-exact : (n : ℕ) → n < 2 ^ 53 → to_double n ≡ n
unfolding to_double
to_double-exact n small = ground arith

-- `Do double precision subtraction`, before the result is rounded
unfoldable pub subtract : Counter → (ncyc_hi ncyc_lo : ℕ) → ℕ
subtract c ncyc_hi ncyc_lo =
    let lo = sub32 ncyc_lo c.cyc_lo in
    let borrow = if ltb ncyc_lo lo then 1 else 0 in
    let hi = sub32 (sub32 ncyc_hi c.cyc_hi) borrow in hi * 2 ^ 30 * 4 + lo

-- A half and its multiples by 2 ^ 30 and 4 are doubles, so only the sum is rounded.
unfoldable pub get_counter : Counter → (ncyc_hi ncyc_lo : ℕ) → ℕ
unfolding subtract to_double
get_counter c ncyc_hi ncyc_lo = to_double (subtract c ncyc_hi ncyc_lo)

-- the 64 bits that two halves stand for
abbrev pub wide : (hi lo : ℕ) → ℕ
wide hi lo = hi * 2 ^ 32 + lo

-- the cycles between two readings, modulo 2 ^ 64
abbrev pub elapsed : (hi lo ncyc_hi ncyc_lo : ℕ) → ℕ
elapsed hi lo ncyc_hi ncyc_lo = (wide ncyc_hi ncyc_lo + 2 ^ 64 - wide hi lo) % 2 ^ 64

subtract-elapsed :
    (hi lo ncyc_hi ncyc_lo : ℕ)
    → hi < 2 ^ 32
    → lo < 2 ^ 32
    → ncyc_hi < 2 ^ 32
    → ncyc_lo < 2 ^ 32
    → subtract (start_counter hi lo) ncyc_hi ncyc_lo ≡ elapsed hi lo ncyc_hi ncyc_lo
unfolding subtract start_counter
subtract-elapsed hi lo ncyc_hi ncyc_lo a b c d = ground arith

-- For any two readings of a counter in halves of 32 bits, `get_counter` returns the 64-bit difference
-- of the second and the first, modulo 2 ^ 64, rounded to the nearest double. That is the difference
-- itself, unless it is 2 ^ 53 or more.
pub get_counter-difference :
    (hi lo ncyc_hi ncyc_lo : ℕ)
    → hi < 2 ^ 32
    → lo < 2 ^ 32
    → ncyc_hi < 2 ^ 32
    → ncyc_lo < 2 ^ 32
    → (get_counter (start_counter hi lo) ncyc_hi ncyc_lo
        ≡ to_double (elapsed hi lo ncyc_hi ncyc_lo))
      × ((2 ^ 53 ≤ elapsed hi lo ncyc_hi ncyc_lo)
          ⊎ (get_counter (start_counter hi lo) ncyc_hi ncyc_lo ≡ elapsed hi lo ncyc_hi ncyc_lo))
unfolding get_counter
get_counter-difference hi lo ncyc_hi ncyc_lo a b c d =
    let rounded = ap to_double (subtract-elapsed hi lo ncyc_hi ncyc_lo a b c d) in
    (
      rounded,
      elim (dec_lt (elapsed hi lo ncyc_hi ncyc_lo) (2 ^ 53)) [
        | yes small ↦ inr (rounded ∙ to_double-exact (elapsed hi lo ncyc_hi ncyc_lo) small)
        | no large ↦ inl (omega arith)
      ],
    )
