-- ===== src/Programs/Sort/Laws.antt =====
-- The selection sort of sort.c puts the entries in order, and keeps every value as often as it was.
use uof_ufall.Base.{
  ℕ, zero, suc, ◌+◌, ◌-◌, ◌≤◌, ◌<◌, ◌≡◌, refl, ◌==◌, ltb, if◌then◌else◌, arith, Bool-cases, inl,
  inr, subst, ◌∙◌,
}
use uof_ufall.Programs.Sort.{put, swap, min_loop, sort_loop, sort}

-- how often a value stands among the first `n` entries
abbrev pub count : ℕ → (n : ℕ) → (ℕ → ℕ) → ℕ
count v zero arr = 0
count v (suc n) arr = count v n arr + (if arr n == v then 1 else 0)

abbrev one : ℕ → ℕ → ℕ
one x v = if x == v then 1 else 0

count-put_above :
    (v n : ℕ) (arr : ℕ → ℕ) (k x : ℕ) → n ≤ k → count v n (put arr k x) ≡ count v n arr
count-put_above v zero arr k x h = refl
count-put_above v (suc n) arr k x h = ground (arith, count-put_above v n arr k x (omega arith))

count-put :
    (v n : ℕ) (arr : ℕ → ℕ) (k x : ℕ)
    → k < n
    → count v n (put arr k x) + one (arr k) v ≡ count v n arr + one x v
count-put v zero arr k x h = absurd (omega arith)
count-put v (suc n) arr k x h = elim (Bool-cases (n == k)) [
  | inl last ↦ ground (arith, count-put_above v n arr k x)
  | inr before ↦ ground (arith, count-put v n arr k x)
]

-- an exchange keeps the values
count-swap :
    (v n : ℕ) (arr : ℕ → ℕ) (i j : ℕ) → i < n → j < n → count v n (swap arr i j) ≡ count v n arr
unfolding swap
count-swap v n arr i j hi hj =
    ground (arith, count-put v n (put arr i (arr j)) j (arr i) hj, count-put v n arr i (arr j) hi)

-- what the inner loop finds
record Least (arr : ℕ → ℕ) (low high r : ℕ) : Type 0 where
  above : low ≤ r
  below : r < high
  least : (k : ℕ) → low ≤ k → k < high → arr r ≤ arr k

min_loop-Least :
    (rounds : ℕ) (arr : ℕ → ℕ) (low j m : ℕ)
    → Least arr low j m
    → Least arr low (j + rounds) (min_loop rounds arr j m)
unfolding min_loop
min_loop-Least zero arr low j m h = record {
  above = h.above;
  below = omega (arith, h.below);
  least = λ k lo hi. h.least k lo (omega arith);
}
min_loop-Least (suc rounds) arr low j m h =
    let above = h.above in
    let below = h.below in
    let next : Least arr low (suc j) (if ltb (arr j) (arr m) then j else m) = record {
      above = ground arith;
      below = ground arith;
      least = λ k lo hi. ground (arith, h.least k lo);
    } in
    subst
      (λ z. Least arr low z (min_loop rounds arr (suc j) (if ltb (arr j) (arr m) then j else m)))
      (omega arith) (min_loop-Least rounds arr low (suc j) _ next)

-- the first `i` entries are in order, and none behind them is smaller
abbrev Settled : (i size : ℕ) → (ℕ → ℕ) → Type 0
Settled i size arr = (a b : ℕ) → a < b → a < i → b < size → arr a ≤ arr b

swap-Settled :
    (arr : ℕ → ℕ) (i size m : ℕ)
    → Least arr i size m
    → Settled i size arr
    → Settled (suc i) size (swap arr i m)
unfolding swap
swap-Settled arr i size m h s a b lt ai bs =
    let above = h.above in
    let below = h.below in ground (arith, s a b, s a i, s a m, h.least b, h.least i)

-- what the outer loop reaches
record Ordered (arr : ℕ → ℕ) (size : ℕ) (sorted : ℕ → ℕ) : Type 0 where
  order : Settled size size sorted
  same : (v : ℕ) → count v size sorted ≡ count v size arr
  rest : (k : ℕ) → size ≤ k → sorted k ≡ arr k

swap-rest : (arr : ℕ → ℕ) (i m k : ℕ) → i < k → m < k → swap arr i m k ≡ arr k
unfolding swap
swap-rest arr i m k hi hm = ground arith

only : (arr : ℕ → ℕ) (i k : ℕ) → i ≡ k → arr i ≤ arr k
only arr i k e = subst (λ z. arr i ≤ arr z) e (omega arith)

sort_loop-Ordered :
    (rounds : ℕ) (arr : ℕ → ℕ) (i size : ℕ)
    → i + rounds ≡ size
    → Settled i size arr
    → Ordered arr size (sort_loop rounds arr i size)
unfolding sort_loop
sort_loop-Ordered zero arr i size e s = record {
  order = λ a b lt ai bs. s a b lt (omega arith) bs;
  same = λ v. refl;
  rest = λ k h. refl;
}
sort_loop-Ordered (suc rounds) arr i size e s =
    let m = min_loop (size - suc i) arr (suc i) i in
    let start : Least arr i (suc i) i = record {
      above = omega arith;
      below = omega arith;
      least = λ k lo hi. only arr i k (omega arith);
    } in
    let found : Least arr i size m =
      subst (λ z. Least arr i z m) (omega arith)
        (min_loop-Least (size - suc i) arr i (suc i) i start) in
    let rec =
      sort_loop-Ordered rounds (swap arr i m) (suc i) size (omega arith)
        (swap-Settled arr i size m found s) in
    record {
      order = rec.order;
      same = λ v. rec.same v ∙ count-swap v size arr i m (omega arith) found.below;
      rest = λ k h. rec.rest k h ∙ swap-rest arr i m k (omega arith) (omega (arith, found.below));
    }

-- For any array, `sort` leaves its first `size` entries in order, each value among them as often as
-- before, and every entry behind them as it was.
pub sort-Sorted :
    (arr : ℕ → ℕ) (size : ℕ)
    → ((a b : ℕ) → a < b → b < size → sort arr size a ≤ sort arr size b)
      × ((v : ℕ) → count v size (sort arr size) ≡ count v size arr)
      × ((k : ℕ) → size ≤ k → sort arr size k ≡ arr k)
unfolding sort
sort-Sorted arr size = elim (Bool-cases (ltb size 2)) [
  | inl short ↦ rw short (λ a b lt h. absurd (ground arith), λ v. refl, λ k h. refl)
  | inr long ↦
      let done =
        sort_loop-Ordered size arr 0 size (omega arith) (λ a b lt h. absurd (omega arith)) in
      rw long (λ a b lt h. done.order a b lt (omega arith) h, done.same, done.rest)
]
