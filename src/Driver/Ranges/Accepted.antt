-- ===== src/Driver/Ranges/Accepted.antt =====
-- Which payloads `add_range` of mdriver.c accepts.
use uof_ufall.Base.{
  ℕ, zero, suc, ◌+◌, ◌-◌, ◌*◌, ◌%◌, ◌≤◌, ◌<◌, ◌≡◌, ◌≢◌, refl, true, false, List, [], ◌∷◌, ◌++◌,
  arith, All, ap, eq→==, ne→==,
}
use uof_ufall.Driver.Ranges.{
  Range, added, overlaps_any, pages_mapped, rounds, add_range, remove_range,
}
use uof_ufall.Driver.Ranges.Laws.{Apart, IsExtent}
use uof_ufall.Memlib.Unmap.{RegionMapped}
use uof_ufall.Pagemap.{Pagemap, pagemap_is_mapped}

pages_mapped-true :
    (n p : ℕ) (m : Pagemap)
    → ((k : ℕ) → k < n → pagemap_is_mapped (p + k * 4096) m ≡ true)
    → pages_mapped n p m ≡ true
unfolding pages_mapped
pages_mapped-true zero p m every = refl
pages_mapped-true (suc n) p m every =
    let e : p + 0 * 4096 ≡ p = omega arith in
    let here : pagemap_is_mapped p m ≡ true = rw e at (every 0 (omega arith)) in
    let rest = pages_mapped-true n (p + 4096) m λ k lt.
      let e' : p + suc k * 4096 ≡ p + 4096 + k * 4096 = omega arith in
      rw e' at (every (suc k) (omega arith)) in
    rw (here, rest) refl

overlaps_any-false :
    (lo hi : ℕ) (ps : List Range)
    → lo ≤ hi
    → All IsExtent ps
    → All (Apart lo hi) ps
    → overlaps_any lo hi ps ≡ false
unfolding overlaps_any
overlaps_any-false lo hi [] h x n = refl
overlaps_any-false lo hi (p ∷ ps) h x n =
    ground (arith, x.0, n.0, overlaps_any-false lo hi ps h x.1 n.1)

-- A payload that is not empty, starts at a multiple of 16, lies on mapped pages, and shares no byte
-- with a payload in use is accepted.
pub add_range-accepts :
    (ranges : List Range) (lo size : ℕ) (m : Pagemap)
    → 0 < size
    → lo % 16 ≡ 0
    → RegionMapped lo size m
    → All IsExtent ranges
    → All (Apart lo (lo + size - 1)) ranges
    → add_range ranges lo size m ≡ added (record { lo = lo; hi = lo + size - 1 } ∷ ranges)
unfolding add_range
add_range-accepts ranges lo size m pos al mapped extents apart =
    let pages = pages_mapped-true (rounds size) lo m λ k lt. mapped _ (omega arith) (omega arith) in
    let last = mapped (lo + size - 1) (omega arith) (omega arith) in
    let free = overlaps_any-false lo (lo + size - 1) ranges (omega arith) extents apart in
    ground arith

-- `remove_range` takes the payload at `lo` away, wherever it stands
pub remove_range-middle :
    (front back : List Range) (r : Range)
    → All (λ (f : Range). f.lo ≢ r.lo) front
    → remove_range (front ++ r ∷ back) r.lo ≡ front ++ back
unfolding remove_range
remove_range-middle [] back r ne = rw (eq→== r.lo r.lo refl) refl
remove_range-middle (f ∷ front) back r ne =
    rw (ne→== f.lo r.lo ne.0) (ap (◌∷◌ f) (remove_range-middle front back r ne.1))
