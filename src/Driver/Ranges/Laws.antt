-- ===== src/Driver/Ranges/Laws.antt =====
-- What the range list of mdriver.c checks, and what it misses.
use uof_ufall.Base.{
  ℕ, zero, suc, ◌+◌, ◌-◌, ◌/◌, ◌%◌, ◌*◌, ◌≤◌, ◌<◌, ◌≡◌, refl, ◌⊎◌, ◌↔◌, true, false, List, [], ◌∷◌,
  arith, All, eq→==, ◌∙◌,
}
use native.Mathlib.Decide.{dec_lt}
use uof_ufall.Pagemap.{Pagemap, pagemap_is_mapped}
use uof_ufall.Pagemap.Laws.{is_mapped-same_page}
use uof_ufall.Driver.Ranges.{
  Range, added, overlaps, overlaps_any, pages_mapped, rounds, add_range, remove_range,
}

-- For two extents that are not empty, the overlap test of `add_range` passes exactly when the new
-- one lies before the old one, behind it, or strictly around it.
pub overlaps-false_iff :
    (lo hi : ℕ) (p : Range)
    → lo ≤ hi
    → p.lo ≤ p.hi
    → (overlaps lo hi p ≡ false) ↔ ((hi < p.lo) ⊎ ((p.hi < lo) ⊎ ((lo < p.lo) × (p.hi < hi))))
overlaps-false_iff lo hi p h k = (λ e. ground arith, λ e. ground arith)

-- the two extents share no address
abbrev pub Apart : ℕ → ℕ → Range → Type 0
Apart lo hi p = (hi < p.lo) ⊎ (p.hi < lo)

-- neither end of the old extent lies strictly inside of the new one
abbrev pub NotInside : ℕ → ℕ → Range → Type 0
NotInside lo hi p = (p.lo ≤ lo) ⊎ (hi ≤ p.hi)

abbrev pub IsExtent : Range → Type 0
IsExtent p = p.lo ≤ p.hi

overlaps_any-Apart :
    (lo hi : ℕ) (ps : List Range)
    → lo ≤ hi
    → overlaps_any lo hi ps ≡ false
    → All IsExtent ps
    → All (NotInside lo hi) ps
    → All (Apart lo hi) ps
unfolding overlaps_any
overlaps_any-Apart lo hi [] h e x n = tt
overlaps_any-Apart lo hi (p ∷ ps) h e x n =
    (ground (arith, n.0, x.0), overlaps_any-Apart lo hi ps h (ground arith) x.1 n.1)

overlaps_any-inside :
    (lo hi : ℕ) (ps : List Range)
    → All (λ p. (lo < p.lo) × (p.hi < hi) × (p.lo ≤ p.hi)) ps
    → overlaps_any lo hi ps ≡ false
unfolding overlaps_any
overlaps_any-inside lo hi [] h = refl
overlaps_any-inside lo hi (p ∷ ps) h = ground (arith, overlaps_any-inside lo hi ps h.1, h.0)

-- every page that a round looks at is mapped
pages_mapped-round :
    (n lo k : ℕ) (m : Pagemap)
    → pages_mapped n lo m ≡ true
    → k < n
    → pagemap_is_mapped (lo + k * 4096) m ≡ true
unfolding pages_mapped
pages_mapped-round zero lo k m h lt = absurd (omega arith)
pages_mapped-round (suc n) lo zero m h lt =
    let e : lo + 0 * 4096 ≡ lo = omega arith in rw e (ground arith)
pages_mapped-round (suc n) lo (suc k) m h lt =
    let e : lo + suc k * 4096 ≡ (lo + 4096) + k * 4096 = omega arith in
    rw e (pages_mapped-round n (lo + 4096) k m (ground arith) (omega arith))

-- an address of the extent lies on the page of some round, or on the last page
pages_mapped-all :
    (lo size a : ℕ) (m : Pagemap)
    → pages_mapped (rounds size) lo m ≡ true
    → pagemap_is_mapped (lo + size - 1) m ≡ true
    → lo ≤ a
    → a < lo + size
    → pagemap_is_mapped a m ≡ true
pages_mapped-all lo size a m h last low high = elim (dec_lt (a / 4096) ((lo + size - 1) / 4096)) [
  | yes before ↦
      is_mapped-same_page a (lo + k * 4096) m (eq→== _ _ (omega arith))
      ∙ pages_mapped-round (rounds size) lo k m h (omega arith)
  | no after ↦ is_mapped-same_page a (lo + size - 1) m (eq→== _ _ (omega arith)) ∙ last
]
  where
    k : ℕ
    k = a / 4096 - lo / 4096

-- An accepted payload starts at a multiple of 16, lies on mapped pages with every byte, and is put
-- in front of the ranges.
pub add_range-added :
    (ranges rs : List Range) (lo size : ℕ) (m : Pagemap)
    → add_range ranges lo size m ≡ added rs
    → (0 < size)
      × (lo % 16 ≡ 0)
      × (rs ≡ record { lo = lo; hi = lo + size - 1 } ∷ ranges)
      × ((a : ℕ) → lo ≤ a → a < lo + size → pagemap_is_mapped a m ≡ true)
unfolding add_range
add_range-added ranges rs lo size m h = (
  ground arith,
  ground arith,
  ground arith,
  λ a low high. pages_mapped-all lo size a m (ground arith) (ground arith) low high,
)

-- Where no payload in use is empty and none lies strictly inside of the new one, an accepted payload
-- shares no byte with a payload in use.
pub add_range-Apart :
    (ranges rs : List Range) (lo size : ℕ) (m : Pagemap)
    → add_range ranges lo size m ≡ added rs
    → All IsExtent ranges
    → All (NotInside lo (lo + size - 1)) ranges
    → All (Apart lo (lo + size - 1)) ranges
unfolding add_range
add_range-Apart ranges rs lo size m h x n =
    overlaps_any-Apart lo (lo + size - 1) ranges (ground arith) (ground arith) x n

-- A payload that strictly contains every payload in use is accepted, although it overlaps them, if
-- it is not empty, aligned and mapped.
pub add_range-misses :
    (ranges : List Range) (lo size : ℕ) (m : Pagemap)
    → 0 < size
    → lo % 16 ≡ 0
    → pages_mapped (rounds size) lo m ≡ true
    → pagemap_is_mapped (lo + size - 1) m ≡ true
    → All (λ p. (lo < p.lo) × (p.hi < lo + size - 1) × (p.lo ≤ p.hi)) ranges
    → add_range ranges lo size m ≡ added (record { lo = lo; hi = lo + size - 1 } ∷ ranges)
unfolding add_range
add_range-misses ranges lo size m pos al pages last inside =
    ground (arith, overlaps_any-inside lo (lo + size - 1) ranges inside)

-- Removing the payload that was added last gives back the ranges before.
pub remove_range-add_range :
    (ranges rs : List Range) (lo size : ℕ) (m : Pagemap)
    → add_range ranges lo size m ≡ added rs
    → remove_range rs lo ≡ ranges
unfolding remove_range
remove_range-add_range ranges rs lo size m h =
    rw (add_range-added ranges rs lo size m h).2 (ground arith)
