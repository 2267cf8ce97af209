-- ===== src/Driver/Ranges.antt =====
-- The range list of mdriver.c: the extent of every payload that is in use. The malloc of a range record
-- is taken to succeed: the end of the driver by `unix_error` where it fails is not modelled.
pub mod Laws
pub mod Accepted
use uof_ufall.Base.{
  ℕ, zero, suc, ◌+◌, ◌-◌, ◌/◌, ◌%◌, Bool, true, false, not, ◌&&◌, ◌||◌, List, [], ◌∷◌, ◌==◌,
  if◌then◌else◌, leb,
}
use uof_ufall.Pagemap.{Pagemap, pagemap_is_mapped}

pub record Range : Type 0 where
  pub lo : ℕ
  pub hi : ℕ

-- The outcome of `add_range`: the new list, a reported error with the list unchanged, or a failed
-- `assert(size > 0)`. A negative size fails the assertion as 0 does, so sizes are natural numbers.
pub data Added : Type 0 where
  added : List Range → Added
  rejected : Added
  assertion_failed : Added

abbrev pub is_aligned : ℕ → Bool
is_aligned p = p % 16 == 0

-- The `for` over the pages, by the rounds left.
unfoldable pub pages_mapped : ℕ → ℕ → Pagemap → Bool
pages_mapped zero p m = true
pages_mapped (suc n) p m = pagemap_is_mapped p m && pages_mapped n (p + 4096) m

-- the rounds of `for (i = 0; i < size; i += page_size)`
abbrev pub rounds : ℕ → ℕ
rounds size = (size + 4095) / 4096

abbrev pub overlaps : ℕ → ℕ → Range → Bool
overlaps lo hi p = (leb p.lo lo && leb lo p.hi) || (leb p.lo hi && leb hi p.hi)

unfoldable pub overlaps_any : ℕ → ℕ → List Range → Bool
overlaps_any lo hi [] = false
overlaps_any lo hi (p ∷ ps) = overlaps lo hi p || overlaps_any lo hi ps

unfoldable pub add_range : List Range → (lo size : ℕ) → Pagemap → Added
unfolding pages_mapped overlaps_any
add_range ranges lo size m =
    let hi = lo + size - 1 in
    if size == 0
    then assertion_failed
    else if not (is_aligned lo)
    then rejected
    else if not (pages_mapped (rounds size) lo m)
    then rejected
    else if not (pagemap_is_mapped (lo + size - 1) m)
    then rejected
    else if overlaps_any lo hi ranges
    then rejected
    else added (record { lo = lo; hi = hi } ∷ ranges)

unfoldable pub remove_range : List Range → ℕ → List Range
remove_range [] lo = []
remove_range (p ∷ ps) lo = if p.lo == lo then ps else p ∷ remove_range ps lo

unfoldable pub clear_ranges : List Range → List Range
clear_ranges ranges = []
