-- ===== src/Mm/Arena/Refused.antt =====
-- `mm_malloc` of mm.c when the operating system has no memory: `mem_map` of memlib.c does not return.
use uof_ufall.Base.{
  ℕ, ◌+◌, ◌%◌, ◌^◌, ◌<◌, ◌≡◌, refl, none, List, arith, if◌then◌else◌, ◌∙◌, length, ne→==, add64,
}
use uof_ufall.Machine.{Ptr, null, ok, aborted, State, Os, mmap}
use uof_ufall.Memlib.{mem_map, decoy}
use uof_ufall.Memlib.Map.{decoy_due}
use uof_ufall.Mm.{mm_malloc}
use uof_ufall.Mm.Arena.{HeapInv}
use uof_ufall.Mm.Arena.Blocks.{header_at, every-HasHeader}
use uof_ufall.Mm.Arena.Fresh.{region_size, region_size_bounds}
use uof_ufall.Mm.Heap.{Block}
use uof_ufall.Mm.Layout.{align}
use uof_ufall.Mm.Lists.{find_fit}
use uof_ufall.Mm.Lists.Fit.{first_fit, find_fit-first_fit}

-- The answer to the request is MAP_FAILED.
abbrev pub Refused : Os → ℕ → State → Type 0
Refused os size s =
    os.mmap_answer (if decoy_due s then s.mmap_calls + 1 else s.mmap_calls) size ≡ none

mem_map-aborts :
    (os : Os) (size : ℕ) (s : State)
    → size % 4096 ≡ 0
    → Refused os size s
    → mem_map os size s ≡ aborted
unfolding mem_map decoy mmap decoy_due
mem_map-aborts os size s whole e = ground arith

-- On a well-formed heap, with fuel beyond the length of the free list, a request of a size from 1 up
-- to 2 ^ 64 - 4175 for which no block of the free list is large enough, and for which mmap fails,
-- aborts the program: `mm_malloc` does not return null.
pub mm_malloc-aborts :
    (os : Os) {s : State} {fuel : ℕ} {ends : Ptr → Ptr} {pages : List Ptr}
    {blocks : Ptr → List Block} {fl : List Ptr} (size : ℕ)
    → HeapInv s fuel ends pages blocks fl
    → 0 < size
    → size + 4174 < 2 ^ 64
    → length fl < fuel
    → first_fit (header_at s.mem) (align size + 32) fl ≡ null
    → Refused os (region_size size) s
    → mm_malloc os fuel size s ≡ aborted
unfolding mm_malloc
mm_malloc-aborts os {s} {fuel} size i pos small enough none_fits e =
    let total : add64 (add64 16 (align size)) 16 ≡ align size + 32 = omega arith in
    let (whole, low, high) = region_size_bounds size small in
    let found : find_fit fuel (align size) s ≡ ok null s =
      find_fit-first_fit s (header_at s.mem) (align size) fuel _ i.chain (every-HasHeader i) enough
      ∙ rw (total, none_fits) refl in
    let stops = mem_map-aborts os (region_size size) s whole e in
    rw (ne→== size 0 (omega arith), found, total, stops) refl
