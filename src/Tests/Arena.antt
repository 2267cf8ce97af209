-- ===== src/Tests/Arena.antt =====
-- The whole heap of one page, and the operations on it.
use uof_ufall.Base.{◌+◌, ◌≡◌, ◌≢◌, refl, true, false, none, List, [], ◌∷◌, arith, subst, sym}
use uof_ufall.Machine.{Ptr, State, Os, null, aborted}
use uof_ufall.Machine.Returns.{Returns}
use uof_ufall.Memlib.{mem_map, mem_pagesize}
use uof_ufall.Memlib.Map.{Granted, Obtained, decoy_due, mem_map-Obtained}
use uof_ufall.Memlib.Table.{initial-TableInv}
use uof_ufall.Pagemap.{initial, pagemap_is_mapped}
use uof_ufall.Mm.Arena.Fresh.{Grown, region_size, mm_malloc-Grown}
use uof_ufall.Mm.Arena.Refused.{mm_malloc-aborts}
use uof_ufall.Mm.Arena.Init.{mm_init-HeapInv}
use uof_ufall.Mm.{mm_init, map_size, mm_malloc, mm_free, check_and_unmap_full_pages}
use uof_ufall.Mm.Arena.{view, Region, HeapInv}
use uof_ufall.Mm.Arena.Blocks.{header_at}
use uof_ufall.Mm.Arena.Free.{freed, mm_free-HeapInv}
use uof_ufall.Mm.Arena.Keeping.{Unchanged}
use uof_ufall.Mm.Arena.Live.{live}
use uof_ufall.Mm.Arena.Malloc.{Allocated, mm_malloc-HeapInv}
use uof_ufall.Mm.Arena.Taken.{Taken}
use uof_ufall.Mm.Arena.Sweep.{kept_pages, dropped, check_and_unmap-HeapInv}
use uof_ufall.Mm.Heap.{Block, block, PageInv}
use uof_ufall.Mm.Layout.{align}
use uof_ufall.Mm.Lists.Chain.{has, nil}
use uof_ufall.Mm.Lists.Fit.{first_fit}
use uof_ufall.Tests.{linux}
use uof_ufall.Tests.Page.{small, small-Pages, small-Chain, small-PageInv}
use uof_ufall.Tests.Tables.{table-RegionMapped, table-TableInv}

abbrev pub ends : Ptr → Ptr
ends p = 8192

abbrev pub blocks : Ptr → List Block
blocks p = block 48 true ∷ block 4016 false ∷ []

small-Region : Region small 4096 8192
small-Region = record {
  page_aligned = refl;
  whole = refl;
  below = omega arith;
  bound = omega arith;
  size = refl;
  table = table-RegionMapped;
}

only_page : (p : Ptr) → has p (4096 ∷ []) ≡ true → p ≡ 4096
only_page p h = ground arith

pub small-HeapInv : HeapInv small 3 ends (4096 ∷ []) blocks (4192 ∷ [])
small-HeapInv = record {
  page = λ p h.
      subst
        (λ z.
          PageInv small 3 (view small ends (4096 ∷ []) (4192 ∷ [])) z 8192 (blocks z) (4192 ∷ []))
        (sym (only_page p h)) small-PageInv;
  listed = small-Pages;
  enough = omega arith;
  chain = small-Chain;
  region = λ p h. subst (λ z. Region small z 8192) (sym (only_page p h)) small-Region;
  apart = λ p p' h h' ne. ground arith;
  owner = λ a h. (4096, refl, ground arith, ground arith);
  table = table-TableInv;
}

small-fits : first_fit (header_at small.mem) (align 100 + 32) (4192 ∷ []) ≡ 4192
unfolding first_fit
small-fits = refl

pub small-fit_found : first_fit (header_at small.mem) (align 100 + 32) (4192 ∷ []) ≢ null
small-fit_found e = omega (arith, small-fits, e)

mm_malloc-HeapInv_example :
    Returns (Allocated 3 ends (4096 ∷ []) blocks small 100) (mm_malloc linux 3 100 small)
mm_malloc-HeapInv_example =
    mm_malloc-HeapInv linux 100 small-HeapInv (omega arith) (omega arith) (omega arith)
      small-fit_found

mm_free-HeapInv_example :
    Returns
      (λ _ t.
        (gl : List Ptr) × HeapInv t 3 ends
          (kept_pages (freed blocks 4096 [] 48 (block 4016 false ∷ [])) (4096 ∷ []))
          (freed blocks 4096 [] 48 (block 4016 false ∷ []))
          gl
        × Unchanged (live (freed blocks 4096 [] 48 (block 4016 false ∷ [])) (4096 ∷ [])) small t
        × Taken
            (dropped (freed blocks 4096 [] 48 (block 4016 false ∷ [])) ends (4096 ∷ []))
            small
            t)
      (mm_free linux 3 4144 small)
mm_free-HeapInv_example =
    mm_free-HeapInv linux 4096 [] 48 (block 4016 false ∷ []) (λ p size. refl) small-HeapInv refl
      refl

check_and_unmap-HeapInv_example :
    Returns
      (λ _ t.
        (gl : List Ptr) × HeapInv t 3 ends (kept_pages blocks (4096 ∷ [])) blocks gl
        × Taken (dropped blocks ends (4096 ∷ [])) small t)
      (check_and_unmap_full_pages linux 3 small)
check_and_unmap-HeapInv_example = check_and_unmap-HeapInv linux (λ p size. refl) small-HeapInv

-- the program's start
abbrev pub start : State
start = record {
  mem = λ a. none;
  free_list_head = 0;
  page_list_head = 0;
  pagemap = initial;
  page_count = 0;
  activity_counter = 0;
  mmap_calls = 0;
}

abbrev no_blocks : Ptr → List Block
no_blocks p = []

mm_init-HeapInv_example :
    Returns (λ r t. (r ≡ 0) × HeapInv t 3 ends [] no_blocks []) (mm_init start)
mm_init-HeapInv_example = mm_init-HeapInv start 3 ends no_blocks (omega arith) initial-TableInv

start-HeapInv : HeapInv start 3 ends [] no_blocks []
start-HeapInv = record {
  page = λ pc h. cc h;
  listed = record { chain = nil; ends_at = tt };
  enough = omega arith;
  chain = nil;
  region = λ pc h. cc h;
  apart = λ pc pc' h h' ne. cc h;
  owner = λ a h. cc h;
  table = initial-TableInv;
}

pub start-Granted : Granted linux (region_size 5000) start 0x7f00_0010_0000
unfolding decoy_due map_size mem_pagesize pagemap_is_mapped
start-Granted = record {
  answer = refl;
  positive = omega arith;
  aligned = refl;
  bound = omega arith;
  vacant = λ a low high. refl;
  unmapped = λ q low high. refl;
  spare = λ q e a low high. refl;
}

mm_malloc-Grown_example :
    Returns (Grown 3 ends [] no_blocks start 5000 0x7f00_0010_0000) (mm_malloc linux 3 5000 start)
unfolding first_fit
mm_malloc-Grown_example =
    mm_malloc-Grown linux 5000 0x7f00_0010_0000 start-HeapInv (omega arith) (omega arith)
      (omega arith) (omega arith) refl start-Granted

-- the system has no memory to give
abbrev exhausted : Os
exhausted = record linux { mmap_answer = λ call size. none }

mm_malloc-aborts_example : mm_malloc exhausted 3 5000 start ≡ aborted
unfolding first_fit decoy_due
mm_malloc-aborts_example =
    mm_malloc-aborts exhausted 5000 start-HeapInv (omega arith) (omega arith) (omega arith) refl
      refl

mem_map-Obtained_example :
    Returns
      (λ r t. (r ≡ 0x7f00_0010_0000) × Obtained start (region_size 5000) 0x7f00_0010_0000 t)
      (mem_map linux (region_size 5000) start)
unfolding map_size mem_pagesize
mem_map-Obtained_example =
    mem_map-Obtained linux (region_size 5000) 0x7f00_0010_0000 start refl initial-TableInv
      start-Granted
