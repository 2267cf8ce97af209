-- ===== src/Mm/Arena/Init.antt =====
-- `mm_init` of mm.c makes the heap empty.
use uof_ufall.Base.{ℕ, ◌<◌, ◌≡◌, refl, List, []}
use uof_ufall.Machine.{Ptr, State}
use uof_ufall.Machine.Returns.{Returns, returns}
use uof_ufall.Memlib.Table.{TableInv}
use uof_ufall.Mm.{mm_init}
use uof_ufall.Mm.Arena.{HeapInv}
use uof_ufall.Mm.Heap.{Block}
use uof_ufall.Mm.Lists.Chain.{nil}

-- Whatever mm.c's variables held, where the page table's list has the mapped entries, `mm_init`
-- returns 0 and leaves a well-formed heap without pages.
pub mm_init-HeapInv :
    (s : State) (fuel : ℕ) (ends : Ptr → Ptr) (blocks : Ptr → List Block)
    → 0 < fuel
    → TableInv s.pagemap
    → Returns (λ r t. (r ≡ 0) × HeapInv t fuel ends [] blocks []) (mm_init s)
unfolding mm_init
mm_init-HeapInv s fuel ends blocks enough table = returns (
  refl,
  record {
    page = λ pc h. cc h;
    listed = record { chain = nil; ends_at = tt };
    enough = enough;
    chain = nil;
    region = λ pc h. cc h;
    apart = λ pc pc' h h' ne. cc h;
    owner = λ a h. cc h;
    table = table;
  },
)
