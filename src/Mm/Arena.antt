-- ===== src/Mm/Arena.antt =====
-- All pages of mm.c's heap at once: the page list, the blocks of every page, and the one free list.
pub mod Init
pub mod Vacant
pub mod Update
pub mod Grow
pub mod Format
pub mod Fresh
pub mod Refused
pub mod Live
pub mod Find
pub mod Apart
pub mod Client
pub mod Enough
pub mod Contents
pub mod Covers
pub mod Serving
pub mod Session
pub mod Lasting
pub mod Blocks
pub mod Keeping
pub mod Malloc
pub mod Clear
pub mod Taken
pub mod Detach
pub mod Drop
pub mod Sweep
pub mod Free
use uof_ufall.Base.{
  false, ℕ, ◌+◌, ◌-◌, ◌%◌, ◌^◌, ◌≤◌, ◌<◌, ◌≡◌, ◌≢◌, ◌⊎◌, true, some, List, ◌==◌, length,
  if◌then◌else◌,
}
use uof_ufall.Machine.{Ptr, null, State}
use uof_ufall.Memlib.Table.{TableInv}
use uof_ufall.Memlib.Unmap.{RegionMapped}
use uof_ufall.Mm.Blocks.Footer.{PageList}
use uof_ufall.Mm.Heap.{Block, PageInv}
use uof_ufall.Mm.Lists.Chain.{Chain, has}
use uof_ufall.Mm.Lists.Chunk.{Pages}

-- the page list as seen from a state with a free list
abbrev pub view : State → (Ptr → Ptr) → List Ptr → List Ptr → PageList
view s ends pages fl = record { ends = ends; pages = pages; from = s; free = fl; keep = λ a. false }

-- a page and what its header and the page table of memlib.c say of it
pub record Region (s : State) (pc end : Ptr) : Type 0 where
  pub page_aligned : pc % 4096 ≡ 0
  pub whole : (end - pc) % 4096 ≡ 0
  pub below : pc + 32 < end
  pub bound : end ≤ 2 ^ 64
  pub size : s.mem (pc + 16) ≡ some (end - pc)
  pub table : RegionMapped pc (end - pc) s.pagemap

-- Every page of the page list is well-formed with the blocks `blocks` gives it, no two pages overlap,
-- every block of the free list lies in a page, and the page table's list is that of its mapped entries.
pub record HeapInv (s : State) (fuel : ℕ) (ends : Ptr → Ptr) (pages : List Ptr)
    (blocks : Ptr → List Block) (fl : List Ptr) : Type 0 where
  pub page :
      (pc : Ptr)
      → has pc pages ≡ true
      → PageInv s fuel (view s ends pages fl) pc (ends pc) (blocks pc) fl
  pub listed : Pages s.mem ends s.page_list_head pages
  pub enough : length pages < fuel
  pub chain : Chain s.mem null s.free_list_head fl
  pub region : (pc : Ptr) → has pc pages ≡ true → Region s pc (ends pc)
  pub apart :
      (pc pc' : Ptr)
      → has pc pages ≡ true
      → has pc' pages ≡ true
      → pc ≢ pc'
      → ((ends pc ≤ pc') ⊎ (ends pc' ≤ pc))
  pub owner :
      (a : Ptr)
      → has a fl ≡ true
      → (pc : Ptr) × (has pc pages ≡ true) × (pc + 32 ≤ a) × (a < ends pc)
  pub table : TableInv s.pagemap

-- the blocks after those of one page have changed
abbrev pub put_blocks : (Ptr → List Block) → Ptr → List Block → Ptr → List Block
put_blocks blocks pc bs p = if p == pc then bs else blocks p
