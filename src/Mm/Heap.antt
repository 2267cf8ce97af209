-- ===== src/Mm/Heap.antt =====
-- The layout that mm.c maintains: the body of a page is tiled by blocks, and the free list holds the
-- payloads of the free ones.
pub mod Tiles
pub mod Keeps
pub mod Page
pub mod Region
pub mod Relist
pub mod Delisting
pub mod Split
pub mod Listing
use uof_ufall.Base.{
  ◌⊎◌, ℕ, ◌+◌, ◌-◌, ◌%◌, ◌^◌, ◌≤◌, ◌<◌, ◌≡◌, Bool, true, false, some, List, [], ◌∷◌, if◌then◌else◌,
}
use uof_ufall.Machine.{Ptr, null, State, Memory}
use uof_ufall.Mm.Blocks.Elsewhere.{Elsewhere}
use uof_ufall.Mm.Blocks.Fields.{Mapped}
use uof_ufall.Mm.Blocks.Footer.{PageList, PageAt}
use uof_ufall.Mm.Lists.Chain.{Chain, has, is_link}
use uof_ufall.Mm.Lists.Chunk.{is_page_word}

pub record Block : Type 0 where
  pub size : ℕ
  pub used : Bool

abbrev pub block : ℕ → Bool → Block
block size used = record { size = size; used = used }

-- the value of `allocated`
abbrev pub flag_of : Bool → ℕ
flag_of used = if used then 1 else 0

-- The words of a block at `p`: the header, and the footer that repeats the size. The smallest block
-- holds a payload of 16 bytes between them.
pub record IsBlock (m : Memory) (p : Ptr) (b : Block) : Type 0 where
  pub header : m p ≡ some b.size
  pub word : ℕ
  pub mark : m (p + 8) ≡ some word
  pub flag : word % 2 ^ 32 ≡ flag_of b.used
  pub footer : m (p + b.size - 16) ≡ some b.size
  pub large : 48 ≤ b.size
  pub aligned : b.size % 16 ≡ 0

-- the blocks `bs` stand side by side from `p` to `end`
abbrev pub Tiles : Memory → Ptr → Ptr → List Block → Type 0
Tiles m p end [] = p ≡ end
Tiles m p end (b ∷ bs) = IsBlock m p b × Tiles m (p + b.size) end bs

-- the payloads of the free blocks
abbrev pub frees : Ptr → List Block → List Ptr
frees p [] = []
frees p (b ∷ bs) = if b.used then frees (p + b.size) bs else (p + 16) ∷ frees (p + b.size) bs

-- where the tiling goes on behind the blocks
abbrev pub behind : Ptr → List Block → Ptr
behind p [] = p
behind p (b ∷ bs) = behind (p + b.size) bs

-- no byte that is kept lies in a free block
abbrev pub Spared : (ℕ → Bool) → Ptr → List Block → Type 0
Spared keep p [] = Unit
Spared keep p (b ∷ bs) =
    (b.used ≡ false → (a : ℕ) → keep a ≡ true → (a < p) ⊎ (p + b.size ≤ a))
    × Spared keep (p + b.size) bs

-- The bytes that are kept hold what they held at first, no free block of the page has one, and
-- none is a link of the free list.
pub record KeepsPage (s : State) (l : PageList) (pc : Ptr) (bs : List Block) (fl : List Ptr)
    : Type 0 where
  pub kept : (a : ℕ) → l.keep a ≡ true → s.mem a ≡ l.from.mem a
  pub spared : Spared l.keep (pc + 32) bs
  pub unlinked : (a : ℕ) → l.keep a ≡ true → is_link a fl ≡ false

-- The heap as seen from one page, with the blocks `bs`: the free list `fl` has exactly the page's
-- free blocks among the addresses of the page, and no link of it is a word of a page header.
pub record PageInv (s : State) (fuel : ℕ) (l : PageList) (pc end : Ptr) (bs : List Block)
    (fl : List Ptr) : Type 0 where
  pub here : PageAt s fuel l pc end
  pub aligned : pc % 16 ≡ 0
  pub mapped : Mapped s.mem pc end
  pub tiles : Tiles s.mem (pc + 32) end bs
  pub chain : Chain s.mem null s.free_list_head fl
  pub member : (a : ℕ) → pc ≤ a → a < end → has a fl ≡ has a (frees (pc + 32) bs)
  pub links : (a : ℕ) → is_link a fl ≡ true → is_page_word a l.pages ≡ false
  pub elsewhere : Elsewhere l.from l.free (pc + 32) end s fl
  pub keeps : KeepsPage s l pc bs fl
