-- ===== src/Mm/Arena/Malloc.antt =====
-- `mm_malloc` of mm.c on a well-formed heap, served from the free list.
use uof_ufall.Base.{
  ℕ, ◌+◌, ◌%◌, ◌^◌, ◌≤◌, ◌<◌, ◌≡◌, ◌≢◌, refl, true, false, List, ◌∷◌, ◌++◌, Bool, subst, length,
  All,
}
use uof_ufall.Machine.{Ptr, null, State, Os}
use uof_ufall.Machine.Returns
use uof_ufall.Machine.Returns.{Returns}
use uof_ufall.Mm.{mm_malloc}
use uof_ufall.Mm.Arena.{view, Region, HeapInv, put_blocks}
use uof_ufall.Mm.Arena.Blocks.{FreeAt, header_at, listed-FreeAt, every-HasHeader}
use uof_ufall.Mm.Arena.Clear.{Clear, Clear-KeepsPage, PageInv-keep, PageInv-forget, heap-Sized}
use uof_ufall.Mm.Arena.Keeping.{in_payloads, Unchanged, live-Clear}
use uof_ufall.Mm.Arena.Live.{live}
use uof_ufall.Mm.Arena.Update.{HeapInv-update}
use uof_ufall.Mm.Blocks.Footer.{PageList}
use uof_ufall.Mm.Heap.{Block, block, PageInv, behind}
use uof_ufall.Mm.Heap.Split.{pieces}
use uof_ufall.Mm.Layout.{align}
use uof_ufall.Mm.Lists.Around.{has-split}
use uof_ufall.Mm.Lists.Chain.{has}
use uof_ufall.Mm.Lists.Fit.{HasHeader, first_fit, first_fit-fits}
use uof_ufall.Mm.Malloc.Reuse.{mm_malloc-reuse}

-- The payload `p` of `size` bytes was taken from a free block of a page: the heap is well-formed
-- with that block used or split, all other blocks as before, and the payloads in use unchanged.
pub record Allocated (fuel : ℕ) (ends : Ptr → Ptr) (pages : List Ptr) (blocks : Ptr → List Block)
    (s : State) (size : ℕ) (p : Ptr) (t : State) : Type 0 where
  pub page : Ptr
  pub own : has page pages ≡ true
  pub at : FreeAt (page + 32) (blocks page) p
  pub aligned : p % 16 ≡ 0
  pub fits : align size + 32 ≤ at.size
  pub unchanged : Unchanged (live blocks pages) s t
  pub list : List Ptr
  pub heap :
      HeapInv t fuel ends pages
        (put_blocks blocks page (at.front ++ (pieces at.size (align size + 32) ++ at.back)))
        list

-- On a well-formed heap, with fuel beyond the lengths of the page list and of the free list, a
-- request of a size from 1 up to 2 ^ 64 - 48 for which some block of the free list is large enough
-- returns, without fault or abort, the payload of a free block. The payload is a multiple of 16, and
-- the block holds the aligned size, a header and a footer. The heap is well-formed afterwards: the block is
-- used, what the aligned size does not need is a listed free block if 64 bytes are left, and all
-- other blocks of all pages are as before, with the contents of the payloads in use.
pub mm_malloc-HeapInv :
    (os : Os) {s : State} {fuel : ℕ} {ends : Ptr → Ptr} {pages : List Ptr}
    {blocks : Ptr → List Block} {fl : List Ptr} (size : ℕ)
    → HeapInv s fuel ends pages blocks fl
    → 0 < size
    → size + 47 < 2 ^ 64
    → length fl < fuel
    → first_fit (header_at s.mem) (align size + 32) fl ≢ null
    → Returns (Allocated fuel ends pages blocks s size) (mm_malloc os fuel size s)
mm_malloc-HeapInv os {s} {fuel} {ends} {pages} {blocks} {fl} size i pos small enough found =
    let bp = first_fit (header_at s.mem) (align size + 32) fl in
    let (mem, free, large) = first_fit-fits (header_at s.mem) (align size + 32) fl bp refl found in
    let (pc, own, low, high) = i.owner bp mem in
    let f = listed-FreeAt i pc bp own mem low high in
    let q = behind (pc + 32) f.front in
    let (us, vs, e) = has-split bp fl mem in
    let e' : fl ≡ us ++ (q + 16) ∷ vs = subst (λ z. fl ≡ us ++ z ∷ vs) f.place e in
    let keep : ℕ → Bool = in_payloads (live blocks pages) in
    let l : PageList = record (view s ends pages fl) { keep = keep } in
    let clear : Clear keep pages blocks = live-Clear i blocks (heap-Sized i) in
    let start : PageInv s fuel l pc (ends pc) (blocks pc) fl =
      PageInv-keep keep (i.page pc own) (Clear-KeepsPage i keep clear pc own) in
    let page : PageInv s fuel l pc (ends pc) (f.front ++ block f.size false ∷ f.back)
        (us ++ (q + 16) ∷ vs) =
      subst (λ z. PageInv s fuel l pc (ends pc) z (us ++ (q + 16) ∷ vs)) f.shape
        (subst (λ z. PageInv s fuel l pc (ends pc) (blocks pc) z) e' start) in
    Returns.mono
      (mm_malloc-reuse os f.front q f.size f.back us vs (header_at s.mem) size pos small
        (Region.bound (i.region pc own)) refl page
        (subst (All (HasHeader s.mem (header_at s.mem))) e' (every-HasHeader i))
        (subst (λ (z : List Ptr). length z < fuel) e' enough)
        (subst (λ z. first_fit (header_at s.mem) (align size + 32) z ≡ q + 16) e' f.place))
      λ p t (place, al, fits, inv). record {
        page = pc;
        own = own;
        at = record {
          front = f.front;
          size = f.size;
          back = f.back;
          shape = f.shape;
          place = place;
        };
        aligned = al;
        fits = fits;
        unchanged = inv.keeps.kept;
        list = _;
        heap = HeapInv-update i own (PageInv-forget inv);
      }
