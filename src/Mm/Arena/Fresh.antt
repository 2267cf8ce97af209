-- ===== src/Mm/Arena/Fresh.antt =====
-- `mm_malloc` of mm.c on a well-formed heap where no free block is large enough.
use uof_ufall.Base.{
  ℕ, suc, ◌+◌, ◌-◌, ◌%◌, ◌^◌, ◌≤◌, ◌<◌, ◌≡◌, refl, ◌∷◌, [], List, ◌++◌, arith, add64, length, ◌∙◌,
  ne→==, eq→==, subst,
}
use mathlib.Core.List.{append-nil}
use uof_ufall.Machine.{Ptr, ok, null, State, Os}
use uof_ufall.Machine.Returns
use uof_ufall.Machine.Returns.{Returns, returns}
use uof_ufall.Memlib.{mem_pagesize}
use uof_ufall.Memlib.Map.{Granted, Vacant, mem_map-Obtained}
use uof_ufall.Mm.{mm_malloc, map_size}
use uof_ufall.Mm.Arena.{view, HeapInv, put_blocks}
use uof_ufall.Mm.Arena.Blocks.{header_at, every-HasHeader}
use uof_ufall.Mm.Arena.Format.{format-Formatted}
use uof_ufall.Mm.Arena.Clear.{Clear-unlinked, Hole-keep, PageInv-forget, heap-Sized}
use uof_ufall.Mm.Arena.Grow.{Formatted, old_words, grown-Others, grown-Hole}
use uof_ufall.Mm.Arena.Keeping.{in_payloads, Unchanged, live-Clear, live-page}
use uof_ufall.Mm.Arena.Live.{live}
use uof_ufall.Mm.Arena.Update.{Others, Others-update}
use uof_ufall.Mm.Arena.Vacant.{put_end, outside_vacant}
use uof_ufall.Mm.Heap.Keeps.{KeepsHole}
use uof_ufall.Mm.Heap.{Block, PageInv}
use uof_ufall.Mm.Heap.Split.{pieces, split_block-PageInv}
use uof_ufall.Mm.Layout.{align}
use uof_ufall.Mm.Lists.{find_fit}
use uof_ufall.Mm.Lists.Fit.{first_fit, find_fit-first_fit}

-- the size of the region for a request
abbrev pub region_size : ℕ → ℕ
region_size size = map_size (align size + 32)

-- `mm_malloc` maps the fewest pages that hold the page's header, the block's header and footer and the
-- aligned payload, where the sums do not wrap.
pub region_size_bounds :
    (size : ℕ)
    → size + 4174 < 2 ^ 64
    → (region_size size % 4096 ≡ 0)
      × (align size + 64 ≤ region_size size)
      × (region_size size < align size + 64 + 4096)
unfolding map_size mem_pagesize
region_size_bounds size small = omega arith

-- The payload `p` lies in the new page `pc`, which has been put in front of the page list: the heap
-- with that page is well-formed, all other blocks are as before, and the payloads in use unchanged.
pub record Grown (fuel : ℕ) (ends : Ptr → Ptr) (pages : List Ptr) (blocks : Ptr → List Block)
    (s : State) (size : ℕ) (pc p : Ptr) (t : State) : Type 0 where
  pub place : p ≡ pc + 32 + 16
  pub aligned : p % 16 ≡ 0
  pub fits : align size + 32 ≤ region_size size - 32
  pub unchanged : Unchanged (live blocks pages) s t
  pub list : List Ptr
  pub heap :
      HeapInv t fuel
        (put_end ends pc (pc + region_size size))
        (pc ∷ pages)
        (put_blocks blocks pc (pieces (region_size size - 32) (align size + 32)))
        list

grown :
    {s u t : State} {fuel : ℕ} {ends : Ptr → Ptr} {pages : List Ptr} {blocks : Ptr → List Block}
    {fl gl : List Ptr} {size pc : ℕ}
    → 0 < size
    → size + 4174 < 2 ^ 64
    → pc % 4096 ≡ 0
    → Others u fuel (put_end ends pc (pc + region_size size)) (pc ∷ pages) blocks fl pc
    → PageInv t fuel
        (view u (put_end ends pc (pc + region_size size)) (pc ∷ pages) fl)
        pc
        (pc + region_size size)
        (pieces (region_size size - 32) (align size + 32) ++ [])
        gl
    → Unchanged (live blocks pages) s t
    → Grown fuel ends pages blocks s size pc (pc + 32 + 16) t
grown {u = u} {t} {fuel} {ends} {pages} {blocks} {fl} {gl} {size} {pc} pos small al o inv same =
    let n = region_size size in
    let (whole, low, high) = region_size_bounds size small in
    let page : PageInv t fuel (view u (put_end ends pc (pc + n)) (pc ∷ pages) fl) pc
        (put_end ends pc (pc + n) pc) (pieces (n - 32) (align size + 32)) gl =
      rw (eq→== pc pc refl) (
        subst
          (λ z. PageInv t fuel (view u (put_end ends pc (pc + n)) (pc ∷ pages) fl) pc (pc + n) z gl)
          (append-nil (pieces (n - 32) (align size + 32))) inv) in
    record {
      place = refl;
      aligned = omega arith;
      fits = omega arith;
      unchanged = same;
      list = gl;
      heap = Others-update o (ground arith) page;
    }

module _ {s : State} {fuel : ℕ} {ends : Ptr → Ptr} {pages : List Ptr} {blocks : Ptr → List Block}
    {fl : List Ptr} {pc size : ℕ} {u : State} (i : HeapInv s fuel ends pages blocks fl)
    (vacant : Vacant pc size s.mem) (f : Formatted s pages pc size u) (large : 32 < size)
    (pos : 0 < pc) (enough : suc (length pages) < fuel) where
  -- the region was obtained and formatted without a write to a payload
  grown-Unchanged : Unchanged (live blocks pages) s u
  grown-Unchanged a k =
      let (p, own, low, high) = live-page i a k in
      old_words i vacant f large pos enough p own a (omega arith) high (omega arith) (omega arith)

  -- and is apart from the payloads
  grown-KeepsHole :
      KeepsHole u
        (record (view u (put_end ends pc (pc + size)) (pc ∷ pages) fl) {
          keep = in_payloads (live blocks pages);
        })
        pc
        []
        (pc + 32)
        (size - 32)
        []
        fl
  grown-KeepsHole = record {
    kept = λ a k. refl;
    front = tt;
    back = tt;
    outside = λ a k.
        let (p, own, low, high) = live-page i a k in
        let (v, e) = PageInv.mapped (i.page p own) a (omega arith) high in
        ground (arith, outside_vacant i pc size vacant a v e);
    unlinked =
        Clear-unlinked i (in_payloads (live blocks pages)) (live-Clear i blocks (heap-Sized i));
  }

-- On a well-formed heap, with fuel beyond the length of the free list and that of the longer page
-- list, a request of a size from 1 up to 2 ^ 64 - 4175 for which no block of the free list is large
-- enough, and for which mmap grants a region, returns without fault or abort a payload in the
-- region. It is a multiple of 16, and its block holds the aligned size, a header and a footer. The heap is
-- well-formed afterwards: the region is a page with that used block and, if 64 bytes are left, a listed
-- free one behind it, and all other blocks of all pages are as before, with the contents of the payloads
-- in use.
pub mm_malloc-Grown :
    (os : Os) {s : State} {fuel : ℕ} {ends : Ptr → Ptr} {pages : List Ptr}
    {blocks : Ptr → List Block} {fl : List Ptr} (size pc : ℕ)
    → HeapInv s fuel ends pages blocks fl
    → 0 < size
    → size + 4174 < 2 ^ 64
    → length fl < fuel
    → suc (length pages) < fuel
    → first_fit (header_at s.mem) (align size + 32) fl ≡ null
    → Granted os (region_size size) s pc
    → Returns (Grown fuel ends pages blocks s size pc) (mm_malloc os fuel size s)
unfolding mm_malloc
mm_malloc-Grown os {s} {fuel} {ends} {pages} {blocks} {fl} size pc i pos small enough enough'
      none_fits g =
    let total : add64 (add64 16 (align size)) 16 ≡ align size + 32 = omega arith in
    let n = region_size size in
    let (whole, low, high) = region_size_bounds size small in
    let found : find_fit fuel (align size) s ≡ ok null s =
      find_fit-first_fit s (header_at s.mem) (align size) fuel _ i.chain (every-HasHeader i) enough
      ∙ rw (total, none_fits) refl in
    let vacant = g.vacant in
    let al = g.aligned in
    rw (ne→== size 0 (omega arith)) (
      Returns.eq_then _ _ _ found (
        rw total (
          Returns.bind (mem_map-Obtained os n pc s whole i.table g) λ p s1 (e, o).
            rw (e, ne→== pc null (omega (arith, g.positive)))
              (Returns.bind
                (format-Formatted i pc n vacant o (omega arith) (omega (arith, g.positive))
                  (omega arith) enough' (omega (arith, g.bound, g.positive)))
                λ _ u (f, head, (w, mark)).
                  (Returns.bind
                    (split_block-PageInv
                      (Hole-keep (in_payloads (live blocks pages))
                        (grown-Hole i vacant f (omega arith) (omega (arith, g.positive)) enough' al)
                        (grown-KeepsHole i vacant f (omega arith) (omega (arith, g.positive))
                          enough'))
                      (align size) w g.bound (omega arith) (omega arith) (omega arith) (omega arith)
                      (omega arith) head mark)
                    λ _ t inv. returns (
                      grown pos small al
                        (grown-Others i vacant f (omega arith) (omega (arith, g.positive)) enough'
                          al whole g.bound)
                        (PageInv-forget inv)
                        λ a k.
                          inv.keeps.kept a k
                          ∙ grown-Unchanged i vacant f (omega arith) (omega (arith, g.positive))
                              enough' a k))))))
