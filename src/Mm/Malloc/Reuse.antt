-- ===== src/Mm/Malloc/Reuse.antt =====
-- `mm_malloc` of mm.c where the free list has a block that is large enough.
use uof_ufall.Base.{
  ℕ, ◌+◌, ◌-◌, ◌%◌, ◌^◌, ◌≤◌, ◌<◌, ◌≡◌, refl, false, some, List, ◌∷◌, ◌++◌, arith, ◌∙◌, add64,
  length, All, ne→==, inl,
}
use uof_ufall.Machine.{Ptr, State, Os, ok}
use uof_ufall.Machine.Returns
use uof_ufall.Machine.Returns.{Returns, returns}
use uof_ufall.Mm.{mm_malloc}
use uof_ufall.Mm.Blocks.Footer.{PageList}
use uof_ufall.Mm.Heap.{Block, block, PageInv, behind}
use uof_ufall.Mm.Heap.Delisting.{free-Listed, remove-Hole}
use uof_ufall.Mm.Heap.Split.{pieces, with_rest, split_block-PageInv}
use uof_ufall.Mm.Heap.Tiles.{Tiles-aligned}
use uof_ufall.Mm.Layout.{align}
use uof_ufall.Mm.Lists.{find_fit}
use uof_ufall.Mm.Lists.Fit.{
  Header, HasHeader, first_fit, find_fit-first_fit, first_fit-fits, All-has,
}

-- `ALIGN` gives the least multiple of 16 that is at least the size, where adding 15 does not wrap.
pub align_bounds :
    (size : ℕ)
    → size + 15 < 2 ^ 64
    → (size ≤ align size) × (align size < size + 16) × (align size % 16 ≡ 0)
align_bounds size small = omega arith

module _ (os : Os) {s : State} {fuel : ℕ} {l : PageList} {pc end : Ptr} (xs : List Block) (q n : ℕ)
    (ys : List Block) (us vs : List Ptr) (head : Ptr → Header) (size : ℕ) where
  -- On a well-formed page below 2 ^ 64, with fuel beyond the free list's length, a request of a
  -- size from 1 up to 2 ^ 64 - 48 for which the first fit is a block of the page returns, without
  -- fault or abort, that block's payload. It is a multiple of 16, and the block holds the
  -- aligned size, a header and a footer. The page is well-formed afterwards: the block is used and off the free
  -- list, and what the aligned size does not need is a listed free block if 64 bytes are left.
  pub mm_malloc-reuse :
      0 < size
      → size + 47 < 2 ^ 64
      → end ≤ 2 ^ 64
      → q ≡ behind (pc + 32) xs
      → PageInv s fuel l pc end (xs ++ block n false ∷ ys) (us ++ (q + 16) ∷ vs)
      → All (HasHeader s.mem head) (us ++ (q + 16) ∷ vs)
      → length (us ++ (q + 16) ∷ vs) < fuel
      → first_fit head (align size + 32) (us ++ (q + 16) ∷ vs) ≡ q + 16
      → Returns
          (λ p t.
            (p ≡ q + 16)
            × (p % 16 ≡ 0)
            × (align size + 32 ≤ n)
            × PageInv t fuel l pc end
                (xs ++ (pieces n (align size + 32) ++ ys))
                (with_rest q n (align size + 32) (us ++ vs)))
          (mm_malloc os fuel size s)
  unfolding mm_malloc
  mm_malloc-reuse pos small bound at i heads enough fit =
      let (is, listed) = free-Listed xs n ys q i at in
      let al : q % 16 ≡ 0 =
        Tiles-aligned s.mem (pc + 32) q xs listed.front (omega (arith, i.aligned)) in
      let total : add64 (add64 16 (align size)) 16 ≡ align size + 32 = omega arith in
      let (mem, free, large) = first_fit-fits head (align size + 32) _ (q + 16) fit (omega arith) in
      let header = All-has s.mem head _ (q + 16) heads mem in
      let back : q + 16 - 16 ≡ q = omega arith in
      let found : find_fit fuel (align size) s ≡ ok (q + 16) s =
        find_fit-first_fit s head (align size) fuel _ i.chain heads enough ∙ rw (total, fit) refl in
      let fits : align size + 32 ≤ n =
        let size_is : s.mem q ≡ some (head (q + 16)).size = rw back at header.size in
        ground (arith, is.header) in
      rw (ne→== size 0 (omega arith)) (
        Returns.eq_then _ _ _ found (
          rw (ne→== (q + 16) 0 (omega arith), back)
            (Returns.bind (remove-Hole (q + 16) us vs listed) λ _ t (hole, word, _).
              (Returns.bind
                (split_block-PageInv hole (align size) is.word bound (omega arith) (omega arith)
                  fits is.aligned al
                  (word q (omega arith) (omega (arith, is.large)) (inl (omega arith)) ∙ is.header)
                  (word (q + 8) (omega arith) (omega (arith, is.large)) (inl (omega arith))
                    ∙ is.mark))
                λ _ u inv. returns (refl, omega arith, fits, inv)))))
