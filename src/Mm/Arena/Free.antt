-- ===== src/Mm/Arena/Free.antt =====
-- `mm_free` of mm.c on a well-formed heap.
use uof_ufall.Base.{
  ℕ, ◌+◌, ◌≤◌, ◌<◌, ◌≡◌, ◌≢◌, ◌⊎◌, ◌∙◌, true, Bool, List, ◌∷◌, ◌++◌, subst, sym, ap, refl, false,
  eq→==, ne→==,
}
use native.Mathlib.Decide.{ℕ_discrete}
use uof_ufall.Machine.{Ptr, State, Os}
use uof_ufall.Machine.Returns
use uof_ufall.Machine.Returns.{Returns}
use uof_ufall.Mm.{mm_free}
use uof_ufall.Mm.Arena.{view, Region, HeapInv, put_blocks}
use uof_ufall.Mm.Arena.Clear.{
  Clear, Clear-KeepsPage, PageInv-keep, PageInv-forget, heap-Sized, Sized, Sized-mark, SparedAt,
  SparedAt-mark, Spared-at,
}
use uof_ufall.Mm.Arena.Keeping.{in_payloads, Unchanged, live-Clear}
use uof_ufall.Mm.Arena.Live.{live, live-ext, merged-payloads}
use uof_ufall.Mm.Arena.Sweep.{kept_pages, dropped, check_and_unmap-Left}
use uof_ufall.Mm.Arena.Taken.{Taken, Taken-from}
use uof_ufall.Mm.Blocks.Footer.{PageList}
use uof_ufall.Mm.Arena.Update.{HeapInv-update}
use uof_ufall.Mm.Free.{left_of, left_size, right_of, right_size}
use uof_ufall.Mm.Free.Coalesce.{mm_free-merged}
use uof_ufall.Mm.Heap.{Block, block, PageInv, Spared, behind}
use uof_ufall.Mm.Lists.Chain.{has}

-- the blocks of all pages when the block of `n` bytes between `xs` and `ys` of a page is free
abbrev pub freed : (Ptr → List Block) → Ptr → List Block → ℕ → List Block → Ptr → List Block
freed blocks pc xs n ys =
    put_blocks blocks pc
      (left_of xs ++ block (left_size xs + n + right_size ys) false ∷ right_of ys)

module _ {s : State} {fuel : ℕ} {ends : Ptr → Ptr} {pages : List Ptr} {blocks : Ptr → List Block}
    {fl : List Ptr} (pc : Ptr) (xs : List Block) (n : ℕ) (ys : List Block)
    (i : HeapInv s fuel ends pages blocks fl) (own : has pc pages ≡ true)
    (shape : blocks pc ≡ xs ++ block n true ∷ ys) where
  -- the blocks with the one that is freed marked as free
  marked : Ptr → List Block
  marked = put_blocks blocks pc (xs ++ block n false ∷ ys)

  marked-pc : marked pc ≡ xs ++ block n false ∷ ys
  unfolding marked
  marked-pc = rw (eq→== pc pc refl) refl

  marked-other : (p : Ptr) → p ≢ pc → marked p ≡ blocks p
  unfolding marked
  marked-other p ne = rw (ne→== p pc ne) refl

  marked-Sized : (p : Ptr) → has p pages ≡ true → Sized (p + 32) (ends p) (marked p)
  marked-Sized p m = elim (ℕ_discrete p pc) [
    | yes e ↦
        subst (λ z. Sized (z + 32) (ends z) (marked z)) (sym e)
          (subst (Sized (pc + 32) (ends pc)) (sym marked-pc) (
            Sized-mark (pc + 32) (ends pc) n xs ys
              (subst (Sized (pc + 32) (ends pc)) shape (heap-Sized i pc own))))
    | no ne ↦ subst (Sized (p + 32) (ends p)) (sym (marked-other p ne)) (heap-Sized i p m)
  ]

  -- the bytes of the other payloads
  others : ℕ → Bool
  others = in_payloads (live marked pages)

  marked-Clear : Clear others pages marked
  unfolding others
  marked-Clear = live-Clear i marked marked-Sized

  marked-SparedAt :
      (a : ℕ)
      → others a ≡ true
      → SparedAt a (pc + 32) (xs ++ block n true ∷ ys)
        × ((a < behind (pc + 32) xs) ⊎ (behind (pc + 32) xs + n ≤ a))
  marked-SparedAt a k =
      SparedAt-mark a (pc + 32) n xs ys
        (subst (SparedAt a (pc + 32)) marked-pc (marked-Clear pc own a k).1)

  blocks-Clear : Clear others pages blocks
  blocks-Clear p m a k = (
    (marked-Clear p m a k).0,
    elim (ℕ_discrete p pc) [
      | yes e ↦
          subst (λ z. SparedAt a (z + 32) (blocks z)) (sym e)
            (subst (SparedAt a (pc + 32)) (sym shape) (marked-SparedAt a k).0)
      | no ne ↦ subst (SparedAt a (p + 32)) (marked-other p ne) (marked-Clear p m a k).1
    ],
  )

  -- they are outside of the block that the merges make
  freed-Clear :
      Spared others
        (pc + 32)
        (left_of xs ++ block (left_size xs + n + right_size ys) false ∷ right_of ys)
      → Clear others pages (freed blocks pc xs n ys)
  freed-Clear spared p m a k = (
    (blocks-Clear p m a k).0,
    elim (ℕ_discrete p pc) [
      | yes e ↦ rw (e, eq→== pc pc refl) (Spared-at others (pc + 32) _ spared a k)
      | no ne ↦ rw (ne→== p pc ne) (blocks-Clear p m a k).1
    ],
  )

  -- and those of the payloads that stay
  freed-others :
      (a : ℕ) → in_payloads (live (freed blocks pc xs n ys) pages) a ≡ true → others a ≡ true
  unfolding others
  freed-others a k =
      subst (λ z. in_payloads z a ≡ true)
        (live-ext (freed blocks pc xs n ys) marked pages λ p. elim (ℕ_discrete p pc) [
          | yes e ↦ rw (e, eq→== pc pc refl, marked-pc) (merged-payloads (pc + 32) xs n ys)
          | no ne ↦ rw (ne→== p pc ne, marked-other p ne) refl
        ])
        k

-- On a well-formed heap, where munmap succeeds, `mm_free` of the payload of a used block ends without
-- fault or abort. The heap is well-formed afterwards: the block and the free blocks on either side of
-- it are one listed free block, the pages that are one free block are gone, and all other blocks
-- and pages are as before, with the contents of the other payloads in use. Nothing is mapped at the
-- addresses of the pages that are gone, in memory or in the page table, which is as before at
-- all other addresses.
pub mm_free-HeapInv :
    (os : Os) {s : State} {fuel : ℕ} {ends : Ptr → Ptr} {pages : List Ptr}
    {blocks : Ptr → List Block} {fl : List Ptr} (pc : Ptr) (xs : List Block) (n : ℕ)
    (ys : List Block)
    → ((p size : ℕ) → os.munmap_succeeds p size ≡ true)
    → HeapInv s fuel ends pages blocks fl
    → has pc pages ≡ true
    → blocks pc ≡ xs ++ block n true ∷ ys
    → Returns
        (λ _ t.
          (gl : List Ptr) × HeapInv t fuel ends
            (kept_pages (freed blocks pc xs n ys) pages)
            (freed blocks pc xs n ys)
            gl
          × Unchanged (live (freed blocks pc xs n ys) pages) s t
          × Taken (dropped (freed blocks pc xs n ys) ends pages) s t)
        (mm_free os fuel (behind (pc + 32) xs + 16) s)
mm_free-HeapInv os {s} {fuel} {ends} {pages} {blocks} {fl} pc xs n ys succeeds i own shape =
    let keep : ℕ → Bool = others pc xs n ys i own shape in
    let l : PageList = record (view s ends pages fl) { keep = keep } in
    let page : PageInv s fuel l pc (ends pc) (xs ++ block n true ∷ ys) fl =
      subst (λ z. PageInv s fuel l pc (ends pc) z fl) shape
        (PageInv-keep keep (i.page pc own)
          (Clear-KeepsPage i keep (blocks-Clear pc xs n ys i own shape) pc own)) in
    let (t, gl, e, j) =
      mm_free-merged os xs (behind (pc + 32) xs) n ys (Region.bound (i.region pc own)) refl
        (λ a k. (marked-SparedAt pc xs n ys i own shape a k).1) page in
    rw e (
      Returns.mono
        (check_and_unmap-Left os succeeds keep (HeapInv-update i own (PageInv-forget j))
          (freed-Clear pc xs n ys i own shape j.keeps.spared))
        λ _ u (kl, h, same, taken, stays). (
          kl,
          h,
          λ a k. let o = freed-others pc xs n ys i own shape a k in same a o ∙ j.keeps.kept a o,
          Taken-from (ap (λ (v : State). v.pagemap) j.elsewhere.rest) taken,
        ))
