-- ===== src/Mm/Free/Coalesce.antt =====
-- `mm_free` of mm.c up to its call of `check_and_unmap_full_pages`.
use uof_ufall.Base.{
  ◌⊎◌, ◌<◌, ℕ, ◌+◌, ◌-◌, ◌^◌, ◌≤◌, ◌≡◌, refl, true, false, List, ◌∷◌, ◌++◌, arith, subst, inl, inr,
  ne→==,
}
use uof_ufall.Machine.{Ptr, State, Os, write, ◌>>◌}
use uof_ufall.Machine.Returns
use uof_ufall.Machine.Returns.{Returns, returns}
use uof_ufall.Mm.{
  merge_prev, merge_next, merge_neighbours, check_and_unmap_full_pages, coalesce, mm_free,
}
use uof_ufall.Mm.Blocks.{write_footer}
use uof_ufall.Mm.Blocks.Fields.{with_flag, write-Mapped, set_free-ok}
use uof_ufall.Mm.Blocks.Footer.{PageList, PageAt-write, write_footer-ok}
use uof_ufall.Mm.Free.{left_of, left_size, right_of, right_size}
use uof_ufall.Mm.Free.Look.{Next, Prev, look-Next, look-Prev, snoc}
use uof_ufall.Mm.Free.Merge.{Freed, join_next, join_prev}
use uof_ufall.Mm.Heap.{Block, block, IsBlock, PageInv, behind}
use uof_ufall.Mm.Heap.Listing.{insert-PageInv}
use uof_ufall.Mm.Heap.Page.{Hole}
use uof_ufall.Mm.Heap.Region.{Hole-start, Hole-end, Hole-write, used-Hole}
use uof_ufall.Mm.Heap.Tiles.{Tiles-aligned}
use uof_ufall.Mm.Lists.{insert_free_block}

module _ {s : State} {fuel : ℕ} {l : PageList} {pc end : Ptr} {xs : List Block} {q n : ℕ}
    {ys : List Block} {fl : List Ptr} (bound : end ≤ 2 ^ 64)
    (f : Freed s fuel l pc end xs q n ys fl) where
  -- the region gets its footer and goes back to the list
  relist :
      Returns
        (λ _ t. (gl : List Ptr) × PageInv t fuel l pc end (xs ++ block n false ∷ ys) gl)
        ((write_footer fuel q >> insert_free_block (q + 16)) s)
  unfolding write
  relist =
      let h = f.hole in
      let start = Hole-start h in
      let stop = Hole-end h in
      let large = f.large in
      let (v, ev) = h.mapped (q + n - 16) (omega arith) (omega arith) in
      let t = record s { mem = write s.mem (q + n - 16) n } in
      let h' =
        Hole-write h t refl refl refl (write-Mapped s.mem _ _ pc end h.mapped)
          λ a out. ground arith in
      let is : IsBlock t.mem q (block n false) = record {
        header = ground (arith, f.size);
        word = f.word;
        mark = ground (arith, f.mark);
        flag = f.flag;
        footer = ground arith;
        large = large;
        aligned = f.aligned;
      } in
      let al = Tiles-aligned s.mem (pc + 32) q xs h.front (omega (arith, h.aligned)) in
      Returns.eq_then _ _ _
        (write_footer-ok s fuel q pc end h.here start (omega arith) {size = n} {v = v} f.size ev
          (omega arith) stop)
        (Returns.mono (insert-PageInv h' is al) λ _ u (i, _). ((q + 16) ∷ fl, i))

  -- the merge with the previous block, whether it is free or not
  merge_prev-Freed :
      (v : Prev s fuel (pc + 32) q xs)
      → Returns
          (λ h t.
            (gl : List Ptr) × (h + (left_size xs + n) ≡ q + n)
            × Freed t fuel l pc end (left_of xs) h (left_size xs + n) ys gl)
          (merge_prev v.free v.at q s)
  unfolding merge_prev
  merge_prev-Freed v = elim v.kind [
    | inl (taken, same, none) ↦
        let sum : 0 + n ≡ n = omega arith in
        rw (taken, same, none, sum) (returns (fl, omega arith, f))
    | inr (given, at, shape) ↦ rw given (
        join_prev bound (left_of xs) (left_size xs) v.at at
          (subst (λ z. Freed s fuel l pc end z q n ys fl) shape f))
  ]

-- the merge with the next block, after the one with the previous block
merge_next-Freed :
    {s t : State} {fuel : ℕ} {l : PageList} {pc end : Ptr} {xs : List Block} {q n h m : ℕ}
    {ys : List Block} {fl : List Ptr}
    → end ≤ 2 ^ 64
    → (v : Next s fuel q n ys) → h + m ≡ q + n
    → Freed t fuel l pc end xs h m ys fl
    → Returns
        (λ _ u. (gl : List Ptr) × Freed u fuel l pc end xs h (m + right_size ys) (right_of ys) gl)
        (merge_next v.free v.at h t)
unfolding merge_next
merge_next-Freed {t} {fuel} {l} {pc} {end} {xs} {h} {m} {ys} {fl} bound v e f = elim v.kind [
  | inl (taken, same, none) ↦
      let sum : m + 0 ≡ m = omega arith in rw (taken, same, none, sum) (returns (fl, f))
  | inr (given, at, shape) ↦
      rw (given, at, ← e)
        (join_next bound (right_size ys) (right_of ys)
          (subst (λ z. Freed t fuel l pc end xs h m z fl) shape f))
]

module _ {s : State} {fuel : ℕ} {l : PageList} {pc end : Ptr} {xs : List Block} {q n : ℕ}
    {ys : List Block} {fl : List Ptr} (bound : end ≤ 2 ^ 64)
    (f : Freed s fuel l pc end xs q n ys fl) where
  -- On a region of a page below 2 ^ 64 that starts with a free block's header of its size and is
  -- off the free list, the merges of `coalesce` end without fault or abort in a well-formed page. The
  -- region and the free blocks on either side of it are one free block, listed, with its footer
  -- written; no other block of the page is changed.
  pub merge_neighbours-PageInv :
      Returns
        (λ _ t.
          (gl : List Ptr) × PageInv t fuel l pc end
            (left_of xs ++ block (left_size xs + n + right_size ys) false ∷ right_of ys)
            gl)
        (merge_neighbours fuel (q + 16) s)
  unfolding merge_neighbours
  merge_neighbours-PageInv =
      let large = f.large in
      let prev = look-Prev (snoc xs) f.hole (omega arith) in
      let next = look-Next ys f.hole f.size f.large in
      let back : q + 16 - 16 ≡ q = omega arith in
      rw back (
        Returns.eq_then _ _ _ prev.found (
          Returns.eq_then _ _ _ next.found (
            Returns.eq_then _ _ _ prev.tested (
              Returns.eq_then _ _ _ next.tested (
                Returns.bind (merge_prev-Freed bound f prev) λ h t (gl, e, g).
                  Returns.bind (merge_next-Freed bound next e g) λ _ u (kl, k). relist bound k)))))

-- a used block whose header and footer are marked as free
used-Freed :
    {s : State} {fuel : ℕ} {l : PageList} {pc end : Ptr} {xs : List Block} {q n : ℕ}
    {ys : List Block} {fl : List Ptr}
    → (is : IsBlock s.mem q (block n true)) → Hole s fuel l pc end xs q n ys fl
    → Freed
        (record s { mem = write (write s.mem (q + 8) (with_flag is.word 0)) (q + n - 16) n })
        fuel
        l
        pc
        end
        xs
        q
        n
        ys
        fl
unfolding write
used-Freed {s} {pc} {end} {q} {n} is h =
    let large = is.large in
    let t = record s { mem = write (write s.mem (q + 8) (with_flag is.word 0)) (q + n - 16) n } in
    record {
      hole =
          Hole-write h t refl refl refl
            (write-Mapped _ _ _ pc end (write-Mapped s.mem _ _ pc end h.mapped))
            λ a out. ground arith;
      size = ground (arith, is.header);
      word = with_flag is.word 0;
      mark = ground arith;
      flag = omega arith;
      large = large;
      aligned = is.aligned;
    }

module _ (os : Os) {s : State} {fuel : ℕ} {l : PageList} {pc end : Ptr} (xs : List Block) (q n : ℕ)
    (ys : List Block) {fl : List Ptr} where
  -- Freeing a used block of a well-formed page below 2 ^ 64 runs, without fault or abort, up to
  -- `check_and_unmap_full_pages`, which starts from a well-formed page in which the block and the
  -- free blocks on either side of it are one listed free block, and the other blocks are as before.
  pub mm_free-merged :
      end ≤ 2 ^ 64
      → q ≡ behind (pc + 32) xs
      → ((a : ℕ) → l.keep a ≡ true → (a < q) ⊎ (q + n ≤ a))
      → PageInv s fuel l pc end (xs ++ block n true ∷ ys) fl
      → (t : State) × (gl : List Ptr) × (mm_free os fuel (q + 16) s
          ≡ check_and_unmap_full_pages os fuel t)
        × PageInv t fuel l pc end
            (left_of xs ++ block (left_size xs + n + right_size ys) false ∷ right_of ys)
            gl
  unfolding mm_free coalesce write
  mm_free-merged bound at outside i =
      let (is, h) = used-Hole xs n ys i q at outside in
      let large = is.large in
      let start = Hole-start h in
      let stop = Hole-end h in
      let (v, ev) = h.mapped (q + n - 16) (omega arith) (omega arith) in
      let here = PageAt-write (q + 8) (with_flag is.word 0) h.here (omega arith) (omega arith) in
      let (u, t, e, merged) = Returns.result (merge_neighbours-PageInv bound (used-Freed is h)) in
      let back : q + 16 - 16 ≡ q = omega arith in
      let footer =
        write_footer-ok _ fuel q pc end here start (omega arith) {size = n} {v = v}
          (ground (arith, is.header)) (ground (arith, ev)) (omega arith) stop in
      (
        t,
        merged.0,
        rw (ne→== (q + 16) 0 (omega arith), back, set_free-ok s q is.mark, footer, e) refl,
        merged.1,
      )
