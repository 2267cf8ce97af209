-- ===== src/Mm/Free/Merge.antt =====
-- The merges of `coalesce` of mm.c, each on a region that is out of the tiling and that starts with
-- a free block's header.
use uof_ufall.Base.{
  ℕ, ◌+◌, ◌%◌, ◌^◌, ◌≤◌, ◌<◌, ◌≡◌, refl, true, false, some, List, [], ◌∷◌, ◌++◌, arith, ◌∙◌, subst,
  inl, inr, add64,
}
use uof_ufall.Machine.{Ptr, State, write}
use uof_ufall.Machine.Returns
use uof_ufall.Machine.Returns.{Returns, returns}
use uof_ufall.Mm.{merge_prev, merge_next}
use uof_ufall.Mm.Blocks.Fields.{set_size-ok, block_size-ok, write-Mapped}
use uof_ufall.Mm.Blocks.Footer.{PageList}
use uof_ufall.Mm.Heap.{Block, block, behind}
use uof_ufall.Mm.Heap.Delisting.{Listed, next-Listed, prev-Listed, remove-Hole}
use uof_ufall.Mm.Heap.Page.{Hole}
use uof_ufall.Mm.Heap.Region.{Hole-start, Hole-end, Hole-write}
use uof_ufall.Mm.Heap.Tiles.{Tiles-le}
use uof_ufall.Mm.Lists.Around.{has-split}
use uof_ufall.Mm.Lists.Chain.{has}

-- a region with the header of a free block that fills it; its footer is not written yet
pub record Freed (s : State) (fuel : ℕ) (l : PageList) (pc end : Ptr) (xs : List Block) (q n : ℕ)
    (ys : List Block) (fl : List Ptr) : Type 0 where
  pub hole : Hole s fuel l pc end xs q n ys fl
  pub size : s.mem q ≡ some n
  pub word : ℕ
  pub mark : s.mem (q + 8) ≡ some word
  pub flag : word % 2 ^ 32 ≡ 0
  pub large : 48 ≤ n
  pub aligned : n % 16 ≡ 0

-- the header's size is written anew, for a region that has become larger
resize :
    {s : State} {fuel : ℕ} {l : PageList} {pc end : Ptr} {xs : List Block} {q n : ℕ}
    {ys : List Block} {fl : List Ptr} (w : ℕ)
    → Hole s fuel l pc end xs q n ys fl
    → s.mem (q + 8) ≡ some w
    → w % 2 ^ 32 ≡ 0
    → 48 ≤ n
    → n % 16 ≡ 0
    → Freed (record s { mem = write s.mem q n }) fuel l pc end xs q n ys fl
unfolding write
resize {s} {pc} {end} {q} {n} w h mark flag large al = record {
  hole =
      Hole-write h (record s { mem = write s.mem q n }) refl refl refl
        (write-Mapped _ _ _ pc end h.mapped) λ a out. ground arith;
  size = ground arith;
  word = w;
  mark = ground arith;
  flag = flag;
  large = large;
  aligned = al;
}

-- the payload of a region that is still on the list is on it
Listed-has :
    {s : State} {fuel : ℕ} {l : PageList} {pc end : Ptr} {xs : List Block} {q n : ℕ}
    {ys : List Block} {r : Ptr} {fl : List Ptr}
    → Listed s fuel l pc end xs q n ys r fl
    → has r fl ≡ true
Listed-has {s} {pc} {end} {xs} {q} {n} {ys} {r} li =
    let start = Tiles-le s.mem (pc + 32) q xs li.front in
    let stop = Tiles-le s.mem (q + n) end ys li.back in
    let low : pc ≤ r = omega (arith, li.low) in
    let high : r < end = omega (arith, li.high) in ground (arith, li.member r low high)

module _ {fuel : ℕ} {l : PageList} {pc end : Ptr} {q n : ℕ} (bound : end ≤ 2 ^ 64) where
  pub join_next :
      {s : State} {xs : List Block} {fl : List Ptr} (k : ℕ) (ys : List Block)
      → Freed s fuel l pc end xs q n (block k false ∷ ys) fl
      → Returns
          (λ _ t. (gl : List Ptr) × Freed t fuel l pc end xs q (n + k) ys gl)
          (merge_next true (q + n) q s)
  unfolding merge_next
  join_next {s} {xs} {fl} k ys f =
      let start = Hole-start f.hole in
      let is = f.hole.back.0 in
      let stop = Hole-end f.hole in
      let behind_le = Tiles-le s.mem (q + n + k) end ys f.hole.back.1 in
      let mem : has (q + n + 16) fl ≡ true = Listed-has (next-Listed k f.hole) in
      let (us, vs, e) = has-split (q + n + 16) fl mem in
      let listed =
        subst (Listed s fuel l pc end xs q (n + k) ys (q + n + 16)) e (next-Listed k f.hole) in
      let sum : add64 n k ≡ n + k = omega arith in
      Returns.bind (remove-Hole (q + n + 16) us vs listed) λ _ t (hole, words, _).
        let head = words q (omega arith) (omega arith) (inl (omega arith)) ∙ f.size in
        let mark = words (q + 8) (omega arith) (omega arith) (inl (omega arith)) ∙ f.mark in
        let next =
          words (q + n) (omega arith) (omega (arith, is.large)) (inl (omega arith)) ∙ is.header in
        Returns.eq_then _ _ _ (block_size-ok t q {w = n} head) (
          Returns.eq_then _ _ _ (block_size-ok t (q + n) {w = k} next) (
            rw sum (
              Returns.of_eq tt _ (set_size-ok t q {w = n} (n + k) head) (
                us ++ vs,
                resize f.word hole mark f.flag (omega (arith, f.large))
                    (omega (arith, f.aligned, is.aligned)),
              ))))

  -- the previous block is free: the region grows to its start
  pub join_prev :
      {s : State} {ys : List Block} {fl : List Ptr} (xs : List Block) (k p : ℕ)
      → p ≡ behind (pc + 32) xs
      → Freed s fuel l pc end (xs ++ block k false ∷ []) q n ys fl
      → Returns
          (λ h t.
            (gl : List Ptr) × (h + (k + n) ≡ q + n) × Freed t fuel l pc end xs h (k + n) ys gl)
          (merge_prev true p q s)
  unfolding merge_prev
  join_prev {s} {ys} {fl} xs k p at f =
      let (joins, is, listed) = prev-Listed xs k q n p f.hole at in
      let stop = Hole-end f.hole in
      let low = Tiles-le s.mem (pc + 32) p xs listed.front in
      let mem : has (p + 16) fl ≡ true = Listed-has listed in
      let (us, vs, e) = has-split (p + 16) fl mem in
      let listed' = subst (Listed s fuel l pc end xs p (k + n) ys (p + 16)) e listed in
      let sum : add64 k n ≡ k + n = omega arith in
      Returns.bind (remove-Hole (p + 16) us vs listed') λ _ t (hole, words, _).
        let head =
          words p (omega arith) (omega (arith, is.large)) (inl (omega arith)) ∙ is.header in
        let mark =
          words (p + 8) (omega arith) (omega (arith, is.large)) (inl (omega arith)) ∙ is.mark in
        let here =
          words q (omega arith) (omega (arith, f.large)) (inr (omega (arith, is.large))) ∙ f.size in
        Returns.eq_then _ _ _ (block_size-ok t p {w = k} head) (
          Returns.eq_then _ _ _ (block_size-ok t q {w = n} here) (
            rw sum (
              Returns.eq_then _ _ _ (set_size-ok t p {w = k} (k + n) head) (
                returns (
                  us ++ vs,
                  omega arith,
                  resize is.word hole mark is.flag (omega (arith, f.large))
                      (omega (arith, f.aligned, is.aligned)),
                )))))
