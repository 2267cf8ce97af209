-- ===== src/Mm/Heap/Split.antt =====
-- `split_block` inside of a page: the region of a block becomes a used block, and a free block where
-- enough is left.
use uof_ufall.Base.{
  ℕ, ◌+◌, ◌-◌, ◌%◌, ◌^◌, ◌≤◌, ◌<◌, ◌≡◌, refl, Bool, true, false, some, List, [], ◌∷◌, ◌++◌, arith,
  ◌∙◌, inl, inr, Bool-cases, if◌then◌else◌, leb, leb→le, add64, sub64,
}
use mathlib.Core.List.{append_assoc}
use uof_ufall.Machine.{Ptr, State, Memory, write, ◌>>◌}
use uof_ufall.Machine.Returns
use uof_ufall.Machine.Returns.{Returns}
use uof_ufall.Mm.Blocks.{cut_block, split_block, write_footer}
use uof_ufall.Mm.Blocks.Fields.{Mapped, with_flag, write-Mapped, block_size-ok}
use uof_ufall.Mm.Blocks.Footer.{PageList}
use uof_ufall.Mm.Blocks.Split.{block_written, cut_then, whole_then}
use uof_ufall.Mm.Layout.{set_alloc}
use uof_ufall.Mm.Heap.{Block, block, flag_of, IsBlock, PageInv}
use uof_ufall.Mm.Heap.Listing.{insert-PageInv}
use uof_ufall.Mm.Heap.Page.{Hole}
use uof_ufall.Mm.Heap.Region.{Hole-start, Hole-end, Hole-write, Hole-used, Hole-front}

pub block_written-Mapped :
    (m : Memory) (h size w flag lo hi : ℕ)
    → Mapped m lo hi
    → Mapped (block_written m h size w flag) lo hi
unfolding block_written
block_written-Mapped m h size w flag lo hi mapped =
    write-Mapped _ _ _ lo hi (write-Mapped _ _ _ lo hi (write-Mapped _ _ _ lo hi mapped))

-- the words that were written make up a block
pub block_written-IsBlock :
    (m : Memory) (h size w : ℕ) (used : Bool)
    → 48 ≤ size
    → size % 16 ≡ 0
    → IsBlock (block_written m h size w (flag_of used)) h (block size used)
unfolding block_written write
block_written-IsBlock m h size w used large al = record {
  header = ground arith;
  word = with_flag w (flag_of used);
  mark = ground arith;
  flag = ground arith;
  footer = ground arith;
  large = large;
  aligned = al;
}

-- a block in front of the words that were written stays
pub block_written-before :
    (m : Memory) (h size w flag p : ℕ) (b : Block)
    → 48 ≤ size
    → p + b.size ≤ h
    → IsBlock m p b
    → IsBlock (block_written m h size w flag) p b
unfolding block_written write
block_written-before m h size w flag p b large le is = record {
  header = ground (arith, is.large, is.header);
  word = is.word;
  mark = ground (arith, is.large, is.mark);
  flag = is.flag;
  footer = ground (arith, is.large, is.footer);
  large = is.large;
  aligned = is.aligned;
}

block_written-outside :
    (m : Memory) (h size w flag a : ℕ)
    → 48 ≤ size
    → (h ≤ a → a < h + size → ⊥)
    → block_written m h size w flag a ≡ m a
unfolding block_written write
block_written-outside m h size w flag a large out = ground arith

-- the words of a block that is marked as used in place
whole_written : Memory → (h size w : ℕ) → Memory
whole_written m h size w = write (write m (h + 8) (with_flag w 1)) (h + size - 16) size

whole_written-IsBlock :
    (m : Memory) (h size w : ℕ)
    → 48 ≤ size
    → size % 16 ≡ 0
    → m h ≡ some size
    → IsBlock (whole_written m h size w) h (block size true)
unfolding whole_written write
whole_written-IsBlock m h size w large al e = record {
  header = ground arith;
  word = with_flag w 1;
  mark = ground arith;
  flag = omega arith;
  footer = ground arith;
  large = large;
  aligned = al;
}

whole_written-outside :
    (m : Memory) (h size w a : ℕ)
    → 48 ≤ size
    → (h ≤ a → a < h + size → ⊥)
    → whole_written m h size w a ≡ m a
unfolding whole_written write
whole_written-outside m h size w a large out = ground arith

module _ {s : State} {fuel : ℕ} {l : PageList} {pc end : Ptr} {xs : List Block} {q n : ℕ}
    {ys : List Block} {fl : List Ptr} (h : Hole s fuel l pc end xs q n ys fl) where
  -- the page when the region holds two blocks, the first one used
  cut-Hole :
      (size rest w w' : ℕ)
      → size + rest ≡ n
      → 48 ≤ size
      → 48 ≤ rest
      → size % 16 ≡ 0
      → Hole
          (record s { mem = block_written (block_written s.mem q size w 1) (q + size) rest w' 0 })
          fuel
          l
          pc
          end
          (xs ++ block size true ∷ [])
          (q + size)
          rest
          ys
          fl
  cut-Hole size rest w w' e big big' al =
      let first = block_written s.mem q size w 1 in
      let after = block_written first (q + size) rest w' 0 in
      let t : State = record s { mem = after } in
      let h' =
        Hole-write h t refl refl refl
          (block_written-Mapped first (q + size) rest w' 0 pc end
            (block_written-Mapped s.mem q size w 1 pc end h.mapped))
          λ a out.
            block_written-outside first (q + size) rest w' 0 a big'
              (λ lo hi. out (omega arith) (omega arith))
            ∙ block_written-outside s.mem q size w 1 a big λ lo hi. out lo (omega arith) in
      Hole-front h' size rest e (
        block_written-before first (q + size) rest w' 0 q (block size true) big' (omega arith)
          (block_written-IsBlock s.mem q size w true big al))

  split-cut :
      (size rest w : ℕ)
      → size + rest ≡ n
      → 48 ≤ size
      → 48 ≤ rest
      → size % 16 ≡ 0
      → rest % 16 ≡ 0
      → q % 16 ≡ 0
      → s.mem (q + 8) ≡ some w
      → Returns
          (λ _ t.
            PageInv t fuel l pc end
              ((xs ++ block size true ∷ []) ++ block rest false ∷ ys)
              ((q + size + 16) ∷ fl))
          (cut_block fuel q size rest s)
  split-cut size rest w e big big' al al' at mark =
      let start = Hole-start h in
      let stop = Hole-end h in
      let (u, eu) = h.mapped q (omega arith) (omega arith) in
      let (v, ev) = h.mapped (q + size - 16) (omega arith) (omega arith) in
      let (u', eu') = h.mapped (q + size) (omega arith) (omega arith) in
      let (w', ew') = h.mapped (q + size + 8) (omega arith) (omega arith) in
      let (v', ev') = h.mapped (q + size + rest - 16) (omega arith) (omega arith) in
      cut_then s fuel pc end q h.here start size rest w v w' v' eu mark ev eu' ew' ev' big big'
        (omega arith)
        (Returns.mono
          (insert-PageInv (cut-Hole size rest w w' e big big' al)
            (block_written-IsBlock (block_written s.mem q size w 1) (q + size) rest w' false big'
              al')
            (omega arith))
          λ _ t (i, _). i)

  split-whole :
      (w : ℕ)
      → 48 ≤ n
      → n % 16 ≡ 0
      → s.mem q ≡ some n
      → s.mem (q + 8) ≡ some w
      → Returns
          (λ _ t. PageInv t fuel l pc end (xs ++ block n true ∷ ys) fl)
          ((set_alloc q >> write_footer fuel q) s)
  unfolding whole_written
  split-whole w large al head mark =
      let start = Hole-start h in
      let stop = Hole-end h in
      let (v, ev) = h.mapped (q + n - 16) (omega arith) (omega arith) in
      whole_then s fuel pc end q h.here start n w v head mark ev large stop
        (Hole-used (whole-Hole w large) (whole_written-IsBlock s.mem q n w large al head))
    where
      whole-Hole :
          (w : ℕ)
          → 48 ≤ n
          → Hole (record s { mem = whole_written s.mem q n w }) fuel l pc end xs q n ys fl
      whole-Hole w large =
          Hole-write h (record s { mem = whole_written s.mem q n w }) refl refl refl
            (write-Mapped _ _ _ pc end (write-Mapped _ _ _ pc end h.mapped))
            λ a out. whole_written-outside s.mem q n w a large out

-- the blocks that `split_block` makes of one of `n` bytes when `size` bytes are asked for
abbrev pub pieces : (n size : ℕ) → List Block
pieces n size =
    if leb 64 (n - size) then block size true ∷ block (n - size) false ∷ [] else block n true ∷ []

-- and the free list then
abbrev pub with_rest : (q n size : ℕ) → List Ptr → List Ptr
with_rest q n size fl = if leb 64 (n - size) then (q + size + 16) ∷ fl else fl

module _ {s : State} {fuel : ℕ} {l : PageList} {pc end : Ptr} {xs : List Block} {q n : ℕ}
    {ys : List Block} {fl : List Ptr} (h : Hole s fuel l pc end xs q n ys fl) where
  -- On a region of a page below 2 ^ 64 that starts with a block's header and is off the free list,
  -- `split_block` for an aligned payload size of at least 16 that fits ends without fault or abort
  -- and leaves a well-formed page. In the region stands a used block of header, payload and footer
  -- followed by a listed free block, where 64 bytes or more are left, else one used block.
  pub split_block-PageInv :
      (asize w : ℕ)
      → end ≤ 2 ^ 64
      → 16 ≤ asize
      → asize % 16 ≡ 0
      → asize + 32 ≤ n
      → n % 16 ≡ 0
      → q % 16 ≡ 0
      → s.mem q ≡ some n
      → s.mem (q + 8) ≡ some w
      → Returns
          (λ _ t.
            PageInv t fuel l pc end
              (xs ++ (pieces n (asize + 32) ++ ys))
              (with_rest q n (asize + 32) fl))
          (split_block fuel q asize s)
  unfolding split_block
  split_block-PageInv asize w bound low al fits al' at head mark =
      let stop = Hole-end h in
      let start = Hole-start h in
      let total : add64 (add64 16 asize) 16 ≡ asize + 32 = omega arith in
      let left : sub64 n (asize + 32) ≡ n - (asize + 32) = omega arith in
      Returns.eq_then _ _ _ (block_size-ok s q {w = n} head) (
        rw (total, left)
          (elim (Bool-cases (leb 64 (n - (asize + 32)))) [
            | inl cut ↦ rw cut (
                rw append_assoc at (
                  split-cut h (asize + 32) (n - (asize + 32)) w
                    (omega (arith, leb→le 64 (n - (asize + 32)) cut)) (omega arith)
                    (omega (arith, leb→le 64 (n - (asize + 32)) cut)) (omega arith) (omega arith) at
                    mark))
            | inr whole ↦ rw whole (split-whole h w (omega arith) al' head mark)
          ]))
