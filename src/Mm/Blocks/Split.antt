-- ===== src/Mm/Blocks/Split.antt =====
-- `split_block` of mm.c: what both branches write.
use uof_ufall.Base.{ℕ, ◌+◌, ◌-◌, ◌≤◌, ◌≡◌, some, arith}
use uof_ufall.Machine.{Ptr, State, Memory, write, ◌>>◌}
use uof_ufall.Machine.Returns
use uof_ufall.Machine.Returns.{Returns}
use uof_ufall.Mm.Blocks.{cut_block, write_footer}
use uof_ufall.Mm.Blocks.Fields.{with_flag, set_size-ok, set_alloc-ok, set_free-ok}
use uof_ufall.Mm.Blocks.Footer.{PageList, PageAt, PageAt-write, write_footer-ok}
use uof_ufall.Mm.Lists.{insert_free_block}
use uof_ufall.Mm.Layout.{set_alloc}

-- the words of a block of `size` bytes at `h` whose flag word was `w`
unfoldable pub block_written : Memory → (h size w flag : ℕ) → Memory
block_written m h size w flag =
    write (write (write m h size) (h + 8) (with_flag w flag)) (h + size - 16) size

module _ {P : Unit {0} → State → Type 0} (s : State) (fuel : ℕ) {l : PageList} (pc end h : Ptr)
    (i : PageAt s fuel l pc end) (start : pc + 32 ≤ h) where
  -- Cutting a block writes the headers and footers of both parts and hands the second one to
  -- `insert_free_block`.
  pub cut_then :
      (size rest w v w' v' : ℕ) {u u' : ℕ}
      → s.mem h ≡ some u
      → s.mem (h + 8) ≡ some w
      → s.mem (h + size - 16) ≡ some v
      → s.mem (h + size) ≡ some u'
      → s.mem (h + size + 8) ≡ some w'
      → s.mem (h + size + rest - 16) ≡ some v'
      → 48 ≤ size
      → 48 ≤ rest
      → h + size + rest ≤ end
      → Returns P (
          insert_free_block (h + size + 16) (record s {
            mem = block_written (block_written s.mem h size w 1) (h + size) rest w' 0;
          }))
      → Returns P (cut_block fuel h size rest s)
  unfolding cut_block block_written write
  cut_then size rest w v w' v' {u} {u'} e e8 ef n n8 nf big big' fits r =
      let i1 = PageAt-write h size i start (omega arith) in
      let i2 = PageAt-write (h + 8) (with_flag w 1) i1 (omega arith) (omega arith) in
      let i3 = PageAt-write (h + size - 16) size i2 (omega arith) (omega arith) in
      let i4 = PageAt-write (h + size) rest i3 (omega arith) (omega arith) in
      let i5 = PageAt-write (h + size + 8) (with_flag w' 0) i4 (omega arith) (omega arith) in
      Returns.eq_then _ _ _ (set_size-ok _ h {w = u} size e) (
        Returns.eq_then _ _ _ (set_alloc-ok _ h {w = w} (ground arith)) (
          Returns.eq_then _ _ _
            (write_footer-ok _ fuel h pc end i2 start (omega arith) {size = size} {v = v}
              (ground arith) (ground arith) (omega arith) (omega arith))
            (Returns.eq_then _ _ _ (set_size-ok _ (h + size) {w = u'} rest (ground arith)) (
              Returns.eq_then _ _ _ (set_free-ok _ (h + size) {w = w'} (ground arith)) (
                Returns.eq_then _ _ _
                  (write_footer-ok _ fuel (h + size) pc end i5 (omega arith) (omega arith)
                    {size = rest} {v = v'} (ground arith) (ground arith) (omega arith)
                    (omega arith))
                  r)))))

  -- A block that is not cut keeps its size and is marked as allocated.
  pub whole_then :
      (size w v : ℕ)
      → s.mem h ≡ some size
      → s.mem (h + 8) ≡ some w
      → s.mem (h + size - 16) ≡ some v
      → 48 ≤ size
      → h + size ≤ end
      → P tt (record s { mem = write (write s.mem (h + 8) (with_flag w 1)) (h + size - 16) size })
      → Returns P ((set_alloc h >> write_footer fuel h) s)
  unfolding write
  whole_then size w v e e8 ef big fits r =
      let i1 = PageAt-write (h + 8) (with_flag w 1) i (omega arith) (omega arith) in
      Returns.eq_then _ _ _ (set_alloc-ok _ h {w = w} e8) (
        Returns.of_eq tt _
          (write_footer-ok _ fuel h pc end i1 start (omega arith) {size = size} {v = v}
            (ground arith) (ground arith) (omega arith) (omega arith))
          r)
