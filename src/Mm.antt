-- ===== src/Mm.antt =====
-- cs4400/assn5/malloclab-handout/mm.c: `mm_init`, `mm_malloc`, `mm_free` and what they call. A
-- pointer is an address; a field is the word at its offset. `fuel` bounds each walk along a list.
pub mod Layout
pub mod Lists
pub mod Blocks
pub mod Heap
pub mod Malloc
pub mod Free
pub mod Arena
use uof_ufall.Base.{
  ℕ, zero, suc, ◌+◌, ◌-◌, ◌*◌, ◌/◌, ◌%◌, ◌^◌, Bool, true, false, not, ◌==◌, if◌then◌else◌, add64,
  sub64,
}
use uof_ufall.Machine.{Ptr, null, Cmd, pure, out_of_fuel, ◌>>=◌, ◌>>◌, Os}
use uof_ufall.Memlib.{mem_map, mem_unmap, mem_pagesize}
use uof_ufall.Mm.Layout.{
  align, hdrsize, pagehdrsize, fdrsize, get_alloc, set_free, block_size, set_size, set_prev,
  get_next, set_next, get_page_size, set_page_size, set_page_end,
}
use uof_ufall.Mm.Lists.{
  insert_free_block, remove_free_block, find_fit, unlink_page, push_page, get_page_head,
  set_free_head, set_page_head,
}
use uof_ufall.Mm.Blocks.{write_footer, split_block, get_prev_block, get_next_block}

-- `!GET_ALLOC(h) && BLOCK_SIZE(h) == remaining_size`
unfoldable pub fills_page : Ptr → ℕ → Cmd Bool
fills_page h remaining_size = do
  alloc ← get_alloc h
  if alloc == 0 then (do size ← block_size h; pure (size == remaining_size)) else pure false

-- `h && !GET_ALLOC(h)`
unfoldable pub is_free_block : Ptr → Cmd Bool
is_free_block h = if h == null then pure false else do alloc ← get_alloc h; pure (alloc == 0)

-- the merge with the previous block; the result is the header that is left
unfoldable pub merge_prev : Bool → Ptr → Ptr → Cmd Ptr
merge_prev free prev_h h =
    if free
    then (do
      remove_free_block (prev_h + hdrsize)
      prev_size ← block_size prev_h
      size ← block_size h
      set_size prev_h (add64 prev_size size)
      pure prev_h)
    else pure h

-- the merge with the next block
unfoldable pub merge_next : Bool → Ptr → Ptr → Cmd (Unit {0})
merge_next free next_h h =
    if free
    then (do
      remove_free_block (next_h + hdrsize)
      size ← block_size h
      next_size ← block_size next_h
      set_size h (add64 size next_size))
    else pure tt

-- `coalesce` up to its call of `check_and_unmap_full_pages`
unfoldable pub merge_neighbours : ℕ → Ptr → Cmd (Unit {0})
unfolding is_free_block merge_prev merge_next
merge_neighbours fuel bp = do
  prev_h ← get_prev_block fuel (bp - hdrsize)
  next_h ← get_next_block fuel (bp - hdrsize)
  prev_free ← is_free_block prev_h
  next_free ← is_free_block next_h
  h ← merge_prev prev_free prev_h (bp - hdrsize)
  merge_next next_free next_h h
  write_footer fuel h
  insert_free_block (h + hdrsize)

unfoldable pub mm_init : Cmd ℕ
mm_init = do set_free_head null; set_page_head null; pure 0

-- the header of a new page and the one free block that fills the rest
unfoldable pub format_page : ℕ → Ptr → ℕ → Cmd (Unit {0})
format_page fuel region mapsize = do
  set_prev region null
  head ← get_page_head
  set_next region head
  set_page_size region mapsize
  set_page_end region (region + mapsize)
  push_page region
  set_size (region + pagehdrsize) (sub64 mapsize pagehdrsize)
  set_free (region + pagehdrsize)
  write_footer fuel (region + pagehdrsize)

-- `((need + pagesize - 1) / pagesize) * pagesize`
unfoldable pub map_size : ℕ → ℕ
map_size total_size =
    sub64 (add64 (add64 total_size pagehdrsize) mem_pagesize) 1
    / mem_pagesize
    * mem_pagesize
    % 2 ^ 64

module _ (os : Os) where
  -- the pages from `pc` on
  unfoldable pub unmap_full_loop : ℕ → Ptr → Cmd (Unit {0})
  unfolding fills_page
  unmap_full_loop zero pc = λ _. out_of_fuel
  unmap_full_loop (suc fuel) pc = if pc == null then pure tt else do
    next ← get_next pc
    page_size ← get_page_size pc
    full ← fills_page (pc + pagehdrsize) (sub64 page_size pagehdrsize)
    (if full
        then (do
          remove_free_block (pc + pagehdrsize + hdrsize)
          unlink_page pc
          mem_unmap os pc page_size)
        else pure tt)
    unmap_full_loop fuel next

  unfoldable pub check_and_unmap_full_pages : ℕ → Cmd (Unit {0})
  unfolding unmap_full_loop
  check_and_unmap_full_pages fuel = do head ← get_page_head; unmap_full_loop fuel head

  unfoldable pub coalesce : ℕ → Ptr → Cmd (Unit {0})
  coalesce fuel bp = do merge_neighbours fuel bp; check_and_unmap_full_pages fuel

  unfoldable pub mm_malloc : ℕ → ℕ → Cmd Ptr
  mm_malloc fuel size = if size == 0 then pure null else do
    bp ← find_fit fuel (align size)
    if not (bp == null)
        then (do
          remove_free_block bp
          split_block fuel (bp - hdrsize) (align size)
          pure (bp - hdrsize + hdrsize))
        else (do
          region ← mem_map os (map_size (add64 (add64 hdrsize (align size)) fdrsize))
          if region == null then pure null else do
            format_page fuel region (map_size (add64 (add64 hdrsize (align size)) fdrsize))
            split_block fuel (region + pagehdrsize) (align size)
            pure (region + pagehdrsize + hdrsize))

  unfoldable pub mm_free : ℕ → Ptr → Cmd (Unit {0})
  mm_free fuel ptr =
      if ptr == null
      then pure tt
      else do set_free (ptr - hdrsize); write_footer fuel (ptr - hdrsize); coalesce fuel ptr
