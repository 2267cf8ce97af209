-- ===== src/Mm/Blocks.antt =====
-- The blocks of a page in mm.c: footers, neighbours and splitting.
pub mod Elsewhere
pub mod Fields
pub mod Footer
pub mod Split
use uof_ufall.Base.{
  ℕ, ◌+◌, ◌-◌, Bool, true, false, ◌||◌, ◌==◌, if◌then◌else◌, leb, ltb, add64, sub64,
}
use uof_ufall.Machine.{Ptr, null, Cmd, pure, abort, load, store, ◌>>=◌, ◌>>◌}
use uof_ufall.Mm.Layout.{
  hdrsize, fdrsize, pagehdrsize, min_block_size, block_size, set_size, set_alloc, set_free,
  get_page_end,
}
use uof_ufall.Mm.Lists.{find_page_chunk_for_addr, insert_free_block}

-- `p < page_start || p + size > page_end`
abbrev pub outside : Ptr → ℕ → Ptr → Ptr → Bool
outside p size page_start page_end = ltb p page_start || ltb page_end (p + size)

unfoldable pub write_footer : ℕ → Ptr → Cmd (Unit {0})
write_footer fuel h = do
  size ← block_size h
  pc ← find_page_chunk_for_addr fuel h
  (if pc == null then pure tt else do
    page_end ← get_page_end pc
    if outside (h + size - fdrsize) fdrsize (pc + pagehdrsize) page_end then abort else pure tt)
  total ← block_size h
  store (h + size - fdrsize) total

-- the checks on the size that the previous footer holds, and on the header that it leads to
prev_header : Ptr → ℕ → Ptr → Ptr → Ptr
prev_header h prev_size page_start page_end =
    if ltb prev_size (hdrsize + fdrsize) || ltb (page_end - page_start) prev_size
    then null
    else if outside (h - prev_size) hdrsize page_start page_end
    then null
    else h - prev_size

unfoldable pub get_prev_block : ℕ → Ptr → Cmd Ptr
unfolding prev_header
get_prev_block fuel h = do
  pc ← find_page_chunk_for_addr fuel h
  if pc == null then pure null else do
    page_end ← get_page_end pc
    if outside (h - fdrsize) fdrsize (pc + pagehdrsize) page_end then pure null else do
      prev_size ← load (h - fdrsize)
      pure (prev_header h prev_size (pc + pagehdrsize) page_end)

-- the checks on the candidate for the next header
next_header : Ptr → Ptr → Ptr → Ptr
next_header next_h page_start page_end =
    if leb page_end next_h
    then null
    else if outside next_h hdrsize page_start page_end
    then null
    else next_h

unfoldable pub get_next_block : ℕ → Ptr → Cmd Ptr
unfolding next_header
get_next_block fuel h = do
  pc ← find_page_chunk_for_addr fuel h
  if pc == null then pure null else do
    page_end ← get_page_end pc
    size ← block_size h
    if outside (h + size - fdrsize) fdrsize (pc + pagehdrsize) page_end
        then pure null
        else pure (next_header (h + size) (pc + pagehdrsize) page_end)

-- the branch of `split_block` that cuts the block in two
unfoldable pub cut_block : ℕ → Ptr → (alloc_size remaining : ℕ) → Cmd (Unit {0})
cut_block fuel h alloc_size remaining = do
  set_size h alloc_size
  set_alloc h
  write_footer fuel h
  set_size (h + alloc_size) remaining
  set_free (h + alloc_size)
  write_footer fuel (h + alloc_size)
  insert_free_block (h + alloc_size + hdrsize)

unfoldable pub split_block : ℕ → Ptr → ℕ → Cmd (Unit {0})
unfolding cut_block
split_block fuel h asize = do
  size ← block_size h
  if leb (hdrsize + min_block_size + fdrsize) (sub64 size (add64 (add64 hdrsize asize) fdrsize))
      then cut_block fuel h (add64 (add64 hdrsize asize) fdrsize)
          (sub64 size (add64 (add64 hdrsize asize) fdrsize))
      else (do set_alloc h; write_footer fuel h)
